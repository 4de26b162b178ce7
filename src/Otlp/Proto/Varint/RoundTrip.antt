-- ===== src/Otlp/Proto/Varint/RoundTrip.antt =====
-- `binary.Uvarint` reads back what `append_uvarint` wrote.
use zapwire.Common.{
  ℕ, ◌+◌, ◌*◌, ◌/◌, ◌%◌, ◌^◌, ◌<◌, ◌≤◌, ◌≡◌, ◌∙◌, ap, ap₂, some, [], ◌∷◌, ◌++◌, arith, Bytes,
  length, dec_lt, ℕ_discrete,
}
use zapwire.Common.Order.{lt_wf}
use zapwire.Common.Bits.{bit_and_low}
use zapwire.Otlp.Proto.Varint.{IsU64, append_uvarint, uvarint_loop, uvarint}
use zapwire.Otlp.Proto.Varint.Encode.{append_uvarint_small, append_uvarint_cons}
use mathlib.Core.WellFounded.{induction}
use native.Mathlib.Nat.{div-add-mod}
use native.Mathlib.Numerals.{towards_suc}

-- One round on a last byte, and on a byte with the top bit set over the group `g`.
last_byte :
    (b i x : ℕ) (rest : Bytes)
    → b < 128
    → i ≤ 9
    → b * 2 ^ (7 * i) < 2 ^ 64
    → uvarint_loop (b ∷ rest) i x ≡ some (x + b * 2 ^ (7 * i), i + 1)
unfolding uvarint_loop
last_byte b i x rest h hi fits = elim (ℕ_discrete i 9) [
  | yes e ↦ let small : b < 2 = tenth b (rw e at fits) in ground arith
  | no ne ↦ ground arith
]
  where
    tenth : (b : ℕ) → b * 2 ^ (7 * 9) < 2 ^ 64 → b < 2
    tenth b h = omega arith

inner_byte :
    (g i x : ℕ) (rest : Bytes)
    → g < 128
    → i ≤ 9
    → uvarint_loop ((g + 128) ∷ rest) i x ≡ uvarint_loop rest (i + 1) (x + g * 2 ^ (7 * i))
unfolding uvarint_loop
inner_byte g i x rest h hi = ground (arith, bit_and_low (g + 128))

shift_seven : (i : ℕ) → 2 ^ (7 * (i + 1)) ≡ 128 * 2 ^ (7 * i)
shift_seven i = ap (λ k. 2 ^ k) (omega arith) ∙ seven (7 * i)
  where
    seven : (s : ℕ) → 2 ^ (s + 7) ≡ 128 * 2 ^ s
    seven s = simp towards_suc (omega arith)

-- The lowest group of `v` and the rest, both at the weight of group `i`.
split_group : (v i : ℕ) → v * 2 ^ (7 * i) ≡ v % 128 * 2 ^ (7 * i) + v / 128 * 2 ^ (7 * (i + 1))
split_group v i = omega (
  arith,
  ap (λ (t : ℕ). t * 2 ^ (7 * i)) (div-add-mod v 128),
  ap (λ (t : ℕ). v / 128 * t) (shift_seven i),
)

-- A number of several groups does not start in the tenth.
room : (v i : ℕ) → 127 < v → i ≤ 9 → v * 2 ^ (7 * i) < 2 ^ 64 → i ≤ 8
room v i h hi fits = elim (ℕ_discrete i 9) [
  | yes e ↦ absurd (tenth v h (rw e at fits))
  | no ne ↦ omega arith
]
  where
    tenth : (v : ℕ) → 127 < v → v * 2 ^ (7 * 9) < 2 ^ 64 → ⊥
    tenth v h f = omega arith

uvarint_loop-append_uvarint :
    (v i x : ℕ) (rest : Bytes)
    → i ≤ 9
    → v * 2 ^ (7 * i) < 2 ^ 64
    → uvarint_loop (append_uvarint [] v ++ rest) i x
      ≡ some (x + v * 2 ^ (7 * i), i + length (append_uvarint [] v))
uvarint_loop-append_uvarint v =
    induction lt_wf
      {C = λ v.
        (i x : ℕ) (rest : Bytes)
        → i ≤ 9
        → v * 2 ^ (7 * i) < 2 ^ 64
        → uvarint_loop (append_uvarint [] v ++ rest) i x
          ≡ some (x + v * 2 ^ (7 * i), i + length (append_uvarint [] v))}
      v
      λ v ih i x rest hi fits. elim (dec_lt 127 v) [
        | yes h ↦
            let v' : ℕ = v / 128 in
            rw
              (
                append_uvarint_cons v h,
                inner_byte (v % 128) i x (append_uvarint [] v' ++ rest) (omega arith) hi,
                ih v' (omega arith) (i + 1) (x + v % 128 * 2 ^ (7 * i)) rest
                    (omega (arith, room v i h hi fits)) (omega (arith, split_group v i)),
              )
              (ap some (ap₂ (λ (a b : ℕ). (a, b)) (omega (arith, split_group v i)) (omega arith)))
        | no h ↦
            rw (append_uvarint_small [] v (omega arith))
              (last_byte v i x rest (omega arith) hi fits)
      ]

-- `binary.Uvarint` reads back every uint64 that `append_uvarint` wrote, whatever follows it, and
-- reports the number of bytes written.
pub uvarint-append_uvarint :
    (v : ℕ) (rest : Bytes)
    → IsU64 v
    → uvarint (append_uvarint [] v ++ rest) ≡ some (v, length (append_uvarint [] v))
unfolding uvarint
uvarint-append_uvarint v rest h =
    uvarint_loop-append_uvarint v 0 0 rest (omega arith) (omega arith)
    ∙ ap some (ap₂ (λ (a b : ℕ). (a, b)) (omega arith) (omega arith))
