-- ===== src/Otlp/Proto/Varint/Encode.antt =====
-- What `append_uvarint` writes, and how many bytes that is.
use zapwire.Common.{
  ℕ, suc, ◌+◌, ◌/◌, ◌%◌, ◌^◌, ◌<◌, ◌≡◌, refl, ◌∙◌, ap, [], ◌∷◌, ◌++◌, arith, Bytes, length,
  length-append, append_assoc, All, IsByte, dec_lt, sym, true, ◌==◌, ==_iff,
}
use zapwire.Common.Order.{lt_wf}
use zapwire.Common.Bits.{bit_or_high, bit_or-one, holds_below, holds_below_at}
use zapwire.Otlp.Proto.Varint.{
  append_uvarint_loop, append_uvarint, seventh_lt, half_lt, len64_loop, len64, uvarint_len,
}
use Prim.Native.Nat.{bit_or}
use mathlib.Core.Logic.{dif_pos}
use mathlib.Core.WellFounded.{Acc, induction}
use native.Mathlib.Bridge.{le_prop}

-- The loop's result does not depend on how its argument is shown to be accessible.
loop_irrelevant :
    (dst : Bytes) (v : ℕ) (w w' : Acc ◌<◌ v)
    → append_uvarint_loop dst v w ≡ append_uvarint_loop dst v w'
unfolding append_uvarint_loop
loop_irrelevant dst v (Acc.intro _ s) (Acc.intro _ s') = grind (
  arith,
  λ (h : 127 < v).
      loop_irrelevant (dst ++ (bit_or (v % 256) 0x80 ∷ [])) (v / 2 ^ 7)
        (s (v / 2 ^ 7) (seventh_lt v h)) (s' (v / 2 ^ 7) (seventh_lt v h)),
)

loop_small :
    (dst : Bytes) (v : ℕ) (w : Acc ◌<◌ v) → v < 128 → append_uvarint_loop dst v w ≡ dst ++ (v ∷ [])
unfolding append_uvarint_loop
loop_small dst v (Acc.intro _ s) h = ground arith

loop_big :
    (dst : Bytes) (v : ℕ) (w : Acc ◌<◌ v) (w' : Acc ◌<◌ (v / 128))
    → 127 < v
    → append_uvarint_loop dst v w ≡ append_uvarint_loop (dst ++ ((v % 128 + 128) ∷ [])) (v / 128) w'
unfolding append_uvarint_loop
loop_big dst v (Acc.intro _ s) w' h =
    rw (dif_pos (dec_lt 0x7f v) le_prop h, bit_or_high v)
      (loop_irrelevant (dst ++ ((v % 128 + 128) ∷ [])) (v / 128) (s (v / 2 ^ 7) (seventh_lt v h))
        w')

pub append_uvarint_small : (dst : Bytes) (v : ℕ) → v < 128 → append_uvarint dst v ≡ dst ++ (v ∷ [])
unfolding append_uvarint
append_uvarint_small dst v h = loop_small dst v (lt_wf.apply v) h

pub append_uvarint_big :
    (dst : Bytes) (v : ℕ)
    → 127 < v
    → append_uvarint dst v ≡ append_uvarint (dst ++ ((v % 128 + 128) ∷ [])) (v / 128)
unfolding append_uvarint
append_uvarint_big dst v h = loop_big dst v (lt_wf.apply v) (lt_wf.apply (v / 128)) h

-- `append_uvarint` keeps `dst` and appends what it writes onto an empty slice.
pub append_uvarint_lem : (v : ℕ) (dst : Bytes) → append_uvarint dst v ≡ dst ++ append_uvarint [] v
append_uvarint_lem v =
    induction lt_wf {C = λ v. (dst : Bytes) → append_uvarint dst v ≡ dst ++ append_uvarint [] v} v
      λ v ih dst. elim (dec_lt 127 v) [
        | yes h ↦
            let head : Bytes = (v % 128 + 128) ∷ [] in
            rw
              (
                append_uvarint_big dst v h,
                append_uvarint_big [] v h,
                ih (v / 128) (omega arith) (dst ++ head),
                ih (v / 128) (omega arith) head,
              )
              (append_assoc dst head (append_uvarint [] (v / 128)))
        | no h ↦
            rw (append_uvarint_small dst v (omega arith), append_uvarint_small [] v (omega arith))
      ]

-- The first group of a number that takes several bytes, and the bytes of the rest.
pub append_uvarint_cons :
    (v : ℕ) → 127 < v → append_uvarint [] v ≡ (v % 128 + 128) ∷ append_uvarint [] (v / 128)
append_uvarint_cons v h =
    append_uvarint_big [] v h ∙ append_uvarint_lem (v / 128) ((v % 128 + 128) ∷ [])

-- Every element written is a byte.
pub append_uvarint-IsByte : (v : ℕ) → All IsByte (append_uvarint [] v)
append_uvarint-IsByte v = induction lt_wf {C = λ v. All IsByte (append_uvarint [] v)} v λ v ih.
    elim (dec_lt 127 v) [
      | yes h ↦ rw (append_uvarint_cons v h) (omega arith, ih (v / 128) (omega arith))
      | no h ↦ rw (append_uvarint_small [] v (omega arith)) (omega arith)
    ]

len64_irrelevant : (v : ℕ) (w w' : Acc ◌<◌ v) → len64_loop v w ≡ len64_loop v w'
unfolding len64_loop
len64_irrelevant v (Acc.intro _ s) (Acc.intro _ s') = grind (
  arith,
  λ (h : 0 < v). len64_irrelevant (v / 2) (s (v / 2) (half_lt v h)) (s' (v / 2) (half_lt v h)),
)

len64_loop-suc :
    (v : ℕ) (w : Acc ◌<◌ v) (w' : Acc ◌<◌ (v / 2))
    → 0 < v
    → len64_loop v w ≡ suc (len64_loop (v / 2) w')
unfolding len64_loop
len64_loop-suc v (Acc.intro _ s) w' h =
    rw (dif_pos (dec_lt 0 v) le_prop h)
      (ap suc (len64_irrelevant (v / 2) (s (v / 2) (half_lt v h)) w'))

len64-suc : (v : ℕ) → 0 < v → len64 v ≡ suc (len64 (v / 2))
unfolding len64
len64-suc v h = len64_loop-suc v (lt_wf.apply v) (lt_wf.apply (v / 2)) h

len64-zero : len64 0 ≡ 0
unfolding len64
len64-zero = refl

-- Seven digits more for each factor of 128.
len64_seven : (v : ℕ) → 127 < v → len64 v ≡ 7 + len64 (v / 128)
len64_seven v h = omega (
  arith,
  len64-suc v,
  len64-suc (v / 2),
  len64-suc (v / 2 / 2),
  len64-suc (v / 2 / 2 / 2),
  len64-suc (v / 2 / 2 / 2 / 2),
  len64-suc (v / 2 / 2 / 2 / 2 / 2),
  len64-suc (v / 2 / 2 / 2 / 2 / 2 / 2),
  ap len64 (seven_halves v),
)
  where
    seven_halves : (v : ℕ) → v / 2 / 2 / 2 / 2 / 2 / 2 / 2 ≡ v / 128
    seven_halves v = omega arith

-- `v | 1` has as many digits as `v`.
len64-or : (v : ℕ) → 0 < v → len64 (bit_or v 1) ≡ len64 v
len64-or v h =
    len64-suc (bit_or v 1) (omega (arith, bit_or-one v))
    ∙ ap (λ k. suc (len64 k)) (omega (arith, bit_or-one v))
    ∙ sym (len64-suc v h)

one_byte_table : holds_below (λ v. uvarint_len v == 1) 128 ≡ true
unfolding holds_below uvarint_len
one_byte_table = refl

uvarint_len_small : (v : ℕ) → v < 128 → uvarint_len v ≡ 1
uvarint_len_small v h = (==_iff _ 1).0 (holds_below_at _ 128 v h one_byte_table)

uvarint_len_big : (v : ℕ) → 127 < v → uvarint_len v ≡ suc (uvarint_len (v / 128))
unfolding uvarint_len
uvarint_len_big v h = omega (arith, len64-or v, len64-or (v / 128), len64_seven v)

-- `uvarint_len` is the number of bytes that `append_uvarint` writes.
pub length-append_uvarint : (v : ℕ) → length (append_uvarint [] v) ≡ uvarint_len v
length-append_uvarint v =
    induction lt_wf {C = λ v. length (append_uvarint [] v) ≡ uvarint_len v} v λ v ih.
      elim (dec_lt 127 v) [
        | yes h ↦
            rw (append_uvarint_cons v h, uvarint_len_big v h) (ap suc (ih (v / 128) (omega arith)))
        | no h ↦ rw (append_uvarint_small [] v (omega arith), uvarint_len_small v (omega arith))
      ]

pub length-append_uvarint_onto :
    (dst : Bytes) (v : ℕ) → length (append_uvarint dst v) ≡ length dst + uvarint_len v
length-append_uvarint_onto dst v =
    rw (append_uvarint_lem v dst)
      (omega (arith, length-append dst (append_uvarint [] v), length-append_uvarint v))
