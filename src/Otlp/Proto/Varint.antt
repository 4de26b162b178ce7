-- ===== src/Otlp/Proto/Varint.antt =====
-- The variable-length integers of otlp/proto.go (`appendUvarint`, `uvarintLen`, `appendVarint`), with
-- the functions of Go's `math/bits` and `encoding/binary` that the file uses on them.
pub mod Encode
pub mod RoundTrip
use zapwire.Common.{
  ℕ, suc, ◌+◌, ◌-◌, ◌*◌, ◌/◌, ◌%◌, ◌^◌, ◌<◌, Option, none, some, [], ◌∷◌, ◌++◌, arith, Bytes, ltb,
  ◌==◌, ◌&&◌, if◌then◌else◌, dec_lt,
}
use zapwire.Common.Order.{lt_wf}
use zapwire.Common.Int.{ℤ, pos, negsuc}
use Prim.Native.Nat.{bit_and, bit_or}
use mathlib.Core.Logic.{dite}
use mathlib.Core.WellFounded.{Acc}

abbrev pub IsU64 : ℕ → Type 0
IsU64 v = v < 2 ^ 64

pub seventh_lt : (v : ℕ) → 127 < v → v / 2 ^ 7 < v
seventh_lt v h = omega arith

-- The loop `for v >= 0x80`: `byte(v)` is `v % 256` and `v >>= 7` is `v / 2 ^ 7`.
append_uvarint_loop : Bytes → (v : ℕ) → Acc ◌<◌ v → Bytes
append_uvarint_loop dst v (Acc.intro _ smaller) =
    dite (dec_lt 0x7f v)
      (λ h.
        append_uvarint_loop (dst ++ (bit_or (v % 256) 0x80 ∷ [])) (v / 2 ^ 7)
          (smaller (v / 2 ^ 7) (seventh_lt v h)))
      (λ _. dst ++ (v % 256 ∷ []))

unfoldable pub append_uvarint : Bytes → ℕ → Bytes
unfolding append_uvarint_loop lt_wf dec_lt
append_uvarint dst v = append_uvarint_loop dst v (lt_wf.apply v)

pub half_lt : (v : ℕ) → 0 < v → v / 2 < v
half_lt v h = omega arith

-- `bits.Len64`: the number of binary digits, and 0 for 0.
len64_loop : (v : ℕ) → Acc ◌<◌ v → ℕ
len64_loop v (Acc.intro _ smaller) =
    dite (dec_lt 0 v) (λ h. suc (len64_loop (v / 2) (smaller (v / 2) (half_lt v h)))) (λ _. 0)

unfoldable pub len64 : ℕ → ℕ
unfolding len64_loop lt_wf dec_lt
len64 v = len64_loop v (lt_wf.apply v)

unfoldable pub uvarint_len : ℕ → ℕ
unfolding len64
uvarint_len v = (len64 (bit_or v 1) + 6) / 7

-- `uint64(v)` of an int64.
abbrev pub to_u64 : ℤ → ℕ
to_u64 (pos n) = n % 2 ^ 64
to_u64 (negsuc n) = (2 ^ 64 - (n + 1)) % 2 ^ 64

-- `int64(v)` of a uint64.
abbrev pub to_i64 : ℕ → ℤ
to_i64 v = if ltb v (2 ^ 63) then pos v else negsuc (2 ^ 64 - v - 1)

unfoldable pub append_varint : Bytes → ℤ → Bytes
append_varint dst v = append_uvarint dst (to_u64 v)

-- `binary.Uvarint`: the value and the number of bytes read, or `none` where Go returns a count that
-- is not positive. The groups of seven bits do not overlap, so its `|` is a sum.
unfoldable pub uvarint_loop : Bytes → ℕ → ℕ → Option (ℕ × ℕ)
uvarint_loop [] i x = none
uvarint_loop (b ∷ rest) i x =
    let more = uvarint_loop rest (i + 1) (x + bit_and b 0x7f * 2 ^ (7 * i)) in
    if i == 10
    then none
    else if ltb b 0x80
    then (if i == 9 && ltb 1 b then none else some (x + b * 2 ^ (7 * i), i + 1))
    else more

unfoldable pub uvarint : Bytes → Option (ℕ × ℕ)
unfolding uvarint_loop
uvarint b = uvarint_loop b 0 0
