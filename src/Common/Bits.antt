-- ===== src/Common/Bits.antt =====
-- The bit operations that the code uses, as arithmetic: the high bit of a byte, and the lowest bit.
use mathlib.Core.Bool.{Bool, true, ◌&&◌}
use mathlib.Core.Path.{◌≡◌, refl}
use native.Mathlib.Omega.{arith}
use Prim.Native.Nat.{
  ℕ, zero, suc, ◌+◌, ◌*◌, ◌/◌, ◌%◌, ◌≤◌, ◌<◌, max, bit_and, bit_or, digits, bit_or-bitwise,
}
use zapwire.Common.Tests.{◌==◌, ==_iff}

-- Whether a test holds of every number below a bound, by evaluation.
unfoldable pub holds_below : (ℕ → Bool) → ℕ → Bool
holds_below test zero = true
holds_below test (suc bound) = holds_below test bound && test bound

pub holds_below_at :
    (test : ℕ → Bool) (bound v : ℕ) → v < bound → holds_below test bound ≡ true → test v ≡ true
unfolding holds_below
holds_below_at test zero v lt all = absurd (omega arith)
holds_below_at test (suc bound) v lt all = ground (arith, holds_below_at test bound v)

set_high : ℕ → Bool
set_high v = bit_or v 0x80 == v % 128 + 128

set_high_all : holds_below set_high 256 ≡ true
unfolding holds_below set_high
set_high_all = refl

-- `byte(v) | 0x80`
pub bit_or_high : (v : ℕ) → bit_or (v % 256) 0x80 ≡ v % 128 + 128
unfolding set_high
bit_or_high v =
    let byte : bit_or (v % 256) 0x80 ≡ v % 256 % 128 + 128 =
      (==_iff _ _).0 (holds_below_at set_high 256 (v % 256) (omega arith) set_high_all) in
    omega (arith, byte)

clear_high : ℕ → Bool
clear_high v = bit_and v 0x7f == v % 128

clear_high_all : holds_below clear_high 256 ≡ true
unfolding holds_below clear_high
clear_high_all = refl

-- `b & 0x7f`
pub bit_and_low : (b : ℕ) → b < 256 → bit_and b 0x7f ≡ b % 128
unfolding clear_high
bit_and_low b h = (==_iff _ _).0 (holds_below_at clear_high 256 b h clear_high_all)

-- The digits of a number, joined with those of 0, are the number's.
joined_zero : (rounds a : ℕ) → a ≤ rounds → digits (λ rest. rest) max rounds a 0 ≡ a
joined_zero zero zero h = refl
joined_zero zero (suc a) h = absurd (omega arith)
joined_zero (suc rounds) zero h = refl
joined_zero (suc rounds) (suc a) h = omega (arith, joined_zero rounds (suc a / 2) (omega arith))

-- `v | 1`
pub bit_or-one : (v : ℕ) → bit_or v 1 ≡ v / 2 * 2 + 1
bit_or-one zero = refl
bit_or-one (suc v) =
    omega (arith, bit_or-bitwise (suc v) 1, joined_zero v (suc v / 2) (omega arith))
