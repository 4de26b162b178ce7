-- ===== src/Common/Digits.antt =====
-- The decimal print of a number that is not negative, as `strconv.AppendInt(dst, n, 10)` appends
-- it, and a reader of a count that ends at a space.
use zapwire.Common.{
  ℕ, ◌+◌, ◌-◌, ◌*◌, ◌/◌, ◌%◌, ◌<◌, ◌≤◌, ◌≡◌, refl, Option, none, some, [], ◌∷◌, ◌++◌, arith, Bytes,
  All, leb, ◌==◌, ◌&&◌, if◌then◌else◌,
}
use zapwire.Common.Order.{lt_wf}
use mathlib.Core.Logic.{dite, dif_pos, dif_neg}
use mathlib.Core.WellFounded.{Acc}
use native.Mathlib.Decide.{dec_lt}
use native.Mathlib.Bridge.{le_prop}

pub tenth_lt : (n : ℕ) → 0 < n / 10 → n / 10 < n
tenth_lt n h = omega arith

-- The digits of `n` in front of `out`; 0 has one digit.
decimal_onto : (n : ℕ) → Bytes → Acc ◌<◌ n → Bytes
decimal_onto n out (Acc.intro _ smaller) =
    let out' : Bytes = (b'0' + n % 10) ∷ out in
    dite (dec_lt 0 (n / 10)) (λ h. decimal_onto (n / 10) out' (smaller (n / 10) (tenth_lt n h)))
      (λ _. out')

unfoldable pub decimal : ℕ → Bytes
unfolding decimal_onto tenth_lt lt_wf dec_lt
decimal n = decimal_onto n [] (lt_wf.apply n)

-- A count of digits up to a space, with what follows the space.
unfoldable pub read_count : ℕ → Bytes → Option (ℕ × Bytes)
read_count n [] = none
read_count n (c ∷ s) =
    let rest = read_count (n * 10 + (c - b'0')) s in
    if c == b' ' then some (n, s) else if leb b'0' c && leb c b'9' then rest else none

read_digit :
    (n d : ℕ) (s : Bytes) → d < 10 → read_count n ((b'0' + d) ∷ s) ≡ read_count (n * 10 + d) s
unfolding read_count
read_digit n d s h = ground arith

decimal_onto-append :
    (n : ℕ) (out rest : Bytes) (w : Acc ◌<◌ n)
    → decimal_onto n out w ++ rest ≡ decimal_onto n (out ++ rest) w
unfolding decimal_onto
decimal_onto-append n out rest (Acc.intro _ smaller) =
    let out' : Bytes = (b'0' + n % 10) ∷ out in
    grind (
      arith,
      λ (h : 0 < n / 10). decimal_onto-append (n / 10) out' rest (smaller (n / 10) (tenth_lt n h)),
    )

read_count-decimal_onto :
    (n : ℕ) (out : Bytes) (w : Acc ◌<◌ n) → read_count 0 (decimal_onto n out w) ≡ read_count n out
unfolding decimal_onto
read_count-decimal_onto n out (Acc.intro _ smaller) =
    let out' : Bytes = (b'0' + n % 10) ∷ out in
    grind (
      arith,
      λ (h : 0 < n / 10). read_count-decimal_onto (n / 10) out' (smaller (n / 10) (tenth_lt n h)),
      read_digit (n / 10) (n % 10) out,
      read_digit 0 (n % 10) out,
    )

-- A printed count is read back, with what follows its space.
pub read_count-decimal :
    (n : ℕ) (rest : Bytes) → read_count 0 (decimal n ++ (b' ' ∷ rest)) ≡ some (n, rest)
unfolding decimal
read_count-decimal n rest =
    rw
      (
        decimal_onto-append n [] (b' ' ∷ rest) (lt_wf.apply n),
        read_count-decimal_onto n (b' ' ∷ rest) (lt_wf.apply n),
      )
      (unfold read_count in ground arith)

decimal_test : decimal 1203 ≡ b'1' ∷ b'2' ∷ b'0' ∷ b'3' ∷ []
unfolding decimal
decimal_test = refl

abbrev pub IsDigit : ℕ → Type 0
IsDigit c = (b'0' ≤ c) × (c ≤ b'9')

decimal_onto-IsDigit :
    (n : ℕ) (out : Bytes) (w : Acc ◌<◌ n) → All IsDigit out → All IsDigit (decimal_onto n out w)
unfolding decimal_onto
decimal_onto-IsDigit n out (Acc.intro _ smaller) h = elim (dec_lt 0 (n / 10)) [
  | yes more ↦ rw (dif_pos (dec_lt 0 (n / 10)) le_prop more) (
      decimal_onto-IsDigit (n / 10) ((b'0' + n % 10) ∷ out) (smaller (n / 10) (tenth_lt n more))
        (omega arith, h))
  | no last ↦ rw (dif_neg (dec_lt 0 (n / 10)) last) (omega arith, h)
]

-- A decimal print holds digits only.
pub decimal-IsDigit : (n : ℕ) → All IsDigit (decimal n)
unfolding decimal
decimal-IsDigit n = decimal_onto-IsDigit n [] (lt_wf.apply n) tt
