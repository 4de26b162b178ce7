-- ===== src/Fluent/EventTime.antt =====
-- The EventTime extension of fluent/proto.go. A time is its Unix seconds, which may be negative, and
-- its nanoseconds.
use zapwire.Common.{
  ℕ, ◌+◌, ◌-◌, ◌*◌, ◌/◌, ◌%◌, ◌^◌, ◌<◌, ◌≡◌, ◌∙◌, ap, ap₂, [], ◌∷◌, arith, Bytes, Option, none,
  some,
}
use zapwire.Common.Int.{ℤ, pos, negsuc}

pub record Time : Type 0 where
  pub seconds : ℤ
  pub nanos : ℕ

-- `uint32(utc.Unix())`
unfoldable pub to_u32 : ℤ → ℕ
to_u32 (pos n) = n % 2 ^ 32
to_u32 (negsuc n) = 2 ^ 32 - 1 - n % 2 ^ 32

-- `byte(v>>24), byte(v>>16), byte(v>>8), byte(v)`
abbrev pub big_endian32 : ℕ → Bytes
big_endian32 v = v / 2 ^ 24 % 256 ∷ v / 2 ^ 16 % 256 ∷ v / 2 ^ 8 % 256 ∷ v % 256 ∷ []

unfoldable pub marshal_binary_to : Time → Bytes
marshal_binary_to t =
    let sec = to_u32 t.seconds in
    let nsec = t.nanos in
    sec / 2 ^ 24 % 256
    ∷ sec / 2 ^ 16 % 256
    ∷ sec / 2 ^ 8 % 256
    ∷ sec % 256
    ∷ nsec / 2 ^ 24 % 256
    ∷ nsec / 2 ^ 16 % 256
    ∷ nsec / 2 ^ 8 % 256
    ∷ nsec % 256
    ∷ []

-- `time.Unix(sec, nsec)` carries whole seconds of `nsec` over.
abbrev pub unix : ℕ → ℕ → Time
unix sec nsec = record { seconds = pos (sec + nsec / 1_000_000_000); nanos = nsec % 1_000_000_000 }

-- `UnmarshalBinary`; `none` is the error of a length other than 8.
unfoldable pub unmarshal_binary : Bytes → Option Time
unmarshal_binary (a ∷ b ∷ c ∷ d ∷ e ∷ f ∷ g ∷ h ∷ []) =
    some (unix (a * 2 ^ 24 + b * 2 ^ 16 + c * 2 ^ 8 + d) (e * 2 ^ 24 + f * 2 ^ 16 + g * 2 ^ 8 + h))
unmarshal_binary _ = none

-- Go keeps the nanoseconds of a time below a second.
abbrev pub IsTime : Time → Type 0
IsTime t = t.nanos < 1_000_000_000

-- A time whose nanoseconds are below a second is read back from its EventTime with its nanoseconds,
-- and with its seconds modulo 2 ^ 32.
pub unmarshal_binary-marshal_binary_to :
    (t : Time)
    → IsTime t
    → unmarshal_binary (marshal_binary_to t)
      ≡ some (record { seconds = pos (to_u32 t.seconds); nanos = t.nanos })
unfolding unmarshal_binary marshal_binary_to
unmarshal_binary-marshal_binary_to t h =
    ap some (time_path (to_u32 t.seconds) t.nanos (to_u32_bound t.seconds) h)
  where
    time_path :
        (s n : ℕ)
        → s < 2 ^ 32
        → n < 1_000_000_000
        → unix
            (s / 2 ^ 24 % 256 * 2 ^ 24
              + s / 2 ^ 16 % 256 * 2 ^ 16
              + s / 2 ^ 8 % 256 * 2 ^ 8
              + s % 256)
            (n / 2 ^ 24 % 256 * 2 ^ 24
              + n / 2 ^ 16 % 256 * 2 ^ 16
              + n / 2 ^ 8 % 256 * 2 ^ 8
              + n % 256)
          ≡ record { seconds = pos s; nanos = n }
    time_path s n hs hn =
        let sec : s / 2 ^ 24 % 256 * 2 ^ 24
              + s / 2 ^ 16 % 256 * 2 ^ 16
              + s / 2 ^ 8 % 256 * 2 ^ 8
              + s % 256
            ≡ s =
          omega arith in
        let nan : n / 2 ^ 24 % 256 * 2 ^ 24
              + n / 2 ^ 16 % 256 * 2 ^ 16
              + n / 2 ^ 8 % 256 * 2 ^ 8
              + n % 256
            ≡ n =
          omega arith in
        ap₂ unix sec nan ∙ whole s n hn
      where
        whole : (s n : ℕ) → n < 1_000_000_000 → unix s n ≡ record { seconds = pos s; nanos = n }
        whole s n h =
            let carry : s + n / 1_000_000_000 ≡ s = omega arith in
            let rest : n % 1_000_000_000 ≡ n = omega arith in rw (carry, rest)

    to_u32_bound : (z : ℤ) → to_u32 z < 2 ^ 32
    to_u32_bound (pos n) = unfold to_u32 in omega arith
    to_u32_bound (negsuc n) = unfold to_u32 in omega arith
