-- ===== src/Otlp/GrpcStatus/Laws.antt =====
-- Laws of otlp/grpc_status.go.
use zapwire.Common.{
  ℕ, ◌+◌, ◌/◌, ◌-◌, ◌%◌, ◌<◌, ◌≡◌, ◌≢◌, ◌⊎◌, ◌↔◌, refl, ◌∙◌, ap, some, [], ◌∷◌, Bool, true, false,
  Bytes, All, IsByte, arith, leb, ltb, ◌==◌, ◌&&◌, if◌then◌else◌, Bool-cases, inl, inr,
}
use zapwire.Otlp.GrpcStatus.{
  retryable_grpc_status, http_status_to_grpc_status, unhex, percent_decode,
}

-- gRPC's encoding of a message: printable bytes but `%` as they are, any other as `%XX`.
abbrev pub hex_digit : ℕ → ℕ
hex_digit n = if ltb n 10 then b'0' + n else b'A' + (n - 10)

abbrev pub plain : ℕ → Bool
plain c = (leb 32 c && leb c 126) && (if c == b'%' then false else true)

pub percent_encode : Bytes → Bytes
percent_encode [] = []
percent_encode (c ∷ s) =
    let rest = percent_encode s in
    if plain c then c ∷ rest else b'%' ∷ hex_digit (c / 16) ∷ hex_digit (c % 16) ∷ rest

unhex-hex_digit : (n : ℕ) → n < 16 → unhex (hex_digit n) ≡ some n
unfolding unhex
unhex-hex_digit n h = ground arith

decode_plain : (c : ℕ) (s : Bytes) → c ≢ b'%' → percent_decode (c ∷ s) ≡ c ∷ percent_decode s
unfolding percent_decode
decode_plain c [] h = refl
decode_plain c (d ∷ []) h = refl
decode_plain c (d ∷ e ∷ s) h = ground arith

decode_escape :
    (b : ℕ) (s : Bytes)
    → b < 256
    → percent_decode (b'%' ∷ hex_digit (b / 16) ∷ hex_digit (b % 16) ∷ s) ≡ b ∷ percent_decode s
unfolding percent_decode
decode_escape b s h =
    rw (unhex-hex_digit (b / 16) (omega arith), unhex-hex_digit (b % 16) (omega arith))
      (ap (λ (n : ℕ). n ∷ percent_decode s) (omega arith))

-- Every message of bytes that a server percent-encodes is decoded to itself.
pub percent_decode-percent_encode :
    (s : Bytes) → All IsByte s → percent_decode (percent_encode s) ≡ s
unfolding percent_encode
percent_decode-percent_encode [] h = unfold percent_decode in refl
percent_decode-percent_encode (c ∷ s) h = elim (Bool-cases (plain c)) [
  | inl e ↦ rw e (
      decode_plain c (percent_encode s) (ground arith)
      ∙ ap (λ (t : Bytes). c ∷ t) (percent_decode-percent_encode s h.1))
  | inr e ↦ rw e (
      decode_escape c (percent_encode s) h.0
      ∙ ap (λ (t : Bytes). c ∷ t) (percent_decode-percent_encode s h.1))
]

-- A message without `%` passes unchanged.
pub percent_decode_plain : (s : Bytes) → All (λ c. c ≢ b'%') s → percent_decode s ≡ s
percent_decode_plain [] h = unfold percent_decode in refl
percent_decode_plain (c ∷ s) h =
    decode_plain c s h.0 ∙ ap (λ (t : Bytes). c ∷ t) (percent_decode_plain s h.1)

-- CANCELLED, DEADLINE_EXCEEDED, ABORTED, OUT_OF_RANGE, UNAVAILABLE and DATA_LOSS, and
-- RESOURCE_EXHAUSTED with a server's delay.
abbrev pub IsRetryClass : ℕ → Bool → Type 0
IsRetryClass code delay =
    (code ≡ 1)
    ⊎ (code ≡ 4)
    ⊎ (code ≡ 10)
    ⊎ (code ≡ 11)
    ⊎ (code ≡ 14)
    ⊎ (code ≡ 15)
    ⊎ ((code ≡ 8) × (delay ≡ true))

-- The HTTP statuses that OTLP/HTTP retries too.
abbrev pub IsUnavailable : ℕ → Type 0
IsUnavailable code = (code ≡ 429) ⊎ (code ≡ 502) ⊎ (code ≡ 503) ⊎ (code ≡ 504)

-- The retryable gRPC statuses are exactly CANCELLED, DEADLINE_EXCEEDED, ABORTED, OUT_OF_RANGE,
-- UNAVAILABLE and DATA_LOSS, and RESOURCE_EXHAUSTED exactly with a server's retry delay. A number, read
-- as the HTTP status of a response without a gRPC status, maps to a retryable one exactly if it is
-- 429, 502, 503 or 504, with a delay or without.
pub retryable_lem :
    (code : ℕ) (delay : Bool)
    → ((retryable_grpc_status code delay ≡ true) ↔ IsRetryClass code delay)
      × ((retryable_grpc_status (http_status_to_grpc_status code) delay ≡ true)
          ↔ IsUnavailable code)
unfolding retryable_grpc_status http_status_to_grpc_status
retryable_lem code delay =
    ((λ h. ground arith, λ h. ground arith), (λ h. ground arith, λ h. ground arith))
