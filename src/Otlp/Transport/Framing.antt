-- ===== src/Otlp/Transport/Framing.antt =====
-- The frames of otlp/grpc_transport.go, written and read back.
use zapwire.Common.{
  same_bytes, ℕ, zero, suc, ◌+◌, ◌-◌, ◌*◌, ◌/◌, ◌%◌, ◌^◌, ◌<◌, ◌≡◌, refl, ap, ◌∙◌, Bool, true,
  false, arith, Option, none, some, [], ◌∷◌, ◌++◌, Bytes, length, length-append, length-take, take,
  ltb, ◌==◌, if◌then◌else◌, Result, ok, err,
}
use zapwire.Fluent.EventTime.{big_endian32}
use zapwire.Otlp.Transport.Frame.{
  grpc_frame, grpc_prepare, gzip_frame, truncated_response, trailing, unknown_encoding, gunzipped,
  unframed, deframe_grpc_response,
}

-- The length in a frame's prefix.
prefix_len :
    (n : ℕ)
    → n < 2 ^ 32
    → n % 2 ^ 32 / 2 ^ 24 % 256 * 2 ^ 24
        + n % 2 ^ 32 / 2 ^ 16 % 256 * 2 ^ 16
        + n % 2 ^ 32 / 2 ^ 8 % 256 * 2 ^ 8
        + n % 2 ^ 32 % 256
      ≡ n
prefix_len n h = omega arith

-- A prefix that promises `n` bytes.
deframe_prefix :
    (gunzip : Bytes → Result Bytes Bytes) (flag n : ℕ) (body encoding : Bytes)
    → n < 2 ^ 32
    → deframe_grpc_response gunzip (flag ∷ big_endian32 (n % 2 ^ 32) ++ body) encoding
      ≡ unframed gunzip flag n body encoding
unfolding deframe_grpc_response
deframe_prefix gunzip flag n body encoding h =
    ap (λ mlen. unframed gunzip flag mlen body encoding) (prefix_len n h)

whole :
    (gunzip : Bytes → Result Bytes Bytes) (flag : ℕ) (msg encoding : Bytes)
    → unframed gunzip flag (length msg) msg encoding ≡ (
        if flag % 2 == 0
        then ok (some msg)
        else if same_bytes encoding (b'g' ∷ b'z' ∷ b'i' ∷ b'p' ∷ [])
        then gunzipped (gunzip msg)
        else err (unknown_encoding encoding))
whole gunzip flag msg encoding =
    let a : ltb (length msg) (length msg) ≡ false = ground arith in
    let b : ltb 0 (length msg - length msg) ≡ false = ground arith in rw (a, b) refl

-- A message that the transport prepares, with a gzip that is undone by the reader's, is read back whole
-- from its frame.
pub deframe_grpc_response-grpc_prepare :
    (gzip : Bytes → Option Bytes) (gunzip : Bytes → Result Bytes Bytes) (gzip_on : Bool)
    (msg : Bytes)
    → ((z : Bytes) → gzip msg ≡ some z → (gunzip z ≡ ok msg) × (length z < 2 ^ 32))
    → length msg < 2 ^ 32
    → (let p = grpc_prepare gzip gzip_on msg in
        deframe_grpc_response gunzip p.body
          (if p.compressed then (b'g' ∷ b'z' ∷ b'i' ∷ b'p' ∷ []) else [])
        ≡ ok (some msg))
unfolding grpc_prepare grpc_frame
deframe_grpc_response-grpc_prepare gzip gunzip false msg back h =
    deframe_prefix gunzip 0 (length msg) msg [] h ∙ whole gunzip 0 msg []
deframe_grpc_response-grpc_prepare gzip gunzip true msg back h = go (gzip msg) refl
  where
    go :
        (z : Option Bytes)
        → gzip msg ≡ z
        → deframe_grpc_response gunzip
            (gzip_frame z msg).body
            (if (gzip_frame z msg).compressed then (b'g' ∷ b'z' ∷ b'i' ∷ b'p' ∷ []) else [])
          ≡ ok (some msg)
    go none e = deframe_prefix gunzip 0 (length msg) msg [] h ∙ whole gunzip 0 msg []
    go (some z) e =
        deframe_prefix gunzip 1 (length z) z (b'g' ∷ b'z' ∷ b'i' ∷ b'p' ∷ []) (back z e).1
        ∙ whole gunzip 1 z (b'g' ∷ b'z' ∷ b'i' ∷ b'p' ∷ [])
        ∙ ap gunzipped (back z e).0

-- A frame with bytes behind it is refused with their number, and a frame that was cut short behind its
-- first byte as truncated.
pub deframe_grpc_response-grpc_frame :
    (gunzip : Bytes → Result Bytes Bytes) (msg encoding : Bytes) (compressed : Bool)
    → length msg < 2 ^ 32
    → ((c : ℕ) (rest : Bytes)
        → deframe_grpc_response gunzip (grpc_frame msg compressed ++ (c ∷ rest)) encoding
          ≡ err (trailing (suc (length rest))))
      × ((k : ℕ)
          → 0 < k
          → k < length (grpc_frame msg compressed)
          → deframe_grpc_response gunzip (take k (grpc_frame msg compressed)) encoding
            ≡ err truncated_response)
unfolding grpc_frame deframe_grpc_response
deframe_grpc_response-grpc_frame gunzip msg encoding compressed h = (
  λ c rest. deframe_prefix gunzip _ (length msg) (msg ++ (c ∷ rest)) encoding h ∙ longer c rest,
  cut,
)
  where
    longer :
        (c : ℕ) (rest : Bytes)
        → unframed gunzip (if compressed then 1 else 0) (length msg) (msg ++ (c ∷ rest)) encoding
          ≡ err (trailing (suc (length rest)))
    longer c rest =
        let l = length-append msg (c ∷ rest) in
        let a : ltb (length (msg ++ (c ∷ rest))) (length msg) ≡ false = ground (arith, l) in
        let b : ltb 0 (length (msg ++ (c ∷ rest)) - length msg) ≡ true = ground (arith, l) in
        let d : length (msg ++ (c ∷ rest)) - length msg ≡ suc (length rest) = omega (arith, l) in
        rw (a, b, d) refl

    cut :
        (k : ℕ)
        → 0 < k
        → k < length (grpc_frame msg compressed)
        → deframe_grpc_response gunzip (take k (grpc_frame msg compressed)) encoding
          ≡ err truncated_response
    cut zero lo hi = absurd (omega arith)
    cut (suc zero) lo hi = refl
    cut (suc (suc zero)) lo hi = refl
    cut (suc (suc (suc zero))) lo hi = refl
    cut (suc (suc (suc (suc zero)))) lo hi = refl
    cut (suc (suc (suc (suc (suc j))))) lo hi =
        let l = length-take j msg in
        let short : ltb (length (take j msg)) (length msg) ≡ true = ground (arith, l) in
        deframe_prefix gunzip _ (length msg) (take j msg) encoding h ∙ rw short refl
