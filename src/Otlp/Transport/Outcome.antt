-- ===== src/Otlp/Transport/Outcome.antt =====
-- What the attempts of otlp/grpc_transport.go and otlp/http_transport.go report, by what the
-- world does with the request.
use zapwire.Common.{
  ℕ, suc, ◌≢◌, ◌≡◌, ◌↔◌, refl, sym, ◌∙◌, inl, inr, Bool, true, false, Bool-cases, arith, [], ◌∷◌,
  ◌<◌, ◌⊎◌, Option, none, some, Bytes, length, ◌==◌, ==_iff, if◌then◌else◌, Result, ok, err,
}
use zapwire.Common.Int.{pos, negsuc}
use zapwire.Otlp.GrpcStatus.{retry_delay_from_status}
use zapwire.Otlp.GrpcStatus.Laws.{IsUnavailable}
use zapwire.Otlp.Export.{ExportError, Acceptance, Prepared}
use zapwire.Otlp.Transport.{Header, get_header, Response, Exchange}
use zapwire.Otlp.Transport.Grpc.{Library}
use zapwire.Otlp.Transport.Http.{
  HttpLibrary, HttpTransport, retryable_status, resolve_response, http_done, http_built,
  http_request, http_attempt,
}

-- What becomes of an attempt: the server has the batch, or it has not, and whether another attempt may
-- be made.
pub data Outcome : Type 0 where
  delivered : Outcome
  refused : Bool → Outcome

abbrev pub outcome : Result ExportError (Option Acceptance) → Outcome
outcome (ok a) = delivered
outcome (err e) = refused e.retryable

-- The world answered with `r`, and its body was read.
abbrev pub IsRead : Exchange → Response → Type 0
IsRead x r = (x.request_error ≡ none) × (x.answer ≡ ok r) × (r.read_error ≡ none)

abbrev pub grpc_status_key : Bytes
grpc_status_key = b'G' ∷ b'r' ∷ b'p' ∷ b'c' ∷ b'-' ∷ b'S' ∷ b't' ∷ b'a' ∷ b't' ∷ b'u' ∷ b's' ∷ []

abbrev pub status_details_key : Bytes
status_details_key =
    b'G' ∷ b'r' ∷ b'p' ∷ b'c' ∷ b'-' ∷ b'S' ∷ b't' ∷ b'a' ∷ b't' ∷ b'u' ∷ b's' ∷ b'-' ∷ b'D' ∷ b'e'
    ∷ b't' ∷ b'a' ∷ b'i' ∷ b'l' ∷ b's' ∷ b'-' ∷ b'B' ∷ b'i' ∷ b'n' ∷ []

-- No status: neither the trailer nor the header has one.
abbrev pub IsBare : Library → Response → Type 0
IsBare l r =
    (get_header l.canonical grpc_status_key r.trailer ≡ [])
    × (get_header l.canonical grpc_status_key r.header ≡ [])

-- The text of the status, and the headers in which it came: the trailer's, or the response's own where
-- the trailer has none.
pub data Carries (l : Library) (r : Response) : Header → Bytes → Type 0 where
  in_trailer :
      (s : Bytes)
      → get_header l.canonical grpc_status_key r.trailer ≡ s
      → 0 < length s
      → Carries l r r.trailer s
  in_header :
      (s : Bytes)
      → get_header l.canonical grpc_status_key r.trailer ≡ []
      → get_header l.canonical grpc_status_key r.header ≡ s
      → 0 < length s
      → Carries l r r.header s

-- The bytes of a binary header, without padding or with it.
pub data Decodes (l : Library) (s : Bytes) : Bytes → Type 0 where
  unpadded : (raw : Bytes) → l.raw_base64 s ≡ some raw → Decodes l s raw
  padded : (raw : Bytes) → l.raw_base64 s ≡ none → l.base64 s ≡ some raw → Decodes l s raw

-- The details of a status hold a retry delay.
pub record HasDelay (l : Library) (meta : Header) : Type 0 where
  pub raw : Bytes
  pub delay : ℕ
  pub present : 0 < length (get_header l.canonical status_details_key meta)
  pub decodes : Decodes l (get_header l.canonical status_details_key meta) raw
  pub found : retry_delay_from_status raw ≡ some delay

-- The statuses that OTLP/gRPC lets a client try again: CANCELLED, DEADLINE_EXCEEDED, ABORTED,
-- OUT_OF_RANGE, UNAVAILABLE and DATA_LOSS; and RESOURCE_EXHAUSTED (8) where the server says when.
abbrev pub MayRetry : Library → Header → ℕ → Type 0
MayRetry l meta code =
    (code ≡ 1)
    ⊎ (code ≡ 4)
    ⊎ (code ≡ 10)
    ⊎ (code ≡ 11)
    ⊎ (code ≡ 14)
    ⊎ (code ≡ 15)
    ⊎ ((code ≡ 8) × HasDelay l meta)

-- What becomes of an attempt over gRPC: connection failures and the statuses of the retry class may be
-- tried again, and a response that is no gRPC response, by its HTTP status.
pub data GrpcReports (l : Library) (x : Exchange) : Outcome → Type 0 where
  unsent : (e : Bytes) → x.request_error ≡ some e → GrpcReports l x (refused false)
  unanswered :
      (e : Bytes) → x.request_error ≡ none → x.answer ≡ err e → GrpcReports l x (refused true)
  broken_off :
      (r : Response) (e : Bytes)
      → x.request_error ≡ none
      → x.answer ≡ ok r
      → r.read_error ≡ some e
      → GrpcReports l x (refused true)
  foreign :
      (r : Response) (retry : Bool)
      → IsRead x r
      → IsBare l r
      → ((retry ≡ true) ↔ IsUnavailable r.status_code)
      → GrpcReports l x (refused retry)
  malformed :
      (r : Response) (meta : Header) (s e : Bytes)
      → IsRead x r
      → Carries l r meta s
      → l.atoi s ≡ err e
      → GrpcReports l x (refused false)
  status_ok :
      (r : Response) (meta : Header) (s : Bytes)
      → IsRead x r
      → Carries l r meta s
      → l.atoi s ≡ ok (pos 0)
      → GrpcReports l x delivered
  failed :
      (r : Response) (meta : Header) (s : Bytes) (n : ℕ) (retry : Bool)
      → IsRead x r
      → Carries l r meta s
      → l.atoi s ≡ ok (pos (suc n))
      → ((retry ≡ true) ↔ MayRetry l meta (suc n))
      → GrpcReports l x (refused retry)
  negative :
      (r : Response) (meta : Header) (s : Bytes) (n : ℕ)
      → IsRead x r
      → Carries l r meta s
      → l.atoi s ≡ ok (negsuc n)
      → GrpcReports l x (refused false)

-- What becomes of an attempt over HTTP: the statuses 429, 502, 503 and 504 may be tried again. A failed
-- connection is not, which is the code's choice: OTLP/HTTP would have it tried again.
pub data HttpReports (x : Exchange) : Outcome → Type 0 where
  unsent : (e : Bytes) → x.request_error ≡ some e → HttpReports x (refused false)
  unanswered :
      (e : Bytes) → x.request_error ≡ none → x.answer ≡ err e → HttpReports x (refused false)
  status_ok :
      (r : Response)
      → x.request_error ≡ none
      → x.answer ≡ ok r
      → r.status_code ≡ 200
      → HttpReports x delivered
  failed :
      (r : Response) (retry : Bool)
      → x.request_error ≡ none
      → x.answer ≡ ok r
      → r.status_code ≢ 200
      → ((retry ≡ true) ↔ IsUnavailable r.status_code)
      → HttpReports x (refused retry)

retryable_status_lem : (code : ℕ) → (retryable_status code ≡ true) ↔ IsUnavailable code
unfolding retryable_status
retryable_status_lem code = (λ h. ground arith, λ h. ground arith)

-- Every attempt of the HTTP transport reports the batch as delivered, exactly for status 200, or as
-- refused: a response with another status may be tried again exactly if that is 429, 502, 503 or 504, and
-- neither a request that cannot be built nor a connection that fails is.
pub http_attempt-HttpReports :
    (l : HttpLibrary) (t : HttpTransport) (world : Header → Bytes → Exchange) (p : Prepared)
    → HttpReports (world (http_request l t p) p.body) (outcome (http_attempt l t world p))
unfolding http_attempt resolve_response
http_attempt-HttpReports l t world p =
    built (world (http_request l t p) p.body) (world (http_request l t p) p.body).request_error refl
  where
    refusal :
        (x : Exchange) (r : Response) (y z : ExportError)
        → x.request_error ≡ none
        → x.answer ≡ ok r
        → r.status_code ≢ 200
        → y.retryable ≡ true
        → z.retryable ≡ false
        → HttpReports x (outcome (if retryable_status r.status_code then err y else err z))
    refusal x r y z q a ne hy hz =
        let iff = retryable_status_lem r.status_code in
        elim (Bool-cases (retryable_status r.status_code)) [
          | inl t ↦ rw (t, hy) (failed r true q a ne (λ _. iff.0 t, λ _. refl))
          | inr f ↦ rw (f, hz) (failed r false q a ne (λ h. iff.0 (f ∙ h), λ u. sym f ∙ iff.1 u))
        ]

    read :
        (x : Exchange) (r : Response)
        → x.request_error ≡ none
        → x.answer ≡ ok r
        → HttpReports x (outcome (resolve_response l t r))
    read x r q a = elim (Bool-cases (r.status_code == 200)) [
      | inl success ↦ rw success (status_ok r q a ((==_iff r.status_code 200).0 success))
      | inr failure ↦ rw failure (refusal x r _ _ q a (λ e. ground (arith, failure, e)) refl refl)
    ]

    done :
        (x : Exchange)
        → x.request_error ≡ none
        → (a : Result Bytes Response) → x.answer ≡ a
        → HttpReports x (outcome (http_done l t a))
    done x q (err e) h = unanswered e q h
    done x q (ok r) h = read x r q h

    built :
        (x : Exchange) (q : Option Bytes)
        → x.request_error ≡ q
        → HttpReports x (outcome (http_built l t x q))
    built x (some e) h = unsent e h
    built x none h = done x h x.answer refl
