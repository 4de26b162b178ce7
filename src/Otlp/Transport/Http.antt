-- ===== src/Otlp/Transport/Http.antt =====
-- The POST of otlp/http_transport.go: its body, the request's headers, and what the answer resolves to.
use zapwire.Common.{
  same_bytes, ℕ, zero, suc, ◌*◌, ◌%◌, ◌^◌, ◌==◌, ◌||◌, Bool, true, false, Option, none, some, List,
  [], ◌∷◌, Bytes, length, if◌then◌else◌, Result, ok, err,
}
use zapwire.Common.Int.{ℤ, pos, negsuc, pos_part}
use zapwire.Otlp.Proto.Varint.{to_i64}
use zapwire.Otlp.Proto.Read.{ReadError}
use zapwire.Otlp.Export.{
  ExportError, error_of, Acceptance, Prepared, resolve_accept, classify_accept,
}
use zapwire.Otlp.Transport.{
  Header, no_header, set_header, del_header, set_all, get_header, Response, Exchange, excerpt,
}
use zapwire.Otlp.Transport.Grpc.{caused_by}

-- What the transport uses of Go's library and of otlp/json.go: the instant that `http.ParseTime` reads
-- is given as the time until then, in nanoseconds.
pub record HttpLibrary : Type 0 where
  pub canonical : Bytes → Bytes
  pub atoi : Bytes → Result Bytes ℤ
  pub time_until : Bytes → Option ℤ
  pub media_type : Bytes → Bytes
  pub gzip : Bytes → Option Bytes
  pub transcode : Bytes → Result Bytes Bytes
  pub decode_json : Bytes → Result Bytes (ℤ × Bytes)
  pub read_text : ReadError → Bytes

-- `httpTransport`
pub record HttpTransport : Type 0 where
  pub headers : List (Bytes × Bytes)
  pub gzip_on : Bool
  pub json_on : Bool

unfoldable pub retryable_status : ℕ → Bool
retryable_status code = code == 429 || code == 502 || code == 503 || code == 504

module _ (l : HttpLibrary) where
  -- The gzip half of `prepare`.
  unfoldable pub compress_body : HttpTransport → Bytes → Prepared
  compress_body t msg =
      let plain : Prepared = record { body = msg; compressed = false; warn = none; fail = none } in
      if t.gzip_on
      then elim (l.gzip msg) [
        | some z ↦ record { body = z; compressed = true; warn = none; fail = none }
        | none ↦ record {
          body = msg;
          compressed = false;
          warn = some (
              error_of (
                b'g' ∷ b'z' ∷ b'i' ∷ b'p' ∷ b' ' ∷ b'f' ∷ b'a' ∷ b'i' ∷ b'l' ∷ b'e' ∷ b'd' ∷ b';'
                ∷ b' ' ∷ b's' ∷ b'e' ∷ b'n' ∷ b't' ∷ b' ' ∷ b'u' ∷ b'n' ∷ b'c' ∷ b'o' ∷ b'm' ∷ b'p'
                ∷ b'r' ∷ b'e' ∷ b's' ∷ b's' ∷ b'e' ∷ b'd' ∷ []));
          fail = none;
        }
      ]
      else plain

  -- `prepare`
  unfoldable pub http_prepare : HttpTransport → Bytes → Prepared
  unfolding compress_body
  http_prepare t msg =
      if t.json_on
      then elim (l.transcode msg) [
        | ok j ↦ compress_body t j
        | err e ↦ record {
          body = [];
          compressed = false;
          warn = none;
          fail = some (record (caused_by e) {
            message =
                (b'j' ∷ b's' ∷ b'o' ∷ b'n' ∷ b' ' ∷ b't' ∷ b'r' ∷ b'a' ∷ b'n' ∷ b's' ∷ b'c' ∷ b'o'
                  ∷ b'd' ∷ b'e' ∷ b' ' ∷ b'f' ∷ b'a' ∷ b'i' ∷ b'l' ∷ b'e' ∷ b'd' ∷ b';' ∷ b' '
                  ∷ b'b' ∷ b'a' ∷ b't' ∷ b'c' ∷ b'h' ∷ b' ' ∷ b'd' ∷ b'r' ∷ b'o' ∷ b'p' ∷ b'p'
                  ∷ b'e' ∷ b'd' ∷ []);
          });
        }
      ]
      else compress_body t msg

  -- The headers that an attempt sends.
  unfoldable pub http_request : HttpTransport → Prepared → Header
  unfolding set_all
  http_request t p =
      let ct =
        if t.json_on
        then (b'a' ∷ b'p' ∷ b'p' ∷ b'l' ∷ b'i' ∷ b'c' ∷ b'a' ∷ b't' ∷ b'i' ∷ b'o' ∷ b'n' ∷ b'/'
            ∷ b'j' ∷ b's' ∷ b'o' ∷ b'n' ∷ [])
        else (b'a' ∷ b'p' ∷ b'p' ∷ b'l' ∷ b'i' ∷ b'c' ∷ b'a' ∷ b't' ∷ b'i' ∷ b'o' ∷ b'n' ∷ b'/'
            ∷ b'x' ∷ b'-' ∷ b'p' ∷ b'r' ∷ b'o' ∷ b't' ∷ b'o' ∷ b'b' ∷ b'u' ∷ b'f' ∷ []) in
      let h =
        set_header l.canonical
          (b'C' ∷ b'o' ∷ b'n' ∷ b't' ∷ b'e' ∷ b'n' ∷ b't' ∷ b'-' ∷ b'T' ∷ b'y' ∷ b'p' ∷ b'e' ∷ [])
          ct (set_all l.canonical t.headers no_header) in
      if p.compressed
      then set_header l.canonical
          (b'C' ∷ b'o' ∷ b'n' ∷ b't' ∷ b'e' ∷ b'n' ∷ b't' ∷ b'-' ∷ b'E' ∷ b'n' ∷ b'c' ∷ b'o' ∷ b'd'
            ∷ b'i' ∷ b'n' ∷ b'g' ∷ [])
          (b'g' ∷ b'z' ∷ b'i' ∷ b'p' ∷ []) h
      else del_header l.canonical
          (b'C' ∷ b'o' ∷ b'n' ∷ b't' ∷ b'e' ∷ b'n' ∷ b't' ∷ b'-' ∷ b'E' ∷ b'n' ∷ b'c' ∷ b'o' ∷ b'd'
            ∷ b'i' ∷ b'n' ∷ b'g' ∷ [])
          h

  -- `parseRetryAfter`; the product wraps around as an int64. A delay that is not positive is 0: the
  -- caller only asks whether it is positive.
  unfoldable pub parse_retry_after : Bytes → ℕ
  parse_retry_after h =
      let at = elim (l.time_until h) as (λ _. ℕ) [ none ↦ 0 | some d ↦ pos_part d ] in
      if length h == 0 then 0 else elim (l.atoi h) [
        | err e ↦ at
        | ok (pos zero) ↦ at
        | ok (pos (suc n)) ↦ pos_part (to_i64 (suc n * 1_000_000_000 % 2 ^ 64))
        | ok (negsuc n) ↦ at
      ]

  -- `resolve`
  unfoldable pub resolve : HttpTransport → Bytes → Bytes → Option Acceptance
  unfolding resolve_accept classify_accept
  resolve t resp_body resp_ct =
      let base = record (error_of []) { status_code = 200 } in
      if t.json_on
      then if same_bytes (l.media_type resp_ct) (
          b'a' ∷ b'p' ∷ b'p' ∷ b'l' ∷ b'i' ∷ b'c' ∷ b'a' ∷ b't' ∷ b'i' ∷ b'o' ∷ b'n' ∷ b'/' ∷ b'x'
          ∷ b'-' ∷ b'p' ∷ b'r' ∷ b'o' ∷ b't' ∷ b'o' ∷ b'b' ∷ b'u' ∷ b'f' ∷ [])
        then resolve_accept l.read_text resp_body base
        else classify_accept (l.decode_json resp_body) base
      else resolve_accept l.read_text resp_body base

  -- The switch over the response's status.
  unfoldable pub resolve_response :
      HttpTransport → Response → Result ExportError (Option Acceptance)
  unfolding resolve retryable_status parse_retry_after
  resolve_response t r =
      if r.status_code == 200
      then ok (
          resolve t r.body (
            get_header l.canonical
              (b'C' ∷ b'o' ∷ b'n' ∷ b't' ∷ b'e' ∷ b'n' ∷ b't' ∷ b'-' ∷ b'T' ∷ b'y' ∷ b'p' ∷ b'e'
                ∷ [])
              r.header))
      else if retryable_status r.status_code
      then err (record (error_of (excerpt r.body)) {
        status_code = r.status_code;
        retryable = true;
        retry_after = parse_retry_after (
            get_header l.canonical
              (b'R' ∷ b'e' ∷ b't' ∷ b'r' ∷ b'y' ∷ b'-' ∷ b'A' ∷ b'f' ∷ b't' ∷ b'e' ∷ b'r' ∷ [])
              r.header);
      })
      else err (record (error_of (excerpt r.body)) { status_code = r.status_code })

  -- The rest of `attempt`, once the call is done, and once the request is built. An error of reading
  -- the body is ignored.
  abbrev pub http_done :
      HttpTransport → Result Bytes Response → Result ExportError (Option Acceptance)
  http_done t (err e) = err (caused_by e)
  http_done t (ok r) = resolve_response t r

  abbrev pub http_built :
      HttpTransport → Exchange → Option Bytes → Result ExportError (Option Acceptance)
  http_built t x (some e) = err (caused_by e)
  http_built t x none = http_done t x.answer

  -- `attempt`, by what the world does with its request.
  unfoldable pub http_attempt :
      HttpTransport
      → (Header → Bytes → Exchange)
      → Prepared
      → Result ExportError (Option Acceptance)
  unfolding http_request
  http_attempt t world p = let x = world (http_request t p) p.body in http_built t x x.request_error
