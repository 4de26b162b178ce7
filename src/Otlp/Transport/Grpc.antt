-- ===== src/Otlp/Transport/Grpc.antt =====
-- The unary call of otlp/grpc_transport.go: the request's headers, and what the answer resolves to.
use zapwire.Common.{
  ℕ, zero, suc, ◌==◌, Bool, true, false, Option, none, some, List, [], ◌∷◌, ◌++◌, Bytes, length,
  if◌then◌else◌, Result, ok, err,
}
use zapwire.Common.Int.{ℤ, pos, negsuc}
use zapwire.Otlp.Proto.Read.{ReadError}
use zapwire.Otlp.GrpcStatus.{
  Delay, retryable_grpc_status, http_status_to_grpc_status, percent_decode, retry_delay_from_status,
}
use zapwire.Otlp.Export.{ExportError, error_of, Acceptance, Prepared, resolve_accept}
use zapwire.Otlp.Transport.{
  Header, no_header, set_header, set_all, get_header, Response, Exchange, excerpt,
}
use zapwire.Otlp.Transport.Frame.{DeframeError, deframe_grpc_response}

-- What the call uses of Go's library, and the texts of the errors that it wraps.
pub record Library : Type 0 where
  pub canonical : Bytes → Bytes
  pub atoi : Bytes → Result Bytes ℤ
  pub raw_base64 : Bytes → Option Bytes
  pub base64 : Bytes → Option Bytes
  pub gunzip : Bytes → Result Bytes Bytes
  pub read_text : ReadError → Bytes
  pub deframe_text : DeframeError → Bytes

-- `grpcTransport`, as far as an attempt reads it.
pub record GrpcTransport : Type 0 where
  pub headers : List (Bytes × Bytes)
  pub timeout_hdr : Bytes
  pub user_agent : Bytes

-- `ExportError{Err: e}`
abbrev pub caused_by : Bytes → ExportError
caused_by e = record (error_of []) { cause = some e }

-- `transportError`
unfoldable pub transport_error : Bool → Bytes → ExportError
transport_error expired e = record (caused_by e) {
  grpc_status = pos (if expired then 4 else 14);
  retryable = true;
}

-- `retryableGRPCStatus` of a Go int.
abbrev pub retryable_code : ℤ → Bool → Bool
retryable_code (pos code) has_delay = retryable_grpc_status code has_delay
retryable_code (negsuc n) has_delay = false

module _ (l : Library) where
  -- `decodeBinHeader`
  unfoldable pub decode_bin_header : Bytes → Option Bytes
  decode_bin_header s = elim (l.raw_base64 s) [ some b ↦ some b | none ↦ l.base64 s ]

  -- The headers that an attempt sends.
  unfoldable pub grpc_request : GrpcTransport → Prepared → Header
  unfolding set_all
  grpc_request t p =
      let h =
        set_header l.canonical
          (b'C' ∷ b'o' ∷ b'n' ∷ b't' ∷ b'e' ∷ b'n' ∷ b't' ∷ b'-' ∷ b'T' ∷ b'y' ∷ b'p' ∷ b'e' ∷ [])
          (b'a' ∷ b'p' ∷ b'p' ∷ b'l' ∷ b'i' ∷ b'c' ∷ b'a' ∷ b't' ∷ b'i' ∷ b'o' ∷ b'n' ∷ b'/' ∷ b'g'
            ∷ b'r' ∷ b'p' ∷ b'c' ∷ [])
          no_header in
      let h =
        set_header l.canonical (b'T' ∷ b'E' ∷ [])
          (b't' ∷ b'r' ∷ b'a' ∷ b'i' ∷ b'l' ∷ b'e' ∷ b'r' ∷ b's' ∷ []) h in
      let h =
        set_header l.canonical
          (b'G' ∷ b'r' ∷ b'p' ∷ b'c' ∷ b'-' ∷ b'A' ∷ b'c' ∷ b'c' ∷ b'e' ∷ b'p' ∷ b't' ∷ b'-' ∷ b'E'
            ∷ b'n' ∷ b'c' ∷ b'o' ∷ b'd' ∷ b'i' ∷ b'n' ∷ b'g' ∷ [])
          (b'i' ∷ b'd' ∷ b'e' ∷ b'n' ∷ b't' ∷ b'i' ∷ b't' ∷ b'y' ∷ b',' ∷ b'g' ∷ b'z' ∷ b'i' ∷ b'p'
            ∷ [])
          h in
      let h =
        set_header l.canonical
          (b'U' ∷ b's' ∷ b'e' ∷ b'r' ∷ b'-' ∷ b'A' ∷ b'g' ∷ b'e' ∷ b'n' ∷ b't' ∷ []) t.user_agent
          h in
      let h =
        if length t.timeout_hdr == 0
        then h
        else set_header l.canonical
            (b'G' ∷ b'r' ∷ b'p' ∷ b'c' ∷ b'-' ∷ b'T' ∷ b'i' ∷ b'm' ∷ b'e' ∷ b'o' ∷ b'u' ∷ b't' ∷ [])
            t.timeout_hdr h in
      let h =
        if p.compressed
        then set_header l.canonical
            (b'G' ∷ b'r' ∷ b'p' ∷ b'c' ∷ b'-' ∷ b'E' ∷ b'n' ∷ b'c' ∷ b'o' ∷ b'd' ∷ b'i' ∷ b'n'
              ∷ b'g' ∷ [])
            (b'g' ∷ b'z' ∷ b'i' ∷ b'p' ∷ []) h
        else h in
      set_all l.canonical t.headers h

  -- The headers that carry the status: the trailer, or else the response's own.
  unfoldable pub metadata : Response → Header
  metadata r =
      if length (
          get_header l.canonical
            (b'G' ∷ b'r' ∷ b'p' ∷ b'c' ∷ b'-' ∷ b'S' ∷ b't' ∷ b'a' ∷ b't' ∷ b'u' ∷ b's' ∷ [])
            r.trailer)
        == 0
      then r.header
      else r.trailer

  unfoldable pub status_str : Response → Bytes
  unfolding metadata
  status_str r =
      get_header l.canonical
        (b'G' ∷ b'r' ∷ b'p' ∷ b'c' ∷ b'-' ∷ b'S' ∷ b't' ∷ b'a' ∷ b't' ∷ b'u' ∷ b's' ∷ [])
        (metadata r)

  -- The server's retry delay, from `Grpc-Status-Details-Bin`.
  unfoldable pub retry_info : Header → Delay
  unfolding decode_bin_header
  retry_info meta =
      let det =
        get_header l.canonical
          (b'G' ∷ b'r' ∷ b'p' ∷ b'c' ∷ b'-' ∷ b'S' ∷ b't' ∷ b'a' ∷ b't' ∷ b'u' ∷ b's' ∷ b'-' ∷ b'D'
            ∷ b'e' ∷ b't' ∷ b'a' ∷ b'i' ∷ b'l' ∷ b's' ∷ b'-' ∷ b'B' ∷ b'i' ∷ b'n' ∷ [])
          meta in
      if length det == 0
      then none
      else elim (decode_bin_header det) [ none ↦ none | some raw ↦ retry_delay_from_status raw ]

  abbrev pub has_delay : Delay → Bool
  has_delay none = false
  has_delay (some d) = true

  abbrev delay_of : Delay → ℕ
  delay_of none = 0
  delay_of (some d) = d

  -- The error of a status other than OK.
  unfoldable pub failed_status : ℤ → Header → ExportError
  unfolding retry_info
  failed_status code meta =
      let d = retry_info meta in
      record (error_of (
        percent_decode (
          get_header l.canonical
            (b'G' ∷ b'r' ∷ b'p' ∷ b'c' ∷ b'-' ∷ b'M' ∷ b'e' ∷ b's' ∷ b's' ∷ b'a' ∷ b'g' ∷ b'e' ∷ [])
            meta))) {
              grpc_status = code;
              retryable = retryable_code code (has_delay d);
              retry_after = delay_of d;
            }

  -- What an OK status resolves to.
  unfoldable pub ok_status : Response → Option Acceptance
  unfolding deframe_grpc_response resolve_accept
  ok_status r =
      elim (deframe_grpc_response l.gunzip r.body (
        get_header l.canonical
          (b'G' ∷ b'r' ∷ b'p' ∷ b'c' ∷ b'-' ∷ b'E' ∷ b'n' ∷ b'c' ∷ b'o' ∷ b'd' ∷ b'i' ∷ b'n' ∷ b'g'
            ∷ [])
          r.header)) [
            | err e ↦
                some (record { rejected = pos 0; event = some (caused_by (l.deframe_text e)) })
            | ok none ↦ none
            | ok (some msg) ↦ resolve_accept l.read_text msg (error_of [])
          ]

  -- A response without a gRPC status, by its HTTP status.
  unfoldable pub not_grpc : Response → ExportError
  not_grpc r =
      let code = http_status_to_grpc_status r.status_code in
      record (error_of (excerpt r.body)) {
        status_code = r.status_code;
        grpc_status = pos code;
        retryable = retryable_grpc_status code false;
      }

  abbrev pub on_status : Response → Result Bytes ℤ → Result ExportError (Option Acceptance)
  on_status r (err e) = err (record (caused_by e) {
    message =
        (b'm' ∷ b'a' ∷ b'l' ∷ b'f' ∷ b'o' ∷ b'r' ∷ b'm' ∷ b'e' ∷ b'd' ∷ b' ' ∷ b'g' ∷ b'r' ∷ b'p'
          ∷ b'c' ∷ b'-' ∷ b's' ∷ b't' ∷ b'a' ∷ b't' ∷ b'u' ∷ b's' ∷ b' ' ∷ [])
        ++ excerpt (status_str r);
  })
  on_status r (ok (pos zero)) = ok (ok_status r)
  on_status r (ok (pos (suc n))) = err (failed_status (pos (suc n)) (metadata r))
  on_status r (ok (negsuc n)) = err (failed_status (negsuc n) (metadata r))

  -- `attempt` on a response whose body was read.
  unfoldable pub resolve_status : Response → Result ExportError (Option Acceptance)
  unfolding status_str not_grpc ok_status failed_status metadata
  resolve_status r =
      if length (status_str r) == 0 then err (not_grpc r) else on_status r (l.atoi (status_str r))

  -- The rest of `attempt`: once the body is read, once the call is done, once the request is built.
  abbrev pub after_read : Bool → Response → Option Bytes → Result ExportError (Option Acceptance)
  after_read expired r (some e) = err (transport_error expired e)
  after_read expired r none = resolve_status r

  abbrev pub after_do : Bool → Result Bytes Response → Result ExportError (Option Acceptance)
  after_do expired (err e) = err (transport_error expired e)
  after_do expired (ok r) = after_read expired r r.read_error

  abbrev pub after_build : Exchange → Option Bytes → Result ExportError (Option Acceptance)
  after_build x (some e) = err (caused_by e)
  after_build x none = after_do x.expired x.answer

  -- `attempt`, by what the world does with its request.
  unfoldable pub grpc_attempt :
      GrpcTransport
      → (Header → Bytes → Exchange)
      → Prepared
      → Result ExportError (Option Acceptance)
  unfolding grpc_request
  grpc_attempt t world p = let x = world (grpc_request t p) p.body in after_build x x.request_error
