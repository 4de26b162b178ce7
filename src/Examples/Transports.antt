-- ===== src/Examples/Transports.antt =====
-- A concrete library and exchanges for the transports of otlp/.
use zapwire.Common.{
  same_bytes, ℕ, suc, ◌+◌, ◌-◌, ◌^◌, ◌<◌, ap, ◌≡◌, ◌≢◌, refl, ap₂, true, false, arith, none, some,
  [], ◌∷◌, ◌++◌, Bytes, length, take, leb, ◌&&◌, if◌then◌else◌, Result, ok, err,
}
use mathlib.Core.Option.{some-injective}
use mathlib.Core.Path.{subst}
use zapwire.Common.Int.{ℤ, pos}
use zapwire.Otlp.GrpcStatus.{retryable_grpc_status}
use zapwire.Otlp.Export.{Prepared}
use zapwire.Otlp.Transport.{Header, no_header, get_header, Exchange}
use zapwire.Otlp.Transport.Frame.{
  grpc_frame, grpc_prepare, deframe_grpc_response, trailing, truncated_response,
}
use zapwire.Otlp.Transport.Framing.{
  deframe_grpc_response-grpc_prepare, deframe_grpc_response-grpc_frame,
}
use zapwire.Otlp.Transport.Grpc.{
  Library, GrpcTransport, grpc_request, grpc_attempt, resolve_status, failed_status,
}
use zapwire.Otlp.Transport.Http.{HttpLibrary, HttpTransport, http_request, http_attempt}
use zapwire.Otlp.Transport.Owned.{
  is_reserved, validate_grpc_headers, grpc_request-validate_grpc_headers, http_request_lem,
}
use zapwire.Otlp.Transport.Endpoint.{
  UrlLibrary, IsSecure, resolve_grpc_endpoint, resolve_grpc_endpoint-IsSecure,
}
use zapwire.Otlp.Transport.Outcome.{outcome, refused, HttpReports, http_attempt-HttpReports}

abbrev lower_byte : ℕ → ℕ
lower_byte c = if leb b'A' c && leb c b'Z' then c + 32 else c

lower_byte_twice : (c : ℕ) → lower_byte (lower_byte c) ≡ lower_byte c
lower_byte_twice c = ground arith

abbrev lower : Bytes → Bytes
lower [] = []
lower (c ∷ s) = lower_byte c ∷ lower s

lower_twice : (s : Bytes) → lower (lower s) ≡ lower s
lower_twice [] = refl
lower_twice (c ∷ s) = ap₂ (λ x y. x ∷ y) (lower_byte_twice c) (lower_twice s)

-- One decimal digit, and a gzip that puts a byte in front.
abbrev digit : Bytes → Result Bytes ℤ
digit (c ∷ []) = ok (pos (c - 48))
digit _ = err []

abbrev unwrap : Bytes → Result Bytes Bytes
unwrap (c ∷ s) = ok s
unwrap [] = err []

abbrev go_library : Library
go_library = record {
  canonical = lower;
  atoi = digit;
  raw_base64 = λ s. some s;
  base64 = λ s. some s;
  gunzip = unwrap;
  read_text = λ e. [];
  deframe_text = λ e. [];
}

abbrev http_library : HttpLibrary
http_library = record {
  canonical = lower;
  atoi = digit;
  time_until = λ s. none;
  media_type = λ s. s;
  gzip = λ s. some (31 ∷ s);
  transcode = λ s. ok s;
  decode_json = λ s. err [];
  read_text = λ e. [];
}

abbrev call : GrpcTransport
call = record {
  headers = ((b'X' ∷ b'-' ∷ b'K' ∷ b'e' ∷ b'y' ∷ []), (b'v' ∷ [])) ∷ [];
  timeout_hdr = (b'9' ∷ b'S' ∷ []);
  user_agent =
      (b'z' ∷ b'a' ∷ b'p' ∷ b'w' ∷ b'i' ∷ b'r' ∷ b'e' ∷ b'-' ∷ b'o' ∷ b't' ∷ b'l' ∷ b'p' ∷ []);
}

abbrev post : HttpTransport
post = record {
  headers =
      (
        (b'c' ∷ b'o' ∷ b'n' ∷ b't' ∷ b'e' ∷ b'n' ∷ b't' ∷ b'-' ∷ b't' ∷ b'y' ∷ b'p' ∷ b'e' ∷ []),
        (b't' ∷ b'e' ∷ b'x' ∷ b't' ∷ []),
      )
      ∷ [];
  gzip_on = true;
  json_on = false;
}

abbrev packed : Prepared
packed = record { body = 31 ∷ 7 ∷ []; compressed = true; warn = none; fail = none }

-- A server that is unavailable, once the request says that its body is compressed.
abbrev unavailable : Header → Bytes → Exchange
unavailable h body = record {
  request_error = none;
  answer = ok (record {
    status_code =
        if same_bytes
          (get_header lower
            (b'C' ∷ b'o' ∷ b'n' ∷ b't' ∷ b'e' ∷ b'n' ∷ b't' ∷ b'-' ∷ b'E' ∷ b'n' ∷ b'c' ∷ b'o'
              ∷ b'd' ∷ b'i' ∷ b'n' ∷ b'g' ∷ [])
            h)
          (b'g' ∷ b'z' ∷ b'i' ∷ b'p' ∷ [])
        then 503
        else 400;
    body = [];
    read_error = none;
    header = no_header;
    trailer = λ k.
        if same_bytes k
          (b'g' ∷ b'r' ∷ b'p' ∷ b'c' ∷ b'-' ∷ b's' ∷ b't' ∷ b'a' ∷ b't' ∷ b'u' ∷ b's' ∷ [])
        then some (b'4' ∷ [])
        else none;
  });
  expired = false;
}

packed_back :
    (z : Bytes)
    → some (31 ∷ 7 ∷ 8 ∷ []) ≡ some z
    → (unwrap z ≡ ok (7 ∷ 8 ∷ [])) × (length z < 2 ^ 32)
packed_back z e =
    subst (λ s. (unwrap s ≡ ok (7 ∷ 8 ∷ [])) × (length s < 2 ^ 32)) (some-injective _ _ e)
      (refl, omega arith)

deframe_grpc_response-grpc_prepare_example :
    let p = grpc_prepare (λ s. some (31 ∷ s)) true (7 ∷ 8 ∷ []) in
    deframe_grpc_response unwrap p.body
      (if p.compressed then (b'g' ∷ b'z' ∷ b'i' ∷ b'p' ∷ []) else [])
    ≡ ok (some (7 ∷ 8 ∷ []))
deframe_grpc_response-grpc_prepare_example =
    deframe_grpc_response-grpc_prepare (λ s. some (31 ∷ s)) unwrap true (7 ∷ 8 ∷ []) packed_back
      (omega arith)

deframe_grpc_response-grpc_frame_example :
    ((c : ℕ) (rest : Bytes)
      → deframe_grpc_response unwrap (grpc_frame (7 ∷ 8 ∷ []) false ++ (c ∷ rest)) []
        ≡ err (trailing (suc (length rest))))
    × ((k : ℕ)
        → 0 < k
        → k < length (grpc_frame (7 ∷ 8 ∷ []) false)
        → deframe_grpc_response unwrap (take k (grpc_frame (7 ∷ 8 ∷ []) false)) []
          ≡ err truncated_response)
deframe_grpc_response-grpc_frame_example =
    deframe_grpc_response-grpc_frame unwrap (7 ∷ 8 ∷ []) [] false (omega arith)

grpc_retried : outcome (grpc_attempt go_library call unavailable packed) ≡ refused true
unfolding grpc_attempt resolve_status failed_status retryable_grpc_status
grpc_retried = refl

http_attempt-HttpReports_example :
    HttpReports
      (unavailable (http_request http_library post packed) packed.body)
      (outcome (http_attempt http_library post unavailable packed))
http_attempt-HttpReports_example = http_attempt-HttpReports http_library post unavailable packed

call_valid : validate_grpc_headers lower (λ s. s) call.headers ≡ none
unfolding validate_grpc_headers
call_valid = refl

reserved_key :
    is_reserved (
      lower (
        b'G' ∷ b'R' ∷ b'P' ∷ b'C' ∷ b'-' ∷ b'E' ∷ b'n' ∷ b'c' ∷ b'o' ∷ b'd' ∷ b'i' ∷ b'n' ∷ b'g'
        ∷ []))
    ≡ true
unfolding is_reserved
reserved_key = refl

grpc_request-validate_grpc_headers_example :
    get_header lower
      (b'G' ∷ b'R' ∷ b'P' ∷ b'C' ∷ b'-' ∷ b'E' ∷ b'n' ∷ b'c' ∷ b'o' ∷ b'd' ∷ b'i' ∷ b'n' ∷ b'g'
        ∷ [])
      (grpc_request go_library call packed)
    ≡ get_header lower
        (b'G' ∷ b'R' ∷ b'P' ∷ b'C' ∷ b'-' ∷ b'E' ∷ b'n' ∷ b'c' ∷ b'o' ∷ b'd' ∷ b'i' ∷ b'n' ∷ b'g'
          ∷ [])
        (grpc_request go_library (record call { headers = [] }) packed)
grpc_request-validate_grpc_headers_example =
    grpc_request-validate_grpc_headers go_library lower (λ s. s) call packed
      (b'G' ∷ b'R' ∷ b'P' ∷ b'C' ∷ b'-' ∷ b'E' ∷ b'n' ∷ b'c' ∷ b'o' ∷ b'd' ∷ b'i' ∷ b'n' ∷ b'g'
        ∷ [])
      lower_twice call_valid reserved_key

apart :
    lower (b'C' ∷ b'o' ∷ b'n' ∷ b't' ∷ b'e' ∷ b'n' ∷ b't' ∷ b'-' ∷ b'T' ∷ b'y' ∷ b'p' ∷ b'e' ∷ [])
    ≢ lower (
        b'C' ∷ b'o' ∷ b'n' ∷ b't' ∷ b'e' ∷ b'n' ∷ b't' ∷ b'-' ∷ b'E' ∷ b'n' ∷ b'c' ∷ b'o' ∷ b'd'
        ∷ b'i' ∷ b'n' ∷ b'g' ∷ [])
apart e =
    let t : true ≡ false =
      ap
        (λ s.
          same_bytes
            (lower (
              b'C' ∷ b'o' ∷ b'n' ∷ b't' ∷ b'e' ∷ b'n' ∷ b't' ∷ b'-' ∷ b'T' ∷ b'y' ∷ b'p' ∷ b'e'
              ∷ []))
            s)
        e in
    ground arith

http_request_lem_example :
    (get_header lower
        (b'C' ∷ b'o' ∷ b'n' ∷ b't' ∷ b'e' ∷ b'n' ∷ b't' ∷ b'-' ∷ b'T' ∷ b'y' ∷ b'p' ∷ b'e' ∷ [])
        (http_request http_library post packed)
      ≡ (b'a' ∷ b'p' ∷ b'p' ∷ b'l' ∷ b'i' ∷ b'c' ∷ b'a' ∷ b't' ∷ b'i' ∷ b'o' ∷ b'n' ∷ b'/' ∷ b'x'
          ∷ b'-' ∷ b'p' ∷ b'r' ∷ b'o' ∷ b't' ∷ b'o' ∷ b'b' ∷ b'u' ∷ b'f' ∷ []))
    × (http_request http_library post packed (
          lower (
            b'C' ∷ b'o' ∷ b'n' ∷ b't' ∷ b'e' ∷ b'n' ∷ b't' ∷ b'-' ∷ b'E' ∷ b'n' ∷ b'c' ∷ b'o' ∷ b'd'
            ∷ b'i' ∷ b'n' ∷ b'g' ∷ []))
        ≡ some (b'g' ∷ b'z' ∷ b'i' ∷ b'p' ∷ []))
http_request_lem_example = http_request_lem http_library post packed apart

-- A URL library that knows one URL.
abbrev urls : UrlLibrary
urls = record {
  parse = λ s. some (record {
    scheme = (b'h' ∷ b't' ∷ b't' ∷ b'p' ∷ b's' ∷ []);
    host = (b'h' ∷ []);
    path = [];
    raw_query = [];
    fragment = [];
    string = λ p. p;
  });
  splits = λ s. false;
  join_host_port = λ h p. h ++ (b':' ∷ p);
}

resolve_grpc_endpoint-IsSecure_example : IsSecure true (
    resolve_grpc_endpoint urls
      (b'h' ∷ b't' ∷ b't' ∷ b'p' ∷ b's' ∷ b':' ∷ b'/' ∷ b'/' ∷ b'h' ∷ [])
      false
      true)
resolve_grpc_endpoint-IsSecure_example =
    resolve_grpc_endpoint-IsSecure urls
      (b'h' ∷ b't' ∷ b't' ∷ b'p' ∷ b's' ∷ b':' ∷ b'/' ∷ b'/' ∷ b'h' ∷ []) false true
