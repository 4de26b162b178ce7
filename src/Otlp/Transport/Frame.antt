-- ===== src/Otlp/Transport/Frame.antt =====
-- The Length-Prefixed-Message framing of otlp/grpc_transport.go. Compressing is compress/gzip's.
use zapwire.Common.{
  same_bytes, ℕ, ◌+◌, ◌-◌, ◌*◌, ◌%◌, ◌^◌, Bool, true, false, Option, none, some, [], ◌∷◌, ◌++◌,
  Bytes, length, ltb, ◌==◌, if◌then◌else◌, Result, ok, err,
}
use zapwire.Fluent.EventTime.{big_endian32}
use zapwire.Otlp.Export.{Prepared, error_of}

unfoldable pub grpc_frame : Bytes → Bool → Bytes
grpc_frame msg compressed =
    (if compressed then 1 else 0) ∷ big_endian32 (length msg % 2 ^ 32) ++ msg

-- A message and what the gzip writer made of it, or nothing where it failed.
abbrev pub gzip_frame : Option Bytes → Bytes → Prepared
gzip_frame (some z) msg = record {
  body = grpc_frame z true;
  compressed = true;
  warn = none;
  fail = none;
}
gzip_frame none msg = record {
  body = grpc_frame msg false;
  compressed = false;
  warn = some (
      error_of (
        b'g' ∷ b'z' ∷ b'i' ∷ b'p' ∷ b' ' ∷ b'f' ∷ b'a' ∷ b'i' ∷ b'l' ∷ b'e' ∷ b'd' ∷ b';' ∷ b' '
        ∷ b's' ∷ b'e' ∷ b'n' ∷ b't' ∷ b' ' ∷ b'u' ∷ b'n' ∷ b'c' ∷ b'o' ∷ b'm' ∷ b'p' ∷ b'r' ∷ b'e'
        ∷ b's' ∷ b's' ∷ b'e' ∷ b'd' ∷ []));
  fail = none;
}

-- `prepare` of the gRPC transport
unfoldable pub grpc_prepare : (Bytes → Option Bytes) → Bool → Bytes → Prepared
unfolding grpc_frame
grpc_prepare gzip gzip_on msg =
    if gzip_on
    then gzip_frame (gzip msg) msg
    else record { body = grpc_frame msg false; compressed = false; warn = none; fail = none }

-- The errors of `deframeGRPCResponse`; the last is of the gzip reader.
pub data DeframeError : Type 0 where
  truncated_response : DeframeError
  trailing : ℕ → DeframeError
  unknown_encoding : Bytes → DeframeError
  bad_gzip : Bytes → DeframeError

abbrev pub gunzipped : Result Bytes Bytes → Result DeframeError (Option Bytes)
gunzipped (ok msg) = ok (some msg)
gunzipped (err e) = err (bad_gzip e)

-- `deframeGRPCResponse` behind the prefix: its flag and its length.
abbrev pub unframed :
    (Bytes → Result Bytes Bytes) → ℕ → ℕ → Bytes → Bytes → Result DeframeError (Option Bytes)
unframed gunzip flag mlen msg encoding =
    if ltb (length msg) mlen
    then err truncated_response
    else if ltb 0 (length msg - mlen)
    then err (trailing (length msg - mlen))
    else if flag % 2 == 0
    then ok (some msg)
    else if same_bytes encoding (b'g' ∷ b'z' ∷ b'i' ∷ b'p' ∷ [])
    then gunzipped (gunzip msg)
    else err (unknown_encoding encoding)

-- `deframeGRPCResponse`; `gunzip` reads 1 << 20 bytes at most. A nil message is `none`.
unfoldable pub deframe_grpc_response :
    (Bytes → Result Bytes Bytes) → Bytes → Bytes → Result DeframeError (Option Bytes)
deframe_grpc_response gunzip (flag ∷ a ∷ b ∷ c ∷ d ∷ msg) encoding =
    unframed gunzip flag (a * 2 ^ 24 + b * 2 ^ 16 + c * 2 ^ 8 + d) msg encoding
deframe_grpc_response gunzip [] encoding = ok none
deframe_grpc_response gunzip body encoding = err truncated_response
