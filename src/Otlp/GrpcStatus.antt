-- ===== src/Otlp/GrpcStatus.antt =====
-- otlp/grpc_status.go: the classes of gRPC statuses, the decoding of their messages, the server's retry
-- delay, and the grpc-timeout header. A string is its bytes; a duration is an int64 of nanoseconds.
pub mod Laws
use zapwire.Common.{
  same_bytes, ℕ, zero, suc, ◌+◌, ◌*◌, ◌/◌, ◌-◌, ◌%◌, ◌^◌, min, max, Option, none, some, List, [],
  ◌∷◌, ◌++◌, Bool, true, false, Bytes, leb, ltb, ◌==◌, ◌&&◌, ◌||◌, if◌then◌else◌, Result, ok, err,
}
use zapwire.Common.Int.{ℤ, pos, negsuc, ltb_ℤ}
use zapwire.Common.Digits.{decimal}
use zapwire.Otlp.Proto.Varint.{to_i64}
use zapwire.Otlp.Proto.Read.{ReadError, find_field, find_varint, for_each_len_field}

unfoldable pub retryable_grpc_status : ℕ → Bool → Bool
retryable_grpc_status code has_retry_delay =
    if code == 1 || code == 4 || code == 10 || code == 11 || code == 14 || code == 15
    then true
    else if code == 8
    then has_retry_delay
    else false

unfoldable pub http_status_to_grpc_status : ℕ → ℕ
http_status_to_grpc_status code =
    if code == 400
    then 13
    else if code == 401
    then 16
    else if code == 403
    then 7
    else if code == 404
    then 12
    else if code == 429 || code == 502 || code == 503 || code == 504
    then 14
    else 2

unfoldable pub unhex : ℕ → Option ℕ
unhex c =
    if leb b'0' c && leb c b'9'
    then some (c - b'0')
    else if leb b'a' c && leb c b'f'
    then some (c - b'a' + 10)
    else if leb b'A' c && leb c b'F'
    then some (c - b'A' + 10)
    else none

-- `if hi, ok1 := unhex(…); ok1 { if lo, ok2 := unhex(…); ok2 {`, and `hi<<4 | lo`
abbrev pub hex_pair : Option ℕ → Option ℕ → Option ℕ
hex_pair (some hi) (some lo) = some (hi * 16 + lo)
hex_pair none lo = none
hex_pair (some hi) none = none

-- The loop of `percentDecode` over what is left of `s`.
unfoldable pub percent_decode : Bytes → Bytes
unfolding unhex
percent_decode [] = []
percent_decode (c ∷ []) = c ∷ []
percent_decode (c ∷ d ∷ []) = c ∷ d ∷ []
percent_decode (c ∷ d ∷ e ∷ s) =
    let literal = c ∷ percent_decode (d ∷ e ∷ s) in
    let decoded = percent_decode s in
    if c == b'%'
    then elim (hex_pair (unhex d) (unhex e)) [ none ↦ literal | some b ↦ b ∷ decoded ]
    else literal

-- "type.googleapis.com/google.rpc.RetryInfo"
abbrev pub retry_info_type_url : Bytes
retry_info_type_url =
    b't' ∷ b'y' ∷ b'p' ∷ b'e' ∷ b'.' ∷ b'g' ∷ b'o' ∷ b'o' ∷ b'g' ∷ b'l' ∷ b'e' ∷ b'a' ∷ b'p' ∷ b'i'
    ∷ b's' ∷ b'.' ∷ b'c' ∷ b'o' ∷ b'm' ∷ b'/' ∷ b'g' ∷ b'o' ∷ b'o' ∷ b'g' ∷ b'l' ∷ b'e' ∷ b'.'
    ∷ b'r' ∷ b'p' ∷ b'c' ∷ b'.' ∷ b'R' ∷ b'e' ∷ b't' ∷ b'r' ∷ b'y' ∷ b'I' ∷ b'n' ∷ b'f' ∷ b'o' ∷ []

-- What the closure captures: `delay` once it is `found`.
abbrev pub Delay : Type 0
Delay = Option ℕ

-- `time.Duration(secs)*time.Second + time.Duration(nanos)`, in int64 arithmetic.
abbrev pub duration : ℕ → ℕ → ℤ
duration secs nanos = to_i64 ((secs * 1_000_000_000 + nanos) % 2 ^ 64)

-- `if d > 0 { delay, found = d, true }`
abbrev pub keep_positive : ℤ → Delay → Delay
keep_positive (pos zero) old = old
keep_positive (pos (suc n)) old = some (suc n)
keep_positive (negsuc n) old = old

-- The closure behind `retry_delay`: an unreadable duration goes on, any other stops the scan.
abbrev pub on_duration : Result ReadError ℕ → Result ReadError ℕ → Delay → Delay × Bool
on_duration (ok secs) (ok nanos) old = (keep_positive (duration secs nanos) old, false)
on_duration (ok secs) (err e) old = (old, true)
on_duration (err e) nanos old = (old, true)

abbrev pub on_retry_delay : Result ReadError (Option Bytes) → Delay → Delay × Bool
on_retry_delay (ok (some dur)) old = on_duration (find_varint dur 1) (find_varint dur 2) old
on_retry_delay (ok none) old = (old, true)
on_retry_delay (err e) old = (old, true)

abbrev pub on_value : Result ReadError (Option Bytes) → Delay → Delay × Bool
on_value (ok (some val)) old = on_retry_delay (find_field val 1) old
on_value (ok none) old = (old, true)
on_value (err e) old = (old, true)

abbrev pub is_retry_info : Result ReadError (Option Bytes) → Bool
is_retry_info (ok (some url)) = same_bytes url retry_info_type_url
is_retry_info (ok none) = false
is_retry_info (err e) = false

unfoldable pub on_detail : Delay → Bytes → Delay × Bool
on_detail old any_msg =
    if is_retry_info (find_field any_msg 1)
    then on_value (find_field any_msg 2) old
    else (old, true)

-- `retryDelayFromStatus`: the delay, or `none` for `0, false`; the scan's error is ignored.
unfoldable pub retry_delay_from_status : Bytes → Delay
retry_delay_from_status raw = (for_each_len_field 3 on_detail raw none).0

-- `grpcTimeoutValue`; `d.Milliseconds()` and `d/time.Second` divide.
unfoldable pub grpc_timeout_value : ℤ → Bytes
grpc_timeout_value (negsuc n) = []
grpc_timeout_value (pos d) =
    let ms = max (d / 1_000_000) 1 in
    if d == 0
    then []
    else if leb ms 99_999_999
    then decimal ms ++ (b'm' ∷ [])
    else decimal (min (d / 1_000_000_000) 99_999_999) ++ (b'S' ∷ [])
