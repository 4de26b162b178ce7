-- ===== src/Otlp/Transport.antt =====
-- What the two transports of otlp/ share: the header maps of net/http, and an exchange with the server
-- as the world plays it.
pub mod Frame
pub mod Framing
pub mod Grpc
pub mod Http
pub mod Owned
pub mod Outcome
pub mod Endpoint
use zapwire.Common.{
  same_bytes, ℕ, Bool, Option, none, some, List, [], ◌∷◌, Bytes, take, length, ltb, if◌then◌else◌,
  Result,
}

-- `http.Header` with one value for a key, by canonical keys.
abbrev pub Header : Type 0
Header = Bytes → Option Bytes

abbrev pub no_header : Header
no_header k = none

-- A header that is missing reads as the empty string.
abbrev pub header_value : Option Bytes → Bytes
header_value none = []
header_value (some v) = v

-- `textproto.CanonicalMIMEHeaderKey` is the parameter.
module _ (canonical : Bytes → Bytes) where
  -- `Header.Set`
  abbrev pub set_header : Bytes → Bytes → Header → Header
  set_header k v h k' = if same_bytes k' (canonical k) then some v else h k'

  -- `Header.Del`
  abbrev pub del_header : Bytes → Header → Header
  del_header k h k' = if same_bytes k' (canonical k) then none else h k'

  -- `for k, v := range t.headers { req.Header.Set(k, v) }`, in the order of the range.
  unfoldable pub set_all : List (Bytes × Bytes) → Header → Header
  set_all [] h = h
  set_all ((k, v) ∷ kvs) h = set_all kvs (set_header k v h)

  -- `Header.Get`
  abbrev pub get_header : Bytes → Header → Bytes
  get_header k h = header_value (h (canonical k))

-- A response, with what reading its body up to 1 << 20 bytes returns: the bytes read, and an error.
pub record Response : Type 0 where
  pub status_code : ℕ
  pub body : Bytes
  pub read_error : Option Bytes
  pub header : Header
  pub trailer : Header

-- The world's part in an attempt: the error of `http.NewRequestWithContext`, the answer to `client.Do`,
-- and whether the attempt's timeout has elapsed by the time that `ctx.Err` is asked.
pub record Exchange : Type 0 where
  pub request_error : Option Bytes
  pub answer : Result Bytes Response
  pub expired : Bool

-- `excerpt`
abbrev pub excerpt : Bytes → Bytes
excerpt b = if ltb 256 (length b) then take 256 b else b
