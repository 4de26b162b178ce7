-- ===== src/Otlp/Transport/Endpoint.antt =====
-- The endpoints of otlp/: `resolveGRPCEndpoint` of otlp/grpc_transport.go, and `resolveEndpoint` of
-- otlp/options.go. Parsing a URL is net/url's.
use zapwire.Common.{
  same_bytes, ◌≡◌, refl, Bool, true, false, ◌&&◌, ◌||◌, not, Option, none, some, [], ◌∷◌, ◌++◌,
  Bytes, length, ◌==◌, if◌then◌else◌, Result, ok, err,
}
use zapwire.Otlp.Transport.Owned.{has_prefix}

-- `url.URL`, with what its `String` prints once the path is set.
pub record Url : Type 0 where
  pub scheme : Bytes
  pub host : Bytes
  pub path : Bytes
  pub raw_query : Bytes
  pub fragment : Bytes
  pub string : Bytes → Bytes

-- What the functions use of net/url and net.
pub record UrlLibrary : Type 0 where
  pub parse : Bytes → Option Url
  pub splits : Bytes → Bool
  pub join_host_port : Bytes → Bytes → Bytes

pub data EndpointError : Type 0 where
  no_endpoint : EndpointError
  not_host_port : EndpointError
  conflict : EndpointError
  invalid : EndpointError
  no_host : EndpointError
  has_path : EndpointError
  bad_scheme : EndpointError

-- `strings.Contains(s, "://")`
abbrev pub has_scheme : Bytes → Bool
has_scheme [] = false
has_scheme (c ∷ s) = has_prefix (c ∷ s) (b':' ∷ b'/' ∷ b'/' ∷ []) || has_scheme s

-- `strings.ContainsAny(s, "/?#")`
abbrev pub has_path_byte : Bytes → Bool
has_path_byte [] = false
has_path_byte (c ∷ s) = c == b'/' || c == b'?' || c == b'#' || has_path_byte s

-- A base URL, and whether it is TLS.
abbrev pub Base : Type 0
Base = Result EndpointError (Bytes × Bool)

-- An endpoint without a scheme
unfoldable pub resolve_host : UrlLibrary → Bytes → Bool → Bool → Base
resolve_host l endpoint insecure has_tls_cfg =
    let host =
      if l.splits endpoint
      then endpoint
      else l.join_host_port endpoint (b'4' ∷ b'3' ∷ b'1' ∷ b'7' ∷ []) in
    if has_path_byte endpoint
    then err not_host_port
    else if insecure
    then (if has_tls_cfg
        then err conflict
        else ok ((b'h' ∷ b't' ∷ b't' ∷ b'p' ∷ b':' ∷ b'/' ∷ b'/' ∷ []) ++ host, false))
    else ok ((b'h' ∷ b't' ∷ b't' ∷ b'p' ∷ b's' ∷ b':' ∷ b'/' ∷ b'/' ∷ []) ++ host, true)

-- A URL
unfoldable pub resolve_url : Url → Bool → Base
resolve_url u has_tls_cfg =
    let path_set = not (length u.path == 0) && not (same_bytes u.path (b'/' ∷ [])) in
    if length u.host == 0
    then err no_host
    else if path_set || not (length u.raw_query == 0) || not (length u.fragment == 0)
    then err has_path
    else if same_bytes u.scheme (b'h' ∷ b't' ∷ b't' ∷ b'p' ∷ [])
    then (if has_tls_cfg
        then err conflict
        else ok ((b'h' ∷ b't' ∷ b't' ∷ b'p' ∷ b':' ∷ b'/' ∷ b'/' ∷ []) ++ u.host, false))
    else if same_bytes u.scheme (b'h' ∷ b't' ∷ b't' ∷ b'p' ∷ b's' ∷ [])
    then ok ((b'h' ∷ b't' ∷ b't' ∷ b'p' ∷ b's' ∷ b':' ∷ b'/' ∷ b'/' ∷ []) ++ u.host, true)
    else err bad_scheme

abbrev parsed : Option Url → Bool → Base
parsed none has_tls_cfg = err invalid
parsed (some u) has_tls_cfg = resolve_url u has_tls_cfg

unfoldable pub resolve_grpc_endpoint : UrlLibrary → Bytes → Bool → Bool → Base
unfolding resolve_host resolve_url
resolve_grpc_endpoint l endpoint insecure has_tls_cfg =
    if length endpoint == 0
    then err no_endpoint
    else if has_scheme endpoint
    then parsed (l.parse endpoint) has_tls_cfg
    else resolve_host l endpoint insecure has_tls_cfg

-- `resolveEndpoint`
unfoldable pub resolve_endpoint : UrlLibrary → Bytes → Result EndpointError Bytes
resolve_endpoint l endpoint =
    if length endpoint == 0 then err no_endpoint else elim (l.parse endpoint) [
      | none ↦ err invalid
      | some u ↦
          if not (
              same_bytes u.scheme (b'h' ∷ b't' ∷ b't' ∷ b'p' ∷ [])
              || same_bytes u.scheme (b'h' ∷ b't' ∷ b't' ∷ b'p' ∷ b's' ∷ []))
            || length u.host == 0
          then err bad_scheme
          else ok (
              u.string (
                if length u.path == 0 || same_bytes u.path (b'/' ∷ [])
                then (b'/' ∷ b'v' ∷ b'1' ∷ b'/' ∷ b'l' ∷ b'o' ∷ b'g' ∷ b's' ∷ [])
                else u.path))
    ]

-- A base whose TLS flag and scheme agree, and that is TLS wherever it was asked for.
unfoldable pub IsSecure : Bool → Base → Type 0
IsSecure asked (err e) = Unit
IsSecure asked (ok (base, use_tls)) =
    (has_prefix base (b'h' ∷ b't' ∷ b't' ∷ b'p' ∷ b's' ∷ b':' ∷ b'/' ∷ b'/' ∷ []) ≡ use_tls)
    × (asked ≡ true → use_tls ≡ true)

either :
    (asked c : Bool) (x y : Base)
    → IsSecure asked x
    → IsSecure asked y
    → IsSecure asked (if c then x else y)
either asked true x y hx hy = hx
either asked false x y hx hy = hy

refused : (asked : Bool) (e : EndpointError) → IsSecure asked (err e)
unfolding IsSecure
refused asked e = _

tls :
    (asked : Bool) (host : Bytes)
    → IsSecure asked
        (ok ((b'h' ∷ b't' ∷ b't' ∷ b'p' ∷ b's' ∷ b':' ∷ b'/' ∷ b'/' ∷ []) ++ host, true))
unfolding IsSecure
tls asked host = (refl, λ _. refl)

plain :
    (asked : Bool) (host : Bytes)
    → IsSecure asked (
        if asked
        then err conflict
        else ok ((b'h' ∷ b't' ∷ b't' ∷ b'p' ∷ b':' ∷ b'/' ∷ b'/' ∷ []) ++ host, false))
unfolding IsSecure
plain true host = _
plain false host = (refl, λ e. e)

resolve_host-IsSecure :
    (l : UrlLibrary) (endpoint : Bytes) (insecure asked : Bool)
    → IsSecure asked (resolve_host l endpoint insecure asked)
unfolding resolve_host
resolve_host-IsSecure l endpoint insecure asked =
    either asked (has_path_byte endpoint) _ _ (refused asked not_host_port)
      (either asked insecure _ _ (plain asked _) (tls asked _))

resolve_url-IsSecure : (u : Url) (asked : Bool) → IsSecure asked (resolve_url u asked)
unfolding resolve_url
resolve_url-IsSecure u asked = either asked (length u.host == 0) _ _ (refused asked no_host) (
    either asked _ _ _ (refused asked has_path) (
      either asked (same_bytes u.scheme (b'h' ∷ b't' ∷ b't' ∷ b'p' ∷ [])) _ _ (plain asked u.host) (
        either asked (same_bytes u.scheme (b'h' ∷ b't' ∷ b't' ∷ b'p' ∷ b's' ∷ [])) _ _
          (tls asked u.host) (refused asked bad_scheme))))

parsed-IsSecure : (u : Option Url) (asked : Bool) → IsSecure asked (parsed u asked)
parsed-IsSecure none asked = refused asked invalid
parsed-IsSecure (some u) asked = resolve_url-IsSecure u asked

-- An endpoint that is accepted becomes an https URL exactly where TLS is used, and uses TLS wherever a
-- TLS configuration was given: none is dropped in silence.
pub resolve_grpc_endpoint-IsSecure :
    (l : UrlLibrary) (endpoint : Bytes) (insecure has_tls_cfg : Bool)
    → IsSecure has_tls_cfg (resolve_grpc_endpoint l endpoint insecure has_tls_cfg)
unfolding resolve_grpc_endpoint
resolve_grpc_endpoint-IsSecure l endpoint insecure has_tls_cfg =
    either has_tls_cfg (length endpoint == 0) _ _ (refused has_tls_cfg no_endpoint) (
      either has_tls_cfg (has_scheme endpoint) _ _ (parsed-IsSecure (l.parse endpoint) has_tls_cfg)
        (resolve_host-IsSecure l endpoint insecure has_tls_cfg))
