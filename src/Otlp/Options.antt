-- ===== src/Otlp/Options.antt =====
-- otlp/options.go: the exporter's options and their normalisation, and the severities. Durations are
-- nanoseconds. Of a function, a client or a TLS configuration it matters only whether it is set; the
-- headers and the resource's fields pass through unread.
pub mod Normalize
use zapwire.Common.{ℕ, Bool, true, false, List, [], ◌∷◌, ◌++◌, Bytes, ◌==◌, if◌then◌else◌}
use zapwire.Common.Int.{ℤ, pos, negsuc, ltb_ℤ}
use zapwire.Config.{DropPolicy, drop_newest, or_default}
use mathlib.Core.List.{foldl}

abbrev pub severity_unspecified : ℤ
severity_unspecified = pos 0

abbrev pub severity_debug : ℤ
severity_debug = pos 5

abbrev pub severity_info : ℤ
severity_info = pos 9

abbrev pub severity_warn : ℤ
severity_warn = pos 13

abbrev pub severity_error : ℤ
severity_error = pos 17

abbrev pub severity_fatal : ℤ
severity_fatal = pos 21

abbrev pub severity_fatal2 : ℤ
severity_fatal2 = pos 22

abbrev pub severity_fatal3 : ℤ
severity_fatal3 = pos 23

abbrev pub max_severity : ℤ
max_severity = pos 24

-- zap's levels, from Debug (-1) to Fatal (5).
unfoldable pub default_severity_mapper : ℤ → ℤ
default_severity_mapper (negsuc n) = if n == 0 then severity_debug else severity_unspecified
default_severity_mapper (pos n) =
    if n == 0
    then severity_info
    else if n == 1
    then severity_warn
    else if n == 2
    then severity_error
    else if n == 3
    then severity_fatal
    else if n == 4
    then severity_fatal2
    else if n == 5
    then severity_fatal3
    else severity_unspecified

unfoldable pub clamp_severity : ℤ → ℤ
clamp_severity s =
    if ltb_ℤ s (pos 0) then pos 0 else if ltb_ℤ max_severity s then max_severity else s

pub data Compression : Type 0 where
  no_compression gzip : Compression

pub data Encoding : Type 0 where
  protobuf json : Encoding

abbrev pub max_queue_size : ℤ
max_queue_size = pos 0x100_0000

abbrev pub max_request_bytes_ceil : ℤ
max_request_bytes_ceil = pos 0x1000_0000

-- `options`; the three fields of `retry` stand side by side.
pub record Options : Type 0 where
  pub service_name : Bytes
  pub scope_name : Bytes
  pub scope_version : Bytes
  pub has_severity_of : Bool
  pub caller_attrs : Bool
  pub logger_name_key : Bytes
  pub trace_correlation_attrs : Bool
  pub queue_size : ℤ
  pub batch_size : ℤ
  pub max_request_bytes : ℤ
  pub flush_interval : ℤ
  pub timeout : ℤ
  pub drain_timeout : ℤ
  pub drop_policy : DropPolicy
  pub retry_initial : ℤ
  pub retry_max_interval : ℤ
  pub retry_max_elapsed : ℤ
  pub has_client : Bool
  pub compression : Compression
  pub encoding : Encoding
  pub insecure : Bool
  pub has_tls_config : Bool
  pub has_err_fn : Bool

-- What the defaults take from outside: `filepath.Base(os.Args[0])` and `moduleVersion()`.
pub record Build : Type 0 where
  pub program : Bytes
  pub module_version : Bytes

abbrev unknown_service : Bytes
unknown_service =
    b'u' ∷ b'n' ∷ b'k' ∷ b'n' ∷ b'o' ∷ b'w' ∷ b'n' ∷ b'_' ∷ b's' ∷ b'e' ∷ b'r' ∷ b'v' ∷ b'i' ∷ b'c'
    ∷ b'e' ∷ b':' ∷ []

abbrev default_scope_name : Bytes
default_scope_name =
    b'g' ∷ b'i' ∷ b't' ∷ b'h' ∷ b'u' ∷ b'b' ∷ b'.' ∷ b'c' ∷ b'o' ∷ b'm' ∷ b'/' ∷ b'a' ∷ b'r' ∷ b'l'
    ∷ b'o' ∷ b'l' ∷ b'i' ∷ b'u' ∷ b'/' ∷ b'z' ∷ b'a' ∷ b'p' ∷ b'w' ∷ b'i' ∷ b'r' ∷ b'e' ∷ b'/'
    ∷ b'o' ∷ b't' ∷ b'l' ∷ b'p' ∷ []

abbrev default_logger_name_key : Bytes
default_logger_name_key = b'l' ∷ b'o' ∷ b'g' ∷ b'g' ∷ b'e' ∷ b'r' ∷ []

unfoldable pub default_options : Build → Options
default_options b = record {
  service_name = unknown_service ++ b.program;
  scope_name = default_scope_name;
  scope_version = b.module_version;
  has_severity_of = true;
  caller_attrs = true;
  logger_name_key = default_logger_name_key;
  trace_correlation_attrs = false;
  queue_size = pos 2048;
  batch_size = pos 512;
  max_request_bytes = pos 0x40_0000;
  flush_interval = pos 1_000_000_000;
  timeout = pos 10_000_000_000;
  drain_timeout = pos 0;
  drop_policy = drop_newest;
  retry_initial = pos 5_000_000_000;
  retry_max_interval = pos 30_000_000_000;
  retry_max_elapsed = pos 60_000_000_000;
  has_client = true;
  compression = no_compression;
  encoding = protobuf;
  insecure = false;
  has_tls_config = false;
  has_err_fn = true;
}

-- `if x <= 0 { x = d } else if x > ceil { x = ceil }`
unfoldable pub clamp_size : ℤ → ℤ → ℤ → ℤ
clamp_size ceil d x = if ltb_ℤ (pos 0) x then (if ltb_ℤ ceil x then ceil else x) else d

-- `if o.drainTimeout < 0 { o.drainTimeout = 0 }`
unfoldable pub non_negative : ℤ → ℤ
non_negative x = if ltb_ℤ x (pos 0) then pos 0 else x

unfoldable pub normalize : Build → Options → Options
unfolding default_options
normalize b o =
    let d = default_options b in
    record o {
      queue_size = clamp_size max_queue_size d.queue_size o.queue_size;
      batch_size = or_default d.batch_size o.batch_size;
      max_request_bytes = clamp_size max_request_bytes_ceil d.max_request_bytes o.max_request_bytes;
      drain_timeout = non_negative o.drain_timeout;
      flush_interval = or_default d.flush_interval o.flush_interval;
      timeout = or_default d.timeout o.timeout;
      retry_initial = or_default d.retry_initial o.retry_initial;
      retry_max_interval = or_default d.retry_max_interval o.retry_max_interval;
      retry_max_elapsed = or_default d.retry_max_elapsed o.retry_max_elapsed;
      has_severity_of = true;
      has_client = true;
      has_err_fn = true;
    }

-- `applyOptions`; an option is any function on the options, as in the source.
unfoldable pub apply_options : Build → List (Options → Options) → Options
unfolding normalize default_options
apply_options b opts = normalize b (foldl (λ o f. f o) (default_options b) opts)
