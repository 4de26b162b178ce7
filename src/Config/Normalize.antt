-- ===== src/Config/Normalize.antt =====
-- `normalizeConfig` of options.go is the single guard on the tunables.
use zapwire.Common.{◌≡◌, ◌↔◌, arith, List}
use zapwire.Common.Int.{ℤ, pos, negsuc, ◌≤ℤ◌}
use zapwire.Config.{
  Config, Setting, default_config, normalize_config, configure, apply, max_buffer_size, or_default,
  clamp_buffer, default_write_timeout, default_reconnect_interval, default_max_reconnect,
  default_max_retries, default_flush_interval, default_batch_size,
}
use mathlib.Core.List.{foldl}
use mathlib.Core.Path.{subst}

abbrev pub IsPositive : ℤ → Type 0
IsPositive z = pos 1 ≤ℤ z

-- What channel and ticker construction, the reconnect loop and the batching rely on.
pub record IsValid (c : Config) : Type 0 where
  pub write_timeout : IsPositive c.write_timeout
  pub reconnect_interval : IsPositive c.reconnect_interval
  pub max_reconnect : IsPositive c.max_reconnect
  pub max_retries : IsPositive c.max_retries
  pub buffer_size : IsPositive c.buffer_size
  pub buffer_bounded : c.buffer_size ≤ℤ max_buffer_size
  pub flush_interval : IsPositive c.flush_interval
  pub batch_size : IsPositive c.batch_size

pub or_default-IsPositive : (d x : ℤ) → IsPositive d → IsPositive (or_default d x)
unfolding or_default
or_default-IsPositive d (pos x) h = ground arith
or_default-IsPositive d (negsuc x) h = ground arith

pub or_default-eq : (d x : ℤ) → IsPositive x → or_default d x ≡ x
unfolding or_default
or_default-eq d (pos x) h = ground arith
or_default-eq d (negsuc x) h = absurd (omega arith)

clamp_buffer_bounds : (x : ℤ) → IsPositive (clamp_buffer x) × (clamp_buffer x ≤ℤ max_buffer_size)
unfolding clamp_buffer
clamp_buffer_bounds (pos x) = ground arith
clamp_buffer_bounds (negsuc x) = ground arith

clamp_buffer-eq : (x : ℤ) → IsPositive x → x ≤ℤ max_buffer_size → clamp_buffer x ≡ x
unfolding clamp_buffer
clamp_buffer-eq (pos x) h k = ground arith
clamp_buffer-eq (negsuc x) h k = absurd (omega arith)

pub normalize_config-IsValid : (c : Config) → IsValid (normalize_config c)
unfolding normalize_config
normalize_config-IsValid c = record {
  write_timeout = or_default-IsPositive default_write_timeout c.write_timeout (omega arith);
  reconnect_interval =
      or_default-IsPositive default_reconnect_interval c.reconnect_interval (omega arith);
  max_reconnect = or_default-IsPositive default_max_reconnect c.max_reconnect (omega arith);
  max_retries = or_default-IsPositive default_max_retries c.max_retries (omega arith);
  buffer_size = (clamp_buffer_bounds c.buffer_size).0;
  buffer_bounded = (clamp_buffer_bounds c.buffer_size).1;
  flush_interval = or_default-IsPositive default_flush_interval c.flush_interval (omega arith);
  batch_size = or_default-IsPositive default_batch_size c.batch_size (omega arith);
}

pub normalize_config-eq : (c : Config) → IsValid c → normalize_config c ≡ c
unfolding normalize_config
normalize_config-eq c v = rw (
  or_default-eq default_write_timeout c.write_timeout v.write_timeout,
  or_default-eq default_reconnect_interval c.reconnect_interval v.reconnect_interval,
  or_default-eq default_max_reconnect c.max_reconnect v.max_reconnect,
  or_default-eq default_max_retries c.max_retries v.max_retries,
  clamp_buffer-eq c.buffer_size v.buffer_size v.buffer_bounded,
  or_default-eq default_flush_interval c.flush_interval v.flush_interval,
  or_default-eq default_batch_size c.batch_size v.batch_size,
)

-- The configuration of every Writer is valid, whatever the options: sizes and intervals are
-- positive, and the buffer has at most 2 ^ 24 entries.
pub configure-IsValid : (opts : List Setting) → IsValid (configure opts)
unfolding configure
configure-IsValid opts = normalize_config-IsValid (foldl apply default_config opts)

-- Normalising leaves a configuration alone exactly when it is valid.
pub normalize_config_fixed : (c : Config) → (normalize_config c ≡ c) ↔ IsValid c
normalize_config_fixed c =
    (λ e. subst IsValid e (normalize_config-IsValid c), normalize_config-eq c)
