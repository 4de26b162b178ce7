-- ===== src/Config.antt =====
-- options.go: the tunables of the Writer. A duration is a count of nanoseconds; durations and sizes
-- are signed, as the options take them.
pub mod Normalize
use zapwire.Common.{ℕ, ◌^◌, Bool, true, false, List, if◌then◌else◌}
use zapwire.Common.Int.{ℤ, pos, ltb_ℤ}
use mathlib.Core.List.{foldl}

pub data Mode : Type 0 where
  mode_sync mode_async : Mode

pub data DropPolicy : Type 0 where
  drop_newest drop_oldest : DropPolicy

abbrev pub millisecond : ℕ
millisecond = 1_000_000

abbrev pub default_write_timeout : ℤ
default_write_timeout = pos 100_000_000

abbrev pub default_reconnect_interval : ℤ
default_reconnect_interval = pos 100_000_000

abbrev pub default_max_reconnect : ℤ
default_max_reconnect = pos 3_000_000_000

abbrev pub default_max_retries : ℤ
default_max_retries = pos 30

abbrev pub default_buffer_size : ℤ
default_buffer_size = pos 4096

abbrev pub default_flush_interval : ℤ
default_flush_interval = pos 200_000_000

abbrev pub default_batch_size : ℤ
default_batch_size = pos 128

abbrev pub max_buffer_size : ℤ
max_buffer_size = pos 0x100_0000

-- `config`. Of `onError` it matters only whether a handler is set.
pub record Config : Type 0 where
  pub mode : Mode
  pub write_timeout : ℤ
  pub reconnect_interval : ℤ
  pub max_reconnect : ℤ
  pub max_retries : ℤ
  pub buffer_size : ℤ
  pub flush_interval : ℤ
  pub batch_size : ℤ
  pub drop_policy : DropPolicy
  pub has_handler : Bool

unfoldable pub default_config : Config
default_config = record {
  mode = mode_sync;
  write_timeout = default_write_timeout;
  reconnect_interval = default_reconnect_interval;
  max_reconnect = default_max_reconnect;
  max_retries = default_max_retries;
  buffer_size = default_buffer_size;
  flush_interval = default_flush_interval;
  batch_size = default_batch_size;
  drop_policy = drop_newest;
  has_handler = false;
}

-- The `With…` options, by their arguments. `WithErrorHandler(nil)` takes the handler away.
pub data Setting : Type 0 where
  with_sync_mode with_async_mode : Setting
  with_write_timeout : ℤ → Setting
  with_buffer_size : ℤ → Setting
  with_batch_size : ℤ → Setting
  with_flush_interval : ℤ → Setting
  with_drop_policy : DropPolicy → Setting
  with_max_retries : ℤ → Setting
  with_reconnect : ℤ → ℤ → Setting
  with_error_handler : Bool → Setting

unfoldable pub apply : Config → Setting → Config
apply c with_sync_mode = record c { mode = mode_sync }
apply c with_async_mode = record c { mode = mode_async }
apply c (with_write_timeout d) = record c { write_timeout = d }
apply c (with_buffer_size n) = record c { buffer_size = n }
apply c (with_batch_size n) = record c { batch_size = n }
apply c (with_flush_interval d) = record c { flush_interval = d }
apply c (with_drop_policy p) = record c { drop_policy = p }
apply c (with_max_retries n) = record c { max_retries = n }
apply c (with_reconnect initial max_interval) = record c {
  reconnect_interval = initial;
  max_reconnect = max_interval;
}
apply c (with_error_handler b) = record c { has_handler = b }

-- `if x <= 0 { x = d }`
unfoldable pub or_default : ℤ → ℤ → ℤ
or_default d x = if ltb_ℤ (pos 0) x then x else d

unfoldable pub clamp_buffer : ℤ → ℤ
clamp_buffer x =
    if ltb_ℤ (pos 0) x
    then (if ltb_ℤ max_buffer_size x then max_buffer_size else x)
    else default_buffer_size

unfoldable pub normalize_config : Config → Config
normalize_config c = record c {
  write_timeout = or_default default_write_timeout c.write_timeout;
  reconnect_interval = or_default default_reconnect_interval c.reconnect_interval;
  max_reconnect = or_default default_max_reconnect c.max_reconnect;
  max_retries = or_default default_max_retries c.max_retries;
  buffer_size = clamp_buffer c.buffer_size;
  flush_interval = or_default default_flush_interval c.flush_interval;
  batch_size = or_default default_batch_size c.batch_size;
}

-- What `New` makes of its options.
unfoldable pub configure : List Setting → Config
configure opts = normalize_config (foldl apply default_config opts)
