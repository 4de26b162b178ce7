-- ===== src/Otlp/Options/Normalize.antt =====
-- `normalize` of otlp/options.go is the single guard on the exporter's options.
use zapwire.Common.{◌≡◌, refl, ◌↔◌, arith, List, true, min, Bool-cases, ltb, inl, inr, zero, suc}
use zapwire.Common.Int.{ℤ, pos, negsuc, pos_part, ◌≤ℤ◌, ◌+ℤ◌}
use zapwire.Config.Normalize.{IsPositive, or_default-IsPositive, or_default-eq}
use zapwire.Otlp.Options.{
  Options, Build, default_options, normalize, apply_options, clamp_size, non_negative,
  max_queue_size, max_request_bytes_ceil, default_severity_mapper, clamp_severity,
}
use mathlib.Core.List.{foldl}
use mathlib.Core.Path.{subst}

-- What the queue, the ticker, the batches and the retry loop rely on.
pub record IsUsable (o : Options) : Type 0 where
  pub queue_size : IsPositive o.queue_size
  pub queue_bounded : o.queue_size ≤ℤ max_queue_size
  pub batch_size : IsPositive o.batch_size
  pub max_request_bytes : IsPositive o.max_request_bytes
  pub request_bounded : o.max_request_bytes ≤ℤ max_request_bytes_ceil
  pub drain_timeout : pos 0 ≤ℤ o.drain_timeout
  pub flush_interval : IsPositive o.flush_interval
  pub timeout : IsPositive o.timeout
  pub retry_initial : IsPositive o.retry_initial
  pub retry_max_interval : IsPositive o.retry_max_interval
  pub retry_max_elapsed : IsPositive o.retry_max_elapsed
  pub has_severity_of : o.has_severity_of ≡ true
  pub has_client : o.has_client ≡ true
  pub has_err_fn : o.has_err_fn ≡ true

clamp_size_bounds :
    (ceil d x : ℤ)
    → IsPositive d
    → d ≤ℤ ceil
    → IsPositive (clamp_size ceil d x) × (clamp_size ceil d x ≤ℤ ceil)
unfolding clamp_size
clamp_size_bounds ceil d (pos x) h k = ground arith
clamp_size_bounds ceil d (negsuc x) h k = ground arith

clamp_size-eq : (ceil d x : ℤ) → IsPositive x → x ≤ℤ ceil → clamp_size ceil d x ≡ x
unfolding clamp_size
clamp_size-eq ceil d (pos x) h k = ground arith
clamp_size-eq ceil d (negsuc x) h k = absurd (omega arith)

non_negative_low : (x : ℤ) → pos 0 ≤ℤ non_negative x
unfolding non_negative
non_negative_low (pos x) = ground arith
non_negative_low (negsuc x) = ground arith

non_negative-eq : (x : ℤ) → pos 0 ≤ℤ x → non_negative x ≡ x
unfolding non_negative
non_negative-eq (pos x) h = ground arith
non_negative-eq (negsuc x) h = absurd (omega arith)

pub normalize-IsUsable : (b : Build) (o : Options) → IsUsable (normalize b o)
unfolding normalize default_options
normalize-IsUsable b o =
    let queue =
      clamp_size_bounds max_queue_size (pos 2048) o.queue_size (omega arith) (omega arith) in
    let request =
      clamp_size_bounds max_request_bytes_ceil (pos 0x40_0000) o.max_request_bytes (omega arith)
        (omega arith) in
    record {
      queue_size = queue.0;
      queue_bounded = queue.1;
      batch_size = or_default-IsPositive (pos 512) o.batch_size (omega arith);
      max_request_bytes = request.0;
      request_bounded = request.1;
      drain_timeout = non_negative_low o.drain_timeout;
      flush_interval = or_default-IsPositive (pos 1_000_000_000) o.flush_interval (omega arith);
      timeout = or_default-IsPositive (pos 10_000_000_000) o.timeout (omega arith);
      retry_initial = or_default-IsPositive (pos 5_000_000_000) o.retry_initial (omega arith);
      retry_max_interval =
          or_default-IsPositive (pos 30_000_000_000) o.retry_max_interval (omega arith);
      retry_max_elapsed =
          or_default-IsPositive (pos 60_000_000_000) o.retry_max_elapsed (omega arith);
      has_severity_of = refl;
      has_client = refl;
      has_err_fn = refl;
    }

-- Options that are usable already stay as they are.
normalize-eq : (b : Build) (o : Options) → IsUsable o → normalize b o ≡ o
unfolding normalize default_options
normalize-eq b o v = rw (
  clamp_size-eq max_queue_size (pos 2048) o.queue_size v.queue_size v.queue_bounded,
  or_default-eq (pos 512) o.batch_size v.batch_size,
  clamp_size-eq max_request_bytes_ceil (pos 0x40_0000) o.max_request_bytes v.max_request_bytes
      v.request_bounded,
  non_negative-eq o.drain_timeout v.drain_timeout,
  or_default-eq (pos 1_000_000_000) o.flush_interval v.flush_interval,
  or_default-eq (pos 10_000_000_000) o.timeout v.timeout,
  or_default-eq (pos 5_000_000_000) o.retry_initial v.retry_initial,
  or_default-eq (pos 30_000_000_000) o.retry_max_interval v.retry_max_interval,
  or_default-eq (pos 60_000_000_000) o.retry_max_elapsed v.retry_max_elapsed,
  v.has_severity_of,
  v.has_client,
  v.has_err_fn,
)

-- Whatever the options do, the exporter's are usable: sizes, intervals and timeouts are positive, the
-- queue and the requests are bounded, the drain timeout is not negative, and mapper, client and error
-- handler are set. Normalising changes exactly the options that are not usable.
pub apply_options-IsUsable :
    (b : Build) (opts : List (Options → Options)) (o : Options)
    → IsUsable (apply_options b opts) × ((normalize b o ≡ o) ↔ IsUsable o)
unfolding apply_options
apply_options-IsUsable b opts o = (
  normalize-IsUsable b (foldl (λ o f. f o) (default_options b) opts),
  (λ e. subst IsUsable e (normalize-IsUsable b o), normalize-eq b o),
)

-- zap's levels, from Debug to Fatal.
abbrev pub IsLevel : ℤ → Type 0
IsLevel l = (negsuc 0 ≤ℤ l) × (l ≤ℤ pos 5)

mapped_order :
    (l k : ℤ)
    → IsLevel l
    → IsLevel k
    → l +ℤ pos 1 ≤ℤ k
    → default_severity_mapper l +ℤ pos 1 ≤ℤ default_severity_mapper k
unfolding default_severity_mapper ◌+ℤ◌
mapped_order (pos n) (pos m) a b c = ground arith
mapped_order (pos n) (negsuc m) a b c = absurd (ground arith)
mapped_order (negsuc n) (pos m) a b c = ground arith
mapped_order (negsuc n) (negsuc m) a b c = absurd (ground arith)

mapped_other : (l : ℤ) → ¬ (IsLevel l) → default_severity_mapper l ≡ pos 0
unfolding default_severity_mapper
mapped_other (pos n) outside = elim (Bool-cases (ltb 5 n)) [
  | inl far ↦ ground arith
  | inr near ↦ absurd (outside (ground arith, ground arith))
]
mapped_other (negsuc zero) outside = absurd (outside (omega arith, omega arith))
mapped_other (negsuc (suc n)) outside = ground arith

clamp_min : (s : ℤ) → clamp_severity s ≡ pos (min (pos_part s) 24)
unfolding clamp_severity
clamp_min (pos n) = ground arith
clamp_min (negsuc n) = ground arith

mapped_kept : (l : ℤ) → clamp_severity (default_severity_mapper l) ≡ default_severity_mapper l
unfolding clamp_severity default_severity_mapper
mapped_kept (pos n) = ground arith
mapped_kept (negsuc n) = ground arith

-- The default mapping sends Debug to DEBUG (5) and Fatal to FATAL3 (23), keeps the strict order of
-- zap's levels in between, and sends any other level to 0 (unspecified). The clamping keeps the numbers
-- 0 to 24, and brings a larger one to 24 and a negative one to 0: so it keeps what the default mapping
-- gives.
pub default_severity_mapper_lem :
    (l k other s : ℤ)
    → IsLevel l
    → IsLevel k
    → l +ℤ pos 1 ≤ℤ k
    → ¬ (IsLevel other)
    → (default_severity_mapper (negsuc 0) ≡ pos 5)
      × (default_severity_mapper (pos 5) ≡ pos 23)
      × (default_severity_mapper l +ℤ pos 1 ≤ℤ default_severity_mapper k)
      × (default_severity_mapper other ≡ pos 0)
      × (clamp_severity s ≡ pos (min (pos_part s) 24))
      × (clamp_severity (default_severity_mapper l) ≡ default_severity_mapper l)
default_severity_mapper_lem l k other s hl hk lt outside = (
  (unfold default_severity_mapper in refl),
  (unfold default_severity_mapper in refl),
  mapped_order l k hl hk lt,
  mapped_other other outside,
  clamp_min s,
  mapped_kept l,
)
