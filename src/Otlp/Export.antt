-- ===== src/Otlp/Export.antt =====
-- otlp/transport.go and `export` of otlp/writer.go: one batch on its way to the collector. The
-- transport and the clock answer through arguments. Instants and durations count nanoseconds; the
-- backoff is the bit pattern of an int64, since doubling it can wrap around.
pub mod Retry
pub mod Accept
use zapwire.Common.{
  ℕ, zero, suc, ◌+◌, ◌-◌, ◌*◌, ◌/◌, ◌%◌, ◌^◌, min, Bool, true, false, Option, none, some, List, [],
  ◌∷◌, ◌++◌, Bytes, length, ltb, leb, ◌&&◌, if◌then◌else◌, Result, ok, err,
}
use zapwire.Common.Int.{ℤ, pos, negsuc}
use zapwire.Otlp.Proto.Varint.{to_u64}
use zapwire.Otlp.Proto.Read.{ReadError, decode_partial_success}
use zapwire.Otlp.Envelope.{Envelope, assemble}

-- `ExportError`; the wrapped error is its text.
pub record ExportError : Type 0 where
  pub status_code : ℕ
  pub grpc_status : ℤ
  pub retryable : Bool
  pub rejected : ℤ
  pub warning : Bool
  pub message : Bytes
  pub cause : Option Bytes
  pub retry_after : ℕ

-- `ExportError{Message: m}`
abbrev pub error_of : Bytes → ExportError
error_of m = record {
  status_code = 0;
  grpc_status = pos 0;
  retryable = false;
  rejected = pos 0;
  warning = false;
  message = m;
  cause = none;
  retry_after = 0;
}

-- `acceptance`
pub record Acceptance : Type 0 where
  pub rejected : ℤ
  pub event : Option ExportError

-- `prepared`
pub record Prepared : Type 0 where
  pub body : Bytes
  pub compressed : Bool
  pub warn : Option ExportError
  pub fail : Option ExportError

abbrev with_rejected : ℤ → Bytes → ExportError → Option Acceptance
with_rejected n msg base =
    some (record { rejected = n; event = some (record base { rejected = n; message = msg }) })

abbrev with_message : Bytes → ExportError → Option Acceptance
with_message [] base = none
with_message (c ∷ msg) base =
    some (record {
      rejected = pos 0;
      event = some (record base { warning = true; message = c ∷ msg });
    })

-- `classifyAccept`
unfoldable pub classify_accept : Result Bytes (ℤ × Bytes) → ExportError → Option Acceptance
classify_accept (err derr) base =
    some (record { rejected = pos 0; event = some (record base { cause = some derr }) })
classify_accept (ok (pos (suc n), msg)) base = with_rejected (pos (suc n)) msg base
classify_accept (ok (pos zero, msg)) base = with_message msg base
classify_accept (ok (negsuc n, msg)) base = with_message msg base

abbrev describe : (ReadError → Bytes) → Result ReadError (ℤ × Bytes) → Result Bytes (ℤ × Bytes)
describe text (ok r) = ok r
describe text (err e) = err (text e)

-- `resolveAccept`; `text` is the text of a decoding error.
unfoldable pub resolve_accept : (ReadError → Bytes) → Bytes → ExportError → Option Acceptance
unfolding classify_accept decode_partial_success
resolve_accept text resp_msg base =
    classify_accept (describe text (decode_partial_success resp_msg)) base

-- What the exporter has counted as dropped, and what went to the error handler.
pub record Account : Type 0 where
  pub dropped : ℕ
  pub events : List ExportError

abbrev pub notify : Option ExportError → Account → Account
notify none s = s
notify (some e) s = record s { events = s.events ++ (e ∷ []) }

-- `(*Writer).drop`
unfoldable pub drop_records : ℕ → Option ExportError → Account → Account
drop_records n e s = notify e (record s { dropped = (s.dropped + n) % 2 ^ 64 })

-- The switch over a server's acceptance.
unfoldable pub accepted : Option Acceptance → Account → Account
unfolding drop_records
accepted none s = s
accepted (some a) s = elim a.rejected [
  | pos zero ↦ notify a.event s
  | pos (suc n) ↦ drop_records (suc n) a.event s
  | negsuc n ↦ notify a.event s
]

-- One turn of the retry loop, as the world plays it: how long `attempt` took and what it returned,
-- whether the context was cancelled by then, the random number, and the wait: whether the timer fired
-- before the context, and by how much too late.
pub record Turn : Type 0 where
  pub took : ℕ
  pub answer : Result ExportError (Option Acceptance)
  pub cancelled : Bool
  pub jitter : ℕ
  pub timer : Bool
  pub late : ℕ

-- `settled`: `export` returns. `again`: the next turn's backoff and instant. `crashed`: the panic of
-- `rand.N` on an argument that is not positive.
pub data Verdict : Type 0 where
  settled : Account → Verdict
  again : ℕ → ℕ → Verdict
  crashed : Verdict

-- `if delay *= 2; delay > w.retry.MaxInterval { delay = w.retry.MaxInterval }`
unfoldable pub next_delay : ℕ → ℕ → ℕ
next_delay max_interval delay =
    let twice = delay * 2 % 2 ^ 64 in
    if ltb twice (2 ^ 63) && ltb max_interval twice then max_interval else twice

-- The wait: the server's, or the backoff with its jitter.
unfoldable pub pause : ℕ → ℕ → ℕ → ℕ
pause retry_after delay jitter = if ltb 0 retry_after then retry_after else delay / 2 + jitter

-- The wait of a failed attempt that may be tried again, from the instant at which it ended.
unfoldable pub wait : ℕ → ℕ → ℕ → ℕ → ℕ → Turn → ExportError → Account → Verdict
unfolding next_delay pause drop_records
wait max_interval deadline n delay now t e s =
    if leb (2 ^ 63) delay
    then crashed
    else if ltb deadline (now + pause e.retry_after delay t.jitter)
    then settled (drop_records n (some e) s)
    else if t.timer
    then again (next_delay max_interval delay) (now + pause e.retry_after delay t.jitter + t.late)
    else settled (drop_records n (some e) s)

-- The body of the retry loop.
unfoldable pub on_turn : Bool → ℕ → ℕ → ℕ → ℕ → ℕ → Turn → Account → Verdict
unfolding accepted wait drop_records
on_turn allow_retry max_interval deadline n delay now t s = elim t.answer [
  | ok a ↦ settled (accepted a s)
  | err e ↦
      if allow_retry && e.retryable && (if t.cancelled then false else true)
      then wait max_interval deadline n delay (now + t.took) t e s
      else settled (drop_records n (some e) s)
]

-- The retry loop on fuel: the turn number `i` on.
unfoldable pub retry_loop : ℕ → Bool → ℕ → ℕ → ℕ → (ℕ → Turn) → ℕ → ℕ → ℕ → Account → Verdict
unfolding on_turn
retry_loop zero allow_retry max_interval deadline n turns i delay now s = again delay now
retry_loop (suc fuel) allow_retry max_interval deadline n turns i delay now s =
    elim (on_turn allow_retry max_interval deadline n delay now (turns i) s) [
      | settled s' ↦ settled s'
      | again delay' now' ↦
          retry_loop fuel allow_retry max_interval deadline n turns (suc i) delay' now' s
      | crashed ↦ crashed
    ]

-- `RetryConfig`
pub record RetryConfig : Type 0 where
  pub initial : ℕ
  pub max_interval : ℕ
  pub max_elapsed : ℕ

-- `deadline`: the budget of the batch, capped by that of the drain.
unfoldable pub deadline_of : RetryConfig → Option ℕ → ℕ → ℕ
deadline_of c none now = now + c.max_elapsed
deadline_of c (some drain_deadline) now = min drain_deadline (now + c.max_elapsed)

unfoldable pub drain_spent : Option ℕ → ℕ → Bool
drain_spent none now = false
drain_spent (some drain_deadline) now = leb drain_deadline now

-- `drain timeout exceeded`
abbrev pub drain_timeout_exceeded : Bytes
drain_timeout_exceeded =
    b'd' ∷ b'r' ∷ b'a' ∷ b'i' ∷ b'n' ∷ b' ' ∷ b't' ∷ b'i' ∷ b'm' ∷ b'e' ∷ b'o' ∷ b'u' ∷ b't' ∷ b' '
    ∷ b'e' ∷ b'x' ∷ b'c' ∷ b'e' ∷ b'e' ∷ b'd' ∷ b'e' ∷ b'd' ∷ []

-- What the world plays while one batch is exported.
pub record Trip : Type 0 where
  pub now : ℕ
  pub turns : ℕ → Turn

module _ (prepare : Bytes → Prepared) (env : Envelope) (c : RetryConfig) where
  -- `export`, with as much fuel as there are nanoseconds to the deadline, and three turns more.
  unfoldable pub export : Bool → Option ℕ → Trip → List Bytes → Account → Verdict
  unfolding drain_spent deadline_of retry_loop drop_records
  export allow_retry drain_deadline t [] s = settled s
  export allow_retry drain_deadline t (r ∷ rs) s =
      let n = length (r ∷ rs) in
      let p = prepare (assemble env [] (r ∷ rs)) in
      let deadline = deadline_of c drain_deadline t.now in
      if drain_spent drain_deadline t.now
      then settled (drop_records n (some (error_of drain_timeout_exceeded)) s)
      else elim p.fail [
        | some e ↦ settled (drop_records n (some e) s)
        | none ↦
            retry_loop (deadline - t.now + 3) allow_retry c.max_interval deadline n t.turns 0
              c.initial t.now (notify p.warn s)
      ]
