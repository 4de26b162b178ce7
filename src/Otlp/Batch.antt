-- ===== src/Otlp/Batch.antt =====
-- The queue and the batches of otlp/writer.go: `Write`, and `add`, `flush` and `drainQueued` of its
-- flush goroutine `run`.
pub mod Cut
pub mod Admission
use zapwire.Common.{
  ℕ, zero, suc, ◌+◌, ◌%◌, ◌^◌, Bool, true, false, Option, none, some, List, [], ◌∷◌, ◌++◌, Bytes,
  length, ltb, leb, ◌&&◌, ◌||◌, if◌then◌else◌,
}
use zapwire.Config.{DropPolicy, drop_newest, drop_oldest}
use zapwire.Otlp.Envelope.{Envelope, record_cost, size_for}
use zapwire.Otlp.Export.{
  Account, Prepared, RetryConfig, Trip, Verdict, settled, again, crashed, export,
}

-- What a `Write` sees of a Writer: `notices` counts the reports of a record that is too large.
pub record Intake : Type 0 where
  pub closed : Bool
  pub queue : List Bytes
  pub dropped : ℕ
  pub notices : ℕ

abbrev pub drop_one : Intake → Intake
drop_one w = record w { dropped = (w.dropped + 1) % 2 ^ 64 }

-- `select { case <-w.queue: w.dropped.Add(1); default: }`
abbrev pub evict : List Bytes → Intake → Intake
evict [] w = w
evict (r ∷ q) w = drop_one (record w { queue = q })

-- `select { case w.queue <- rec: default: }`, and what happens if the queue is full.
abbrev pub offer_or : ℕ → Bytes → Intake → Intake → Intake
offer_or cap rec full w =
    if ltb (length w.queue) cap then record w { queue = w.queue ++ (rec ∷ []) } else full

module _ (env : Envelope) (max_bytes : ℕ) where
  -- `record exceeds WithMaxRequestBytes`
  unfoldable pub too_large : Bytes → Bool
  too_large p = ltb max_bytes (size_for env (record_cost (length p)))

  -- `Write`, while nobody else touches the queue.
  unfoldable pub write : DropPolicy → ℕ → Bytes → Intake → Intake
  unfolding too_large
  write policy cap p w =
      if w.closed
      then w
      else if too_large p
      then record (drop_one w) { notices = w.notices + 1 }
      else offer_or cap p
          (elim policy [
            | drop_newest ↦ drop_one w
            | drop_oldest ↦ offer_or cap p (drop_one (evict w.queue w)) (evict w.queue w)
          ])
          w

-- What `run` keeps: `batch` and `tagged`, and what the batches that it exported came to. Once an export
-- has panicked or not returned, the goroutine is `stopped`, and nothing moves any more.
pub record Flusher : Type 0 where
  pub batch : List Bytes
  pub tagged : ℕ
  pub shipped : List (List Bytes)
  pub account : Account
  pub stopped : Bool

-- `batch = batch[:0]; tagged = 0` behind an export of `b`, if it returned.
abbrev pub after_export : Verdict → List Bytes → Flusher → Flusher
after_export (settled s') b f = record {
  batch = [];
  tagged = 0;
  shipped = f.shipped ++ (b ∷ []);
  account = s';
  stopped = f.stopped;
}
after_export (again delay now) b f = record f { stopped = true }
after_export crashed b f = record f { stopped = true }

-- `drainBudget`
unfoldable pub drain_budget : ℕ → ℕ → Option ℕ
drain_budget drain_every now = if ltb 0 drain_every then some (now + drain_every) else none

-- What the select of `run` chooses: the cancelled context or a Sync at an instant, with the records
-- that the drain receives; the ticker; a record.
pub data Event : Type 0 where
  cancelled : ℕ → List Bytes → Event
  sync : ℕ → List Bytes → Event
  tick : Event
  receive : Bytes → Event

-- The n-th batch is exported on the n-th trip.
module _ (prepare : Bytes → Prepared) (env : Envelope) (c : RetryConfig) (trips : ℕ → Trip)
    (max_bytes batch_size : ℕ) where
  unfoldable pub flush : Bool → Option ℕ → Flusher → Flusher
  unfolding export
  flush allow_retry drain_deadline f = if f.stopped then f else elim f.batch as (λ _. Flusher) [
    | [] ↦ f
    | r ∷ rs ↦
        after_export
          (export prepare env c allow_retry drain_deadline (trips (length f.shipped)) (r ∷ rs)
            f.account)
          (r ∷ rs) f
  ]

  -- `batch = append(batch, rec); tagged += cost`
  abbrev pub append : Bytes → Flusher → Flusher
  append rec f =
      if f.stopped
      then f
      else record f { batch = f.batch ++ (rec ∷ []); tagged = f.tagged + record_cost (length rec) }

  unfoldable pub flush_full : Bool → Option ℕ → Flusher → Flusher
  unfolding flush
  flush_full allow_retry drain_deadline f =
      if leb batch_size (length f.batch) || leb max_bytes (size_for env f.tagged)
      then flush allow_retry drain_deadline f
      else f

  unfoldable pub cut : Bytes → Bool → Option ℕ → Flusher → Flusher
  unfolding flush
  cut rec allow_retry drain_deadline f =
      if ltb 0 (length f.batch)
        && ltb max_bytes (size_for env (f.tagged + record_cost (length rec)))
      then flush allow_retry drain_deadline f
      else f

  unfoldable pub add : Bytes → Bool → Option ℕ → Flusher → Flusher
  unfolding cut flush_full
  add rec allow_retry drain_deadline f =
      flush_full allow_retry drain_deadline (append rec (cut rec allow_retry drain_deadline f))

  -- `drainQueued`, by the records that it receives before it finds the queue empty.
  unfoldable pub drain_queued : Bool → Option ℕ → List Bytes → Flusher → Flusher
  unfolding flush add
  drain_queued allow_retry drain_deadline [] f = flush allow_retry drain_deadline f
  drain_queued allow_retry drain_deadline (rec ∷ q) f =
      drain_queued allow_retry drain_deadline q (add rec allow_retry drain_deadline f)

  -- One round of the loop of `run`.
  unfoldable pub on_event : ℕ → Event → Flusher → Flusher
  unfolding drain_queued drain_budget flush add
  on_event drain_every (cancelled now q) f = drain_queued false (drain_budget drain_every now) q f
  on_event drain_every (sync now q) f = drain_queued true (drain_budget drain_every now) q f
  on_event drain_every tick f = flush true none f
  on_event drain_every (receive rec) f = add rec true none f

  unfoldable pub run : ℕ → List Event → Flusher → Flusher
  unfolding on_event
  run drain_every [] f = f
  run drain_every (e ∷ es) f = run drain_every es (on_event drain_every e f)
