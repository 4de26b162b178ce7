-- ===== src/Writer/System.antt =====
-- The goroutines of an asynchronous Writer of writer.go, step by step: callers of `Write`, `Close`, the
-- flush loop and the reconnect loop. Callers hold `lifecycleMu` shared from their test of `closed` to
-- the end of `enqueue`; `Close` takes it exclusively, once, between setting `closed` and closing
-- `done`. Each operation of `enqueue` on the queue or the counter is a step of its own, between which
-- other callers and the flush loop may move.
pub mod Invariant
pub mod Callers
pub mod Preserve
pub mod Closing
use zapwire.Common.{
  ℕ, suc, ◌+◌, ◌≤◌, ◌<◌, ◌≡◌, ◌⊎◌, Bool, true, false, Option, none, some, List, [], ◌∷◌, ◌++◌,
  Bytes, length, leb, if◌then◌else◌,
}
use zapwire.Config.{DropPolicy, drop_newest, drop_oldest}
use zapwire.Writer.{
  Writer, frame_failed, WriteOutcome, count_dropped, report_err, trigger_reconnect, send,
  drain_reconnect_ch,
}
use zapwire.Writer.Queue.{offer}
use zapwire.Writer.Reconnect.{try_connect, count_reconnect}
use zapwire.Writer.Calls.{admit, tear_down}

-- Why the flush loop drains: a tick, a payload, a `Sync`, or the end.
pub data Reason : Type 0 where
  tick recv sync_all final : Reason

-- The flush loop: at its `select` with a batch, in `drain`, between `getConn` and the end of the
-- write, or returned (`flushDone` closed).
pub data Flusher : Type 0 where
  selecting : List Bytes → Flusher
  draining : Reason → List Bytes → Flusher
  writing : Reason → ℕ → Bytes → ℕ → Flusher
  exited : Flusher

-- `Close`: not called; `closed` set; past the barrier; `done` closed; the connection torn down.
pub data Closer : Type 0 where
  idle flagged barred announced finished : Closer

-- Where a caller stands in `enqueue`: before its first send; before the eviction; between the eviction
-- and its count; before the second send; before the count of its own log.
pub data Stage : Type 0 where
  sending evicting counting resending dropping : Stage

pub record Caller : Type 0 where
  pub payload : Bytes
  pub stage : Stage

-- Where a caller goes on when its first send finds the queue full.
abbrev pub when_full : DropPolicy → Stage
when_full drop_newest = dropping
when_full drop_oldest = evicting

-- `case w.queue <- payload: return`, or `default`
unfoldable pub try_send : Option Writer → Stage → Writer → Writer × Option Stage
try_send (some w') full w = (w', none)
try_send none full w = (w, some full)

-- `case <-w.queue`, or `default`
unfoldable pub try_evict : List Bytes → Writer → Writer × Option Stage
try_evict [] w = (w, some resending)
try_evict (p ∷ q) w = (record w { queue = q }, some counting)

-- One operation of `enqueue`, and where the caller goes on: `none` once it has returned.
unfoldable pub caller_step : DropPolicy → ℕ → Bytes → Stage → Writer → Writer × Option Stage
unfolding try_send try_evict offer count_dropped
caller_step policy cap p sending w = try_send (offer cap p w) (when_full policy) w
caller_step policy cap p evicting w = try_evict w.queue w
caller_step policy cap p counting w = (count_dropped 1 w, some resending)
caller_step policy cap p resending w = try_send (offer cap p w) dropping w
caller_step policy cap p dropping w = (count_dropped 1 w, none)

abbrev pub remaining : Bytes → Option Stage → List Caller
remaining p none = []
remaining p (some k) = record { payload = p; stage = k } ∷ []

-- `admitted` are the callers that hold the lock, inside `enqueue`; `submitted` counts the logs of the
-- callers that have come so far.
pub record System : Type 0 where
  pub w : Writer
  pub admitted : List Caller
  pub submitted : ℕ
  pub closer : Closer
  pub flusher : Flusher

-- Where the loop goes on behind a flush.
abbrev pub next : Reason → Flusher
next tick = selecting []
next recv = selecting []
next sync_all = draining sync_all []
next final = draining final []

-- The loop has nothing to flush.
abbrev pub settle : Reason → List Bytes → Flusher
settle tick b = selecting []
settle recv b = selecting b
settle sync_all b = selecting []
settle final b = exited

module _ (frame : Bytes → List Bytes → Option Bytes) (size : ℕ) where
  -- `flush` up to `getConn`
  unfoldable pub begin_write : Reason → Bytes → ℕ → Writer → Option ℕ → Writer × Flusher
  begin_write r f n w none = (trigger_reconnect (count_dropped n w), next r)
  begin_write r f n w (some c) = (w, writing r c f n)

  unfoldable pub begin_flush : Reason → ℕ → Writer → Option Bytes → Writer × Flusher
  begin_flush r n w none = (report_err frame_failed (count_dropped n w), next r)
  begin_flush r n w (some f) = begin_write r f n w w.conn

  -- Whether the loop flushes the drained batch: on a payload only a full one, else any.
  abbrev pub wants_flush : Reason → List Bytes → Bool
  wants_flush recv b = leb size (length b)
  wants_flush tick [] = false
  wants_flush sync_all [] = false
  wants_flush final [] = false
  wants_flush r (p ∷ ps) = true

  unfoldable pub after_drain : Reason → List Bytes → Writer → Writer × Flusher
  unfolding begin_flush begin_write
  after_drain r b w =
      if wants_flush r b then begin_flush r (length b) w (frame [] b) else (w, settle r b)

-- An attempt of the reconnect loop.
unfoldable pub on_dial : Option ℕ → Writer → Writer
on_dial dial w = let r = try_connect dial w in if r.1 then count_reconnect r.0 else r.0

module _ (policy : DropPolicy) (cap : ℕ) (frame : Bytes → List Bytes → Option Bytes)
    (size : ℕ) where
  pub data Step : System → System → Type 0 where
    -- A caller takes the lock and finds the Writer open.
    enter :
        (s : System) (p : Bytes)
        → s.w.closed ≡ false
        → Step s (record s {
          admitted = s.admitted ++ remaining p (some sending);
          submitted = s.submitted + 1;
        })
    -- A caller takes the lock and finds the Writer closed.
    refuse :
        (s : System) (p : Bytes)
        → s.w.closed ≡ true
        → Step s (record s { w = count_dropped 1 s.w; submitted = s.submitted + 1 })
    -- One of the callers does its next operation, and gives the lock back when it returns.
    move :
        (s : System) (front : List Caller) (c : Caller) (back : List Caller)
        → s.admitted ≡ front ++ (c ∷ back)
        → Step s (record s {
          w = (caller_step policy cap c.payload c.stage s.w).0;
          admitted =
              front
              ++ (remaining c.payload (caller_step policy cap c.payload c.stage s.w).1 ++ back);
        })
    flag :
        (s : System)
        → s.closer ≡ idle
        → Step s (record s { w = record s.w { closed = true }; closer = flagged })
    barrier :
        (s : System) → s.closer ≡ flagged → s.admitted ≡ [] → Step s (record s { closer = barred })
    announce :
        (s : System)
        → s.closer ≡ barred
        → Step s (record s { w = record s.w { done = true }; closer = announced })
    finish :
        (s : System)
        → s.closer ≡ announced
        → s.flusher ≡ exited
        → Step s (record s { w = tear_down s.w; closer = finished })
    wake_done :
        (s : System) (b : List Bytes)
        → s.flusher ≡ selecting b
        → s.w.done ≡ true
        → Step s (record s { flusher = draining final b })
    wake_sync :
        (s : System) (b : List Bytes)
        → s.flusher ≡ selecting b
        → Step s (record s { flusher = draining sync_all b })
    wake_tick :
        (s : System) (b : List Bytes)
        → s.flusher ≡ selecting b
        → Step s (record s { flusher = draining tick b })
    wake_recv :
        (s : System) (b : List Bytes) (p : Bytes) (q : List Bytes)
        → s.flusher ≡ selecting b
        → s.w.queue ≡ p ∷ q
        → Step s
            (record s { w = record s.w { queue = q }; flusher = draining recv (b ++ (p ∷ [])) })
    take :
        (s : System) (r : Reason) (b : List Bytes) (p : Bytes) (q : List Bytes)
        → s.flusher ≡ draining r b
        → length b < size
        → s.w.queue ≡ p ∷ q
        → Step s (record s { w = record s.w { queue = q }; flusher = draining r (b ++ (p ∷ [])) })
    -- `drain` returns: the batch is full, or the queue was empty.
    drained :
        (s : System) (r : Reason) (b : List Bytes)
        → s.flusher ≡ draining r b
        → (size ≤ length b) ⊎ (s.w.queue ≡ [])
        → Step s (record s {
          w = (after_drain frame size r b s.w).0;
          flusher = (after_drain frame size r b s.w).1;
        })
    write_ends :
        (s : System) (r : Reason) (c : ℕ) (f : Bytes) (n : ℕ) (o : WriteOutcome)
        → s.flusher ≡ writing r c f n
        → Step s (record s { w = send c o f n s.w; flusher = next r })
    reconnect : (s : System) (dial : Option ℕ) → Step s (record s { w = on_dial dial s.w })
    take_token : (s : System) → Step s (record s { w = drain_reconnect_ch s.w })

  pub data Reach (s : System) : System → Type 0 where
    here : Reach s s
    later : {t u : System} → Reach s t → Step t u → Reach s u

-- `New` in asynchronous mode.
abbrev pub launch : Writer → System
launch w = record { w = w; admitted = []; submitted = 0; closer = idle; flusher = selecting [] }
