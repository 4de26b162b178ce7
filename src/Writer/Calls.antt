-- ===== src/Writer/Calls.antt =====
-- What a user calls in writer.go (`New`, `Write`, `Close`), and a round of the flush goroutine. The
-- encoder and the framer are parameters, their errors `none`.
use zapwire.Common.{
  ℕ, suc, ◌+◌, Bool, true, false, Option, none, some, List, [], ◌∷◌, ◌++◌, Bytes, length, leb,
  if◌then◌else◌, Result, ok, err,
}
use zapwire.Config.{Mode, mode_sync, mode_async, DropPolicy}
use zapwire.Writer.{
  Writer, connect_failed, WriteOutcome, count_dropped, report_err, trigger_reconnect, write_frame,
  close_conn,
}
use zapwire.Writer.Queue.{enqueue, drain, flush, flush_all}

pub data NewError : Type 0 where
  no_transport no_encoder no_framer : NewError

abbrev pub disconnected : Writer
disconnected = record {
  closed = false;
  done = false;
  conn = none;
  token = false;
  dropped = 0;
  reconnects = 0;
  queue = [];
  sent = [];
  shut = [];
  reports = [];
}

unfoldable pub started : Option ℕ → Writer
unfolding trigger_reconnect report_err
started (some c) = record disconnected { conn = some c }
started none = trigger_reconnect (report_err connect_failed disconnected)

-- `New`: which of its arguments are there, and what the first dial returns.
unfoldable pub new : Bool → Bool → Bool → Option ℕ → Result NewError Writer
unfolding started
new has_transport has_encoder has_framer dial =
    if has_transport
    then (if has_encoder
        then (if has_framer then ok (started dial) else err no_framer)
        else err no_encoder)
    else err no_transport

-- What `Write` returns: the length that it was given, or an error.
pub data Written : Type 0 where
  written : ℕ → Written
  encode_failed frame_failed : Written

-- `writeAsync` under the lock of the lifecycle.
unfoldable pub admit : DropPolicy → ℕ → Bytes → Writer → Writer
unfolding enqueue count_dropped
admit policy cap payload w = if w.closed then count_dropped 1 w else enqueue policy cap payload w

-- The end of `Close`: the connection is taken away and closed.
abbrev shut_held : Option ℕ → Writer → Writer
shut_held none w = w
shut_held (some c) w = close_conn c w

unfoldable pub tear_down : Writer → Writer
unfolding close_conn
tear_down w = shut_held w.conn (record w { conn = none })

module _ (encode : Bytes → Bytes → Option Bytes) (frame : Bytes → List Bytes → Option Bytes) where
  abbrev send_one : WriteOutcome → Bytes → Option Bytes → Writer → Writer × Written
  send_one o p none w = (w, frame_failed)
  send_one o p (some f) w = (write_frame o f 1 w, written (length p))

  unfoldable pub write_sync : WriteOutcome → Bytes → Writer → Writer × Written
  write_sync o p w = elim (encode [] p) [
    | none ↦ (w, encode_failed)
    | some payload ↦ send_one o p (frame [] (payload ∷ [])) w
  ]

  unfoldable pub write_async : DropPolicy → ℕ → Bytes → Writer → Writer × Written
  write_async policy cap p w = elim (encode [] p) [
    | none ↦ (w, encode_failed)
    | some payload ↦ (admit policy cap payload w, written (length p))
  ]

  unfoldable pub write : Mode → DropPolicy → ℕ → WriteOutcome → Bytes → Writer → Writer × Written
  unfolding write_sync write_async
  write mode policy cap o p w =
      if w.closed
      then (w, written (length p))
      else elim mode [ mode_sync ↦ write_sync o p w | mode_async ↦ write_async policy cap p w ]

-- What wakes the flush goroutine at its `select`.
pub data Wake : Type 0 where
  on_done on_flush_req on_tick on_payload : Wake

module _ (frame : Bytes → List Bytes → Option Bytes) (size : ℕ) where
  -- `batch = w.drain(batch)`, a `flush` if the test says so, and the batch that is left
  abbrev drain_flush :
      (List Bytes → Bool) → WriteOutcome → List Bytes → Writer → Writer × List Bytes
  drain_flush test o batch w =
      let d = drain size batch w.queue in
      let w' = record w { queue = d.1 } in
      if test d.0 then (flush frame o d.0 w', []) else (w', d.0)

  -- One round of `flushLoop` while no caller enqueues, with the batch that it carries; on `on_payload`
  -- the queue has one. Its steps beside callers are in Writer.System.
  unfoldable pub flush_round : Wake → (ℕ → WriteOutcome) → List Bytes → Writer → Writer × List Bytes
  flush_round on_done outcomes batch w =
      ((flush_all frame size (suc (length batch + length w.queue)) outcomes batch w).0, [])
  flush_round on_flush_req outcomes batch w =
      ((flush_all frame size (suc (length batch + length w.queue)) outcomes batch w).0, [])
  flush_round on_tick outcomes batch w = drain_flush (λ b. true) (outcomes 0) batch w
  flush_round on_payload outcomes batch w = elim w.queue [
    | [] ↦ (w, batch)
    | p ∷ q ↦
        drain_flush (λ b. leb size (length b)) (outcomes 0) (batch ++ (p ∷ []))
          (record w { queue = q })
  ]

-- `Close`, with what the flush goroutine does between `close(w.done)` and its end.
unfoldable pub close : (Writer → Writer) → Writer → Writer
unfolding tear_down
close finish w =
    if w.closed then w else tear_down (finish (record w { closed = true; done = true }))
