-- ===== src/Writer.antt =====
-- writer.go: the state of a Writer, and the operations on its connection. A connection is a number.
-- What the network answers is an argument of the operation that asks. Each function is what one
-- goroutine does under the lock that the code takes, or between two channel operations.
pub mod Frames
pub mod Queue
pub mod Reconnect
pub mod Calls
pub mod System
use zapwire.Common.{
  ℕ, ◌+◌, ◌%◌, ◌^◌, Bool, true, false, Option, none, some, List, [], ◌∷◌, ◌++◌, Bytes, ◌==◌, sum_by,
  if◌then◌else◌,
}

-- What goes to the error handler, or to stderr.
pub data Report : Type 0 where
  connect_failed connection_error frame_failed : Report

-- A frame that was written whole: its connection, its bytes, and the logs that it carries.
pub record Sent : Type 0 where
  pub via : ℕ
  pub frame : Bytes
  pub logs : ℕ

-- `Writer`, with what the outside has seen of it: the frames sent, the connections closed and the
-- errors reported. `token` is `reconnectCh`, a channel of capacity one.
pub record Writer : Type 0 where
  pub closed : Bool
  pub done : Bool
  pub conn : Option ℕ
  pub token : Bool
  pub dropped : ℕ
  pub reconnects : ℕ
  pub queue : List Bytes
  pub sent : List Sent
  pub shut : List ℕ
  pub reports : List Report

-- `droppedLogs.Add(uint64(n))`
unfoldable pub count_dropped : ℕ → Writer → Writer
count_dropped n w = record w { dropped = (w.dropped + n) % 2 ^ 64 }

-- A send that does not block: a token that is there already stays the only one.
unfoldable pub trigger_reconnect : Writer → Writer
trigger_reconnect w = record w { token = true }

unfoldable pub drain_reconnect_ch : Writer → Writer
drain_reconnect_ch w = record w { token = false }

unfoldable pub report_err : Report → Writer → Writer
report_err r w = record w { reports = w.reports ++ (r ∷ []) }

-- `conn.Close()` of a connection that the Writer gives up.
unfoldable pub close_conn : ℕ → Writer → Writer
close_conn c w = record w { shut = w.shut ++ (c ∷ []) }

abbrev pub is_conn : Option ℕ → ℕ → Bool
is_conn none c = false
is_conn (some d) c = d == c

unfoldable pub has_conn : Writer → Bool
has_conn w = elim w.conn [ none ↦ false | some c ↦ true ]

unfoldable pub is_connected : Writer → Bool
unfolding has_conn
is_connected w = if has_conn w then (if w.closed then false else true) else false

-- `handleWriteError`: only the connection that failed is discarded.
unfoldable pub handle_write_error : ℕ → Writer → Writer
unfolding close_conn report_err trigger_reconnect
handle_write_error failed w =
    if is_conn w.conn failed
    then trigger_reconnect
        (report_err connection_error (close_conn failed (record w { conn = none })))
    else w

-- How `SetWriteDeadline` and `Write` end on a connection.
pub data WriteOutcome : Type 0 where
  wrote deadline_failed write_failed : WriteOutcome

-- `writeFrame` behind `getConn`, on the connection that it returned. Other goroutines may have run
-- in between, so `w` may hold another connection by now.
unfoldable pub send : ℕ → WriteOutcome → Bytes → ℕ → Writer → Writer
unfolding count_dropped handle_write_error
send c wrote frame n w = record w {
  sent = w.sent ++ (record { via = c; frame = frame; logs = n } ∷ []);
}
send c deadline_failed frame n w = handle_write_error c (count_dropped n w)
send c write_failed frame n w = handle_write_error c (count_dropped n w)

-- `writeFrame` behind `getConn`, by the connection that it returned.
unfoldable pub at_conn : WriteOutcome → Bytes → ℕ → Writer → Option ℕ → Writer
unfolding send trigger_reconnect count_dropped
at_conn o frame n w none = trigger_reconnect (count_dropped n w)
at_conn o frame n w (some c) = send c o frame n w

-- `writeFrame` where no other goroutine runs between `getConn` and the write.
unfoldable pub write_frame : WriteOutcome → Bytes → ℕ → Writer → Writer
unfolding at_conn
write_frame o frame n w = at_conn o frame n w w.conn

-- The logs that have reached a connection.
abbrev pub delivered : Writer → ℕ
delivered w = sum_by (λ s. s.logs) w.sent
