-- ===== src/Examples/Writers.antt =====
-- Concrete runs of the Writer and its options.
use zapwire.Common.{
  ◌+◌, ◌-◌, ◌%◌, ◌^◌, ◌≤◌, ◌<◌, ◌≡◌, refl, inl, inr, true, false, Option, none, some, List, [], ◌∷◌,
  ◌++◌, Bytes, length, drop, arith,
}
use zapwire.Common.Int.{pos}
use zapwire.Config.{drop_newest, drop_oldest, configure, with_batch_size}
use zapwire.Config.Normalize.{IsValid, configure-IsValid}
use zapwire.Writer.{Writer, wrote, delivered, close_conn, send}
use zapwire.Writer.Calls.{started, disconnected, tear_down}
use zapwire.Writer.Queue.{enqueue, offer, flush_all}
use zapwire.Writer.Queue.Laws.{Enqueued, enqueue_lem, enqueue_oldest, FlushedAll, flush_all_lem}
use zapwire.Writer.Reconnect.{Attempt, burst}
use zapwire.Writer.Reconnect.Backoff.{Leaves, schedule, burst-schedule}
use zapwire.Writer.System.{
  System, Reach, here, later, enter, move, flag, sending, caller_step, try_send, barrier, announce,
  finish, wake_recv, wake_done, drained, write_ends, launch, finished, exited, recv, final,
  after_drain, begin_flush, begin_write,
}
use zapwire.Writer.System.Invariant.{held, carried}
use zapwire.Writer.Queue.Beside.{offered, counted, flush_all_beside, flush_all_beside_ends}
use zapwire.Writer.System.Closing.{every_log_accounted, close_strands_nothing}

abbrev log : Bytes
log = 1 ∷ 2 ∷ []

-- Frames are the payloads, one after the other.
abbrev joined : Bytes → List Bytes → Option Bytes
joined dst [] = some dst
joined dst (p ∷ ps) = joined (dst ++ p) ps

-- A log that is enqueued and sent, and then `Close`.
abbrev at_end : System
at_end = record {
  w = record disconnected {
    closed = true;
    done = true;
    sent = record { via = 7; frame = log; logs = 1 } ∷ [];
    shut = 7 ∷ [];
  };
  admitted = [];
  submitted = 1;
  closer = finished;
  flusher = exited;
}

closing_run : Reach drop_newest 2 joined 1 (launch (started (some 7))) at_end
unfolding started caller_step try_send offer after_drain begin_flush begin_write send tear_down
    close_conn
closing_run =
    later
      (later
        (later
          (later
            (later
              (later
                (later
                  (later
                    (later
                      (later (later here (enter _ log refl))
                        (move _ [] (record { payload = log; stage = sending }) [] refl))
                      (wake_recv _ [] log [] refl refl))
                    (drained _ recv (log ∷ []) refl (inl (omega arith))))
                  (write_ends _ recv 7 log 1 wrote refl))
                (flag _ refl))
              (barrier _ refl refl))
            (announce _ refl))
          (wake_done _ [] refl refl))
        (drained _ final [] refl (inr refl)))
      (finish _ refl refl)

every_log_accounted_example :
    ((at_end.w.dropped
          + delivered at_end.w
          + length at_end.w.queue
          + carried at_end.admitted
          + held at_end.flusher)
        % 2 ^ 64
      ≡ at_end.submitted % 2 ^ 64)
    × (length at_end.w.queue ≤ 2)
every_log_accounted_example =
    every_log_accounted drop_newest 2 joined 1 (omega arith) (some 7) closing_run

close_strands_nothing_example :
    (at_end.w.queue ≡ [])
    × (at_end.admitted ≡ [])
    × (at_end.flusher ≡ exited)
    × (at_end.w.conn ≡ none)
    × ((at_end.w.dropped + delivered at_end.w) % 2 ^ 64 ≡ at_end.submitted % 2 ^ 64)
close_strands_nothing_example =
    close_strands_nothing drop_newest 2 joined 1 (omega arith) (some 7) closing_run refl

abbrev queued : List Bytes → Writer
queued q = record disconnected { conn = some 7; queue = q }

enqueue_lem_example :
    Enqueued drop_newest 1 log (queued (log ∷ [])) (enqueue drop_newest 1 log (queued (log ∷ [])))
enqueue_lem_example = enqueue_lem drop_newest 1 log (queued (log ∷ []))

enqueue_oldest_example :
    (enqueue drop_oldest 2 log (queued ([] ∷ log ∷ []))).queue
    ≡ drop (length ([] ∷ log ∷ []) + 1 - 2) ([] ∷ log ∷ []) ++ (log ∷ [])
enqueue_oldest_example = enqueue_oldest 2 log (queued ([] ∷ log ∷ [])) (omega arith) (omega arith)

flush_all_lem_example :
    FlushedAll joined
      (log ∷ [])
      (queued (log ∷ log ∷ []))
      (flush_all joined 2 4 (λ _. wrote) (log ∷ []) (queued (log ∷ log ∷ [])))
flush_all_lem_example =
    flush_all_lem joined 2 4 (λ _. wrote) (log ∷ []) (queued (log ∷ log ∷ [])) (omega arith)
      (omega arith) (omega arith)

-- Two dials fail, the third one connects.
abbrev dials : List Attempt
dials =
    record { done_before = false; dial = none; done_waiting = false }
    ∷ record { done_before = false; dial = none; done_waiting = false }
    ∷ record { done_before = false; dial = some 8; done_waiting = false }
    ∷ []

burst-schedule_example :
    let r = burst 5 (pos 300) (pos 200) dials disconnected in
    (r.waits ≡ schedule (length r.waits) 300 200)
    × (length r.waits < 5)
    × Leaves r.ending disconnected.conn r.after.conn
burst-schedule_example =
    burst-schedule 5 300 200 dials disconnected (omega arith) (omega arith) (omega arith)

configure-IsValid_example : IsValid (configure (with_batch_size (pos 0) ∷ []))
configure-IsValid_example = configure-IsValid (with_batch_size (pos 0) ∷ [])

-- Two more logs come while the loop runs, the second of them into a queue that is full.
flush_all_beside_ends_example :
    let r =
      flush_all_beside joined 1 1 6
        (λ _. wrote)
        ((offered log ∷ []) ∷ (offered log ∷ counted ∷ []) ∷ [])
        (log ∷ [])
        (queued (log ∷ [])) in
    (r.1 ≡ true) × (r.0.queue ≡ [])
flush_all_beside_ends_example =
    flush_all_beside_ends joined 1 1 6 (λ _. wrote)
      ((offered log ∷ []) ∷ (offered log ∷ counted ∷ []) ∷ []) (log ∷ []) (queued (log ∷ []))
      (omega arith) (omega arith)
