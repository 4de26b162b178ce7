-- ===== src/Writer/System/Closing.antt =====
-- What a caller of `Write` and of `Close` can rely on, in every interleaving of the goroutines of
-- writer.go.
use zapwire.Common.{
  ℕ, ◌+◌, ◌%◌, ◌^◌, ◌≤◌, ◌<◌, ◌≡◌, refl, ◌∙◌, ap, true, Option, none, some, List, [], Bytes, length,
  arith,
}
use zapwire.Config.{DropPolicy}
use zapwire.Writer.{
  Writer, count_dropped, trigger_reconnect, report_err, delivered, close_conn, drain_reconnect_ch,
}
use zapwire.Writer.Reconnect.{try_connect, count_reconnect}
use zapwire.Writer.Calls.{tear_down, started}
use zapwire.Writer.System.Callers.{caller_step_lem}
use zapwire.Writer.System.{
  exited, Closer, idle, flagged, barred, announced, finished, System, on_dial, Step, enter, refuse,
  move, flag, barrier, announce, finish, wake_done, wake_sync, wake_tick, wake_recv, take, drained,
  write_ends, reconnect, take_token, Caller, Reach, here, later, launch,
}
use zapwire.Writer.System.Invariant.{held, carried, Progress, Drained, Inv}
use zapwire.Writer.System.Preserve.{Step-Inv, tear_down-Settles}
use mathlib.Core.Path.{subst}

started-Inv : (cap : ℕ) (dial : Option ℕ) → Inv cap (launch (started dial))
unfolding started trigger_reconnect report_err
started-Inv cap none = record {
  account = refl;
  bounded = omega arith;
  progress = (refl, refl);
  drained = tt;
}
started-Inv cap (some c) = record {
  account = refl;
  bounded = omega arith;
  progress = (refl, refl);
  drained = tt;
}

-- `done` is closed only behind the barrier.
no_caller_inside :
    (k : Closer) (w : Writer) (admitted : List Caller)
    → w.done ≡ true
    → Progress k w admitted
    → (w.closed ≡ true) × (admitted ≡ [])
no_caller_inside idle w a d h = cc
no_caller_inside flagged w a d h = cc
no_caller_inside barred w a d h = cc
no_caller_inside announced w a d h = (h.0, h.2)
no_caller_inside finished w a d h = (h.0, h.2)

-- `Close` has returned: the flush loop has too, and no connection is held.
record Ended (s : System) : Type 0 where
  closed : s.w.closed ≡ true
  gone : s.flusher ≡ exited
  conn : s.w.conn ≡ none

tear_down-conn : (w : Writer) → (tear_down w).conn ≡ none
unfolding tear_down close_conn
tear_down-conn w = ground arith

-- A closed Writer takes no new connection.
on_dial_closed :
    (dial : Option ℕ) (w : Writer)
    → w.closed ≡ true
    → ((on_dial dial w).closed ≡ true) × ((on_dial dial w).conn ≡ w.conn)
unfolding on_dial try_connect count_reconnect close_conn
on_dial_closed none w h = (h, refl)
on_dial_closed (some c) w h = ground arith

module _ (policy : DropPolicy) (cap : ℕ) (frame : Bytes → List Bytes → Option Bytes)
    (size : ℕ) where
  Step-Ended : {s t : System} → Step policy cap frame size s t → Ended s → Ended t
  unfolding count_dropped drain_reconnect_ch
  Step-Ended (enter s p e) h = record { closed = h.closed; gone = h.gone; conn = h.conn }
  Step-Ended (refuse s p e) h = record { closed = h.closed; gone = h.gone; conn = h.conn }
  Step-Ended (move s front c back e) h =
      let i = caller_step_lem policy cap c.payload c.stage s.w in
      record { closed = i.closed ∙ h.closed; gone = h.gone; conn = i.conn ∙ h.conn }
  Step-Ended (flag s e) h = record { closed = refl; gone = h.gone; conn = h.conn }
  Step-Ended (barrier s e a) h = record { closed = h.closed; gone = h.gone; conn = h.conn }
  Step-Ended (announce s e) h = record { closed = h.closed; gone = h.gone; conn = h.conn }
  Step-Ended (finish s e f) h = record {
    closed = (tear_down-Settles s.w).closed ∙ h.closed;
    gone = h.gone;
    conn = tear_down-conn s.w;
  }
  Step-Ended (wake_done s b e d) h = absurd (cc (h.gone, e))
  Step-Ended (wake_sync s b e) h = absurd (cc (h.gone, e))
  Step-Ended (wake_tick s b e) h = absurd (cc (h.gone, e))
  Step-Ended (wake_recv s b p q e eq) h = absurd (cc (h.gone, e))
  Step-Ended (take s r b p q e lt eq) h = absurd (cc (h.gone, e))
  Step-Ended (drained s r b e stop) h = absurd (cc (h.gone, e))
  Step-Ended (write_ends s r c f n o e) h = absurd (cc (h.gone, e))
  Step-Ended (reconnect s dial) h =
      let (c, k) = on_dial_closed dial s.w h.closed in
      record { closed = c; gone = h.gone; conn = k ∙ h.conn }
  Step-Ended (take_token s) h = record { closed = h.closed; gone = h.gone; conn = h.conn }

  Step-finished :
      {s t : System}
      → Step policy cap frame size s t
      → (s.closer ≡ finished → Ended s)
      → Inv cap s
      → t.closer ≡ finished
      → Ended t
  Step-finished (enter s p q) h inv e = Step-Ended (enter s p q) (h e)
  Step-finished (refuse s p q) h inv e = Step-Ended (refuse s p q) (h e)
  Step-finished (move s front c back q) h inv e = Step-Ended (move s front c back q) (h e)
  Step-finished (flag s q) h inv e = cc
  Step-finished (barrier s q a) h inv e = cc
  Step-finished (announce s q) h inv e = cc
  Step-finished (finish s q f) h inv e = record {
    closed =
        (tear_down-Settles s.w).closed ∙ (subst (λ k. Progress k s.w s.admitted) q inv.progress).0;
    gone = f;
    conn = tear_down-conn s.w;
  }
  Step-finished (wake_done s b q d) h inv e = Step-Ended (wake_done s b q d) (h e)
  Step-finished (wake_sync s b q) h inv e = Step-Ended (wake_sync s b q) (h e)
  Step-finished (wake_tick s b q) h inv e = Step-Ended (wake_tick s b q) (h e)
  Step-finished (wake_recv s b p l q r) h inv e = Step-Ended (wake_recv s b p l q r) (h e)
  Step-finished (take s r b p l q lt x) h inv e = Step-Ended (take s r b p l q lt x) (h e)
  Step-finished (drained s r b q stop) h inv e = Step-Ended (drained s r b q stop) (h e)
  Step-finished (write_ends s r c f n o q) h inv e = Step-Ended (write_ends s r c f n o q) (h e)
  Step-finished (reconnect s dial) h inv e = Step-Ended (reconnect s dial) (h e)
  Step-finished (take_token s) h inv e = Step-Ended (take_token s) (h e)

  module _ (positive : 0 < size) (dial : Option ℕ) where
    -- Every reachable state of a Writer that `New` started keeps the invariant.
    Reach-Inv : {s : System} → Reach policy cap frame size (launch (started dial)) s → Inv cap s
    Reach-Inv here = started-Inv cap dial
    Reach-Inv (later r st) = Step-Inv policy cap frame size positive st (Reach-Inv r)

    Reach-finished :
        {s : System}
        → Reach policy cap frame size (launch (started dial)) s
        → s.closer ≡ finished
        → Ended s
    Reach-finished here e = cc
    Reach-finished (later r st) e = Step-finished st (Reach-finished r) (Reach-Inv r) e

    -- No log is lost without count, in every interleaving from `New` on, if the batch size is
    -- positive: at every moment the logs that callers have brought past the encoder are those
    -- delivered, those counted as dropped, those in the queue, those of callers inside `enqueue`
    -- (one each, and one more between an eviction and its count), and those that the flush loop
    -- holds, modulo 2 ^ 64 as the counter counts; and the queue keeps to its capacity. The steps of
    -- several callers' `enqueue` and of the flush loop may alternate in any way.
    pub every_log_accounted :
        {s : System}
        → Reach policy cap frame size (launch (started dial)) s
        → ((s.w.dropped + delivered s.w + length s.w.queue + carried s.admitted + held s.flusher)
              % 2 ^ 64
            ≡ s.submitted % 2 ^ 64)
          × (length s.w.queue ≤ cap)
    every_log_accounted r = let inv = Reach-Inv r in (omega (arith, inv.account), inv.bounded)

    -- Once `Close` has returned, in every interleaving from `New` on and with a positive batch
    -- size, nothing is stranded: the queue is empty, no caller is inside `enqueue`, the flush loop is
    -- gone, no connection is held, and every log is delivered or counted as dropped, modulo 2 ^ 64.
    -- This stays so whatever callers and the reconnect loop do afterwards.
    pub close_strands_nothing :
        {s : System}
        → Reach policy cap frame size (launch (started dial)) s
        → s.closer ≡ finished
        → (s.w.queue ≡ [])
          × (s.admitted ≡ [])
          × (s.flusher ≡ exited)
          × (s.w.conn ≡ none)
          × ((s.w.dropped + delivered s.w) % 2 ^ 64 ≡ s.submitted % 2 ^ 64)
    close_strands_nothing {s} r e =
        let inv = Reach-Inv r in
        let end = Reach-finished r e in
        let (closed_done, empty) = subst (λ f. Drained f s.w) end.gone inv.drained in
        let p = no_caller_inside s.closer s.w s.admitted closed_done inv.progress in
        (
          empty,
          p.1,
          end.gone,
          end.conn,
          omega (
            arith,
            inv.account,
            ap held end.gone,
            ap (λ (l : List Bytes). length l) empty,
            ap (λ (l : List Caller). carried l) p.1,
          ),
        )
