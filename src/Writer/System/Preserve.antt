-- ===== src/Writer/System/Preserve.antt =====
-- Every step of the goroutines of writer.go keeps the invariant.
use zapwire.Common.{
  ℕ, ◌+◌, ◌%◌, ◌^◌, ◌≤◌, ◌<◌, ◌≡◌, refl, ◌∙◌, ap, ◌⊎◌, inl, inr, false, Option, none, some, List,
  [], ◌∷◌, ◌++◌, sum_by-append, Bytes, length, length-append, arith, Bool-cases,
}
use zapwire.Config.{DropPolicy}
use zapwire.Writer.{
  Writer, count_dropped, report_err, trigger_reconnect, send, drain_reconnect_ch, close_conn,
}
use zapwire.Writer.Frames.{settled, Settles, send-Settles}
use zapwire.Writer.System.Callers.{caller_step_lem}
use zapwire.Writer.Reconnect.{try_connect, count_reconnect}
use zapwire.Writer.Calls.{tear_down}
use zapwire.Writer.System.{
  Reason, tick, recv, sync_all, final, Flusher, selecting, draining, writing, System, next, settle,
  begin_write, begin_flush, wants_flush, after_drain, on_dial, Step, enter, refuse, move, flag,
  barrier, announce, finish, wake_done, wake_sync, wake_tick, wake_recv, take, drained, write_ends,
  reconnect, take_token, Caller, sending, remaining, caller_step,
}
use zapwire.Writer.System.Invariant.{
  held, weight, carried, Progress, Drained, Inv, Progress-same, Progress-open, Progress-move,
  Drained-same, Drained-running,
}
use mathlib.Core.Path.{subst}

-- Operations that only touch the connection settle no log.
pub tear_down-Settles : (w : Writer) → Settles 0 w (tear_down w)
unfolding tear_down close_conn
tear_down-Settles w = record {
  count = ground arith;
  queue = ground arith;
  closed = ground arith;
  done = ground arith;
}

on_dial-Settles : (dial : Option ℕ) (w : Writer) → Settles 0 w (on_dial dial w)
unfolding on_dial try_connect count_reconnect close_conn
on_dial-Settles none w = record { count = omega arith; queue = refl; closed = refl; done = refl }
on_dial-Settles (some c) w = record {
  count = ground arith;
  queue = ground arith;
  closed = ground arith;
  done = ground arith;
}

count_dropped-Settles : (n : ℕ) (w : Writer) → Settles n w (count_dropped n w)
unfolding count_dropped
count_dropped-Settles n w = record { count = omega arith; queue = refl; closed = refl; done = refl }

drain_token-Settles : (w : Writer) → Settles 0 w (drain_reconnect_ch w)
unfolding drain_reconnect_ch
drain_token-Settles w = record { count = omega arith; queue = refl; closed = refl; done = refl }

Drained-next :
    (r : Reason) (w w' : Writer)
    → w'.done ≡ w.done
    → Drained (draining r []) w
    → Drained (next r) w'
Drained-next tick w w' d h = tt
Drained-next recv w w' d h = tt
Drained-next sync_all w w' d h = tt
Drained-next final w w' d h = d ∙ h

Drained-written :
    (r : Reason) (c : ℕ) (f : Bytes) (n : ℕ) (w w' : Writer)
    → w'.done ≡ w.done
    → Drained (writing r c f n) w
    → Drained (next r) w'
Drained-written tick c f n w w' d h = tt
Drained-written recv c f n w w' d h = tt
Drained-written sync_all c f n w w' d h = tt
Drained-written final c f n w w' d h = d ∙ h

Drained-writing :
    (r : Reason) (c : ℕ) (f : Bytes) (n : ℕ) (w : Writer)
    → Drained (draining r []) w
    → Drained (writing r c f n) w
Drained-writing tick c f n w h = tt
Drained-writing recv c f n w h = tt
Drained-writing sync_all c f n w h = tt
Drained-writing final c f n w h = h

held-next : (r : Reason) → held (next r) ≡ 0
held-next tick = refl
held-next recv = refl
held-next sync_all = refl
held-next final = refl

-- What the loop has done with `n` logs when it stops behind `drain`.
record Begun (r : Reason) (n : ℕ) (w : Writer) (after : Writer × Flusher) : Type 0 where
  count : (settled after.0 + held after.1) % 2 ^ 64 ≡ (settled w + n) % 2 ^ 64
  queue : after.0.queue ≡ w.queue
  closed : after.0.closed ≡ w.closed
  done : after.0.done ≡ w.done
  drains : Drained (draining r []) w → Drained after.1 after.0

module _ (frame : Bytes → List Bytes → Option Bytes) (size : ℕ) where
  begin_write_lem :
      (r : Reason) (f : Bytes) (n : ℕ) (w : Writer) (k : Option ℕ)
      → Begun r n w (begin_write frame size r f n w k)
  unfolding begin_write trigger_reconnect count_dropped
  begin_write_lem r f n w none = record {
    count = omega (arith, held-next r);
    queue = refl;
    closed = refl;
    done = refl;
    drains = Drained-next r w _ refl;
  }
  begin_write_lem r f n w (some c) = record {
    count = refl;
    queue = refl;
    closed = refl;
    done = refl;
    drains = Drained-writing r c f n w;
  }

  begin_flush_lem :
      (r : Reason) (n : ℕ) (w : Writer) (o : Option Bytes)
      → Begun r n w (begin_flush frame size r n w o)
  unfolding begin_flush report_err count_dropped
  begin_flush_lem r n w none = record {
    count = omega (arith, held-next r);
    queue = refl;
    closed = refl;
    done = refl;
    drains = Drained-next r w _ refl;
  }
  begin_flush_lem r n w (some f) = begin_write_lem r f n w w.conn

  -- The loop flushes nothing only where it has nothing to flush, or on a payload.
  settle_lem :
      (r : Reason) (b : List Bytes) (w : Writer)
      → wants_flush frame size r b ≡ false
      → 0 < size
      → (size ≤ length b) ⊎ (w.queue ≡ [])
      → Drained (draining r b) w
      → (held (settle r b) ≡ length b) × Drained (settle r b) w
  settle_lem tick [] w e hs stop h = (refl, tt)
  settle_lem tick (p ∷ ps) w e hs stop h = cc
  settle_lem recv b w e hs stop h = (refl, tt)
  settle_lem sync_all [] w e hs stop h = (refl, tt)
  settle_lem sync_all (p ∷ ps) w e hs stop h = cc
  settle_lem final [] w e hs (inl full) h = absurd (omega arith)
  settle_lem final [] w e hs (inr empty) h = (refl, (h, empty))
  settle_lem final (p ∷ ps) w e hs stop h = cc

  Drained-batch :
      (r : Reason) (b b' : List Bytes) (w : Writer)
      → Drained (draining r b) w
      → Drained (draining r b') w
  Drained-batch tick b b' w h = tt
  Drained-batch recv b b' w h = tt
  Drained-batch sync_all b b' w h = tt
  Drained-batch final b b' w h = h

  after_drain_lem :
      (r : Reason) (b : List Bytes) (w : Writer)
      → 0 < size
      → (size ≤ length b) ⊎ (w.queue ≡ [])
      → Drained (draining r b) w
      → Begun r (length b) w (after_drain frame size r b w)
  unfolding after_drain
  after_drain_lem r b w hs stop h = elim (Bool-cases (wants_flush frame size r b)) [
    | inl e ↦ rw e (begin_flush_lem r (length b) w (frame [] b))
    | inr e ↦
        let (none_held, drains) = settle_lem r b w e hs stop h in
        rw e (record {
          count = omega arith;
          queue = refl;
          closed = refl;
          done = refl;
          drains = λ _. drains;
        })
  ]

module _ (policy : DropPolicy) (cap : ℕ) (frame : Bytes → List Bytes → Option Bytes) (size : ℕ)
    (positive : 0 < size) where
  -- The flush loop moves with what it holds.
  moves :
      {s : System} (f f' : Flusher)
      → s.flusher ≡ f
      → held f' ≡ held f
      → Drained f' s.w
      → Inv cap s
      → Inv cap (record s { flusher = f' })
  moves f f' e h d inv = record {
    account = omega (arith, inv.account, ap held e, h);
    bounded = inv.bounded;
    progress = inv.progress;
    drained = d;
  }

  -- The flush loop takes the head of the queue.
  takes :
      {s : System} (f f' : Flusher) (p : Bytes) (q : List Bytes)
      → s.flusher ≡ f
      → s.w.queue ≡ p ∷ q
      → held f' ≡ held f + 1
      → Drained f' (record s.w { queue = q })
      → Inv cap s
      → Inv cap (record s { w = record s.w { queue = q }; flusher = f' })
  takes {s} f f' p q e eq h d inv = record {
    account = omega (arith, inv.account, ap held e, h, ap (λ (l : List Bytes). length l) eq);
    bounded = omega (arith, inv.bounded, ap (λ (l : List Bytes). length l) eq);
    progress = Progress-same s.closer s.w _ s.admitted refl refl inv.progress;
    drained = d;
  }

  -- A part of the code that touches neither the queue nor the flags.
  settles :
      {s : System} (n submitted : ℕ) (w' : Writer) (f' : Flusher)
      → Settles n s.w w'
      → held f' + n + s.submitted ≡ held s.flusher + submitted
      → Drained f' w'
      → Inv cap s
      → Inv cap (record s { w = w'; flusher = f'; submitted = submitted })
  settles {s} n submitted w' f' st h d inv = record {
    account = omega (arith, inv.account, st.count, h, ap (λ (l : List Bytes). length l) st.queue);
    bounded = omega (arith, inv.bounded, ap (λ (l : List Bytes). length l) st.queue);
    progress = Progress-same s.closer s.w w' s.admitted st.closed st.done inv.progress;
    drained = d;
  }

  -- Every step keeps the invariant.
  pub Step-Inv : {s t : System} → Step policy cap frame size s t → Inv cap s → Inv cap t
  Step-Inv (enter s p e) inv = record {
    account = omega (
      arith,
      inv.account,
      sum_by-append (λ (x : Caller). weight x.stage) s.admitted (remaining p (some sending)),
    );
    bounded = inv.bounded;
    progress =
        Progress-open s.closer s.w s.admitted (s.admitted ++ remaining p (some sending)) e
          inv.progress;
    drained = inv.drained;
  }
  Step-Inv (refuse s p e) inv =
      settles 1 (s.submitted + 1) (count_dropped 1 s.w) s.flusher (count_dropped-Settles 1 s.w)
        (omega arith)
        (Drained-same s.flusher s.w _ (count_dropped-Settles 1 s.w).done
          (λ q. (count_dropped-Settles 1 s.w).queue ∙ q) inv.drained)
        inv
  Step-Inv (move s front c back e) inv =
      let after = caller_step policy cap c.payload c.stage s.w in
      let i = caller_step_lem policy cap c.payload c.stage s.w in
      let (pr, running) =
        Progress-move s.closer s.w front c back (front ++ (remaining c.payload after.1 ++ back))
          (subst (Progress s.closer s.w) e inv.progress) in
      record {
        account = omega (
          arith,
          inv.account,
          i.count,
          ap (λ (l : List Caller). carried l) e,
          sum_by-append (λ (x : Caller). weight x.stage) front (c ∷ back),
          sum_by-append (λ (x : Caller). weight x.stage) front
              (remaining c.payload after.1 ++ back),
          sum_by-append (λ (x : Caller). weight x.stage) (remaining c.payload after.1) back,
        );
        bounded = i.bounded inv.bounded;
        progress = Progress-same s.closer s.w _ _ i.closed i.done pr;
        drained = Drained-running s.flusher s.w _ running inv.drained;
      }
  Step-Inv (flag s e) inv = record {
    account = inv.account;
    bounded = inv.bounded;
    progress = (refl, (subst (λ k. Progress k s.w s.admitted) e inv.progress).1);
    drained = Drained-same s.flusher s.w _ refl (λ q. q) inv.drained;
  }
  Step-Inv (barrier s e a) inv =
      let p = subst (λ k. Progress k s.w s.admitted) e inv.progress in
      record {
        account = inv.account;
        bounded = inv.bounded;
        progress = (p.0, p.1, a);
        drained = inv.drained;
      }
  Step-Inv (announce s e) inv =
      let p = subst (λ k. Progress k s.w s.admitted) e inv.progress in
      record {
        account = inv.account;
        bounded = inv.bounded;
        progress = (p.0, refl, p.2);
        drained = Drained-running s.flusher s.w _ p.1 inv.drained;
      }
  Step-Inv (finish s e f) inv =
      let p = subst (λ k. Progress k s.w s.admitted) e inv.progress in
      let st = tear_down-Settles s.w in
      record {
        account = omega (arith, inv.account, st.count, ap (λ (l : List Bytes). length l) st.queue);
        bounded = omega (arith, inv.bounded, ap (λ (l : List Bytes). length l) st.queue);
        progress = (st.closed ∙ p.0, st.done ∙ p.1, p.2);
        drained = Drained-same s.flusher s.w _ st.done (λ q. st.queue ∙ q) inv.drained;
      }
  Step-Inv (wake_done s b e d) inv = moves (selecting b) (draining final b) e refl d inv
  Step-Inv (wake_sync s b e) inv = moves (selecting b) (draining sync_all b) e refl tt inv
  Step-Inv (wake_tick s b e) inv = moves (selecting b) (draining tick b) e refl tt inv
  Step-Inv (wake_recv s b p q e eq) inv =
      takes (selecting b) (draining recv (b ++ (p ∷ []))) p q e eq (length-append b (p ∷ [])) tt inv
  Step-Inv (take s r b p q e lt eq) inv =
      takes (draining r b) (draining r (b ++ (p ∷ []))) p q e eq (length-append b (p ∷ []))
        (Drained-same (draining r (b ++ (p ∷ []))) s.w _ refl (λ z. cc (z, eq))
          (Drained-batch frame size r b (b ++ (p ∷ [])) s.w
            (subst (λ f. Drained f s.w) e inv.drained)))
        inv
  Step-Inv (drained s r b e stop) inv =
      let before = subst (λ f. Drained f s.w) e inv.drained in
      let a = after_drain_lem frame size r b s.w positive stop before in
      record {
        account =
            omega
              (arith, inv.account, a.count, ap held e, ap (λ (l : List Bytes). length l) a.queue);
        bounded = omega (arith, inv.bounded, ap (λ (l : List Bytes). length l) a.queue);
        progress = Progress-same s.closer s.w _ s.admitted a.closed a.done inv.progress;
        drained = a.drains (Drained-batch frame size r b [] s.w before);
      }
  Step-Inv (write_ends s r c f n o e) inv =
      let st = send-Settles c o f n s.w in
      settles n s.submitted (send c o f n s.w) (next r) st (omega (arith, ap held e, held-next r))
        (Drained-written r c f n s.w _ st.done (subst (λ x. Drained x s.w) e inv.drained)) inv
  Step-Inv (reconnect s dial) inv =
      let st = on_dial-Settles dial s.w in
      settles 0 s.submitted (on_dial dial s.w) s.flusher st (omega arith)
        (Drained-same s.flusher s.w _ st.done (λ q. st.queue ∙ q) inv.drained) inv
  Step-Inv (take_token s) inv =
      let st = drain_token-Settles s.w in
      settles 0 s.submitted (drain_reconnect_ch s.w) s.flusher st (omega arith)
        (Drained-same s.flusher s.w _ st.done (λ q. st.queue ∙ q) inv.drained) inv
