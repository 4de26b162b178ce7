-- ===== src/Writer/Frames.antt =====
-- Every log of a frame is accounted for, whatever the network answers.
use zapwire.Common.{
  ℕ, ◌+◌, ◌%◌, ◌^◌, ◌≡◌, refl, ap, Option, none, some, [], ◌∷◌, Bytes, sum_by-append, arith,
  Bool-cases, Option-cases, inl, inr, sym,
}
use zapwire.Writer.{
  Writer, Sent, WriteOutcome, wrote, deadline_failed, write_failed, count_dropped,
  trigger_reconnect, handle_write_error, send, at_conn, write_frame, delivered, is_conn,
}
use mathlib.Core.Path.{subst}

-- The logs that the Writer has delivered or counted as dropped, as the counter counts.
abbrev pub settled : Writer → ℕ
settled w = (w.dropped + delivered w) % 2 ^ 64

-- `n` more logs are settled, and the queue and the flags of the life cycle are as before.
pub record Settles (n : ℕ) (w w' : Writer) : Type 0 where
  pub count : settled w' ≡ (settled w + n) % 2 ^ 64
  pub queue : w'.queue ≡ w.queue
  pub closed : w'.closed ≡ w.closed
  pub done : w'.done ≡ w.done

handle_write_error-Settles :
    (c n : ℕ) (w : Writer) → Settles n w (handle_write_error c (count_dropped n w))
unfolding handle_write_error count_dropped
handle_write_error-Settles c n w = elim (Bool-cases (is_conn w.conn c)) [
  | inl e ↦ record { count = rw (e) (omega arith); queue = rw e; closed = rw e; done = rw e }
  | inr e ↦ record { count = rw (e) (omega arith); queue = rw e; closed = rw e; done = rw e }
]

-- Also where the connection was replaced since it was read, a frame's logs are settled once.
pub send-Settles :
    (c : ℕ) (o : WriteOutcome) (f : Bytes) (n : ℕ) (w : Writer) → Settles n w (send c o f n w)
unfolding send
send-Settles c wrote f n w = record {
  count = omega (
    arith,
    sum_by-append {0} (λ (s : Sent). s.logs) w.sent (record { via = c; frame = f; logs = n } ∷ []),
  );
  queue = refl;
  closed = refl;
  done = refl;
}
send-Settles c deadline_failed f n w = handle_write_error-Settles c n w
send-Settles c write_failed f n w = handle_write_error-Settles c n w

pub write_frame-some :
    (o : WriteOutcome) (f : Bytes) (n c : ℕ) (w : Writer)
    → w.conn ≡ some c
    → write_frame o f n w ≡ send c o f n w
unfolding write_frame
write_frame-some o f n c w e = ap (λ (k : Option ℕ). at_conn o f n w k) e

pub write_frame-none :
    (o : WriteOutcome) (f : Bytes) (n : ℕ) (w : Writer)
    → w.conn ≡ none
    → write_frame o f n w ≡ trigger_reconnect (count_dropped n w)
unfolding write_frame
write_frame-none o f n w e = ap (λ (k : Option ℕ). at_conn o f n w k) e

dropped-Settles : (n : ℕ) (w : Writer) → Settles n w (trigger_reconnect (count_dropped n w))
unfolding trigger_reconnect count_dropped
dropped-Settles n w = record { count = omega arith; queue = refl; closed = refl; done = refl }

pub write_frame-Settles :
    (o : WriteOutcome) (f : Bytes) (n : ℕ) (w : Writer) → Settles n w (write_frame o f n w)
write_frame-Settles o f n w = elim (Option-cases w.conn) [
  | inl e ↦ subst (Settles n w) (sym (write_frame-none o f n w e)) (dropped-Settles n w)
  | inr (c, e) ↦ subst (Settles n w) (sym (write_frame-some o f n c w e)) (send-Settles c o f n w)
]
