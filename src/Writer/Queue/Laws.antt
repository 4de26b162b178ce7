-- ===== src/Writer/Queue/Laws.antt =====
-- The queue operations of writer.go: bounds, order, and an account of every log.
use zapwire.Common.{
  ℕ, zero, suc, ◌+◌, ◌-◌, ◌%◌, ◌^◌, ◌≤◌, ◌<◌, ◌≡◌, refl, ◌∙◌, ap, Bool, true, Option, none, some,
  List, [], ◌∷◌, ◌++◌, Bytes, length, length-append, append_assoc, arith, Bool-cases, inl, inr,
  List-cases, length-zero, ltb, drop, min, if◌then◌else◌,
}
use zapwire.Config.{DropPolicy, drop_newest, drop_oldest}
use zapwire.Writer.{Writer, WriteOutcome, count_dropped, report_err}
use zapwire.Writer.Frames.{settled, Settles, write_frame-Settles}
use native.Mathlib.Decide.{ℕ_discrete}
use zapwire.Writer.Queue.{enqueue, drain, flush_framed, flush, flush_all}

-- The queue that `enqueue` leaves: the payload joins it if there is room; if not, `DropNewest` keeps
-- the queue, and `DropOldest` puts the payload in the place of the oldest one.
pub kept : DropPolicy → ℕ → Bytes → List Bytes → List Bytes
kept policy cap p q = if ltb (length q) cap then q ++ (p ∷ []) else elim policy [
  | drop_newest ↦ q
  | drop_oldest ↦ (if ltb (length (drop 1 q)) cap then drop 1 q ++ (p ∷ []) else drop 1 q)
]

-- What an operation on the queue leaves alone.
pub record SameLife (w w' : Writer) : Type 0 where
  pub sent : w'.sent ≡ w.sent
  pub conn : w'.conn ≡ w.conn
  pub closed : w'.closed ≡ w.closed
  pub done : w'.done ≡ w.done

-- `enqueue` never blocks and never sends. The queue becomes `kept`, the drop counter grows by
-- exactly the logs that are then missing, and nothing else changes.
pub record Enqueued (policy : DropPolicy) (cap : ℕ) (p : Bytes) (w w' : Writer) : Type 0 where
  pub queue : w'.queue ≡ kept policy cap p w.queue
  pub count : (w'.dropped + length w'.queue) % 2 ^ 64 ≡ (w.dropped + length w.queue + 1) % 2 ^ 64
  pub life : SameLife w w'

-- Under either policy `enqueue` leaves the queue that `kept` describes; the drop counter and the
-- queue's length together grow by one, modulo 2 ^ 64, so each log that is not in the queue is
-- counted; and the frames sent, the connection and the flags of the life cycle stay as they were.
pub enqueue_lem :
    (policy : DropPolicy) (cap : ℕ) (p : Bytes) (w : Writer)
    → Enqueued policy cap p w (enqueue policy cap p w)
unfolding enqueue kept
enqueue_lem drop_newest cap p w = ground (arith, length-append w.queue (p ∷ []))
enqueue_lem drop_oldest cap p w =
    ground (arith, length-append w.queue (p ∷ []), length-append (drop 1 w.queue) (p ∷ []))

length-kept :
    (policy : DropPolicy) (cap : ℕ) (p : Bytes) (q : List Bytes)
    → length q ≤ cap
    → length (kept policy cap p q) ≤ cap
unfolding kept
length-kept drop_newest cap p q h = ground (arith, length-append q (p ∷ []))
length-kept drop_oldest cap p [] h = ground (arith, length-append [] (p ∷ []))
length-kept drop_oldest cap p (x ∷ q) h =
    ground (arith, length-append q (p ∷ []), length-append (x ∷ q) (p ∷ []))

-- The queue never outgrows its channel.
pub enqueue_bounded :
    (policy : DropPolicy) (cap : ℕ) (p : Bytes) (w : Writer)
    → length w.queue ≤ cap
    → length (enqueue policy cap p w).queue ≤ cap
enqueue_bounded policy cap p w h =
    rw ((enqueue_lem policy cap p w).queue) (length-kept policy cap p w.queue h)

kept_oldest :
    (cap : ℕ) (p : Bytes) (q : List Bytes)
    → 0 < cap
    → length q ≤ cap
    → kept drop_oldest cap p q ≡ drop (length q + 1 - cap) q ++ (p ∷ [])
unfolding kept
kept_oldest cap p [] pos h = let k : 0 + 1 - cap ≡ 0 = omega arith in rw k (ground arith)
kept_oldest cap p (x ∷ q) pos h = elim (ℕ_discrete (suc (length q)) cap) [
  | yes e ↦ let k : suc (length q) + 1 - cap ≡ 1 = omega arith in rw k (ground arith)
  | no ne ↦ let k : suc (length q) + 1 - cap ≡ 0 = omega arith in rw k (ground arith)
]

-- Under `DropOldest`, with a positive capacity that the queue keeps to, the incoming log ends the
-- queue, and the logs before it are the newest of those that were there: of a full queue all but
-- the oldest.
pub enqueue_oldest :
    (cap : ℕ) (p : Bytes) (w : Writer)
    → 0 < cap
    → length w.queue ≤ cap
    → (enqueue drop_oldest cap p w).queue ≡ drop (length w.queue + 1 - cap) w.queue ++ (p ∷ [])
enqueue_oldest cap p w pos h =
    (enqueue_lem drop_oldest cap p w).queue ∙ kept_oldest cap p w.queue pos h

pub drain-append :
    (size : ℕ) (batch q : List Bytes)
    → (drain size batch q).0 ++ (drain size batch q).1 ≡ batch ++ q
unfolding drain
drain-append size batch [] = refl
drain-append size batch (p ∷ q) = elim (Bool-cases (ltb (length batch) size)) [
  | inl e ↦ rw e (drain-append size (batch ++ (p ∷ [])) q ∙ append_assoc batch (p ∷ []) q)
  | inr e ↦ rw e
]

-- A drained batch has at most `size` logs, and fewer only if the queue is empty then.
pub drain_bounds :
    (size : ℕ) (batch q : List Bytes)
    → length batch ≤ size
    → (length (drain size batch q).0 ≡ min size (length batch + length q))
unfolding drain
drain_bounds size batch [] h = omega arith
drain_bounds size batch (p ∷ q) h =
    ground (arith, drain_bounds size (batch ++ (p ∷ [])) q, length-append batch (p ∷ []))

module _ (frame : Bytes → List Bytes → Option Bytes) where
  flush_framed-Settles :
      (o : WriteOutcome) (f : Option Bytes) (batch : List Bytes) (w : Writer)
      → Settles (length batch) w (flush_framed frame o f batch w)
  unfolding flush_framed report_err count_dropped
  flush_framed-Settles o none batch w = record {
    count = omega arith;
    queue = refl;
    closed = refl;
    done = refl;
  }
  flush_framed-Settles o (some f) batch w = write_frame-Settles o f (length batch) w

  -- Flushing a batch settles each of its logs, also where the framer fails.
  pub flush-Settles :
      (o : WriteOutcome) (batch : List Bytes) (w : Writer)
      → Settles (length batch) w (flush frame o batch w)
  unfolding flush
  flush-Settles o [] w = record { count = omega arith; queue = refl; closed = refl; done = refl }
  flush-Settles o (p ∷ ps) w = flush_framed-Settles o (frame [] (p ∷ ps)) (p ∷ ps) w

  -- The loop has ended, with the queue empty and each log of the batch and of the queue settled.
  pub record FlushedAll (batch : List Bytes) (w : Writer) (r : Writer × Bool) : Type 0 where
    pub ended : r.1 ≡ true
    pub empty : r.0.queue ≡ []
    pub count : settled r.0 ≡ (settled w + length batch + length w.queue) % 2 ^ 64
    pub closed : r.0.closed ≡ w.closed
    pub done : r.0.done ≡ w.done

  -- A round that flushes `batch'` and leaves the queue `q`, followed by the rest of the loop.
  FlushedAll-round :
      (batch batch' q : List Bytes) (o : WriteOutcome) (w : Writer) (r : Writer × Bool)
      → length batch' + length q ≡ length batch + length w.queue
      → FlushedAll [] (flush frame o batch' (record w { queue = q })) r
      → FlushedAll batch w r
  FlushedAll-round batch batch' q o w r all rest = record {
    ended = rest.ended;
    empty = rest.empty;
    count = omega (
      arith,
      rest.count,
      (flush-Settles o batch' (record w { queue = q })).count,
      ap (λ (l : List Bytes). length l) (flush-Settles o batch' (record w { queue = q })).queue,
    );
    closed = rest.closed ∙ (flush-Settles o batch' (record w { queue = q })).closed;
    done = rest.done ∙ (flush-Settles o batch' (record w { queue = q })).done;
  }

  -- While no caller enqueues, as behind the barrier of `Close`, and on any network, `flushAll` ends
  -- within a round more than there are logs: the queue is empty then, and every log of the batch and of
  -- the queue is delivered or counted as dropped, once, if `size` is positive and the batch is at most
  -- that long.
  pub flush_all_lem :
      (size fuel : ℕ) (outcomes : ℕ → WriteOutcome) (batch : List Bytes) (w : Writer)
      → 0 < size
      → length batch ≤ size
      → length batch + length w.queue < fuel
      → FlushedAll batch w (flush_all frame size fuel outcomes batch w)
  unfolding flush_all
  flush_all_lem size zero outcomes batch w hs hb hf = absurd (omega arith)
  flush_all_lem size (suc fuel) outcomes batch w hs hb hf =
      elim (List-cases (drain size batch w.queue).0) [
        | inl e ↦
            rw (e, flush_all)
              (record {
                ended = refl;
                empty = length-zero (drain size batch w.queue).1 (none_left e);
                count = omega (arith, none_left e, left e);
                closed = refl;
                done = refl;
              })
        | inr (p, ps, e) ↦
            rw (e, flush_all)
              (let q = (drain size batch w.queue).1 in
                let w' = flush frame (outcomes fuel) (p ∷ ps) (record w { queue = q }) in
                let same : length w'.queue ≡ length q =
                  ap (λ (l : List Bytes). length l)
                    (flush-Settles (outcomes fuel) (p ∷ ps) (record w { queue = q })).queue in
                FlushedAll-round batch (p ∷ ps) q (outcomes fuel) w
                  (flush_all frame size fuel outcomes [] w') (left e)
                  (flush_all_lem size fuel outcomes [] w' hs (omega arith)
                    (omega (arith, same, left e))))
      ]
    where
      left :
          {d : List Bytes}
          → (drain size batch w.queue).0 ≡ d
          → length d + length (drain size batch w.queue).1 ≡ length batch + length w.queue
      left {d} e = omega (
        arith,
        ap (λ (l : List Bytes). length l) (drain-append size batch w.queue),
        length-append (drain size batch w.queue).0 (drain size batch w.queue).1,
        length-append batch w.queue,
        ap (λ (l : List Bytes). length l) e,
      )

      none_left : (drain size batch w.queue).0 ≡ [] → length (drain size batch w.queue).1 ≡ 0
      none_left e =
          omega
            (arith, left e, drain_bounds size batch w.queue hb, ap (λ (l : List Bytes). length l) e)
