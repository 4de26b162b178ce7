-- ===== src/Writer/System/Callers.antt =====
-- A caller inside `enqueue` of writer.go, one operation at a time.
use zapwire.Common.{
  ℕ, ◌+◌, ◌%◌, ◌^◌, ◌≤◌, ◌≡◌, refl, Option, none, some, List, [], ◌∷◌, Bytes, length, length-append,
  arith, ltb, Bool-cases, inl, inr, ap, zero, suc,
}
use zapwire.Config.{DropPolicy, drop_newest, drop_oldest}
use zapwire.Writer.{Writer, count_dropped}
use zapwire.Writer.Frames.{settled}
use zapwire.Writer.Queue.{offer, or_drop, evict, evict_oldest, enqueue, drop_when_full}
use zapwire.Writer.System.{
  Stage, sending, evicting, counting, resending, dropping, when_full, try_send, try_evict,
  caller_step, remaining,
}
use zapwire.Writer.System.Invariant.{weight, carried}

-- An operation keeps every log: in the queue, settled, or with its caller. It fills the queue to its
-- capacity at most, and touches nothing else.
pub record Moved (cap : ℕ) (p : Bytes) (k : Stage) (w : Writer) (r : Writer × Option Stage)
    : Type 0 where
  pub count :
      (settled r.0 + length r.0.queue + carried (remaining p r.1)) % 2 ^ 64
      ≡ (settled w + length w.queue + weight k) % 2 ^ 64
  pub bounded : length w.queue ≤ cap → length r.0.queue ≤ cap
  pub closed : r.0.closed ≡ w.closed
  pub done : r.0.done ≡ w.done
  pub conn : r.0.conn ≡ w.conn

try_send_lem :
    (cap : ℕ) (p : Bytes) (k full : Stage) (w : Writer)
    → weight k ≡ 1
    → weight full ≡ 1
    → Moved cap p k w (try_send (offer cap p w) full w)
unfolding try_send offer
try_send_lem cap p k full w hk hf = elim (Bool-cases (ltb (length w.queue) cap)) [
  | inl room ↦ rw room (record {
    count = omega (arith, length-append w.queue (p ∷ []), hk);
    bounded = λ _. ground (arith, room, length-append w.queue (p ∷ []));
    closed = refl;
    done = refl;
    conn = refl;
  })
  | inr no_room ↦ rw no_room (record {
    count = omega (arith, hk, hf);
    bounded = λ h. h;
    closed = refl;
    done = refl;
    conn = refl;
  })
]

try_evict_lem :
    (cap : ℕ) (p : Bytes) (q : List Bytes) (w : Writer)
    → w.queue ≡ q
    → Moved cap p evicting w (try_evict q w)
unfolding try_evict
try_evict_lem cap p [] w e = record {
  count = omega arith;
  bounded = λ h. h;
  closed = refl;
  done = refl;
  conn = refl;
}
try_evict_lem cap p (x ∷ q) w e = record {
  count = omega (arith, ap (λ (l : List Bytes). length l) e);
  bounded = λ h. omega (arith, ap (λ (l : List Bytes). length l) e);
  closed = refl;
  done = refl;
  conn = refl;
}

when_full-weight : (policy : DropPolicy) → weight (when_full policy) ≡ 1
when_full-weight drop_newest = refl
when_full-weight drop_oldest = refl

pub caller_step_lem :
    (policy : DropPolicy) (cap : ℕ) (p : Bytes) (k : Stage) (w : Writer)
    → Moved cap p k w (caller_step policy cap p k w)
unfolding caller_step count_dropped
caller_step_lem policy cap p sending w =
    try_send_lem cap p sending (when_full policy) w refl (when_full-weight policy)
caller_step_lem policy cap p evicting w = try_evict_lem cap p w.queue w refl
caller_step_lem policy cap p counting w = record {
  count = omega arith;
  bounded = λ h. h;
  closed = refl;
  done = refl;
  conn = refl;
}
caller_step_lem policy cap p resending w = try_send_lem cap p resending dropping w refl refl
caller_step_lem policy cap p dropping w = record {
  count = omega arith;
  bounded = λ h. h;
  closed = refl;
  done = refl;
  conn = refl;
}

-- The steps of a caller while nobody else moves.
abbrev pub alone : ℕ → DropPolicy → ℕ → Bytes → Option Stage → Writer → Writer × Option Stage
alone fuel policy cap p none w = (w, none)
alone zero policy cap p (some k) w = (w, some k)
alone (suc fuel) policy cap p (some k) w =
    let r = caller_step policy cap p k w in alone fuel policy cap p r.1 r.0

resend_alone :
    (policy : DropPolicy) (cap fuel : ℕ) (p : Bytes) (w : Writer)
    → alone (suc (suc fuel)) policy cap p (some resending) w ≡ (or_drop (offer cap p w) w, none)
unfolding caller_step try_send or_drop
resend_alone policy cap fuel p w = go (offer cap p w) refl
  where
    go :
        (o : Option Writer)
        → offer cap p w ≡ o
        → alone (suc fuel) policy cap p (try_send o dropping w).1 (try_send o dropping w).0
          ≡ (or_drop o w, none)
    go none e = refl
    go (some w') e = refl

alone-evict :
    (policy : DropPolicy) (cap : ℕ) (p : Bytes) (q : List Bytes) (w : Writer)
    → alone 3 policy cap p (try_evict q w).1 (try_evict q w).0
      ≡ (or_drop (offer cap p (evict q w)) (evict q w), none)
unfolding caller_step try_evict
alone-evict policy cap p [] w = resend_alone policy cap 1 p w
alone-evict policy cap p (x ∷ q) w = resend_alone policy cap 0 p (evict (x ∷ q) w)

-- A caller that nobody interrupts returns, in at most five operations, and has done what `enqueue`
-- does as a whole.
pub alone-enqueue :
    (policy : DropPolicy) (cap : ℕ) (p : Bytes) (w : Writer)
    → alone 5 policy cap p (some sending) w ≡ (enqueue policy cap p w, none)
unfolding caller_step try_send enqueue evict_oldest drop_when_full
alone-enqueue policy cap p w = go policy (offer cap p w) refl
  where
    go :
        (policy : DropPolicy) (o : Option Writer)
        → offer cap p w ≡ o
        → alone 4 policy cap p
            (try_send o (when_full policy) w).1
            (try_send o (when_full policy) w).0
          ≡ (elim o as (λ _. Writer) [ some w' ↦ w' | none ↦ drop_when_full policy cap p w ], none)
    go policy (some w') e = refl
    go drop_newest none e = refl
    go drop_oldest none e = alone-evict drop_oldest cap p w.queue w
