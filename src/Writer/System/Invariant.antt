-- ===== src/Writer/System/Invariant.antt =====
-- An invariant of the states that the goroutines of writer.go can reach.
use zapwire.Common.{
  ℕ, ◌+◌, ◌%◌, ◌^◌, ◌≤◌, ◌≡◌, ◌∙◌, true, false, List, [], ◌∷◌, ◌++◌, length, sum_by,
}
use zapwire.Writer.{Writer}
use zapwire.Writer.Frames.{settled}
use zapwire.Writer.System.{
  tick, recv, sync_all, final, Flusher, selecting, draining, writing, exited, Closer, idle, flagged,
  barred, announced, finished, System, Stage, sending, evicting, counting, resending, dropping,
  Caller,
}

-- The logs that the flush loop holds.
abbrev pub held : Flusher → ℕ
held (selecting b) = length b
held (draining r b) = length b
held (writing r c f n) = n
held exited = 0

-- The logs that a caller answers for: its own, and an evicted one that is not counted yet.
abbrev pub weight : Stage → ℕ
weight sending = 1
weight evicting = 1
weight counting = 2
weight resending = 1
weight dropping = 1

abbrev pub carried : List Caller → ℕ
carried cs = sum_by (λ c. weight c.stage) cs

-- The progress of `Close` shows in the flags, and behind the barrier no caller is left inside.
abbrev pub Progress : Closer → Writer → List Caller → Type 0
Progress idle w admitted = (w.closed ≡ false) × (w.done ≡ false)
Progress flagged w admitted = (w.closed ≡ true) × (w.done ≡ false)
Progress barred w admitted = (w.closed ≡ true) × (w.done ≡ false) × (admitted ≡ [])
Progress announced w admitted = (w.closed ≡ true) × (w.done ≡ true) × (admitted ≡ [])
Progress finished w admitted = (w.closed ≡ true) × (w.done ≡ true) × (admitted ≡ [])

-- The final drain runs only once `done` is closed, and the loop returns from an empty queue.
abbrev pub Drained : Flusher → Writer → Type 0
Drained (selecting b) w = Unit {0}
Drained (draining final b) w = w.done ≡ true
Drained (draining r b) w = Unit {0}
Drained (writing final c f n) w = w.done ≡ true
Drained (writing r c f n) w = Unit {0}
Drained exited w = (w.done ≡ true) × (w.queue ≡ [])

pub record Inv (cap : ℕ) (s : System) : Type 0 where
  pub account :
      (settled s.w + length s.w.queue + carried s.admitted + held s.flusher) % 2 ^ 64
      ≡ s.submitted % 2 ^ 64
  pub bounded : length s.w.queue ≤ cap
  pub progress : Progress s.closer s.w s.admitted
  pub drained : Drained s.flusher s.w

-- An operation that keeps the flags keeps the progress of `Close`.
pub Progress-same :
    (k : Closer) (w w' : Writer) (admitted : List Caller)
    → w'.closed ≡ w.closed
    → w'.done ≡ w.done
    → Progress k w admitted
    → Progress k w' admitted
Progress-same idle w w' admitted c d h = (c ∙ h.0, d ∙ h.1)
Progress-same flagged w w' admitted c d h = (c ∙ h.0, d ∙ h.1)
Progress-same barred w w' admitted c d h = (c ∙ h.0, d ∙ h.1, h.2)
Progress-same announced w w' admitted c d h = (c ∙ h.0, d ∙ h.1, h.2)
Progress-same finished w w' admitted c d h = (c ∙ h.0, d ∙ h.1, h.2)

-- While `closed` is not set, `Close` has not begun, and callers may come in.
pub Progress-open :
    (k : Closer) (w : Writer) (admitted admitted' : List Caller)
    → w.closed ≡ false
    → Progress k w admitted
    → Progress k w admitted'
Progress-open idle w a a' e h = h
Progress-open flagged w a a' e h = cc
Progress-open barred w a a' e h = cc
Progress-open announced w a a' e h = cc
Progress-open finished w a a' e h = cc

cons-ne-nil : {A : Type 0} (xs : List A) (y : A) (ys : List A) → xs ++ (y ∷ ys) ≡ [] → ⊥
cons-ne-nil [] y ys e = cc
cons-ne-nil (x ∷ xs) y ys e = cc

-- A caller that is inside is inside before the barrier.
pub Progress-move :
    (k : Closer) (w : Writer) (front : List Caller) (c : Caller) (back after : List Caller)
    → Progress k w (front ++ (c ∷ back))
    → (Progress k w after) × (w.done ≡ false)
Progress-move idle w a c b after h = (h, h.1)
Progress-move flagged w a c b after h = (h, h.1)
Progress-move barred w a c b after h = absurd (cons-ne-nil a c b h.2)
Progress-move announced w a c b after h = absurd (cons-ne-nil a c b h.2)
Progress-move finished w a c b after h = absurd (cons-ne-nil a c b h.2)

-- An operation that keeps `done` and does not fill an empty queue keeps the drain's progress.
pub Drained-same :
    (f : Flusher) (w w' : Writer)
    → w'.done ≡ w.done
    → (w.queue ≡ [] → w'.queue ≡ [])
    → Drained f w
    → Drained f w'
Drained-same (selecting b) w w' d q h = tt
Drained-same (draining final b) w w' d q h = d ∙ h
Drained-same (draining tick b) w w' d q h = tt
Drained-same (draining recv b) w w' d q h = tt
Drained-same (draining sync_all b) w w' d q h = tt
Drained-same (writing final c f n) w w' d q h = d ∙ h
Drained-same (writing tick c f n) w w' d q h = tt
Drained-same (writing recv c f n) w w' d q h = tt
Drained-same (writing sync_all c f n) w w' d q h = tt
Drained-same exited w w' d q h = (d ∙ h.0, q h.1)

-- Before `done` is closed nothing depends on the queue.
pub Drained-running : (f : Flusher) (w w' : Writer) → w.done ≡ false → Drained f w → Drained f w'
Drained-running (selecting b) w w' d h = tt
Drained-running (draining final b) w w' d h = cc
Drained-running (draining tick b) w w' d h = tt
Drained-running (draining recv b) w w' d h = tt
Drained-running (draining sync_all b) w w' d h = tt
Drained-running (writing final c f n) w w' d h = cc
Drained-running (writing tick c f n) w w' d h = tt
Drained-running (writing recv c f n) w w' d h = tt
Drained-running (writing sync_all c f n) w w' d h = tt
Drained-running exited w w' d h = cc
