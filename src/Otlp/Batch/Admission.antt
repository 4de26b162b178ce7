-- ===== src/Otlp/Batch/Admission.antt =====
-- `Write` of otlp/writer.go: what it admits to the queue, and what it counts.
use mathlib.Core.Path.{subst}
use zapwire.Common.{
  ℕ, suc, ◌+◌, ◌%◌, ◌^◌, ◌≤◌, ◌≡◌, inl, inr, refl, sym, Bool, true, false, List, [], ◌∷◌, Bytes,
  All, All-append, length, length-append, ltb, if◌then◌else◌, arith, Bool-cases,
}
use zapwire.Config.{DropPolicy, drop_newest, drop_oldest}
use zapwire.Otlp.Envelope.{Envelope, record_cost, size_for}
use zapwire.Otlp.Batch.{Intake, drop_one, evict, offer_or, too_large, write}

module _ (env : Envelope) (max_bytes : ℕ) where
  -- Every queued record fits a request, and the queue is within its channel.
  pub record IsIntake (cap : ℕ) (w : Intake) : Type 0 where
    pub fit : All (λ r. size_for env (record_cost (length r)) ≤ max_bytes) w.queue
    pub bounded : length w.queue ≤ cap

  -- A record is queued or counted: the counter and the queue together grow by one, modulo 2^64.
  Counts : Intake → Intake → Type 0
  Counts w w' = (w'.dropped + length w'.queue) % 2 ^ 64 ≡ (w.dropped + length w.queue + 1) % 2 ^ 64

  offer_lem :
      (cap : ℕ) (p : Bytes) (w w0 full : Intake)
      → size_for env (record_cost (length p)) ≤ max_bytes
      → IsIntake cap w
      → Counts w0 full
      → IsIntake cap full
      → (w0.dropped + length w0.queue) % 2 ^ 64 ≡ (w.dropped + length w.queue) % 2 ^ 64
      → IsIntake cap (offer_or cap p full w) × Counts w0 (offer_or cap p full w)
  unfolding Counts
  offer_lem cap p w w0 full hp h hc hf same = elim (Bool-cases (ltb (length w.queue) cap)) [
    | inl room ↦ rw room (
      record {
        fit =
            All-append (λ r. size_for env (record_cost (length r)) ≤ max_bytes) w.queue (p ∷ [])
              h.fit (hp, tt);
        bounded = ground (arith, length-append w.queue (p ∷ []), h.bounded);
      },
      omega (arith, same, length-append w.queue (p ∷ [])),
    )
    | inr full ↦ rw full (hf, hc)
  ]

  evict_lem :
      (cap : ℕ) (q : List Bytes) (w : Intake)
      → w.queue ≡ q
      → IsIntake cap w
      → IsIntake cap (evict q w)
        × ((evict q w).dropped + length (evict q w).queue) % 2 ^ 64
          ≡ (w.dropped + length w.queue) % 2 ^ 64
  evict_lem cap [] w e h = (h, refl)
  evict_lem cap (r ∷ q) w e h =
      let n : length w.queue ≡ suc (length q) = rw e refl in
      let fit : All (λ r. size_for env (record_cost (length r)) ≤ max_bytes) (r ∷ q) =
        subst (λ (l : List Bytes). All (λ r. size_for env (record_cost (length r)) ≤ max_bytes) l) e
          h.fit in
      (record { fit = fit.1; bounded = omega (arith, n, h.bounded) }, omega (arith, n))

  -- What a `Write` leaves: the invariant, and the account of the record. A closed Writer discards it
  -- without counting it.
  pub record Written (cap : ℕ) (w w' : Intake) : Type 0 where
    pub intake : IsIntake cap w'
    pub count :
        (w'.dropped + length w'.queue) % 2 ^ 64
        ≡ (w.dropped + length w.queue + (if w.closed then 0 else 1)) % 2 ^ 64

  written :
      {cap : ℕ} {w w' : Intake}
      → w.closed ≡ false
      → IsIntake cap w' × Counts w w'
      → Written cap w w'
  unfolding Counts
  written {cap} {w} {w'} e r = record { intake = r.0; count = ground (arith, r.1) }

  -- The policy on a full queue.
  when_full : DropPolicy → ℕ → Bytes → Intake → Intake
  when_full drop_newest cap p w = drop_one w
  when_full drop_oldest cap p w = offer_or cap p (drop_one (evict w.queue w)) (evict w.queue w)

  drop_one_lem :
      (cap : ℕ) (w w0 : Intake)
      → IsIntake cap w
      → (w.dropped + length w.queue) % 2 ^ 64 ≡ (w0.dropped + length w0.queue) % 2 ^ 64
      → IsIntake cap (drop_one w) × Counts w0 (drop_one w)
  unfolding Counts
  drop_one_lem cap w w0 h same = (record { fit = h.fit; bounded = h.bounded }, omega (arith, same))

  when_full_lem :
      (policy : DropPolicy) (cap : ℕ) (p : Bytes) (w : Intake)
      → size_for env (record_cost (length p)) ≤ max_bytes
      → IsIntake cap w
      → IsIntake cap (when_full policy cap p w) × Counts w (when_full policy cap p w)
  unfolding when_full
  when_full_lem drop_newest cap p w hp h = drop_one_lem cap w w h refl
  when_full_lem drop_oldest cap p w hp h =
      let evicted = evict_lem cap w.queue w refl h in
      let w' = evict w.queue w in
      let full = drop_one_lem cap w' w evicted.0 evicted.1 in
      offer_lem cap p w' w (drop_one w') hp evicted.0 full.1 full.0 (sym evicted.1)

  write_cases :
      (policy : DropPolicy) (cap : ℕ) (p : Bytes) (w : Intake) (closed large : Bool)
      → w.closed ≡ closed
      → ltb max_bytes (size_for env (record_cost (length p))) ≡ large
      → IsIntake cap w
      → Written cap w (
          if closed
          then w
          else if large
          then record (drop_one w) { notices = w.notices + 1 }
          else offer_or cap p (when_full policy cap p w) w)
  write_cases policy cap p w true large hc hl h = record { intake = h; count = rw hc (omega arith) }
  write_cases policy cap p w false true hc hl h =
      written hc (record { fit = h.fit; bounded = h.bounded }, unfold Counts in omega arith)
  write_cases policy cap p w false false hc hl h =
      let small : size_for env (record_cost (length p)) ≤ max_bytes = ground arith in
      let full = when_full_lem policy cap p w small h in
      written hc (offer_lem cap p w w (when_full policy cap p w) small h full.1 full.0 refl)

  -- `Write` keeps each record of the queue within the size of a request and the queue within its
  -- channel, under both policies and for any record. Unless the Writer is closed, the drop counter
  -- and the queue's length together grow by one, modulo 2 ^ 64: a record is queued, or it or an
  -- older one in its place is counted as dropped. A closed Writer leaves their sum.
  pub write_lem :
      (policy : DropPolicy) (cap : ℕ) (p : Bytes) (w : Intake)
      → IsIntake cap w
      → Written cap w (write env max_bytes policy cap p w)
  unfolding write too_large when_full
  write_lem drop_newest cap p w h =
      write_cases drop_newest cap p w w.closed
        (ltb max_bytes (size_for env (record_cost (length p)))) refl refl h
  write_lem drop_oldest cap p w h =
      write_cases drop_oldest cap p w w.closed
        (ltb max_bytes (size_for env (record_cost (length p)))) refl refl h
