-- ===== src/Otlp/Export/Retry.antt =====
-- The retry loop of otlp/writer.go ends, and settles its batch exactly once.
use zapwire.Common.{
  ℕ, zero, suc, ◌+◌, ◌-◌, ◌^◌, ◌≤◌, ◌<◌, ◌≡◌, ◌⊎◌, inl, inr, refl, Bool, true, false, Option, none,
  some, List, [], ◌∷◌, Bytes, length, ltb, leb, ◌&&◌, if◌then◌else◌, Result, ok, err, arith,
  Bool-cases,
}
use zapwire.Otlp.Export.{
  ExportError, Acceptance, Account, Turn, Verdict, settled, again, next_delay, pause, wait, on_turn,
  retry_loop, accepted, drop_records, notify, Prepared, RetryConfig, Trip, deadline_of, drain_spent,
  error_of, drain_timeout_exceeded, export,
}
use zapwire.Otlp.Envelope.{Envelope, assemble}

Option-cases : {A : Type 0} (o : Option A) → (o ≡ none) ⊎ ((a : A) × (o ≡ some a))
Option-cases none = inl refl
Option-cases (some a) = inr (a, refl)

Result-cases : {E A : Type 0} (r : Result E A) → ((a : A) × (r ≡ ok a)) ⊎ ((e : E) × (r ≡ err e))
Result-cases (ok a) = inl (a, refl)
Result-cases (err e) = inr (e, refl)

-- An interval that the code can double without wrapping around, and that makes time pass.
abbrev pub IsInterval : ℕ → Type 0
IsInterval d = (2 ≤ d) × (d < 2 ^ 62)

-- The batch was settled by the answer of this turn: an acceptance is accounted, an error drops all.
unfoldable pub SettledBy : ℕ → Account → Verdict → Turn → Type 0
SettledBy n s v t =
    ((a : Option Acceptance) × (t.answer ≡ ok a) × (v ≡ settled (accepted a s)))
    ⊎ ((e : ExportError) × (t.answer ≡ err e) × (v ≡ settled (drop_records n (some e) s)))

-- The turn asks for another one, later, with an interval again, and this one began in time.
Continues : ℕ → ℕ → Verdict → Type 0
Continues deadline now v =
    (delay' : ℕ) × (now' : ℕ) × (v ≡ again delay' now')
    × IsInterval delay'
    × (now < now')
    × (now < deadline)

next_delay-IsInterval :
    (max_interval delay : ℕ)
    → IsInterval max_interval
    → IsInterval delay
    → IsInterval (next_delay max_interval delay)
unfolding next_delay
next_delay-IsInterval max_interval delay hm hd = ground arith

wait_lem :
    (max_interval deadline n delay now : ℕ) (t : Turn) (e : ExportError) (s : Account)
    → IsInterval max_interval
    → IsInterval delay
    → (wait max_interval deadline n delay (now + t.took) t e s
        ≡ settled (drop_records n (some e) s))
      ⊎ Continues deadline now (wait max_interval deadline n delay (now + t.took) t e s)
unfolding wait Continues
wait_lem max_interval deadline n delay now t e s hm hd =
    let sane : leb (2 ^ 63) delay ≡ false = ground arith in
    let p = pause e.retry_after delay t.jitter in
    let positive : 0 < p = unfold pause in ground arith in
    elim (Bool-cases (ltb deadline (now + t.took + p))) [
      | inl late ↦ inl (rw (sane, late) refl)
      | inr early ↦ elim (Bool-cases t.timer) [
        | inl fired ↦ inr (
          next_delay max_interval delay,
          now + t.took + p + t.late,
          rw (sane, early, fired) refl,
          next_delay-IsInterval max_interval delay hm hd,
          omega arith,
          ground arith,
        )
        | inr cancelled ↦ inl (rw (sane, early, cancelled) refl)
      ]
    ]

on_turn_lem :
    (allow_retry : Bool) (max_interval deadline n delay now : ℕ) (t : Turn) (s : Account)
    → IsInterval max_interval
    → IsInterval delay
    → SettledBy n s (on_turn allow_retry max_interval deadline n delay now t s) t
      ⊎ Continues deadline now (on_turn allow_retry max_interval deadline n delay now t s)
unfolding on_turn SettledBy
on_turn_lem allow_retry max_interval deadline n delay now t s hm hd = elim (Result-cases t.answer) [
  | inl (a, is) ↦ inl (inl (a, is, rw is refl))
  | inr (e, is) ↦
      elim (Bool-cases (allow_retry && e.retryable && (if t.cancelled then false else true))) [
        | inl goes ↦ elim (wait_lem max_interval deadline n delay now t e s hm hd) [
          | inl gone ↦ inl (inr (e, is, rw (is, goes) gone))
          | inr on ↦ inr (rw (is, goes) on)
        ]
        | inr stops ↦ inl (inr (e, is, rw (is, stops) refl))
      ]
]

-- Whatever the collector, the clock and the random numbers do, the retry loop ends within its fuel
-- without a panic, if that covers the time to the deadline. Its end is that of one turn: the
-- acceptance of that turn is accounted, or all records of the batch are dropped once, with its error.
pub retry_loop_ends :
    (fuel : ℕ) (allow_retry : Bool) (max_interval deadline n : ℕ) (turns : ℕ → Turn)
    (i delay now : ℕ) (s : Account)
    → IsInterval max_interval
    → IsInterval delay
    → 0 < fuel
    → deadline + 2 ≤ fuel + now
    → (k : ℕ) × SettledBy n s
        (retry_loop fuel allow_retry max_interval deadline n turns i delay now s)
        (turns k)
unfolding retry_loop SettledBy Continues
retry_loop_ends zero allow_retry max_interval deadline n turns i delay now s hm hd pos hf =
    absurd (omega arith)
retry_loop_ends (suc fuel) allow_retry max_interval deadline n turns i delay now s hm hd pos hf =
    elim (on_turn_lem allow_retry max_interval deadline n delay now (turns i) s hm hd) [
      | inl (inl (a, is, gives)) ↦ (i, inl (a, is, rw (gives, retry_loop) refl))
      | inl (inr (e, is, gives)) ↦ (i, inr (e, is, rw (gives, retry_loop) refl))
      | inr (delay', now', gives, hd', later, early) ↦
          rw (gives, retry_loop)
            (retry_loop_ends fuel allow_retry max_interval deadline n turns (suc i) delay' now' s hm
              hd' (omega arith) (omega arith))
    ]

-- How the export of a batch of `n` records ends: on a spent drain budget or where the transport
-- cannot prepare the body, all are dropped without an attempt; otherwise by one turn's answer.
abbrev pub Ends : ℕ → Option ℕ → Trip → Prepared → Account → Verdict → Type 0
Ends n drain_deadline t p s v =
    ((drain_spent drain_deadline t.now ≡ true)
      × (v ≡ settled (drop_records n (some (error_of drain_timeout_exceeded)) s)))
    ⊎ ((drain_spent drain_deadline t.now ≡ false)
        × ((e : ExportError) × (p.fail ≡ some e) × (v ≡ settled (drop_records n (some e) s))))
    ⊎ ((drain_spent drain_deadline t.now ≡ false)
        × (p.fail ≡ none)
        × ((k : ℕ) × SettledBy n (notify p.warn s) v (t.turns k)))

module _ (prepare : Bytes → Prepared) (env : Envelope) (c : RetryConfig) where
  -- `export` of a batch that is not empty ends, without a panic, if the initial and the maximal
  -- backoff are at least 2 ns and less than 2 ^ 62 ns, whatever the transport, the clock and the
  -- random numbers do. With the drain budget spent, or where the transport cannot prepare the body,
  -- all records are dropped once, without an attempt; otherwise the end is that of one attempt: its
  -- acceptance is accounted, or all records are dropped once, with its error.
  pub export-Ends :
      (allow_retry : Bool) (drain_deadline : Option ℕ) (t : Trip) (r : Bytes) (rs : List Bytes)
      (s : Account)
      → IsInterval c.initial
      → IsInterval c.max_interval
      → Ends
          (length (r ∷ rs))
          drain_deadline
          t
          (prepare (assemble env [] (r ∷ rs)))
          s
          (export prepare env c allow_retry drain_deadline t (r ∷ rs) s)
  unfolding export
  export-Ends allow_retry drain_deadline t r rs s hi hm =
      let p = prepare (assemble env [] (r ∷ rs)) in
      elim (Bool-cases (drain_spent drain_deadline t.now)) [
        | inl spent ↦ inl (spent, rw spent refl)
        | inr left ↦ elim (Option-cases p.fail) [
          | inl fine ↦ inr (
              inr (
                left,
                fine,
                rw (left, fine)
                    (retry_loop_ends (deadline_of c drain_deadline t.now - t.now + 3) allow_retry
                      c.max_interval (deadline_of c drain_deadline t.now) (length (r ∷ rs)) t.turns
                      0 c.initial t.now (notify p.warn s) hm hi (omega arith) (omega arith)),
              ))
          | inr (e, fails) ↦ inr (inl (left, (e, fails, rw (left, fails) refl)))
        ]
      ]
