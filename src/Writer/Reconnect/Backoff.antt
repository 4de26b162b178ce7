-- ===== src/Writer/Reconnect/Backoff.antt =====
-- A burst of reconnect attempts in writer.go: how often it tries, how long it waits, how it ends.
use zapwire.Common.{
  ℕ, zero, suc, ◌+◌, ◌*◌, ◌^◌, ◌≤◌, ◌<◌, ◌≡◌, refl, ◌∙◌, ap, sym, true, false, Option, none, some,
  List, [], ◌∷◌, length, arith, min, Bool-cases, inl, inr, ◌≢◌,
}
use zapwire.Common.Int.{ℤ, pos}
use zapwire.Writer.{Writer, close_conn}
use zapwire.Writer.Reconnect.{
  try_connect, next_backoff, Attempt, Ending, connected, exhausted, stopped, Burst, burst,
  count_reconnect, add_wait,
}
use mathlib.Core.Path.{subst}

-- Durations whose double does not wrap: up to 146 years.
abbrev pub max_duration : ℕ
max_duration = 2 ^ 62

pub next_backoff_lem :
    (m b : ℕ) → b < max_duration → next_backoff (pos m) (pos b) ≡ pos (min (2 * b) m)
unfolding next_backoff
next_backoff_lem m b h = ground arith

-- The waits that the documentation promises: from the initial interval on, each twice the one
-- before, up to the ceiling.
abbrev pub schedule : ℕ → ℕ → ℕ → List ℤ
schedule zero m b = []
schedule (suc n) m b = pos b ∷ schedule n m (min (2 * b) m)

-- A dial that succeeds in time installs its connection.
try_connect_ok :
    (dial : Option ℕ) (w : Writer)
    → (try_connect dial w).1 ≡ true
    → ((try_connect dial w).0.conn ≡ dial) × (dial ≢ none)
unfolding try_connect close_conn
try_connect_ok none w e = cc
try_connect_ok (some c) w e = (ground arith, λ q. cc)

-- One that fails, or that comes after `Close`, leaves the connection as it was.
try_connect_failed :
    (dial : Option ℕ) (w : Writer)
    → (try_connect dial w).1 ≡ false
    → (try_connect dial w).0.conn ≡ w.conn
unfolding try_connect close_conn
try_connect_failed none w e = refl
try_connect_failed (some c) w e = ground arith

installs :
    (a : Attempt) (w : Writer)
    → (try_connect a.dial w).1 ≡ true
    → (try_connect a.dial w).0.conn ≢ none
installs a w k = λ q. let (c, ne) = try_connect_ok a.dial w k in ne (sym c ∙ q)

record Bursts (n m b : ℕ) (w : Writer) (r : Burst) : Type 0 where
  waits : r.waits ≡ schedule (length r.waits) m b
  count : length r.waits + 1 ≤ n
  kept : r.ending ≢ connected → r.after.conn ≡ w.conn
  success : r.ending ≡ connected → r.after.conn ≢ none

Bursts-none :
    (n m b : ℕ) (w : Writer)
    → Bursts (suc n) m b w (record { after = w; waits = []; ending = stopped })
Bursts-none n m b w = record {
  waits = refl;
  count = omega arith;
  kept = λ e. refl;
  success = λ e. cc;
}

Bursts-connected :
    (n m b : ℕ) (w w' : Writer)
    → w'.conn ≢ none
    → Bursts (suc n) m b w (record { after = count_reconnect w'; waits = []; ending = connected })
unfolding count_reconnect
Bursts-connected n m b w w' h = record {
  waits = refl;
  count = omega arith;
  kept = λ e. absurd (e refl);
  success = λ e. h;
}

Bursts-wait :
    (n m b : ℕ) (w w' : Writer) (r : Burst)
    → w'.conn ≡ w.conn
    → Bursts n m (min (2 * b) m) w' r
    → Bursts (suc n) m b w (add_wait (pos b) r)
Bursts-wait n m b w w' r same h = record {
  waits = ap (λ (l : List ℤ). pos b ∷ l) h.waits;
  count = omega (arith, h.count);
  kept = λ e. h.kept e ∙ same;
  success = h.success;
}

Bursts-last :
    (n m b : ℕ) (w w' : Writer) (waits : List ℤ) (ending : Ending)
    → w'.conn ≡ w.conn
    → ending ≢ connected
    → waits ≡ schedule (length waits) m b
    → length waits + 1 ≤ n
    → Bursts n m b w (record { after = w'; waits = waits; ending = ending })
Bursts-last n m b w w' waits ending same ne sch len = record {
  waits = sch;
  count = len;
  kept = λ e. same;
  success = λ e. absurd (ne e);
}

burst-Bursts :
    (left m b : ℕ) (env : List Attempt) (w : Writer)
    → m < max_duration
    → b < max_duration
    → Bursts (suc left) m b w (burst (suc left) (pos m) (pos b) env w)
unfolding burst
burst-Bursts left m b [] w hm hb = Bursts-none left m b w
burst-Bursts zero m b (a ∷ env) w hm hb = elim (Bool-cases a.done_before) [
  | inl e ↦ rw e (Bursts-none zero m b w)
  | inr e ↦ elim (Bool-cases (try_connect a.dial w).1) [
    | inl k ↦ rw (e, k) (Bursts-connected zero m b w (try_connect a.dial w).0 (installs a w k))
    | inr k ↦
        rw (e, k)
          (Bursts-last 1 m b w (try_connect a.dial w).0 [] exhausted (try_connect_failed a.dial w k)
            (λ q. cc) refl (omega arith))
  ]
]
burst-Bursts (suc left) m b (a ∷ env) w hm hb = elim (Bool-cases a.done_before) [
  | inl e ↦ rw e (Bursts-none (suc left) m b w)
  | inr e ↦ elim (Bool-cases (try_connect a.dial w).1) [
    | inl k ↦
        rw (e, k) (Bursts-connected (suc left) m b w (try_connect a.dial w).0 (installs a w k))
    | inr k ↦
        let w' = (try_connect a.dial w).0 in
        let same = try_connect_failed a.dial w k in
        elim (Bool-cases a.done_waiting) [
          | inl d ↦
              rw (e, k, d)
                (Bursts-last (suc (suc left)) m b w w' (pos b ∷ []) stopped same (λ q. cc) refl
                  (omega arith))
          | inr d ↦
              let after = λ (x : ℤ). add_wait (pos b) (burst (suc left) (pos m) x env w') in
              rw (e, k, d)
                (subst (λ x. Bursts (suc (suc left)) m b w (after x))
                  (sym (next_backoff_lem m b hb))
                  (Bursts-wait (suc left) m b w w'
                    (burst (suc left) (pos m) (pos (min (2 * b) m)) env w') same
                    (burst-Bursts left m (min (2 * b) m) env w' hm (omega arith))))
        ]
  ]
]

-- A connection is held after a burst that ended connected; any other leaves the one before.
abbrev pub Leaves : Ending → Option ℕ → Option ℕ → Type 0
Leaves connected before after = after ≢ none
Leaves exhausted before after = after ≡ before
Leaves stopped before after = after ≡ before

-- A burst of at most `n` attempts, `n` positive, waits fewer than `n` times, and its waits are the
-- documented schedule: the initial interval, then each twice the one before up to the ceiling,
-- without wrapping, if both are less than 2 ^ 62 ns. A burst that ends connected leaves a
-- connection; any other leaves the one before.
pub burst-schedule :
    (n m b : ℕ) (env : List Attempt) (w : Writer)
    → 0 < n
    → m < max_duration
    → b < max_duration
    → let r = burst n (pos m) (pos b) env w in
      (r.waits ≡ schedule (length r.waits) m b)
      × (length r.waits < n)
      × Leaves r.ending w.conn r.after.conn
burst-schedule zero m b env w hn hm hb = absurd (omega arith)
burst-schedule (suc n) m b env w hn hm hb =
    let r = burst-Bursts n m b env w hm hb in
    (
      r.waits,
      omega (arith, r.count),
      leaves (burst (suc n) (pos m) (pos b) env w).ending r.success r.kept,
    )
  where
    leaves :
        {before after : Option ℕ} (e : Ending)
        → (e ≡ connected → after ≢ none)
        → (e ≢ connected → after ≡ before)
        → Leaves e before after
    leaves connected s k = s refl
    leaves exhausted s k = k (λ q. cc)
    leaves stopped s k = k (λ q. cc)
