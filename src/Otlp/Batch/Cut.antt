-- ===== src/Otlp/Batch/Cut.antt =====
-- How the flush goroutine of otlp/writer.go cuts the records into requests.
use zapwire.Common.{
  ℕ, ◌+◌, ◌≤◌, ◌<◌, ◌≡◌, inl, inr, refl, sym, ◌∙◌, ap, Bool, true, false, Option, none, List, [],
  ◌∷◌, ◌++◌, Bytes, All, All-append, length, length-append, append_assoc, append-nil, ltb, leb,
  ◌&&◌, ◌||◌, arith, Bool-cases, List-cases, concat, concat-append, sum_by-append,
}
use zapwire.Otlp.Envelope.{Envelope, record_cost, size_for, tagged_len, assemble}
use zapwire.Otlp.Envelope.Size.{length-assemble}
use zapwire.Otlp.Export.{Account, Prepared, RetryConfig, Trip, settled, export}
use zapwire.Otlp.Export.Retry.{IsInterval, SettledBy, export-Ends}
use zapwire.Otlp.Batch.{
  Flusher, Event, cancelled, sync, tick, receive, drain_budget, flush, append, flush_full, cut, add,
  drain_queued, on_event, run,
}

tagged_len-append : (a b : List Bytes) → tagged_len (a ++ b) ≡ tagged_len a + tagged_len b
unfolding tagged_len
tagged_len-append a b = sum_by-append (λ (r : Bytes). record_cost (length r)) a b

tagged_len_one : (r : Bytes) → tagged_len (r ∷ []) ≡ record_cost (length r)
unfolding tagged_len
tagged_len_one r = omega arith

-- A record that a request can carry alone.
abbrev pub Admissible : Envelope → ℕ → Bytes → Type 0
Admissible env max_bytes r = size_for env (record_cost (length r)) ≤ max_bytes

abbrev pub received : Event → List Bytes
received (cancelled now q) = q
received (sync now q) = q
received tick = []
received (receive rec) = rec ∷ []

abbrev pub all_received : List Event → List Bytes
all_received [] = []
all_received (e ∷ es) = received e ++ all_received es

abbrev pub AllReceived : Envelope → ℕ → List Event → Type 0
AllReceived env max_bytes [] = Unit
AllReceived env max_bytes (e ∷ es) =
    All (Admissible env max_bytes) (received e) × AllReceived env max_bytes es

module _ (prepare : Bytes → Prepared) (env : Envelope) (c : RetryConfig) (trips : ℕ → Trip)
    (max_bytes batch_size : ℕ) (hi : IsInterval c.initial) (hm : IsInterval c.max_interval) where
  -- A batch that keeps both limits.
  pub IsRequest : List Bytes → Type 0
  IsRequest b = (0 < length b) × (length b ≤ batch_size) × (size_for env (tagged_len b) ≤ max_bytes)

  -- What holds at the start of a flush. Between two rounds of the loop there is room for a record.
  pub record Ready (f : Flusher) : Type 0 where
    pub tagged : f.tagged ≡ tagged_len f.batch
    pub few : length f.batch ≤ batch_size
    pub small : 0 < length f.batch → size_for env f.tagged ≤ max_bytes
    pub good : All IsRequest f.shipped
    pub alive : f.stopped ≡ false

  pub record Waiting (f : Flusher) : Type 0 where
    pub ready : Ready f
    pub room : length f.batch < batch_size

  -- All records that were taken, in their order.
  pub taken : Flusher → List Bytes
  taken f = concat f.shipped ++ f.batch

  record Flushed (f f' : Flusher) : Type 0 where
    batch : f'.batch ≡ []
    tagged : f'.tagged ≡ 0
    good : All IsRequest f'.shipped
    alive : f'.stopped ≡ false
    order : taken f' ≡ taken f

  -- With such intervals an export returns.
  export_returns :
      (allow_retry : Bool) (d : Option ℕ) (t : Trip) (r : Bytes) (rs : List Bytes) (a : Account)
      → (a' : Account) × (export prepare env c allow_retry d t (r ∷ rs) a ≡ settled a')
  unfolding SettledBy
  export_returns allow_retry d t r rs a =
      elim (export-Ends prepare env c allow_retry d t r rs a hi hm) [
        | inl (spent, e) ↦ (_, e)
        | inr (inl (left, (x, fails, e))) ↦ (_, e)
        | inr (inr (left, fine, (k, inl (x, is, e)))) ↦ (_, e)
        | inr (inr (left, fine, (k, inr (x, is, e)))) ↦ (_, e)
      ]

  flush_fields :
      (allow_retry : Bool) (d : Option ℕ) (batch : List Bytes) (tagged : ℕ)
      (shipped : List (List Bytes)) (account : Account) (stopped : Bool)
      → let f : Flusher = record {
        batch = batch;
        tagged = tagged;
        shipped = shipped;
        account = account;
        stopped = stopped;
      } in
        Ready f → Flushed f (flush prepare env c trips max_bytes batch_size allow_retry d f)
  unfolding flush taken IsRequest
  flush_fields allow_retry d [] tagged shipped account stopped h = rw h.alive (record {
    batch = refl;
    tagged = h.tagged ∙ (unfold tagged_len in refl);
    good = h.good;
    alive = refl;
    order = refl;
  })
  flush_fields allow_retry d (r ∷ rs) tagged shipped account stopped h =
      let (a', returns) = export_returns allow_retry d (trips (length shipped)) r rs account in
      rw (h.alive, returns)
        (record {
          batch = refl;
          tagged = refl;
          good = All-append IsRequest shipped ((r ∷ rs) ∷ []) h.good (
            (
              omega arith,
              h.few,
              omega (arith, ap (λ (k : ℕ). size_for env k) h.tagged, h.small (omega arith)),
            ),
            tt,
          );
          alive = refl;
          order =
              append-nil (concat (shipped ++ ((r ∷ rs) ∷ [])))
              ∙ concat-append shipped ((r ∷ rs) ∷ [])
              ∙ ap (λ (l : List Bytes). concat shipped ++ l) (append-nil (r ∷ rs));
        })

  flush_lem :
      (allow_retry : Bool) (d : Option ℕ) (f : Flusher)
      → Ready f
      → Flushed f (flush prepare env c trips max_bytes batch_size allow_retry d f)
  flush_lem allow_retry d f h =
      flush_fields allow_retry d f.batch f.tagged f.shipped f.account f.stopped h

  -- The record is in a batch that keeps both limits.
  Added : Bytes → Flusher → Flusher → Type 0
  Added rec f f' = Ready f' × (taken f' ≡ taken f ++ (rec ∷ []))

  append_lem :
      (rec : Bytes) (f : Flusher)
      → f.stopped ≡ false
      → f.tagged ≡ tagged_len f.batch
      → length f.batch < batch_size
      → size_for env (f.tagged + record_cost (length rec)) ≤ max_bytes
      → All IsRequest f.shipped
      → Added rec f (append prepare env c trips max_bytes batch_size rec f)
  unfolding Added taken
  append_lem rec f alive ht hr hs hg = rw alive (
    record {
      tagged = omega (arith, ht, tagged_len-append f.batch (rec ∷ []), tagged_len_one rec);
      few = omega (arith, length-append f.batch (rec ∷ []));
      small = λ _. hs;
      good = hg;
      alive = refl;
    },
    sym (append_assoc (concat f.shipped) f.batch (rec ∷ [])),
  )

  -- A batch that is empty has room for any admissible record.
  fits_empty :
      (rec : Bytes) (f : Flusher)
      → Admissible env max_bytes rec
      → f.tagged ≡ 0
      → size_for env (f.tagged + record_cost (length rec)) ≤ max_bytes
  fits_empty rec f ha e =
      let k : f.tagged + record_cost (length rec) ≡ record_cost (length rec) = omega (arith, e) in
      rw k ha

  fits_room :
      (rec : Bytes) (f : Flusher)
      → Admissible env max_bytes rec
      → Ready f
      → (ltb 0 (length f.batch)
          && ltb max_bytes (size_for env (f.tagged + record_cost (length rec))))
        ≡ false
      → size_for env (f.tagged + record_cost (length rec)) ≤ max_bytes
  fits_room rec f ha h fits = elim (List-cases f.batch) [
    | inl e ↦ fits_empty rec f ha (h.tagged ∙ rw e (unfold tagged_len in refl))
    | inr (r, rs, e) ↦ ground (arith, ap (λ (l : List Bytes). length l) e)
  ]

  cut_lem :
      (rec : Bytes) (allow_retry : Bool) (d : Option ℕ) (f : Flusher)
      → Admissible env max_bytes rec
      → Waiting f
      → Added rec f (
          append prepare env c trips max_bytes batch_size rec
            (cut prepare env c trips max_bytes batch_size rec allow_retry d f))
  unfolding cut Added
  cut_lem rec allow_retry d f ha h =
      elim (Bool-cases (
        ltb 0 (length f.batch)
        && ltb max_bytes (size_for env (f.tagged + record_cost (length rec))))) [
          | inl full ↦ rw full (
              let done = flush_lem allow_retry d f h.ready in
              let f' = flush prepare env c trips max_bytes batch_size allow_retry d f in
              let added =
                append_lem rec f' done.alive
                  (done.tagged ∙ rw done.batch (unfold tagged_len in refl))
                  (rw done.batch (omega (arith, h.room))) (fits_empty rec f' ha done.tagged)
                  done.good in
              (added.0, added.1 ∙ ap (λ (l : List Bytes). l ++ (rec ∷ [])) done.order))
          | inr fits ↦ rw fits (
              append_lem rec f h.ready.alive h.ready.tagged h.room (fits_room rec f ha h.ready fits)
                h.ready.good)
        ]

  Flushed-Waiting : {f f' : Flusher} → 0 < batch_size → Flushed f f' → Waiting f'
  Flushed-Waiting {f} {f'} pos h = record {
    ready = record {
      tagged = h.tagged ∙ rw h.batch (unfold tagged_len in refl);
      few = rw h.batch (omega arith);
      small = rw h.batch (λ k. absurd (omega arith));
      good = h.good;
      alive = h.alive;
    };
    room = rw h.batch pos;
  }

  flush_full_lem :
      (allow_retry : Bool) (d : Option ℕ) (f : Flusher)
      → 0 < batch_size
      → Ready f
      → let f' = flush_full prepare env c trips max_bytes batch_size allow_retry d f in
        Waiting f' × (taken f' ≡ taken f)
  unfolding flush_full
  flush_full_lem allow_retry d f pos h =
      elim (Bool-cases (leb batch_size (length f.batch) || leb max_bytes (size_for env f.tagged))) [
        | inl full ↦
            rw full (
              Flushed-Waiting pos (flush_lem allow_retry d f h),
              (flush_lem allow_retry d f h).order,
            )
        | inr room ↦ rw room (record { ready = h; room = ground arith }, refl)
      ]

  -- `add` keeps the invariant and takes the record.
  pub add_lem :
      (rec : Bytes) (allow_retry : Bool) (d : Option ℕ) (f : Flusher)
      → 0 < batch_size
      → Admissible env max_bytes rec
      → Waiting f
      → let f' = add prepare env c trips max_bytes batch_size rec allow_retry d f in
        Waiting f' × (taken f' ≡ taken f ++ (rec ∷ []))
  unfolding add Added
  add_lem rec allow_retry d f pos ha h =
      let added = cut_lem rec allow_retry d f ha h in
      let full =
        flush_full_lem allow_retry d
          (append prepare env c trips max_bytes batch_size rec
            (cut prepare env c trips max_bytes batch_size rec allow_retry d f))
          pos added.0 in
      (full.0, full.1 ∙ added.1)

  -- `drainQueued` leaves no batch behind.
  pub drain_queued_lem :
      (q : List Bytes) (allow_retry : Bool) (d : Option ℕ) (f : Flusher)
      → 0 < batch_size
      → All (Admissible env max_bytes) q
      → Waiting f
      → let f' = drain_queued prepare env c trips max_bytes batch_size allow_retry d q f in
        Waiting f' × (f'.batch ≡ []) × (taken f' ≡ taken f ++ q)
  unfolding drain_queued
  drain_queued_lem [] allow_retry d f pos hq h =
      let done = flush_lem allow_retry d f h.ready in
      (Flushed-Waiting pos done, done.batch, done.order ∙ sym (append-nil (taken f)))
  drain_queued_lem (rec ∷ q) allow_retry d f pos hq h =
      let added = add_lem rec allow_retry d f pos hq.0 h in
      let rest =
        drain_queued_lem q allow_retry d
          (add prepare env c trips max_bytes batch_size rec allow_retry d f) pos hq.1 added.0 in
      (
        rest.0,
        rest.1,
        rest.2 ∙ ap (λ (l : List Bytes). l ++ q) added.1 ∙ append_assoc (taken f) (rec ∷ []) q,
      )

  on_event_lem :
      (drain_every : ℕ) (e : Event) (f : Flusher)
      → 0 < batch_size
      → All (Admissible env max_bytes) (received e)
      → Waiting f
      → let f' = on_event prepare env c trips max_bytes batch_size drain_every e f in
        Waiting f' × (taken f' ≡ taken f ++ received e)
  unfolding on_event
  on_event_lem drain_every (cancelled now q) f pos hq h =
      let r = drain_queued_lem q false (drain_budget drain_every now) f pos hq h in (r.0, r.2)
  on_event_lem drain_every (sync now q) f pos hq h =
      let r = drain_queued_lem q true (drain_budget drain_every now) f pos hq h in (r.0, r.2)
  on_event_lem drain_every tick f pos hq h =
      let done = flush_lem true none f h.ready in
      (Flushed-Waiting pos done, done.order ∙ sym (append-nil (taken f)))
  on_event_lem drain_every (receive rec) f pos hq h = add_lem rec true none f pos hq.0 h

  run_lem :
      (drain_every : ℕ) (es : List Event) (f : Flusher)
      → 0 < batch_size
      → AllReceived env max_bytes es
      → Waiting f
      → let f' = run prepare env c trips max_bytes batch_size drain_every es f in
        Waiting f' × (taken f' ≡ taken f ++ all_received es)
  unfolding run
  run_lem drain_every [] f pos hes h = (h, sym (append-nil (taken f)))
  run_lem drain_every (e ∷ es) f pos hes h =
      let one = on_event_lem drain_every e f pos hes.0 h in
      let rest =
        run_lem drain_every es (on_event prepare env c trips max_bytes batch_size drain_every e f)
          pos hes.1 one.0 in
      (
        rest.0,
        rest.1
            ∙ ap (λ (l : List Bytes). l ++ all_received es) one.1
            ∙ append_assoc (taken f) (received e) (all_received es),
      )

  -- A request's bytes, as `assemble` writes them, are within the limit of a request.
  IsRequest-fits :
      (bs : List (List Bytes))
      → All IsRequest bs
      → All (λ b. length (assemble env [] b) ≤ max_bytes) bs
  unfolding IsRequest
  IsRequest-fits [] h = tt
  IsRequest-fits (b ∷ bs) h =
      (omega (arith, length-assemble env [] b, h.0.2), IsRequest-fits bs h.1)

  -- What the flush goroutine has exported when it returns.
  pub record Shipped (received_records : List Bytes) (f : Flusher) : Type 0 where
    pub alive : f.stopped ≡ false
    pub all : concat f.shipped ≡ received_records
    pub requests : All IsRequest f.shipped
    pub bodies : All (λ b. length (assemble env [] b) ≤ max_bytes) f.shipped

  -- `run`, from its start to the final drain, neither panics nor hangs, and hands every record that
  -- it received to an export exactly once and in order, in batches that are not empty, have at most
  -- `batch_size` records, and whose assembled request is at most `max_bytes` long: if each record
  -- fits a request alone, `batch_size` is positive, and the initial and the maximal backoff are at
  -- least 2 ns and less than 2 ^ 62 ns.
  pub run_ships :
      (drain_every : ℕ) (es : List Event) (now : ℕ) (q : List Bytes) (account : Account)
      → 0 < batch_size
      → AllReceived env max_bytes es
      → All (Admissible env max_bytes) q
      → Shipped (all_received es ++ q) (
          on_event prepare env c trips max_bytes batch_size drain_every (cancelled now q) (
            run prepare env c trips max_bytes batch_size drain_every es (record {
              batch = [];
              tagged = 0;
              shipped = [];
              account = account;
              stopped = false;
            })))
  unfolding on_event taken
  run_ships drain_every es now q account pos hes hq =
      let f0 : Flusher = record {
        batch = [];
        tagged = 0;
        shipped = [];
        account = account;
        stopped = false;
      } in
      let f = run prepare env c trips max_bytes batch_size drain_every es f0 in
      let ran = run_lem drain_every es f0 pos hes (record {
        ready = record {
          tagged = unfold tagged_len in refl;
          few = omega arith;
          small = λ k. absurd (omega arith);
          good = tt;
          alive = refl;
        };
        room = pos;
      }) in
      let done = drain_queued_lem q false (drain_budget drain_every now) f pos hq ran.0 in
      let f' =
        drain_queued prepare env c trips max_bytes batch_size false (drain_budget drain_every now) q
          f in
      record {
        alive = done.0.ready.alive;
        all =
            sym (append-nil (concat f'.shipped))
            ∙ ap (λ (l : List Bytes). concat f'.shipped ++ l) (sym done.1)
            ∙ done.2
            ∙ ap (λ (l : List Bytes). l ++ q) ran.1;
        requests = done.0.ready.good;
        bodies = IsRequest-fits f'.shipped done.0.ready.good;
      }
