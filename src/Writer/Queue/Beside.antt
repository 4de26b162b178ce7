-- ===== src/Writer/Queue/Beside.antt =====
-- `flushAll` of writer.go beside callers, as `Sync` runs it: before each receive of `drain`, callers do
-- some of the operations of `enqueue`.
use zapwire.Common.{
  ℕ, zero, suc, ◌+◌, ◌-◌, ◌≤◌, ◌<◌, ◌≡◌, refl, ap, Bool, true, false, Option, none, some, List, [],
  ◌∷◌, ◌++◌, Bytes, length, length-append, arith, inl, inr, List-cases, ltb, sum_by,
}
use zapwire.Writer.{Writer, WriteOutcome, count_dropped}
use zapwire.Writer.Queue.{offer, flush, drain, flush_all}
use zapwire.Writer.Queue.Laws.{flush-Settles}

-- An operation of `enqueue`: a send, which a full queue refuses; a receive, which an empty queue
-- refuses; a count.
pub data Act : Type 0 where
  offered : Bytes → Act
  evicted : Act
  counted : Act

abbrev or_keep : Option Writer → Writer → Writer
or_keep none w = w
or_keep (some w') w = w'

abbrev without_head : List Bytes → Writer → Writer
without_head [] w = w
without_head (p ∷ q) w = record w { queue = q }

unfoldable pub act : ℕ → Act → Writer → Writer
unfolding offer count_dropped
act cap (offered p) w = or_keep (offer cap p w) w
act cap evicted w = without_head w.queue w
act cap counted w = count_dropped 1 w

unfoldable pub act_all : ℕ → List Act → Writer → Writer
unfolding act
act_all cap [] w = w
act_all cap (a ∷ xs) w = act_all cap xs (act cap a w)

-- The operations before each receive that is still to come; none once the list has ended.
abbrev pub Acts : Type 0
Acts = List (List Act)

abbrev next_acts : Acts → List Act
next_acts [] = []
next_acts (xs ∷ rest) = xs

abbrev rest_acts : Acts → Acts
rest_acts [] = []
rest_acts (xs ∷ rest) = rest

-- `drain`, with room for so many payloads: the batch, the operations to come, and the Writer.
unfoldable pub drain_beside : ℕ → ℕ → List Bytes → Acts → Writer → List Bytes × Acts × Writer
unfolding act_all
drain_beside cap zero batch acts w = (batch, acts, w)
drain_beside cap (suc room) batch acts w =
    let w' = act_all cap (next_acts acts) w in
    elim w'.queue [
      | [] ↦ (batch, rest_acts acts, w')
      | p ∷ q ↦ drain_beside cap room (batch ++ (p ∷ [])) (rest_acts acts) (record w' { queue = q })
    ]

module _ (frame : Bytes → List Bytes → Option Bytes) (cap size : ℕ) where
  -- `flushAll` on fuel; the second result says that the loop ended.
  unfoldable pub flush_all_beside :
      ℕ → (ℕ → WriteOutcome) → Acts → List Bytes → Writer → Writer × Bool
  unfolding drain_beside flush
  flush_all_beside zero outcomes acts batch w = (w, false)
  flush_all_beside (suc fuel) outcomes acts batch w =
      let d = drain_beside cap (size - length batch) batch acts w in
      elim d.0 [
        | [] ↦ (d.2, true)
        | p ∷ ps ↦ flush_all_beside fuel outcomes d.1 [] (flush frame (outcomes fuel) (p ∷ ps) d.2)
      ]

abbrev is_send : Act → ℕ
is_send (offered p) = 1
is_send evicted = 0
is_send counted = 0

abbrev sends : List Act → ℕ
sends xs = sum_by is_send xs

-- How often callers still try to send.
abbrev pub all_sends : Acts → ℕ
all_sends acts = sum_by sends acts

act_grows :
    (cap : ℕ) (a : Act) (w : Writer) → length (act cap a w).queue ≤ length w.queue + is_send a
unfolding act offer count_dropped
act_grows cap (offered p) w = ground (arith, length-append w.queue (p ∷ []))
act_grows cap evicted w = without w.queue refl
  where
    without : (q : List Bytes) → w.queue ≡ q → length (without_head q w).queue ≤ length w.queue + 0
    without [] e = omega arith
    without (p ∷ q) e = omega (arith, ap (λ (l : List Bytes). length l) e)
act_grows cap counted w = omega arith

act_all_grows :
    (cap : ℕ) (xs : List Act) (w : Writer)
    → length (act_all cap xs w).queue ≤ length w.queue + sends xs
unfolding act_all
act_all_grows cap [] w = omega arith
act_all_grows cap (a ∷ xs) w = omega (arith, act_grows cap a w, act_all_grows cap xs (act cap a w))

all_sends_lem : (acts : Acts) → sends (next_acts acts) + all_sends (rest_acts acts) ≡ all_sends acts
all_sends_lem [] = refl
all_sends_lem (xs ∷ rest) = refl

-- The logs at hand, and those that may still come.
abbrev at_hand : List Bytes × Acts × Writer → ℕ
at_hand (batch, acts, w) = length batch + length w.queue + all_sends acts

drain_beside_keeps :
    (cap room : ℕ) (batch : List Bytes) (acts : Acts) (w : Writer)
    → at_hand (drain_beside cap room batch acts w) ≤ at_hand (batch, acts, w)
unfolding drain_beside
drain_beside_keeps cap zero batch acts w = omega arith
drain_beside_keeps cap (suc room) batch acts w =
    let w' = act_all cap (next_acts acts) w in
    let grown = act_all_grows cap (next_acts acts) w in
    elim (List-cases w'.queue) [
      | inl e ↦ rw (e, drain_beside) (omega (arith, grown, all_sends_lem acts))
      | inr (p, q, e) ↦
          rw (e, drain_beside)
            (omega (
              arith,
              grown,
              all_sends_lem acts,
              ap (λ (l : List Bytes). length l) e,
              length-append batch (p ∷ []),
              drain_beside_keeps cap room (batch ++ (p ∷ [])) (rest_acts acts)
                  (record w' { queue = q }),
            ))
    ]

-- A drain with room that comes back with nothing has seen the queue empty.
drain_beside_empty :
    (cap room : ℕ) (batch : List Bytes) (acts : Acts) (w : Writer)
    → 0 < room + length batch
    → (drain_beside cap room batch acts w).0 ≡ []
    → (drain_beside cap room batch acts w).2.queue ≡ []
unfolding drain_beside
drain_beside_empty cap zero batch acts w h e =
    absurd (omega (arith, ap (λ (l : List Bytes). length l) e))
drain_beside_empty cap (suc room) batch acts w h e =
    let w' = act_all cap (next_acts acts) w in
    elim (List-cases w'.queue) [
      | inl none_left ↦ rw (none_left, drain_beside) none_left
      | inr (p, q, some_left) ↦
          rw (some_left, drain_beside)
            (drain_beside_empty cap room (batch ++ (p ∷ [])) (rest_acts acts)
              (record w' { queue = q }) (omega (arith, length-append batch (p ∷ [])))
              (rw (some_left, drain_beside) at e))
    ]

module _ (frame : Bytes → List Bytes → Option Bytes) (cap size : ℕ) where
  -- However callers' sends, evictions and counts fall between the receives, `flushAll` ends within a
  -- round more than there are logs in the batch and the queue and sends to come, and the queue is empty
  -- then: if `size` is positive and callers send a finite number of times while it runs.
  pub flush_all_beside_ends :
      (fuel : ℕ) (outcomes : ℕ → WriteOutcome) (acts : Acts) (batch : List Bytes) (w : Writer)
      → 0 < size
      → length batch + length w.queue + all_sends acts < fuel
      → let r = flush_all_beside frame cap size fuel outcomes acts batch w in
        (r.1 ≡ true) × (r.0.queue ≡ [])
  unfolding flush_all_beside
  flush_all_beside_ends zero outcomes acts batch w hs hf = absurd (omega arith)
  flush_all_beside_ends (suc fuel) outcomes acts batch w hs hf =
      let d = drain_beside cap (size - length batch) batch acts w in
      let kept = drain_beside_keeps cap (size - length batch) batch acts w in
      elim (List-cases d.0) [
        | inl e ↦
            rw (e, flush_all_beside)
              (refl, drain_beside_empty cap (size - length batch) batch acts w (omega arith) e)
        | inr (p, ps, e) ↦
            let w' = flush frame (outcomes fuel) (p ∷ ps) d.2 in
            let same : length w'.queue ≡ length d.2.queue =
              ap (λ (l : List Bytes). length l)
                (flush-Settles frame (outcomes fuel) (p ∷ ps) d.2).queue in
            rw (e, flush_all_beside)
              (flush_all_beside_ends fuel outcomes d.1 [] w' hs
                (omega (arith, hf, kept, same, ap (λ (l : List Bytes). length l) e)))
      ]

drain_beside_alone :
    (cap size room : ℕ) (batch q : List Bytes) (w : Writer)
    → room + length batch ≡ size
    → drain_beside cap room batch [] (record w { queue = q })
      ≡ ((drain size batch q).0, [], record w { queue = (drain size batch q).1 })
unfolding drain_beside drain act_all
drain_beside_alone cap size zero batch [] w h = refl
drain_beside_alone cap size zero batch (p ∷ q) w h =
    let full : ltb (length batch) size ≡ false = ground arith in rw full
drain_beside_alone cap size (suc room) batch [] w h = refl
drain_beside_alone cap size (suc room) batch (p ∷ q) w h =
    let room_left : ltb (length batch) size ≡ true = ground arith in
    rw room_left (
      drain_beside_alone cap size room (batch ++ (p ∷ [])) q w
        (omega (arith, h, length-append batch (p ∷ []))))

module _ (frame : Bytes → List Bytes → Option Bytes) (cap size : ℕ) where
  -- Where no caller does anything, that is `flush_all`.
  pub flush_all_beside-flush_all :
      (fuel : ℕ) (outcomes : ℕ → WriteOutcome) (batch : List Bytes) (w : Writer)
      → length batch ≤ size
      → flush_all_beside frame cap size fuel outcomes [] batch w
        ≡ flush_all frame size fuel outcomes batch w
  unfolding flush_all_beside flush_all
  flush_all_beside-flush_all zero outcomes batch w h = refl
  flush_all_beside-flush_all (suc fuel) outcomes batch w h =
      let alone = drain_beside_alone cap size (size - length batch) batch w.queue w (omega arith) in
      elim (List-cases (drain size batch w.queue).0) [
        | inl e ↦ rw (alone, e, flush_all_beside, flush_all, alone)
        | inr (p, ps, e) ↦
            rw (alone, e, flush_all_beside, flush_all, alone)
              (flush_all_beside-flush_all fuel outcomes []
                (flush frame (outcomes fuel) (p ∷ ps)
                  (record w { queue = (drain size batch w.queue).1 }))
                (omega arith))
      ]
