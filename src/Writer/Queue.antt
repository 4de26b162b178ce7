-- ===== src/Writer/Queue.antt =====
-- The queue of writer.go: `enqueue` on the side of the callers; `drain`, `flush` and `flushAll` on the
-- side of the flush goroutine. The framer is a parameter: its result, or `none` for its error.
pub mod Laws
pub mod Beside
use zapwire.Common.{
  ℕ, zero, suc, ◌+◌, Bool, true, false, Option, none, some, List, [], ◌∷◌, ◌++◌, Bytes, length, ltb,
  leb, if◌then◌else◌,
}
use zapwire.Config.{DropPolicy, drop_newest, drop_oldest}
use zapwire.Writer.{
  Writer, Report, frame_failed, WriteOutcome, wrote, count_dropped, report_err, write_frame,
}

-- `case w.queue <- payload`, on a channel of capacity `cap`
unfoldable pub offer : ℕ → Bytes → Writer → Option Writer
offer cap p w =
    if ltb (length w.queue) cap then some (record w { queue = w.queue ++ (p ∷ []) }) else none

-- `case <-w.queue`, which evicts the oldest payload, if there is one
abbrev pub evict : List Bytes → Writer → Writer
evict [] w = w
evict (p ∷ q) w = count_dropped 1 (record w { queue = q })

unfoldable pub evict_oldest : Writer → Writer
unfolding count_dropped
evict_oldest w = evict w.queue w

unfoldable pub or_drop : Option Writer → Writer → Writer
unfolding count_dropped
or_drop none w = count_dropped 1 w
or_drop (some w') w = w'

unfoldable pub drop_when_full : DropPolicy → ℕ → Bytes → Writer → Writer
unfolding evict_oldest offer or_drop count_dropped
drop_when_full drop_newest cap p w = count_dropped 1 w
drop_when_full drop_oldest cap p w = or_drop (offer cap p (evict_oldest w)) (evict_oldest w)

unfoldable pub enqueue : DropPolicy → ℕ → Bytes → Writer → Writer
unfolding offer drop_when_full
enqueue policy cap p w = elim (offer cap p w) [
  | some w' ↦ w'
  | none ↦ drop_when_full policy cap p w
]

-- `drain`: the batch and the queue, while nobody enqueues.
unfoldable pub drain : ℕ → List Bytes → List Bytes → List Bytes × List Bytes
drain size batch [] = (batch, [])
drain size batch (p ∷ q) =
    let more = drain size (batch ++ (p ∷ [])) q in
    if ltb (length batch) size then more else (batch, p ∷ q)

module _ (frame : Bytes → List Bytes → Option Bytes) where
  -- `flush`; the buffer that it reuses does not show in the result.
  unfoldable pub flush_framed : WriteOutcome → Option Bytes → List Bytes → Writer → Writer
  unfolding count_dropped report_err write_frame
  flush_framed o none batch w = report_err frame_failed (count_dropped (length batch) w)
  flush_framed o (some f) batch w = write_frame o f (length batch) w

  unfoldable pub flush : WriteOutcome → List Bytes → Writer → Writer
  unfolding flush_framed
  flush o [] w = w
  flush o (p ∷ ps) w = flush_framed o (frame [] (p ∷ ps)) (p ∷ ps) w

  -- `flushAll` on fuel while no caller enqueues, as behind the barrier of `Close`, with an outcome for
  -- each round; the second result says that the loop ended. Writer.Queue.Beside has it beside callers.
  unfoldable pub flush_all : ℕ → ℕ → (ℕ → WriteOutcome) → List Bytes → Writer → Writer × Bool
  unfolding drain flush
  flush_all size zero outcomes batch w = (w, false)
  flush_all size (suc fuel) outcomes batch w =
      let d = drain size batch w.queue in
      let w' = record w { queue = d.1 } in
      elim d.0 [
        | [] ↦ (w', true)
        | p ∷ ps ↦ flush_all size fuel outcomes [] (flush (outcomes fuel) (p ∷ ps) w')
      ]
