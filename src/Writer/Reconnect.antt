-- ===== src/Writer/Reconnect.antt =====
-- The reconnect goroutine of writer.go: `tryConnect`, and one burst of attempts of `reconnectLoop`. A
-- duration is an int64, so doubling the backoff can wrap around.
pub mod Backoff
use zapwire.Common.{
  ℕ, zero, suc, ◌+◌, ◌*◌, ◌%◌, ◌^◌, Bool, true, false, Option, none, some, List, [], ◌∷◌,
  if◌then◌else◌,
}
use zapwire.Common.Int.{ℤ, pos, negsuc, ltb_ℤ}
use zapwire.Otlp.Proto.Varint.{to_u64, to_i64}
use zapwire.Writer.{Writer, close_conn, has_conn, drain_reconnect_ch}

abbrev shut_old : Option ℕ → Writer → Writer
shut_old none w = w
shut_old (some c) w = close_conn c w

-- `tryConnect`, by what the dial returns. A Writer that was closed meanwhile takes no connection.
unfoldable pub try_connect : Option ℕ → Writer → Writer × Bool
unfolding close_conn
try_connect none w = (w, false)
try_connect (some c) w =
    if w.closed
    then (close_conn c w, false)
    else (shut_old w.conn (record w { conn = some c }), true)

-- `backoff = min(backoff*2, w.cfg.maxReconnect)`
unfoldable pub next_backoff : ℤ → ℤ → ℤ
next_backoff max_reconnect backoff =
    let doubled = to_i64 (2 * to_u64 backoff % 2 ^ 64) in
    if ltb_ℤ max_reconnect doubled then max_reconnect else doubled

-- What the loop meets in one attempt: `done` closed before it, the dial, `done` closed in the wait.
pub record Attempt : Type 0 where
  pub done_before : Bool
  pub dial : Option ℕ
  pub done_waiting : Bool

-- How a burst ends: with a connection, with no attempt left, or with the goroutine.
pub data Ending : Type 0 where
  connected exhausted stopped : Ending

-- What a burst leaves: the Writer, the waits that it began, and how it ended.
pub record Burst : Type 0 where
  pub after : Writer
  pub waits : List ℤ
  pub ending : Ending

abbrev add_wait : ℤ → Burst → Burst
add_wait d b = record b { waits = d ∷ b.waits }

-- `reconnectCount.Add(1)`
unfoldable pub count_reconnect : Writer → Writer
count_reconnect w = record w { reconnects = (w.reconnects + 1) % 2 ^ 64 }

-- The loop over `attempt`, with the number of attempts left; `attempt < w.cfg.maxRetries` is that
-- more than this one are left.
unfoldable pub burst : ℕ → ℤ → ℤ → List Attempt → Writer → Burst
unfolding count_reconnect
burst zero max_reconnect backoff env w = record { after = w; waits = []; ending = exhausted }
burst (suc left) max_reconnect backoff [] w = record { after = w; waits = []; ending = stopped }
burst (suc left) max_reconnect backoff (a ∷ env) w =
    let r = try_connect a.dial w in
    let rest = burst left max_reconnect (next_backoff max_reconnect backoff) env r.0 in
    if a.done_before
    then record { after = w; waits = []; ending = stopped }
    else if r.1
    then record { after = count_reconnect r.0; waits = []; ending = connected }
    else elim left [
      | zero ↦ record { after = r.0; waits = []; ending = exhausted }
      | suc _ ↦
          if a.done_waiting
          then record { after = r.0; waits = backoff ∷ []; ending = stopped }
          else add_wait backoff rest
    ]

-- `reconnectLoop` from a token on: it drains the channel, and tries unless a connection is there.
unfoldable pub on_token : ℕ → ℤ → ℤ → List Attempt → Writer → Burst
unfolding burst has_conn drain_reconnect_ch
on_token max_retries initial max_reconnect env w =
    let w' = drain_reconnect_ch w in
    let b = burst max_retries max_reconnect initial env w' in
    if has_conn w' then record { after = w'; waits = []; ending = connected } else b
