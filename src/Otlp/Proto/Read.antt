-- ===== src/Otlp/Proto/Read.antt =====
-- The readers of otlp/proto.go: `findField`, `findVarint`, `forEachLenField` and
-- `decodePartialSuccess`. The three scans share a round: a tag, and a
-- value by its wire type. (A payload is within the input once its length is accepted, so it makes no
-- difference that `forEachLenField` calls `fn` before it tests `len(b) < adv`.)
use zapwire.Common.{
  ℕ, zero, suc, ◌+◌, ◌-◌, ◌/◌, ◌%◌, Option, none, some, Bool, true, [], ◌∷◌, Bytes, length, take,
  drop, ltb, ◌==◌, if◌then◌else◌, Result, ok, err, ◌>>=◌,
}
use zapwire.Common.Int.{ℤ, pos}
use zapwire.Otlp.Proto.Varint.{uvarint, to_i64}

-- `errTruncatedResponse`. `stuck` is no Go value: the scan ran out of fuel.
pub data ReadError : Type 0 where
  truncated stuck : ReadError

-- What a round finds behind a tag; the scans do not read fixed-width values.
pub data Content : Type 0 where
  varint : ℕ → Content
  fixed64 : Content
  payload : Bytes → Content
  fixed32 : Content

-- The `switch wt`: the value and `adv`, the number of bytes that it takes.
unfoldable pub read_content : ℕ → Bytes → Option (Content × ℕ)
read_content wt b =
    if wt == 0
    then elim (uvarint b) [ none ↦ none | some (v, vn) ↦ some (varint v, vn) ]
    else if wt == 1
    then some (fixed64, 8)
    else if wt == 2
    then elim (uvarint b) [
      | none ↦ none
      | some (l, ln) ↦
          if ltb (length b - ln) l then none else some (payload (take l (drop ln b)), ln + l)
    ]
    else if wt == 5
    then some (fixed32, 4)
    else none

-- `if len(b) < adv`, and `b = b[adv:]`
unfoldable pub skip_content : ℕ → Bytes → Option (Content × ℕ) → Option (ℕ × Content × Bytes)
skip_content num b none = none
skip_content num b (some (c, adv)) = if ltb (length b) adv then none else some (num, c, drop adv b)

-- One round: the field's number, its content, and the bytes after it; `none` is the truncation error.
unfoldable pub next_field : Bytes → Option (ℕ × Content × Bytes)
unfolding read_content skip_content
next_field b = elim (uvarint b) [
  | none ↦ none
  | some (tag, n) ↦ let r : Bytes = drop n b in skip_content (tag / 8) r (read_content (tag % 8) r)
]

-- `if num == field { payload = … }`
abbrev pub keep_payload : ℕ → ℕ → Content → Option Bytes → Option Bytes
keep_payload field num (payload p) old = if num == field then some p else old
keep_payload field num _ old = old

unfoldable pub find_field_loop : ℕ → Bytes → ℕ → Option Bytes → Result ReadError (Option Bytes)
find_field_loop fuel [] field old = ok old
find_field_loop zero (x ∷ b) field old = err stuck
find_field_loop (suc fuel) (x ∷ b) field old = elim (next_field (x ∷ b)) [
  | none ↦ err truncated
  | some (num, c, rest) ↦ find_field_loop fuel rest field (keep_payload field num c old)
]

-- A round takes a byte at least, so `length b` rounds are enough.
unfoldable pub find_field : Bytes → ℕ → Result ReadError (Option Bytes)
unfolding find_field_loop
find_field b field = find_field_loop (length b) b field none

abbrev pub keep_varint : ℕ → ℕ → Content → ℕ → ℕ
keep_varint field num (varint v) old = if num == field then v else old
keep_varint field num _ old = old

unfoldable pub find_varint_loop : ℕ → Bytes → ℕ → ℕ → Result ReadError ℕ
find_varint_loop fuel [] field out = ok out
find_varint_loop zero (x ∷ b) field out = err stuck
find_varint_loop (suc fuel) (x ∷ b) field out = elim (next_field (x ∷ b)) [
  | none ↦ err truncated
  | some (num, c, rest) ↦ find_varint_loop fuel rest field (keep_varint field num c out)
]

unfoldable pub find_varint : Bytes → ℕ → Result ReadError ℕ
unfolding find_varint_loop
find_varint b field = find_varint_loop (length b) b field 0

-- `fn` is a closure: it takes and returns the variables that it captures, and says whether to go
-- on. They keep their values when the scan fails.
module _ {S : Type 0} (field : ℕ) (fn : S → Bytes → S × Bool) where
  unfoldable pub visit : ℕ → Content → S → S × Bool
  visit num (payload p) s = if num == field then fn s p else (s, true)
  visit num _ s = (s, true)

  unfoldable pub for_each_loop : ℕ → Bytes → S → S × Option ReadError
  unfolding visit
  for_each_loop fuel [] s = (s, none)
  for_each_loop zero (x ∷ b) s = (s, some stuck)
  for_each_loop (suc fuel) (x ∷ b) s = elim (next_field (x ∷ b)) [
    | none ↦ (s, some truncated)
    | some (num, c, rest) ↦
        let r : S × Bool = visit num c s in
        let after : S × Option ReadError = for_each_loop fuel rest r.0 in
        if r.1 then after else (r.0, none)
  ]

  unfoldable pub for_each_len_field : Bytes → S → S × Option ReadError
  unfolding for_each_loop
  for_each_len_field b s = for_each_loop (length b) b s

-- `string(msgRaw)` of a nil slice is the empty string.
abbrev pub bytes_or_empty : Option Bytes → Bytes
bytes_or_empty none = []
bytes_or_empty (some b) = b

-- A response without `partial_success` gives `0, ""`.
unfoldable pub read_partial_success : Option Bytes → Result ReadError (ℤ × Bytes)
read_partial_success none = ok (pos 0, [])
read_partial_success (some ps) = do
  rejected ← find_varint ps 1
  msg ← find_field ps 2
  ok (to_i64 rejected, bytes_or_empty msg)

unfoldable pub decode_partial_success : Bytes → Result ReadError (ℤ × Bytes)
unfolding read_partial_success
decode_partial_success body = do ps ← find_field body 1; read_partial_success ps
