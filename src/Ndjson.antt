-- ===== src/Ndjson.antt =====
-- ndjson/ndjson.go: the encoder that trims a record's line feeds, and the framer that adds one each.
use zapwire.Common.{
  ℕ, zero, suc, replicate, ap₂, ◌≡◌, ◌≢◌, refl, ◌∙◌, ap, Bool, true, false, List, [], ◌∷◌, ◌++◌,
  map, Bytes, All, ◌==◌, if◌then◌else◌, arith,
}
use zapwire.Syslog.Framer.{new_framer, lf_terminated, read_lines, read_lines-frame}
use zapwire.Syslog.Framer

abbrev is_empty : Bytes → Bool
is_empty [] = true
is_empty (c ∷ s) = false

-- `bytes.TrimRight(record, "\n")`
unfoldable pub trim_right : Bytes → Bytes
trim_right [] = []
trim_right (c ∷ s) =
    let rest = trim_right s in
    if c == 0x0a then (if is_empty rest then [] else c ∷ rest) else c ∷ rest

-- `Encode`; its error is always nil.
unfoldable pub encode : Bytes → Bytes → Bytes
unfolding trim_right
encode dst line = dst ++ trim_right line

-- `Frame`; its error is always nil.
unfoldable pub frame : Bytes → List Bytes → Bytes
frame dst [] = dst
frame dst (p ∷ ps) = frame ((dst ++ p) ++ (0x0a ∷ [])) ps

-- The frame is that of syslog's LF framing.
frame_is_lf :
    (dst : Bytes) (ps : List Bytes) → frame dst ps ≡ Framer.frame (new_framer lf_terminated) dst ps
unfolding frame Framer.frame Framer.new_framer Framer.append_payload
frame_is_lf dst [] = refl
frame_is_lf dst (p ∷ ps) = frame_is_lf ((dst ++ p) ++ (0x0a ∷ [])) ps

abbrev pub HasNoFeed : Bytes → Type 0
HasNoFeed = All (λ c. c ≢ 0x0a)

-- A record: a line, and the line feeds behind it.
abbrev pub Record : Type 0
Record = Bytes × ℕ

abbrev pub record_bytes : Record → Bytes
record_bytes r = r.0 ++ replicate r.1 0x0a

trim_feeds : (n : ℕ) → trim_right (replicate n 0x0a) ≡ []
unfolding trim_right
trim_feeds zero = refl
trim_feeds (suc n) = rw (trim_feeds n)

trim_record : (p : Bytes) (n : ℕ) → HasNoFeed p → trim_right (p ++ replicate n 0x0a) ≡ p
unfolding trim_right
trim_record [] n h = trim_feeds n
trim_record (c ∷ p) n h =
    let other : (c == 0x0a) ≡ false = ground arith in rw (other, trim_record p n h.1)

lines : List Record → List Bytes
lines rs = map (λ r. r.0) rs

encode-lines :
    (rs : List Record)
    → All (λ r. HasNoFeed r.0) rs
    → map (λ r. encode [] (record_bytes r)) rs ≡ lines rs
unfolding encode lines
encode-lines [] h = refl
encode-lines (r ∷ rs) h = ap₂ (λ p ps. p ∷ ps) (trim_record r.0 r.1 h.0) (encode-lines rs h.1)

lines-HasNoFeed : (rs : List Record) → All (λ r. HasNoFeed r.0) rs → All HasNoFeed (lines rs)
unfolding lines
lines-HasNoFeed [] h = tt
lines-HasNoFeed (r ∷ rs) h = (h.0, lines-HasNoFeed rs h.1)

-- A receiver that splits a frame of encoded records at its line feeds finds each record's line once,
-- in order, with nothing left, however many line feeds stand behind a record: if no line contains one.
pub read_lines-frame_encode :
    (rs : List Record)
    → All (λ r. HasNoFeed r.0) rs
    → read_lines [] (frame [] (map (λ r. encode [] (record_bytes r)) rs)) ≡ (map (λ r. r.0) rs, [])
unfolding lines
read_lines-frame_encode rs h =
    ap (λ (ps : List Bytes). read_lines [] (frame [] ps)) (encode-lines rs h)
    ∙ ap (λ (s : Bytes). read_lines [] s) (frame_is_lf [] (lines rs))
    ∙ read_lines-frame (lines rs) (lines-HasNoFeed rs h)
