-- ===== src/Syslog/Header/Entry.antt =====
-- A receiver of the messages of syslog/encoder.go: the words of the header, up to the spaces.
use zapwire.Common.{
  ℕ, zero, suc, ◌≡◌, ◌≢◌, refl, Option, none, some, List, [], ◌∷◌, ◌++◌, Bool, true, false, arith,
  Bytes, ◌==◌, if◌then◌else◌, append_assoc, append-nil, All, All-append,
}
use zapwire.Common.Int.{ℤ}
use zapwire.Common.Digits.{decimal, decimal-IsDigit, IsDigit}
use zapwire.Syslog.Header.{Header, nil_value, append_body, append_time, encode_entry, priority}
use zapwire.Syslog.Header.Fields.{IsVisible, IsField, IsValid}

pub read_word : Bytes → Bytes → Bytes × Bytes
read_word word [] = (word, [])
read_word word (c ∷ s) =
    let more = read_word (word ++ (c ∷ [])) s in if c == b' ' then (word, s) else more

pub read_words : ℕ → Bytes → List Bytes × Bytes
unfolding read_word
read_words zero s = ([], s)
read_words (suc n) s =
    let w = read_word [] s in let more = read_words n w.1 in (w.0 ∷ more.0, more.1)

abbrev pub HasNoSpace : Bytes → Type 0
HasNoSpace = All (λ c. c ≢ b' ')

read_word_lem :
    (word w rest : Bytes) → HasNoSpace w → read_word word (w ++ (b' ' ∷ rest)) ≡ (word ++ w, rest)
unfolding read_word
read_word_lem word [] rest h = rw (append-nil word)
read_word_lem word (c ∷ w) rest h =
    ground (arith, read_word_lem (word ++ (c ∷ [])) w rest h.1, append_assoc word (c ∷ []) w)

-- Words, each followed by a space.
abbrev pub spaced : List Bytes → Bytes → Bytes
spaced [] rest = rest
spaced (w ∷ ws) rest = w ++ (b' ' ∷ spaced ws rest)

abbrev pub count : List Bytes → ℕ
count [] = 0
count (w ∷ ws) = suc (count ws)

read_words-spaced :
    (ws : List Bytes) (rest : Bytes)
    → All HasNoSpace ws
    → read_words (count ws) (spaced ws rest) ≡ (ws, rest)
unfolding read_words
read_words-spaced [] rest h = refl
read_words-spaced (w ∷ ws) rest h =
    rw (read_word_lem [] w (spaced ws rest) h.0, read_words-spaced ws rest h.1)

visible-HasNoSpace : (s : Bytes) → All IsVisible s → HasNoSpace s
visible-HasNoSpace [] h = tt
visible-HasNoSpace (c ∷ s) h = (omega arith, visible-HasNoSpace s h.1)

digits-HasNoSpace : (s : Bytes) → All IsDigit s → HasNoSpace s
digits-HasNoSpace [] h = tt
digits-HasNoSpace (c ∷ s) h = (omega arith, digits-HasNoSpace s h.1)

abbrev pub time_word : Option Bytes → Bytes
time_word none = nil_value
time_word (some t) = t

-- `<PRI>1`
abbrev pub pri_word : Header → ℤ → Bytes
pri_word h severity = b'<' ∷ (decimal (priority h severity) ++ (b'>' ∷ b'1' ∷ []))

abbrev pub header_words : Header → ℤ → Option Bytes → List Bytes
header_words h severity time =
    pri_word h severity
    ∷ time_word time
    ∷ h.hostname
    ∷ h.app_name
    ∷ h.proc_id
    ∷ h.msg_id
    ∷ nil_value
    ∷ []

abbrev pub with_bom : Bool → Bytes → Bytes
with_bom true body = 0xef ∷ 0xbb ∷ 0xbf ∷ body
with_bom false body = body

append_body_lem :
    (dst : Bytes) (bom : Bool) (msg : Bytes)
    → append_body dst bom msg ≡ dst ++ (b' ' ∷ b'-' ∷ b' ' ∷ with_bom bom msg)
unfolding append_body
append_body_lem dst true msg = simp append_assoc
append_body_lem dst false msg = simp append_assoc

append_time_lem : (b : Bytes) (time : Option Bytes) → append_time b time ≡ b ++ time_word time
unfolding append_time
append_time_lem b none = refl
append_time_lem b (some t) = refl

encode_entry-spaced :
    (h : Header) (severity : ℤ) (time : Option Bytes) (body : Bytes)
    → encode_entry h severity time (some body)
      ≡ some (spaced (header_words h severity time) (with_bom h.bom body))
unfolding encode_entry
encode_entry-spaced h severity time body = simp (append_body_lem, append_time_lem, append_assoc)

-- For a valid header and a time without spaces, a receiver that splits a message at its first seven
-- spaces finds PRI and version, the time (`-` for the zero time), the four fields, the structured data
-- `-`, and then the JSON body untouched, behind the byte order mark if that is on.
pub read_words-encode_entry :
    (h : Header) (severity : ℤ) (time : Option Bytes) (body : Bytes)
    → IsValid h
    → HasNoSpace (time_word time)
    → (line : Bytes) × (encode_entry h severity time (some body) ≡ some line)
      × (read_words 7 line ≡ (header_words h severity time, with_bom h.bom body))
read_words-encode_entry h severity time body v t = (
  spaced (header_words h severity time) (with_bom h.bom body),
  encode_entry-spaced h severity time body,
  read_words-spaced (header_words h severity time) (with_bom h.bom body)
      (pri, (t, (field v.hostname, (field v.app_name, (field v.proc_id, (field v.msg_id, dash)))))),
)
  where
    pri : HasNoSpace (pri_word h severity)
    pri = (
      λ e. cc,
      All-append (λ c. c ≢ b' ') (decimal (priority h severity)) (b'>' ∷ b'1' ∷ [])
          (digits-HasNoSpace (decimal (priority h severity))
            (decimal-IsDigit (priority h severity)))
          (omega arith),
    )

    field : {n : ℕ} {s : Bytes} → IsField n s → HasNoSpace s
    field {n} {s} f = visible-HasNoSpace s f.visible

    dash : All HasNoSpace (nil_value ∷ [])
    dash = omega arith
