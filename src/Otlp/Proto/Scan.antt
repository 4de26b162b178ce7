-- ===== src/Otlp/Proto/Scan.antt =====
-- The scans on any input, well formed or not: each ends, and they agree with one another.
use zapwire.Common.{
  ℕ, zero, suc, ◌+◌, ◌*◌, ◌/◌, ◌%◌, ◌^◌, ◌≤◌, ◌<◌, ◌≡◌, refl, ap, sym, ◌∙◌, ◌==◌, ◌≢◌, Option, none,
  some, Bool, true, false, List, [], ◌∷◌, arith, Bytes, length, length-drop, drop, Result, ok, err,
  if◌then◌else◌, Bool-cases, Option-cases, inl, inr,
}
use Prim.Native.Nat.{bit_and}
use zapwire.Otlp.Proto.Varint.{uvarint_loop, uvarint}
use zapwire.Otlp.Proto.Read.{
  ReadError, truncated, stuck, Content, varint, fixed64, payload, fixed32, read_content,
  skip_content, next_field, keep_payload, find_field_loop, find_field, keep_varint,
  find_varint_loop, find_varint, visit, for_each_loop, for_each_len_field,
}

uvarint_loop_takes :
    (b : Bytes) (i x v n : ℕ) → uvarint_loop b i x ≡ some (v, n) → (i < n) × (n ≤ i + length b)
unfolding uvarint_loop
uvarint_loop_takes [] i x v n e = cc
uvarint_loop_takes (c ∷ b) i x v n e =
    ground (arith, uvarint_loop_takes b (i + 1) (x + bit_and c 0x7f * 2 ^ (7 * i)) v n)

-- `binary.Uvarint` takes at least one byte of what it is given, and no more than there are.
pub uvarint_takes : (b : Bytes) (v n : ℕ) → uvarint b ≡ some (v, n) → (0 < n) × (n ≤ length b)
unfolding uvarint
uvarint_takes b v n e = omega (arith, uvarint_loop_takes b 0 0 v n e)

skip_content_le :
    (num : ℕ) (b : Bytes) (r : Option (Content × ℕ)) (num' : ℕ) (c : Content) (rest : Bytes)
    → skip_content num b r ≡ some (num', c, rest)
    → length rest ≤ length b
unfolding skip_content
skip_content_le num b none num' c rest e = cc
skip_content_le num b (some (c', adv)) num' c rest e = ground (arith, length-drop adv b)

-- A round takes at least one byte.
pub next_field_takes :
    (b : Bytes) (num : ℕ) (c : Content) (rest : Bytes)
    → next_field b ≡ some (num, c, rest)
    → length rest < length b
unfolding next_field
next_field_takes b num c rest e = elim (Option-cases (uvarint b)) [
  | inl h ↦ ground arith
  | inr ((tag, n), h) ↦
      let r : Bytes = drop n b in
      omega (
        arith,
        skip_content_le (tag / 8) r (read_content (tag % 8) r) num c rest (rw (h, next_field) at e),
        length-drop n b,
        uvarint_takes b tag n h,
      )
]

-- The fields of a message in order, up to the first round that fails, with the error.
message_loop : ℕ → Bytes → List (ℕ × Content) × Option ReadError
message_loop fuel [] = ([], none)
message_loop zero (x ∷ b) = ([], some stuck)
message_loop (suc fuel) (x ∷ b) = elim (next_field (x ∷ b)) [
  | none ↦ ([], some truncated)
  | some (num, c, rest) ↦
      let m : List (ℕ × Content) × Option ReadError = message_loop fuel rest in
      ((num, c) ∷ m.0, m.1)
]

unfoldable pub message : Bytes → List (ℕ × Content) × Option ReadError
unfolding message_loop
message b = message_loop (length b) b

message_loop-ne-stuck :
    (fuel : ℕ) (b : Bytes) → length b ≤ fuel → (message_loop fuel b).1 ≢ some stuck
unfolding message_loop
message_loop-ne-stuck fuel [] h = λ e. cc
message_loop-ne-stuck zero (x ∷ b) h = absurd (omega arith)
message_loop-ne-stuck (suc fuel) (x ∷ b) h = elim (Option-cases (next_field (x ∷ b))) [
  | inl e ↦ rw (e, message_loop) (λ p. cc)
  | inr ((num, c, rest), e) ↦
      rw (e, message_loop)
        (message_loop-ne-stuck fuel rest (omega (arith, next_field_takes _ num c rest e)))
]

-- What the scans have kept behind some fields.
abbrev kept_payload : ℕ → Option Bytes → List (ℕ × Content) → Option Bytes
kept_payload k old [] = old
kept_payload k old ((num, c) ∷ fs) = kept_payload k (keep_payload k num c old) fs

abbrev kept_varint : ℕ → ℕ → List (ℕ × Content) → ℕ
kept_varint k old [] = old
kept_varint k old ((num, c) ∷ fs) = kept_varint k (keep_varint k num c old) fs

-- The payload or the varint of a field, if its number is `k`.
abbrev pub payload_of : ℕ → ℕ × Content → Option Bytes
payload_of k (num, payload b) = if num == k then some b else none
payload_of k (num, c) = none

abbrev pub varint_of : ℕ → ℕ × Content → Option ℕ
varint_of k (num, varint v) = if num == k then some v else none
varint_of k (num, c) = none

abbrev pub or_else {ℓ} : {A : Type ℓ} → Option A → Option A → Option A
or_else none b = b
or_else (some x) b = some x

abbrev pub or_zero : Option ℕ → ℕ
or_zero none = 0
or_zero (some v) = v

-- The last payload under the number `k`, and the last varint, read from the end of the message: a
-- field's own counts only where no later field has one.
abbrev pub last_payload : ℕ → List (ℕ × Content) → Option Bytes
last_payload k [] = none
last_payload k (f ∷ fs) = or_else (last_payload k fs) (payload_of k f)

abbrev pub last_varint : ℕ → List (ℕ × Content) → Option ℕ
last_varint k [] = none
last_varint k (f ∷ fs) = or_else (last_varint k fs) (varint_of k f)

or_else_assoc {ℓ} :
    {A : Type ℓ} (a b c : Option A) → or_else (or_else a b) c ≡ or_else a (or_else b c)
or_else_assoc none b c = refl
or_else_assoc (some x) b c = refl

keep_payload_lem :
    (k num : ℕ) (c : Content) (old : Option Bytes)
    → keep_payload k num c old ≡ or_else (payload_of k (num, c)) old
keep_payload_lem k num (varint v) old = refl
keep_payload_lem k num fixed64 old = refl
keep_payload_lem k num (payload b) old = elim (Bool-cases (num == k)) [
  | inl e ↦ rw e
  | inr e ↦ rw e
]
keep_payload_lem k num fixed32 old = refl

kept_payload_lem :
    (k : ℕ) (old : Option Bytes) (fs : List (ℕ × Content))
    → kept_payload k old fs ≡ or_else (last_payload k fs) old
kept_payload_lem k old [] = refl
kept_payload_lem k old ((num, c) ∷ fs) =
    kept_payload_lem k (keep_payload k num c old) fs
    ∙ ap (or_else (last_payload k fs)) (keep_payload_lem k num c old)
    ∙ sym (or_else_assoc (last_payload k fs) (payload_of k (num, c)) old)

kept_payload-last_payload :
    (k : ℕ) (fs : List (ℕ × Content)) → kept_payload k none fs ≡ last_payload k fs
kept_payload-last_payload k fs = kept_payload_lem k none fs ∙ or_none (last_payload k fs)
  where
    or_none : (o : Option Bytes) → or_else o none ≡ o
    or_none none = refl
    or_none (some b) = refl

keep_varint_lem :
    (k num : ℕ) (c : Content) (old : Option ℕ)
    → keep_varint k num c (or_zero old) ≡ or_zero (or_else (varint_of k (num, c)) old)
keep_varint_lem k num (varint v) old = elim (Bool-cases (num == k)) [ inl e ↦ rw e | inr e ↦ rw e ]
keep_varint_lem k num fixed64 old = refl
keep_varint_lem k num (payload b) old = refl
keep_varint_lem k num fixed32 old = refl

kept_varint_lem :
    (k : ℕ) (old : Option ℕ) (fs : List (ℕ × Content))
    → kept_varint k (or_zero old) fs ≡ or_zero (or_else (last_varint k fs) old)
kept_varint_lem k old [] = refl
kept_varint_lem k old ((num, c) ∷ fs) =
    ap (λ v. kept_varint k v fs) (keep_varint_lem k num c old)
    ∙ kept_varint_lem k (or_else (varint_of k (num, c)) old) fs
    ∙ ap or_zero (sym (or_else_assoc (last_varint k fs) (varint_of k (num, c)) old))

kept_varint-last_varint :
    (k : ℕ) (fs : List (ℕ × Content)) → kept_varint k 0 fs ≡ or_zero (last_varint k fs)
kept_varint-last_varint k fs = kept_varint_lem k none fs ∙ ap or_zero (or_none (last_varint k fs))
  where
    or_none : (o : Option ℕ) → or_else o none ≡ o
    or_none none = refl
    or_none (some v) = refl

abbrev pub ok_unless {ℓ} : {A : Type ℓ} → A → Option ReadError → Result ReadError A
ok_unless a none = ok a
ok_unless a (some e) = err e

find_field_loop-message :
    (fuel : ℕ) (b : Bytes) (k : ℕ) (old : Option Bytes)
    → find_field_loop fuel b k old
      ≡ ok_unless (kept_payload k old (message_loop fuel b).0) (message_loop fuel b).1
unfolding find_field_loop message_loop
find_field_loop-message fuel [] k old = refl
find_field_loop-message zero (x ∷ b) k old = refl
find_field_loop-message (suc fuel) (x ∷ b) k old = elim (Option-cases (next_field (x ∷ b))) [
  | inl e ↦ rw (e, find_field_loop, message_loop)
  | inr ((num, c, rest), e) ↦
      rw (e, find_field_loop, message_loop)
        (find_field_loop-message fuel rest k (keep_payload k num c old))
]

find_varint_loop-message :
    (fuel : ℕ) (b : Bytes) (k old : ℕ)
    → find_varint_loop fuel b k old
      ≡ ok_unless (kept_varint k old (message_loop fuel b).0) (message_loop fuel b).1
unfolding find_varint_loop message_loop
find_varint_loop-message fuel [] k old = refl
find_varint_loop-message zero (x ∷ b) k old = refl
find_varint_loop-message (suc fuel) (x ∷ b) k old = elim (Option-cases (next_field (x ∷ b))) [
  | inl e ↦ rw (e, find_varint_loop, message_loop)
  | inr ((num, c, rest), e) ↦
      rw (e, find_varint_loop, message_loop)
        (find_varint_loop-message fuel rest k (keep_varint k num c old))
]

-- The visits of `fn` to the payloads of field `k`; the flag is false once `fn` has stopped.
abbrev pub visit_all : {S : Type 0} → ℕ → (S → Bytes → S × Bool) → List (ℕ × Content) → S → S × Bool
visit_all k fn [] s = (s, true)
visit_all k fn ((num, c) ∷ fs) s =
    let r = visit k fn num c s in
    let after = visit_all k fn fs r.0 in if r.1 then after else (r.0, false)

-- A scan that was stopped reports no error.
abbrev pub error_unless_stopped {ℓ} :
    {S : Type ℓ} → S × Bool → Option ReadError → S × Option ReadError
error_unless_stopped (s, true) e = (s, e)
error_unless_stopped (s, false) e = (s, none)

for_each_loop-message :
    {S : Type 0} (k : ℕ) (fn : S → Bytes → S × Bool) (fuel : ℕ) (b : Bytes) (s : S)
    → for_each_loop k fn fuel b s
      ≡ error_unless_stopped (visit_all k fn (message_loop fuel b).0 s) (message_loop fuel b).1
unfolding for_each_loop message_loop
for_each_loop-message k fn fuel [] s = refl
for_each_loop-message k fn zero (x ∷ b) s = refl
for_each_loop-message k fn (suc fuel) (x ∷ b) s = elim (Option-cases (next_field (x ∷ b))) [
  | inl e ↦ rw (e, for_each_loop, message_loop)
  | inr ((num, c, rest), e) ↦
      rw (e, for_each_loop, message_loop)
        (elim (Bool-cases (visit k fn num c s).1) [
          | inl go ↦ rw go (for_each_loop-message k fn fuel rest (visit k fn num c s).0)
          | inr stop ↦ rw stop
        ])
]

-- `findField` fails as reading the whole message fails, and otherwise returns the payload of the
-- last length-delimited occurrence of the field, if there is one.
pub find_field-message :
    (b : Bytes) (k : ℕ) → find_field b k ≡ ok_unless (last_payload k (message b).0) (message b).1
unfolding find_field message
find_field-message b k =
    find_field_loop-message (length b) b k none
    ∙ ap (λ o. ok_unless o (message b).1) (kept_payload-last_payload k (message b).0)

pub find_varint-message :
    (b : Bytes) (k : ℕ)
    → find_varint b k ≡ ok_unless (or_zero (last_varint k (message b).0)) (message b).1
unfolding find_varint message
find_varint-message b k =
    find_varint_loop-message (length b) b k 0
    ∙ ap (λ v. ok_unless v (message b).1) (kept_varint-last_varint k (message b).0)

pub for_each_len_field-message :
    {S : Type 0} (k : ℕ) (fn : S → Bytes → S × Bool) (b : Bytes) (s : S)
    → for_each_len_field k fn b s
      ≡ error_unless_stopped (visit_all k fn (message b).0 s) (message b).1
unfolding for_each_len_field message
for_each_len_field-message k fn b s = for_each_loop-message k fn (length b) b s

pub message-ne-stuck : (b : Bytes) → (message b).1 ≢ some stuck
unfolding message
message-ne-stuck b = message_loop-ne-stuck (length b) b (omega arith)

ok_unless-ne-stuck :
    {A : Type 0} (a : A) (e : Option ReadError) → e ≢ some stuck → ok_unless a e ≢ err stuck
ok_unless-ne-stuck a none h = λ p. cc
ok_unless-ne-stuck a (some truncated) h = λ p. cc
ok_unless-ne-stuck a (some stuck) h = absurd (h refl)

stopped-ne-stuck :
    {S : Type 0} (r : S × Bool) (e : Option ReadError)
    → e ≢ some stuck
    → (error_unless_stopped r e).1 ≢ some stuck
stopped-ne-stuck (s, true) e h = h
stopped-ne-stuck (s, false) e h = λ p. cc

-- No scan runs out of fuel, on any bytes: each ends with a result or with the truncation error.
pub scans_total :
    {S : Type 0} (b : Bytes) (k : ℕ) (fn : S → Bytes → S × Bool) (s : S)
    → (find_field b k ≢ err stuck)
      × (find_varint b k ≢ err stuck)
      × ((for_each_len_field k fn b s).1 ≢ some stuck)
scans_total b k fn s = (
  rw (find_field-message b k) (ok_unless-ne-stuck _ _ (message-ne-stuck b)),
  rw (find_varint-message b k) (ok_unless-ne-stuck _ _ (message-ne-stuck b)),
  rw (for_each_len_field-message k fn b s) (stopped-ne-stuck _ _ (message-ne-stuck b)),
)

message_loop_enough :
    (fuel more : ℕ) (b : Bytes)
    → length b ≤ fuel
    → length b ≤ more
    → message_loop fuel b ≡ message_loop more b
unfolding message_loop
message_loop_enough fuel more [] h h' = refl
message_loop_enough zero more (x ∷ b) h h' = absurd (omega arith)
message_loop_enough (suc fuel) zero (x ∷ b) h h' = absurd (omega arith)
message_loop_enough (suc fuel) (suc more) (x ∷ b) h h' = elim (Option-cases (next_field (x ∷ b))) [
  | inl e ↦ rw (e, message_loop)
  | inr ((num, c, rest), e) ↦
      let shorter = next_field_takes (x ∷ b) num c rest e in
      rw (e, message_loop)
        (ap (λ (m : List (ℕ × Content) × Option ReadError). ((num, c) ∷ m.0, m.1))
          (message_loop_enough fuel more rest (omega arith) (omega arith)))
]

-- The message behind its first field.
pub message_cons :
    (b : Bytes) (num : ℕ) (c : Content) (rest : Bytes)
    → next_field b ≡ some (num, c, rest)
    → message b ≡ ((num, c) ∷ (message rest).0, (message rest).1)
unfolding message message_loop
message_cons [] num c rest e = absurd (omega (arith, next_field_takes [] num c rest e))
message_cons (x ∷ b) num c rest e =
    rw (e, message_loop)
      (ap (λ (m : List (ℕ × Content) × Option ReadError). ((num, c) ∷ m.0, m.1))
        (message_loop_enough (length b) (length rest) rest
          (omega (arith, next_field_takes (x ∷ b) num c rest e)) (omega arith)))

pub message_nil : message [] ≡ ([], none)
unfolding message message_loop
message_nil = refl
