-- ===== src/Otlp/Proto/Fields.antt =====
-- Messages that the append helpers of otlp/proto.go write, against the scans that read them.
use zapwire.Common.{
  ℕ, ◌+◌, ◌*◌, ◌/◌, ◌%◌, ◌<◌, ◌≡◌, refl, ◌∙◌, ap, ap₂, sym, none, some, Bool, true, false, List, [],
  ◌∷◌, ◌++◌, map, arith, Bytes, length, length-append, drop-append, take-append, ok, append_assoc,
  append-nil, All,
}
use zapwire.Otlp.Proto.Varint.{IsU64, append_uvarint, uvarint}
use zapwire.Otlp.Proto.Varint.Encode.{append_uvarint_lem, append_uvarint_small}
use zapwire.Otlp.Proto.Varint.RoundTrip.{uvarint-append_uvarint}
use zapwire.Otlp.Proto.Append.{
  append_tagged_uvarint, append_tagged_fixed64, append_tagged_fixed32, append_tagged_bytes,
  append_tagged_bytes_lem, little_endian32, little_endian64,
}
use zapwire.Otlp.Proto.Read.{
  Content, varint, fixed64, payload, fixed32, read_content, skip_content, next_field, find_field,
  find_varint, for_each_len_field,
}
use zapwire.Otlp.Proto.Scan.{
  message, find_field-message, find_varint-message, for_each_len_field-message, last_payload,
  last_varint, or_zero, visit_all, error_unless_stopped, message_cons, message_nil,
}

-- A field as it is written: its number and its value.
pub data Part : Type 0 where
  varint_part : ℕ → ℕ → Part
  fixed64_part : ℕ → ℕ → Part
  bytes_part : ℕ → Bytes → Part
  fixed32_part : ℕ → ℕ → Part

-- The tag byte is `num << 3 | wire type`.
abbrev pub append_part : Bytes → Part → Bytes
append_part dst (varint_part num v) = append_tagged_uvarint dst (num * 8) v
append_part dst (fixed64_part num v) = append_tagged_fixed64 dst (num * 8 + 1) v
append_part dst (bytes_part num b) = append_tagged_bytes dst (num * 8 + 2) b
append_part dst (fixed32_part num v) = append_tagged_fixed32 dst (num * 8 + 5) v

abbrev pub append_parts : Bytes → List Part → Bytes
append_parts dst [] = dst
append_parts dst (p ∷ ps) = append_parts (append_part dst p) ps

-- What the scans see of a part.
abbrev pub view : Part → ℕ × Content
view (varint_part num v) = (num, varint v)
view (fixed64_part num v) = (num, fixed64)
view (bytes_part num b) = (num, payload b)
view (fixed32_part num v) = (num, fixed32)

-- Field numbers below 16 have tags of one byte, as the helpers need.
abbrev pub IsPart : Part → Type 0
IsPart (varint_part num v) = (num < 16) × IsU64 v
IsPart (fixed64_part num v) = num < 16
IsPart (bytes_part num b) = (num < 16) × IsU64 (length b)
IsPart (fixed32_part num v) = num < 16

tag_byte : (t : ℕ) (rest : Bytes) → t < 128 → uvarint (t ∷ rest) ≡ some (t, 1)
tag_byte t rest h =
    rw (append_uvarint_small [] t h) at (uvarint-append_uvarint t rest (omega arith))

next_field_behind :
    (num wt t : ℕ) (rest : Bytes)
    → num < 16
    → wt < 8
    → t ≡ num * 8 + wt
    → next_field (t ∷ rest) ≡ skip_content num rest (read_content wt rest)
unfolding next_field
next_field_behind num wt t rest hn hw e =
    rw (tag_byte t rest (omega arith), next_field)
      (ap₂ (λ (n w : ℕ). skip_content n rest (read_content w rest)) {x = t / 8} {y = num}
        {u = t % 8} {v = wt} (omega arith) (omega arith))

skip_written :
    (num : ℕ) (a rest : Bytes) (c : Content)
    → skip_content num (a ++ rest) (some (c, length a)) ≡ some (num, c, rest)
unfolding skip_content
skip_written num a rest c = ground (arith, length-append a rest, drop-append a rest)

read_varint :
    (v : ℕ) (rest : Bytes)
    → IsU64 v
    → read_content 0 (append_uvarint [] v ++ rest) ≡ some (varint v, length (append_uvarint [] v))
unfolding read_content
read_varint v rest h = rw (uvarint-append_uvarint v rest h, read_content)

read_payload :
    (b rest : Bytes)
    → IsU64 (length b)
    → let head = append_uvarint [] (length b) in
      read_content 2 (head ++ (b ++ rest)) ≡ some (payload b, length (head ++ b))
unfolding read_content
read_payload b rest h =
    let head = append_uvarint [] (length b) in
    rw (uvarint-append_uvarint (length b) (b ++ rest) h, read_content)
      (ground (
        arith,
        length-append head (b ++ rest),
        length-append b rest,
        length-append head b,
        drop-append head (b ++ rest),
        take-append b rest,
      ))

abbrev part_bytes : Part → Bytes
part_bytes p = append_part [] p

pub append_part_lem : (dst : Bytes) (p : Part) → append_part dst p ≡ dst ++ part_bytes p
unfolding append_tagged_uvarint append_tagged_fixed64 append_tagged_fixed32
append_part_lem dst (varint_part num v) =
    rw (append_uvarint_lem v (dst ++ (num * 8 ∷ [])), append_uvarint_lem v (num * 8 ∷ []))
      (append_assoc dst (num * 8 ∷ []) (append_uvarint [] v))
append_part_lem dst (fixed64_part num v) = append_assoc dst ((num * 8 + 1) ∷ []) (little_endian64 v)
append_part_lem dst (bytes_part num b) =
    rw (append_tagged_bytes_lem dst (num * 8 + 2) b, append_tagged_bytes_lem [] (num * 8 + 2) b)
append_part_lem dst (fixed32_part num v) = append_assoc dst ((num * 8 + 5) ∷ []) (little_endian32 v)

-- One round over a written part finds the part, and leaves what follows it.
next_field-part :
    (p : Part) (rest : Bytes)
    → IsPart p
    → next_field (part_bytes p ++ rest) ≡ some ((view p).0, (view p).1, rest)
unfolding append_tagged_uvarint append_tagged_fixed64 append_tagged_fixed32 read_content
next_field-part (varint_part num v) rest h = rw (append_uvarint_lem v (num * 8 ∷ [])) (
    next_field_behind num 0 (num * 8) (append_uvarint [] v ++ rest) h.0 (omega arith) (omega arith)
    ∙ rw (read_varint v rest h.1) (skip_written num (append_uvarint [] v) rest (varint v)))
next_field-part (fixed64_part num v) rest h =
    next_field_behind num 1 (num * 8 + 1) (little_endian64 v ++ rest) h (omega arith) refl
    ∙ skip_written num (little_endian64 v) rest fixed64
next_field-part (bytes_part num b) rest h =
    let head = append_uvarint [] (length b) in
    rw (append_tagged_bytes_lem [] (num * 8 + 2) b) (
      ap (λ (r : Bytes). next_field ((num * 8 + 2) ∷ r)) (append_assoc head b rest)
      ∙ next_field_behind num 2 (num * 8 + 2) (head ++ (b ++ rest)) h.0 (omega arith) refl
      ∙ rw (read_payload b rest h.1, ← append_assoc head b rest)
          (skip_written num (head ++ b) rest (payload b)))
next_field-part (fixed32_part num v) rest h =
    next_field_behind num 5 (num * 8 + 5) (little_endian32 v ++ rest) h (omega arith) refl
    ∙ skip_written num (little_endian32 v) rest fixed32

pub append_parts_lem :
    (dst : Bytes) (ps : List Part) → append_parts dst ps ≡ dst ++ append_parts [] ps
append_parts_lem dst [] = sym (append-nil dst)
append_parts_lem dst (p ∷ ps) =
    rw
      (
        append_parts_lem (append_part dst p) ps,
        append_parts_lem (append_part [] p) ps,
        append_part_lem dst p,
      )
      (append_assoc dst (append_part [] p) (append_parts [] ps))

-- A message that the append helpers wrote is read back whole: the same fields in the same order,
-- and no error.
pub message-append_parts :
    (ps : List Part) → All IsPart ps → message (append_parts [] ps) ≡ (map view ps, none)
message-append_parts [] h = message_nil
message-append_parts (p ∷ ps) h = rw (append_parts_lem (append_part [] p) ps) (
    message_cons (append_part [] p ++ append_parts [] ps) (view p).0 (view p).1 (append_parts [] ps)
      (next_field-part p (append_parts [] ps) h.0)
    ∙ rw (message-append_parts ps h.1))

pub scans-append_parts :
    {S : Type 0} (ps : List Part) (k : ℕ) (fn : S → Bytes → S × Bool) (s : S)
    → All IsPart ps
    → (find_field (append_parts [] ps) k ≡ ok (last_payload k (map view ps)))
      × (find_varint (append_parts [] ps) k ≡ ok (or_zero (last_varint k (map view ps))))
      × (for_each_len_field k fn (append_parts [] ps) s
          ≡ ((visit_all k fn (map view ps) s).0, none))
scans-append_parts ps k fn s h = (
  rw (find_field-message (append_parts [] ps) k, message-append_parts ps h),
  rw (find_varint-message (append_parts [] ps) k, message-append_parts ps h),
  rw (for_each_len_field-message k fn (append_parts [] ps) s, message-append_parts ps h)
      (no_error (visit_all k fn (map view ps) s)),
)
  where
    no_error : {S : Type 0} (r : S × Bool) → error_unless_stopped r none ≡ (r.0, none)
    no_error (s, true) = refl
    no_error (s, false) = refl
