-- ===== src/Otlp/Proto/Response.antt =====
-- `decodePartialSuccess` of otlp/proto.go on the responses that a server can send.
use zapwire.Common.{
  ◌^◌, ◌<◌, ◌≡◌, refl, ◌∙◌, ap, Option, none, some, true, List, [], ◌∷◌, map, arith, Bytes, length,
  ok, ◌>>=◌, All,
}
use zapwire.Common.Int.{ℤ, pos, negsuc}
use zapwire.Otlp.Proto.Varint.{IsU64, to_u64, to_i64}
use zapwire.Otlp.Proto.Read.{decode_partial_success, read_partial_success, bytes_or_empty}
use zapwire.Otlp.Proto.Scan.{last_payload, last_varint, or_zero}
use zapwire.Otlp.Proto.Fields.{
  Part, varint_part, bytes_part, append_parts, IsPart, view, scans-append_parts,
}

-- The int64 values.
abbrev pub IsI64 : ℤ → Type 0
IsI64 (pos n) = n < 2 ^ 63
IsI64 (negsuc n) = n < 2 ^ 63

-- The conversion to uint64 and back keeps every int64.
pub to_i64-to_u64 : (z : ℤ) → IsI64 z → to_i64 (to_u64 z) ≡ z
to_i64-to_u64 (pos n) h = ground arith
to_i64-to_u64 (negsuc n) h = ground arith

-- The bytes of a `partial_success` message, where there is one.
abbrev pub partial_success : Option (List Part) → Option Bytes
partial_success none = none
partial_success (some qs) = some (append_parts [] qs)

-- What it says: no message stands for no rejected record.
abbrev pub verdict : Option (List Part) → ℤ × Bytes
verdict none = (pos 0, [])
verdict (some qs) =
    (to_i64 (or_zero (last_varint 1 (map view qs))), bytes_or_empty (last_payload 2 (map view qs)))

abbrev pub AreParts : Option (List Part) → Type 0
AreParts none = Unit {0}
AreParts (some qs) = All IsPart qs

read_partial_success-partial_success :
    (qs : Option (List Part))
    → AreParts qs
    → read_partial_success (partial_success qs) ≡ ok (verdict qs)
unfolding read_partial_success
read_partial_success-partial_success none h = refl
read_partial_success-partial_success (some qs) h =
    let (_, count, _) = scans-append_parts qs 1 (λ (s : Unit {0}) b. (s, true)) tt h in
    let (text, _, _) = scans-append_parts qs 2 (λ (s : Unit {0}) b. (s, true)) tt h in
    rw (count, text)

-- Let a written response hold the message `qs` as its last `partial_success` (field 1), or none;
-- field numbers are below 16, values and lengths are uint64. The decoder returns that message's
-- last `rejected_log_records` as an int64 and its last `error_message`; without `partial_success`,
-- 0 and no text. Other fields change nothing.
pub decode_partial_success-append_parts :
    (ps : List Part) (qs : Option (List Part))
    → All IsPart ps
    → AreParts qs
    → last_payload 1 (map view ps) ≡ partial_success qs
    → decode_partial_success (append_parts [] ps) ≡ ok (verdict qs)
unfolding decode_partial_success
decode_partial_success-append_parts ps qs hp hq e =
    let (outer, _, _) = scans-append_parts ps 1 (λ (s : Unit {0}) b. (s, true)) tt hp in
    rw (outer, ◌>>=◌, e) (read_partial_success-partial_success qs hq)

-- A report of `n` rejected records with a message, as a server writes it.
abbrev pub report_parts : ℤ → Bytes → List Part
report_parts n msg = varint_part 1 (to_u64 n) ∷ bytes_part 2 msg ∷ []

to_u64-IsU64 : (z : ℤ) → IsU64 (to_u64 z)
to_u64-IsU64 (pos n) = omega arith
to_u64-IsU64 (negsuc n) = omega arith

-- A server's report of `n` rejected records, for any int64 `n`, is read back with its message.
pub decode_partial_success_report :
    (n : ℤ) (msg : Bytes)
    → IsI64 n
    → IsU64 (length msg)
    → IsU64 (length (append_parts [] (report_parts n msg)))
    → decode_partial_success
        (append_parts [] (bytes_part 1 (append_parts [] (report_parts n msg)) ∷ []))
      ≡ ok (n, msg)
decode_partial_success_report n msg hn hm hr =
    let qs : List Part = report_parts n msg in
    decode_partial_success-append_parts (bytes_part 1 (append_parts [] qs) ∷ []) (some qs)
      ((omega arith, hr), tt) ((omega arith, to_u64-IsU64 n), ((omega arith, hm), tt)) refl
    ∙ ap (λ (z : ℤ). ok (z, msg)) (to_i64-to_u64 n hn)
