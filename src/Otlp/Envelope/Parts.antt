-- ===== src/Otlp/Envelope/Parts.antt =====
-- The assembled request of otlp/envelope.go as a message, and what a receiver reads in it.
use zapwire.Common.{
  ℕ, ◌+◌, ◌≡◌, refl, ◌∙◌, ap, sym, [], ◌∷◌, ◌++◌, List, Option, none, some, Bool, true, map, Bytes,
  length, ◌==◌, if◌then◌else◌, arith, Bool-cases, inl, inr, append_assoc, append-nil, Result, ok,
  ◌>>=◌, All,
}
use zapwire.Otlp.Proto.Varint.{IsU64, append_uvarint}
use zapwire.Otlp.Proto.Append.{append_tagged_bytes}
use zapwire.Otlp.Proto.Read.{ReadError, visit, find_field, for_each_len_field}
use zapwire.Otlp.Proto.Scan.{visit_all}
use zapwire.Otlp.Proto.Fields.{
  Part, bytes_part, append_parts, append_parts_lem, IsPart, view, scans-append_parts,
}
use zapwire.Otlp.Envelope.{
  Envelope, record_cost, scope_part_len, resource_logs_len, size_for, tagged_len, append_records,
  append_scope, assemble,
}
use zapwire.Otlp.Envelope.Size.{
  length-append_tagged_bytes, length-append_records, length-append_scope, body_len, record_cost_lem,
}

-- The messages by their fields: ScopeLogs, ResourceLogs, ExportLogsServiceRequest.
abbrev pub scope_parts : Bytes → List Part
scope_parts scope = if length scope == 0 then [] else bytes_part 1 scope ∷ []

abbrev pub record_parts : List Bytes → List Part
record_parts [] = []
record_parts (r ∷ rs) = bytes_part 2 r ∷ record_parts rs

abbrev pub scope_logs_parts : Envelope → List Bytes → List Part
scope_logs_parts e rs = scope_parts e.scope_blob ++ record_parts rs

abbrev pub resource_logs_parts : Envelope → List Bytes → List Part
resource_logs_parts e rs =
    bytes_part 1 e.resource_blob ∷ bytes_part 2 (append_parts [] (scope_logs_parts e rs)) ∷ []

abbrev pub request_parts : Envelope → List Bytes → List Part
request_parts e rs = bytes_part 1 (append_parts [] (resource_logs_parts e rs)) ∷ []

append_records-parts :
    (dst : Bytes) (rs : List Bytes) → append_records dst rs ≡ append_parts dst (record_parts rs)
unfolding append_records
append_records-parts dst [] = refl
append_records-parts dst (r ∷ rs) = append_records-parts (append_tagged_bytes dst 0x12 r) rs

append_scope-parts :
    (dst scope : Bytes) (ps : List Part)
    → append_parts (append_scope dst scope) ps ≡ append_parts dst (scope_parts scope ++ ps)
unfolding append_scope
append_scope-parts dst scope ps = elim (Bool-cases (length scope == 0)) [
  | inl e ↦ rw e
  | inr e ↦ rw e
]

logs-parts :
    (e : Envelope) (dst : Bytes) (rs : List Bytes)
    → append_records (append_scope dst e.scope_blob) rs ≡ append_parts dst (scope_logs_parts e rs)
logs-parts e dst rs =
    append_records-parts (append_scope dst e.scope_blob) rs
    ∙ append_scope-parts dst e.scope_blob (record_parts rs)

length-scope_logs :
    (e : Envelope) (rs : List Bytes)
    → length (append_parts [] (scope_logs_parts e rs)) ≡ scope_part_len e + tagged_len rs
length-scope_logs e rs = rw (← logs-parts e [] rs) (
    omega
      (arith, length-append_records (append_scope [] e.scope_blob) rs, length-append_scope e []))

length-resource_logs :
    (e : Envelope) (rs : List Bytes)
    → length (append_parts [] (resource_logs_parts e rs))
      ≡ resource_logs_len e (scope_part_len e + tagged_len rs)
length-resource_logs e rs =
    let inner = append_parts [] (scope_logs_parts e rs) in
    omega (
      arith,
      length-append_tagged_bytes (append_tagged_bytes [] 0x0a e.resource_blob) 0x12 inner,
      length-append_tagged_bytes [] 0x0a e.resource_blob,
      body_len e (scope_part_len e + tagged_len rs),
      ap record_cost (length-scope_logs e rs),
      record_cost_lem (scope_part_len e + tagged_len rs),
    )

-- A prefix and a message behind it, with its tag and length, is one tagged field.
tagged_message :
    (dst : Bytes) (tag : ℕ) (ps : List Part) (n : ℕ)
    → length (append_parts [] ps) ≡ n
    → append_parts (append_uvarint (dst ++ (tag ∷ [])) n) ps
      ≡ append_tagged_bytes dst tag (append_parts [] ps)
unfolding append_tagged_bytes
tagged_message dst tag ps n e =
    rw (← e)
      (append_parts_lem (append_uvarint (dst ++ (tag ∷ [])) (length (append_parts [] ps))) ps)

-- `assemble` appends exactly the ExportLogsServiceRequest with the envelope's resource and scope
-- (none when its blob is empty) and the records in their order.
pub assemble-parts :
    (e : Envelope) (dst : Bytes) (rs : List Bytes)
    → assemble e dst rs ≡ append_parts dst (request_parts e rs)
unfolding assemble
assemble-parts e dst rs =
    let scope_logs = scope_part_len e + tagged_len rs in
    let resource_logs = resource_logs_len e scope_logs in
    let dst1 = append_uvarint (dst ++ (0x0a ∷ [])) resource_logs in
    let dst2 = append_tagged_bytes dst1 0x0a e.resource_blob in
    let dst3 = append_uvarint (dst2 ++ (0x12 ∷ [])) scope_logs in
    logs-parts e dst3 rs
    ∙ tagged_message dst2 0x12 (scope_logs_parts e rs) scope_logs (length-scope_logs e rs)
    ∙ tagged_message dst 0x0a (resource_logs_parts e rs) resource_logs (length-resource_logs e rs)

-- A receiver of the request: the records of the ScopeLogs of its ResourceLogs, in order.
abbrev pub gather : List Bytes → Bytes → List Bytes × Bool
gather rs r = (rs ++ (r ∷ []), true)

abbrev pub records_in : Option Bytes → List Bytes
records_in none = []
records_in (some scope_logs) = (for_each_len_field 2 gather scope_logs []).0

abbrev pub read_resource_logs : Option Bytes → Result ReadError (List Bytes)
read_resource_logs none = ok []
read_resource_logs (some b) = do scope_logs ← find_field b 2; ok (records_in scope_logs)

pub read_request : Bytes → Result ReadError (List Bytes)
read_request b = do resource_logs ← find_field b 1; read_resource_logs resource_logs

visit_all-record_parts :
    (rs acc : List Bytes) → (visit_all 2 gather (map view (record_parts rs)) acc).0 ≡ acc ++ rs
unfolding visit
visit_all-record_parts [] acc = sym (append-nil acc)
visit_all-record_parts (r ∷ rs) acc =
    visit_all-record_parts rs (acc ++ (r ∷ [])) ∙ append_assoc acc (r ∷ []) rs

visit_all-scope_logs :
    (e : Envelope) (rs : List Bytes)
    → (visit_all 2 gather (map view (scope_logs_parts e rs)) []).0 ≡ rs
unfolding visit
visit_all-scope_logs e rs = elim (Bool-cases (length e.scope_blob == 0)) [
  | inl z ↦ rw z (visit_all-record_parts rs [])
  | inr z ↦ rw z (visit_all-record_parts rs [])
]

record_parts-IsPart :
    (e : Envelope) (rs : List Bytes) → IsU64 (tagged_len rs) → All IsPart (record_parts rs)
unfolding tagged_len
record_parts-IsPart e [] h = tt
record_parts-IsPart e (r ∷ rs) h =
    (omega (arith, record_cost_lem (length r)), record_parts-IsPart e rs (omega arith))

scope_logs-IsPart :
    (e : Envelope) (rs : List Bytes)
    → IsU64 (scope_part_len e + tagged_len rs)
    → All IsPart (scope_logs_parts e rs)
unfolding scope_part_len
scope_logs-IsPart e rs h = elim (Bool-cases (length e.scope_blob == 0)) [
  | inl z ↦ rw z (record_parts-IsPart e rs (omega arith))
  | inr z ↦ rw z ((omega arith, ground arith), record_parts-IsPart e rs (omega arith))
]

-- The lengths of a request whose size is a uint64 are uint64s too.
request_fits :
    (e : Envelope) (rs : List Bytes)
    → IsU64 (size_for e (tagged_len rs))
    → IsU64 (scope_part_len e + tagged_len rs)
      × IsU64 (length e.resource_blob)
      × IsU64 (resource_logs_len e (scope_part_len e + tagged_len rs))
unfolding size_for
request_fits e rs h =
    omega (
      arith,
      body_len e (scope_part_len e + tagged_len rs),
      record_cost_lem (length e.resource_blob),
    )

-- A receiver that reads the request with the scans finds the records that were assembled, in their
-- order, whatever the envelope, as long as the request's size is a uint64.
pub read_request-assemble :
    (e : Envelope) (rs : List Bytes)
    → IsU64 (size_for e (tagged_len rs))
    → read_request (assemble e [] rs) ≡ ok rs
unfolding read_request
read_request-assemble e rs h =
    let (fits_scope, fits_resource, fits_request) = request_fits e rs h in
    let (resource_logs, _, _) =
      scans-append_parts (request_parts e rs) 1 gather []
        ((omega arith, rw (length-resource_logs e rs) fits_request), tt) in
    let (scope_logs, _, _) =
      scans-append_parts (resource_logs_parts e rs) 2 gather [] (
        (omega arith, fits_resource),
        ((omega arith, rw (length-scope_logs e rs) fits_scope), tt),
      ) in
    let (_, _, records) =
      scans-append_parts (scope_logs_parts e rs) 2 gather [] (scope_logs-IsPart e rs fits_scope) in
    let found : records_in (some (append_parts [] (scope_logs_parts e rs))) ≡ rs =
      ap (λ (r : List Bytes × Option ReadError). r.0) records ∙ visit_all-scope_logs e rs in
    rw (assemble-parts e [] rs, resource_logs, scope_logs) (ap ok found)
