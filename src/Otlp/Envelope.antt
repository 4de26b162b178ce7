-- ===== src/Otlp/Envelope.antt =====
-- otlp/envelope.go: the ExportLogsServiceRequest around a batch of encoded records. Lengths are Go
-- ints, which no slice in memory overflows.
pub mod Size
pub mod Parts
use zapwire.Common.{ℕ, ◌+◌, [], ◌∷◌, ◌++◌, List, Bytes, length, ◌==◌, if◌then◌else◌, sum_by}
use zapwire.Otlp.Proto.Varint.{append_uvarint, uvarint_len}
use zapwire.Otlp.Proto.Append.{append_tagged_bytes}

-- `envelope`; `newEnvelope` fills the blobs from the options.
pub record Envelope : Type 0 where
  pub resource_blob : Bytes
  pub scope_blob : Bytes

unfoldable pub record_cost : ℕ → ℕ
record_cost rec_len = 1 + uvarint_len rec_len + rec_len

unfoldable pub scope_part_len : Envelope → ℕ
scope_part_len e =
    if length e.scope_blob == 0
    then 0
    else 1 + uvarint_len (length e.scope_blob) + length e.scope_blob

unfoldable pub resource_logs_len : Envelope → ℕ → ℕ
resource_logs_len e scope_logs =
    1
    + uvarint_len (length e.resource_blob)
    + length e.resource_blob
    + 1
    + uvarint_len scope_logs
    + scope_logs

unfoldable pub size_for : Envelope → ℕ → ℕ
size_for e tagged_records =
    let scope_logs = scope_part_len e + tagged_records in
    let resource_logs = resource_logs_len e scope_logs in
    1 + uvarint_len resource_logs + resource_logs

-- `for _, r := range records { tagged += e.recordCost(len(r)) }`
unfoldable pub tagged_len : List Bytes → ℕ
tagged_len records = sum_by (λ r. record_cost (length r)) records

-- `for _, r := range records { dst = appendTaggedBytes(dst, 0x12, r) }`
unfoldable pub append_records : Bytes → List Bytes → Bytes
append_records dst [] = dst
append_records dst (r ∷ rs) = append_records (append_tagged_bytes dst 0x12 r) rs

unfoldable pub append_scope : Bytes → Bytes → Bytes
append_scope dst scope = if length scope == 0 then dst else append_tagged_bytes dst 0x0a scope

unfoldable pub assemble : Envelope → Bytes → List Bytes → Bytes
assemble e dst records =
    let scope_logs = scope_part_len e + tagged_len records in
    let resource_logs = resource_logs_len e scope_logs in
    let dst1 = append_uvarint (dst ++ (0x0a ∷ [])) resource_logs in
    let dst2 = append_tagged_bytes dst1 0x0a e.resource_blob in
    let dst3 = append_uvarint (dst2 ++ (0x12 ∷ [])) scope_logs in
    append_records (append_scope dst3 e.scope_blob) records
