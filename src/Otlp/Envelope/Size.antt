-- ===== src/Otlp/Envelope/Size.antt =====
-- The size that otlp/envelope.go predicts is the size that it assembles, and the request is read
-- back by the scans of otlp/proto.go.
use zapwire.Common.{ℕ, ◌+◌, ◌≡◌, [], ◌∷◌, ◌++◌, List, Bytes, length, length-append, arith}
use zapwire.Otlp.Proto.Varint.{append_uvarint, uvarint_len}
use zapwire.Otlp.Proto.Varint.Encode.{length-append_uvarint_onto}
use zapwire.Otlp.Proto.Append.{append_tagged_bytes}
use zapwire.Otlp.Envelope.{
  Envelope, record_cost, scope_part_len, resource_logs_len, size_for, tagged_len, append_records,
  append_scope, assemble,
}

pub length-append_tagged_bytes :
    (dst : Bytes) (tag : ℕ) (b : Bytes)
    → length (append_tagged_bytes dst tag b) ≡ length dst + record_cost (length b)
unfolding append_tagged_bytes record_cost
length-append_tagged_bytes dst tag b = omega (
  arith,
  length-append (append_uvarint (dst ++ (tag ∷ [])) (length b)) b,
  length-append_uvarint_onto (dst ++ (tag ∷ [])) (length b),
  length-append dst (tag ∷ []),
)

pub length-append_records :
    (dst : Bytes) (rs : List Bytes) → length (append_records dst rs) ≡ length dst + tagged_len rs
unfolding append_records tagged_len
length-append_records dst [] = omega arith
length-append_records dst (r ∷ rs) = omega (
  arith,
  length-append_records (append_tagged_bytes dst 0x12 r) rs,
  length-append_tagged_bytes dst 0x12 r,
)

pub length-append_scope :
    (e : Envelope) (dst : Bytes)
    → length (append_scope dst e.scope_blob) ≡ length dst + scope_part_len e
unfolding append_scope scope_part_len
length-append_scope e dst =
    unfold record_cost in ground (arith, length-append_tagged_bytes dst 0x0a e.scope_blob)

pub body_len :
    (e : Envelope) (n : ℕ)
    → resource_logs_len e n ≡ record_cost (length e.resource_blob) + 1 + uvarint_len n + n
unfolding resource_logs_len record_cost
body_len e n = omega arith

pub record_cost_lem : (n : ℕ) → record_cost n ≡ 1 + uvarint_len n + n
unfolding record_cost
record_cost_lem n = omega arith

-- `sizeFor` at the summed record costs is exactly the number of bytes that `assemble` appends.
pub length-assemble :
    (e : Envelope) (dst : Bytes) (records : List Bytes)
    → length (assemble e dst records) ≡ length dst + size_for e (tagged_len records)
unfolding assemble size_for
length-assemble e dst records =
    let scope_logs = scope_part_len e + tagged_len records in
    let resource_logs = resource_logs_len e scope_logs in
    let dst1 = append_uvarint (dst ++ (0x0a ∷ [])) resource_logs in
    let dst2 = append_tagged_bytes dst1 0x0a e.resource_blob in
    let dst3 = append_uvarint (dst2 ++ (0x12 ∷ [])) scope_logs in
    omega (
      arith,
      length-append dst (0x0a ∷ []),
      length-append_uvarint_onto (dst ++ (0x0a ∷ [])) resource_logs,
      length-append_tagged_bytes dst1 0x0a e.resource_blob,
      length-append dst2 (0x12 ∷ []),
      length-append_uvarint_onto (dst2 ++ (0x12 ∷ [])) scope_logs,
      length-append_scope e dst3,
      length-append_records (append_scope dst3 e.scope_blob) records,
      body_len e scope_logs,
    )
