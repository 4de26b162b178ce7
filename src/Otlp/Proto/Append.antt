-- ===== src/Otlp/Proto/Append.antt =====
-- The tagged append helpers of otlp/proto.go. A tag is one byte; strings are their bytes.
use zapwire.Common.{ℕ, ◌/◌, ◌%◌, ◌^◌, ◌≡◌, [], ◌∷◌, ◌++◌, Bytes, length, append_assoc}
use zapwire.Common.Int.{ℤ}
use zapwire.Otlp.Proto.Varint.{append_uvarint, append_varint}
use zapwire.Otlp.Proto.Varint.Encode.{append_uvarint_lem}

unfoldable pub append_tagged_uvarint : Bytes → ℕ → ℕ → Bytes
append_tagged_uvarint dst tag v = append_uvarint (dst ++ (tag ∷ [])) v

unfoldable pub append_tagged_varint : Bytes → ℕ → ℤ → Bytes
append_tagged_varint dst tag v = append_varint (dst ++ (tag ∷ [])) v

-- `binary.LittleEndian.AppendUint32` and `AppendUint64`
abbrev pub little_endian32 : ℕ → Bytes
little_endian32 v = v % 256 ∷ v / 2 ^ 8 % 256 ∷ v / 2 ^ 16 % 256 ∷ v / 2 ^ 24 % 256 ∷ []

abbrev pub little_endian64 : ℕ → Bytes
little_endian64 v =
    v % 256
    ∷ v / 2 ^ 8 % 256
    ∷ v / 2 ^ 16 % 256
    ∷ v / 2 ^ 24 % 256
    ∷ v / 2 ^ 32 % 256
    ∷ v / 2 ^ 40 % 256
    ∷ v / 2 ^ 48 % 256
    ∷ v / 2 ^ 56 % 256
    ∷ []

unfoldable pub append_tagged_fixed64 : Bytes → ℕ → ℕ → Bytes
append_tagged_fixed64 dst tag v = (dst ++ (tag ∷ [])) ++ little_endian64 v

unfoldable pub append_tagged_fixed32 : Bytes → ℕ → ℕ → Bytes
append_tagged_fixed32 dst tag v = (dst ++ (tag ∷ [])) ++ little_endian32 v

unfoldable pub append_tagged_bytes : Bytes → ℕ → Bytes → Bytes
append_tagged_bytes dst tag b = append_uvarint (dst ++ (tag ∷ [])) (length b) ++ b

unfoldable pub append_tagged_string : Bytes → ℕ → Bytes → Bytes
append_tagged_string dst tag s = append_uvarint (dst ++ (tag ∷ [])) (length s) ++ s

-- The helpers keep `dst` and append what they write onto an empty slice.
pub append_tagged_bytes_lem :
    (dst : Bytes) (tag : ℕ) (b : Bytes)
    → append_tagged_bytes dst tag b ≡ dst ++ (tag ∷ append_uvarint [] (length b) ++ b)
unfolding append_tagged_bytes
append_tagged_bytes_lem dst tag b =
    rw (append_uvarint_lem (length b) (dst ++ (tag ∷ []))) (simp append_assoc)
