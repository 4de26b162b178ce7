-- ===== src/Examples/Fluents.antt =====
-- Concrete frames and times of fluent/, and a msgpack writer and reader as the framer's parameters.
use zapwire.Common.{
  ℕ, ◌/◌, ◌%◌, ◌^◌, ◌<◌, ◌≡◌, refl, ap, ◌∙◌, none, some, List, [], ◌∷◌, ◌++◌, Bytes, length, arith,
  if◌then◌else◌, ◌==◌, ok, concat,
}
use zapwire.Common.Int.{pos, negsuc}
use zapwire.Fluent.EventTime.{
  to_u32, unmarshal_binary, marshal_binary_to, unmarshal_binary-marshal_binary_to,
}
use zapwire.Fluent.Framer.{
  Msgp, MsgpReader, Reader, frame, receive, receive-frame, read_big_endian, read_body,
  read_body_lem,
}

-- The widest form of each header of the msgpack specification.
abbrev be32 : ℕ → Bytes → Bytes
be32 n s = n / 2 ^ 24 % 256 ∷ n / 2 ^ 16 % 256 ∷ n / 2 ^ 8 % 256 ∷ n % 256 ∷ s

abbrev wide : Msgp
wide = record {
  array_header = λ n. 0xdd ∷ be32 n [];
  string = λ s. 0xdb ∷ be32 (length s) s;
  map_header = λ n. 0xdf ∷ be32 n [];
  int = λ n. 0xd3 ∷ be32 (n / 2 ^ 32) (be32 (n % 2 ^ 32) []);
}

abbrev read_tagged : {A : Type 0} → ℕ → Reader A → Reader A
read_tagged t read [] = none
read_tagged t read (c ∷ s) = if c == t then read s else none

read_be32 : (n : ℕ) (s : Bytes) → n < 2 ^ 32 → read_big_endian 4 0 (be32 n s) ≡ some (n, s)
read_be32 n s h = ap (λ (k : ℕ). some (k, s)) (omega arith)

read_be64 :
    (n : ℕ) (s : Bytes)
    → n < 2 ^ 63
    → read_big_endian 8 0 (be32 (n / 2 ^ 32) (be32 (n % 2 ^ 32) s)) ≡ some (n, s)
read_be64 n s h = ap (λ (k : ℕ). some (k, s)) (omega arith)

wide_reader : MsgpReader wide
wide_reader = record {
  read_array_header = read_tagged 0xdd (read_big_endian 4 0);
  read_string = read_tagged 0xdb (λ s. read_body (read_big_endian 4 0 s));
  read_map_header = read_tagged 0xdf (read_big_endian 4 0);
  read_int = read_tagged 0xd3 (read_big_endian 8 0);
  array_header-read = read_be32;
  string-read = λ s rest h.
      ap read_body (read_be32 (length s) (s ++ rest) h) ∙ read_body_lem (length s) s rest refl;
  map_header-read = read_be32;
  int-read = read_be64;
}

abbrev entries : List Bytes
entries = (146 ∷ 1 ∷ []) ∷ (147 ∷ []) ∷ []

receive-frame_example :
    (f : Bytes) × (frame wide (b't' ∷ []) [] entries ≡ ok f)
    × (receive wide wide_reader (f ++ (5 ∷ []))
        ≡ some ((b't' ∷ [], concat entries, length entries), 5 ∷ []))
receive-frame_example =
    receive-frame wide wide_reader (b't' ∷ []) entries (5 ∷ []) (omega arith) (omega arith)
      (omega arith)

unmarshal_binary-marshal_binary_to_example :
    unmarshal_binary (marshal_binary_to (record { seconds = negsuc 4; nanos = 900 }))
    ≡ some (record { seconds = pos (to_u32 (negsuc 4)); nanos = 900 })
unmarshal_binary-marshal_binary_to_example =
    unmarshal_binary-marshal_binary_to (record { seconds = negsuc 4; nanos = 900 }) (omega arith)
