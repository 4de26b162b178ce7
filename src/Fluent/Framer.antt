-- ===== src/Fluent/Framer.antt =====
-- fluent/framer.go: PackedForward frames, `[tag, <entries bin>, {"size": N}]`. The append functions of
-- the msgp library are a parameter; what they write is read back by its msgpack reader.
use zapwire.Common.{
  same_bytes, ℕ, zero, suc, ◌+◌, ◌*◌, ◌/◌, ◌%◌, ◌^◌, ◌≤◌, ◌<◌, ◌≡◌, ◌∙◌, ap, sym, Option, none,
  some, List, [], ◌∷◌, ◌++◌, Bool, true, false, arith, Bytes, length, length-append, take, drop,
  take-append, drop-append, ltb, ◌==◌, if◌then◌else◌, append_assoc, append-nil, sum_by, concat,
  length-concat, Result, ok, err, Bool-cases, inl, inr,
}

-- `msgp.AppendArrayHeader`, `AppendString`, `AppendMapHeader` and `AppendInt`, each as the bytes that
-- it appends.
pub record Msgp : Type 0 where
  pub array_header : ℕ → Bytes
  pub string : Bytes → Bytes
  pub map_header : ℕ → Bytes
  pub int : ℕ → Bytes

-- A reader of values: what it finds at the front of a slice, and the rest.
abbrev pub Reader : Type 0 → Type 0
Reader A = Bytes → Option (A × Bytes)

-- msgp reads back what it wrote, whatever follows: counts and lengths of 32 bits, and Go ints.
pub record MsgpReader (m : Msgp) : Type 0 where
  pub read_array_header : Reader ℕ
  pub read_string : Reader Bytes
  pub read_map_header : Reader ℕ
  pub read_int : Reader ℕ
  pub array_header-read :
      (n : ℕ) (rest : Bytes)
      → n < 2 ^ 32
      → read_array_header (m.array_header n ++ rest) ≡ some (n, rest)
  pub string-read :
      (s rest : Bytes) → length s < 2 ^ 32 → read_string (m.string s ++ rest) ≡ some (s, rest)
  pub map_header-read :
      (n : ℕ) (rest : Bytes)
      → n < 2 ^ 32
      → read_map_header (m.map_header n ++ rest) ≡ some (n, rest)
  pub int-read : (n : ℕ) (rest : Bytes) → n < 2 ^ 63 → read_int (m.int n ++ rest) ≡ some (n, rest)

pub data FrameError : Type 0 where
  batch_too_large : FrameError

-- `checkBinSize`: whether a batch of `total` bytes is accepted.
unfoldable pub check_bin_size : ℕ → Bool
check_bin_size total = if ltb 0xffff_ffff total then false else true

-- `byte(n>>24), byte(n>>16), …`, as far as the header's width goes
unfoldable pub append_bin_header : Bytes → ℕ → Bytes
append_bin_header b n =
    if ltb n (2 ^ 8)
    then b ++ (0xc4 ∷ n % 256 ∷ [])
    else if ltb n (2 ^ 16)
    then b ++ (0xc5 ∷ n / 2 ^ 8 % 256 ∷ n % 256 ∷ [])
    else b ++ (0xc6 ∷ n / 2 ^ 24 % 256 ∷ n / 2 ^ 16 % 256 ∷ n / 2 ^ 8 % 256 ∷ n % 256 ∷ [])

abbrev pub size_key : Bytes
size_key = b's' ∷ b'i' ∷ b'z' ∷ b'e' ∷ []

-- `for _, p := range payloads { dst = append(dst, p...) }`
unfoldable pub append_payloads : Bytes → List Bytes → Bytes
append_payloads dst [] = dst
append_payloads dst (p ∷ ps) = append_payloads (dst ++ p) ps

module _ (m : Msgp) where
  unfoldable pub frame : Bytes → Bytes → List Bytes → Result FrameError Bytes
  frame tag dst payloads =
      let total = sum_by length payloads in
      let dst1 = (dst ++ m.array_header 3) ++ m.string tag in
      let dst2 = append_payloads (append_bin_header dst1 total) payloads in
      let dst3 = (dst2 ++ m.map_header 1) ++ m.string size_key in
      if check_bin_size total then ok (dst3 ++ m.int (length payloads)) else err batch_too_large

-- The bin family of the msgpack specification: a length of 1, 2 or 4 bytes, most significant first,
-- and that many bytes.
abbrev pub read_big_endian : ℕ → ℕ → Reader ℕ
read_big_endian zero n s = some (n, s)
read_big_endian (suc k) n [] = none
read_big_endian (suc k) n (c ∷ s) = read_big_endian k (n * 256 + c) s

pub read_body : Option (ℕ × Bytes) → Option (Bytes × Bytes)
read_body none = none
read_body (some (n, s)) = if ltb (length s) n then none else some (take n s, drop n s)

pub read_bin : Reader Bytes
unfolding read_body
read_bin [] = none
read_bin (h ∷ s) =
    if h == 0xc4
    then read_body (read_big_endian 1 0 s)
    else if h == 0xc5
    then read_body (read_big_endian 2 0 s)
    else if h == 0xc6
    then read_body (read_big_endian 4 0 s)
    else none

pub read_body_lem :
    (n : ℕ) (p rest : Bytes) → n ≡ length p → read_body (some (n, p ++ rest)) ≡ some (p, rest)
unfolding read_body
read_body_lem n p rest e =
    let fits : ltb (length (p ++ rest)) (length p) ≡ false = ground (arith, length-append p rest) in
    rw (e, fits, take-append p rest, drop-append p rest)

bin_header : (b : Bytes) (n : ℕ) → append_bin_header b n ≡ b ++ append_bin_header [] n
unfolding append_bin_header
bin_header b n = elim (Bool-cases (ltb n (2 ^ 8))) [
  | inl e ↦ rw e
  | inr e ↦ elim (Bool-cases (ltb n (2 ^ 16))) [ inl k ↦ rw (e, k) | inr k ↦ rw (e, k) ]
]

-- The header that the code writes for a bin's length is read back with the bytes behind it, for
-- every length below 2 ^ 32, whatever follows.
pub read_bin-append_bin_header :
    (p rest : Bytes)
    → length p < 2 ^ 32
    → read_bin (append_bin_header [] (length p) ++ (p ++ rest)) ≡ some (p, rest)
unfolding append_bin_header read_bin
read_bin-append_bin_header p rest h = elim (Bool-cases (ltb (length p) (2 ^ 8))) [
  | inl e ↦ rw e (read_body_lem (0 * 256 + length p % 256) p rest (ground arith))
  | inr e ↦ elim (Bool-cases (ltb (length p) (2 ^ 16))) [
    | inl k ↦
        rw (e, k)
          (read_body_lem ((0 * 256 + length p / 2 ^ 8 % 256) * 256 + length p % 256) p rest
            (ground arith))
    | inr k ↦
        rw (e, k)
          (read_body_lem
            ((((0 * 256 + length p / 2 ^ 24 % 256) * 256 + length p / 2 ^ 16 % 256) * 256
                  + length p / 2 ^ 8 % 256)
                * 256
              + length p % 256)
            p rest (omega arith))
  ]
]

append_payloads_lem : (dst : Bytes) (ps : List Bytes) → append_payloads dst ps ≡ dst ++ concat ps
unfolding append_payloads
append_payloads_lem dst [] = sym (append-nil dst)
append_payloads_lem dst (p ∷ ps) =
    append_payloads_lem (dst ++ p) ps ∙ append_assoc dst p (concat ps)

module _ (m : Msgp) (r : MsgpReader m) where
  open r use {read_array_header, read_string, read_map_header, read_int}

  -- A Forward receiver, which takes only a PackedForward message: an array of three values, the last
  -- of them a map of one pair, under the key "size". The tag, the entries, and the size.
  receive_size : Bytes → Bytes → Reader (Bytes × Bytes × ℕ)
  receive_size tag entries s = elim (read_string s) [
    | none ↦ none
    | some (key, s5) ↦ elim (read_int s5) [
      | none ↦ none
      | some (size, s6) ↦
          if same_bytes key (b's' ∷ b'i' ∷ b'z' ∷ b'e' ∷ [])
          then some ((tag, entries, size), s6)
          else none
    ]
  ]

  receive_option : Bytes → Bytes → Reader (Bytes × Bytes × ℕ)
  unfolding receive_size
  receive_option tag entries s = elim (read_map_header s) [
    | none ↦ none
    | some (k, s4) ↦ if k == 1 then receive_size tag entries s4 else none
  ]

  receive_values : Reader (Bytes × Bytes × ℕ)
  unfolding receive_option
  receive_values s = elim (read_string s) [
    | none ↦ none
    | some (tag, s2) ↦ elim (read_bin s2) [
      | none ↦ none
      | some (entries, s3) ↦ receive_option tag entries s3
    ]
  ]

  pub receive : Reader (Bytes × Bytes × ℕ)
  unfolding receive_values
  receive s = elim (read_array_header s) [
    | none ↦ none
    | some (n, s1) ↦ if n == 3 then receive_values s1 else none
  ]

  frame_shape :
      (tag : Bytes) (payloads : List Bytes) (rest : Bytes)
      → sum_by length payloads < 2 ^ 32
      → (f : Bytes) × (frame m tag [] payloads ≡ ok f)
        × (f ++ rest
            ≡ m.array_header 3
              ++ (m.string tag
                  ++ (append_bin_header [] (length (concat payloads))
                      ++ (concat payloads
                          ++ (m.map_header 1
                              ++ (m.string size_key ++ (m.int (length payloads) ++ rest)))))))
  unfolding frame check_bin_size
  frame_shape tag payloads rest h =
      let total = sum_by length payloads in
      let accepted : ltb 0xffff_ffff total ≡ false = ground arith in
      let dst1 = m.array_header 3 ++ m.string tag in
      let dst2 = append_payloads (append_bin_header dst1 total) payloads in
      let dst3 = (dst2 ++ m.map_header 1) ++ m.string size_key in
      (
        dst3 ++ m.int (length payloads),
        rw accepted,
        rw
            (
              append_payloads_lem (append_bin_header dst1 total) payloads,
              bin_header dst1 total,
              length-concat payloads,
            )
            (simp append_assoc),
      )

  -- A batch of fewer than 2 ^ 32 bytes and 2 ^ 63 payloads, under a tag of fewer than 2 ^ 32 bytes,
  -- is framed, and a receiver reads the tag, exactly the payloads' bytes in order, and their
  -- number, and then goes on with what follows the frame: if msgp reads what it writes. The receiver
  -- takes only an array of three values that ends with a map of one pair under the key "size".
  pub receive-frame :
      (tag : Bytes) (payloads : List Bytes) (rest : Bytes)
      → sum_by length payloads < 2 ^ 32
      → length tag < 2 ^ 32
      → length payloads < 2 ^ 63
      → (f : Bytes) × (frame m tag [] payloads ≡ ok f)
        × (receive (f ++ rest) ≡ some ((tag, concat payloads, length payloads), rest))
  unfolding receive receive_values receive_option receive_size
  receive-frame tag payloads rest h ht hp =
      let (f, framed, shape) = frame_shape tag payloads rest h in
      let entries = concat payloads in
      let after5 = m.int (length payloads) ++ rest in
      let after4 = m.string size_key ++ after5 in
      let after3 = m.map_header 1 ++ after4 in
      let after2 = append_bin_header [] (length entries) ++ (entries ++ after3) in
      (
        f,
        framed,
        ap receive shape
            ∙ rw (
              r.array_header-read 3 (m.string tag ++ after2) (omega arith),
              receive,
              receive_values,
              r.string-read tag after2 ht,
              read_bin-append_bin_header entries after3 (omega (arith, length-concat payloads)),
              receive_option,
              r.map_header-read 1 after4 (omega arith),
              receive_size,
              r.string-read size_key after5 (omega arith),
              r.int-read (length payloads) rest hp,
            ),
      )

-- A larger batch is refused whole, so that no header is ever truncated.
pub frame_too_large :
    (m : Msgp) (tag dst : Bytes) (payloads : List Bytes)
    → 2 ^ 32 ≤ sum_by length payloads
    → frame m tag dst payloads ≡ err batch_too_large
unfolding frame check_bin_size
frame_too_large m tag dst payloads h = ground arith
