-- ===== src/Fluent/Msgpack.antt =====
-- The frame stack of fluent/msgpack_encoder.go and fluent/msgpack_array.go. A stack is a list with its
-- top first; the encoder never empties it. The append functions of msgp, and what Go does with
-- floating-point numbers, are a parameter.
pub mod Marshaler
pub mod Tree
pub mod Refines
pub mod Writes
pub mod MapCalls
pub mod ArrayCalls
pub mod Runs
pub mod Entry
pub mod Envelope
pub mod Message
pub mod Depth
use zapwire.Common.{
  ℕ, zero, suc, ◌+◌, ◌%◌, ◌^◌, Bool, true, false, List, [], ◌∷◌, ◌++◌, Bytes, length, ltb, leb,
  ◌==◌, if◌then◌else◌,
}
use zapwire.Common.Int.{ℤ, pos}

-- `msgp.Append…`, each as the bytes that it appends, and the operations on a float of 64 bits.
pub record Writers (F : Type 0) : Type 0 where
  pub string : Bytes → Bytes
  pub string_from_bytes : Bytes → Bytes
  pub boolean : Bool → Bytes
  pub int64 : ℤ → Bytes
  pub uint64 : ℕ → Bytes
  pub bytes : Bytes → Bytes
  pub float32 : F → Bytes
  pub float64 : F → Bytes
  pub map_header : ℕ → Bytes
  pub array_header : ℕ → Bytes
  pub is_nan : F → Bool
  pub is_inf : F → Bool
  pub not_negative : F → Bool
  pub format_float : F → ℕ → Bytes

-- What the encoder writes with one `Append` method; the methods for narrower integers widen first. A
-- float comes with its bits, 64 or 32.
pub data Prim (F : Type 0) : Type 0 where
  string byte_string : Bytes → Prim F
  boolean : Bool → Prim F
  int64 : ℤ → Prim F
  uint64 : ℕ → Prim F
  float : F → ℕ → Prim F
  complex : F → F → ℕ → Prim F

-- `frameKind`
pub data Kind : Type 0 where
  map_kind array_kind : Kind

-- `frame`
pub record Frame : Type 0 where
  pub kind : Kind
  pub buf : Bytes
  pub count : ℕ

abbrev pub Stack : Type 0
Stack = List Frame

-- A pushed frame: `frame{kind: …, buf: getBytes()}`
abbrev pub fresh : Kind → Frame
fresh k = record { kind = k; buf = []; count = 0 }

abbrev pub max_encode_depth : ℕ
max_encode_depth = 1000

abbrev pub on_top : (Frame → Frame) → Stack → Stack
on_top f [] = []
on_top f (t ∷ st) = f t ∷ st

-- `if t.kind == kindArray { t.count++ }`
abbrev pub count_element : Kind → ℕ → ℕ
count_element map_kind n = n
count_element array_kind n = n + 1

-- The end of an `Append` method: the bytes, and the count in array context.
abbrev pub append_value : Bytes → Frame → Frame
append_value b t = record t { buf = t.buf ++ b; count = count_element t.kind t.count }

abbrev pub count_top : Stack → Stack
count_top = on_top (λ t. record t { count = count_element t.kind t.count })

-- `len(e.top().buf)`
abbrev pub buf_len : Stack → ℕ
buf_len [] = 0
buf_len (t ∷ st) = length t.buf

module _ {F : Type 0} (m : Writers F) where
  -- `AppendFloat64`, `AppendFloat32`: the bytes of `appendFloat`
  unfoldable pub float_bytes : F → ℕ → Bytes
  float_bytes v bits =
      if m.is_nan v
      then m.string (b'N' ∷ b'a' ∷ b'N' ∷ [])
      else if m.is_inf v
      then (if m.not_negative v
          then m.string (b'+' ∷ b'I' ∷ b'n' ∷ b'f' ∷ [])
          else m.string (b'-' ∷ b'I' ∷ b'n' ∷ b'f' ∷ []))
      else if bits == 32
      then m.float32 v
      else m.float64 v

  -- `appendComplex`
  unfoldable pub complex_bytes : F → F → ℕ → Bytes
  complex_bytes re im bits =
      let r = m.format_float re bits in
      let s = if m.not_negative im then r ++ (b'+' ∷ []) else r in
      m.string (s ++ (m.format_float im bits ++ (b'i' ∷ [])))

  unfoldable pub prim_bytes : Prim F → Bytes
  prim_bytes (string v) = m.string v
  prim_bytes (byte_string v) = m.string_from_bytes v
  prim_bytes (boolean v) = m.boolean v
  prim_bytes (int64 v) = m.int64 v
  prim_bytes (uint64 v) = m.uint64 v
  prim_bytes (float v bits) = float_bytes v bits
  prim_bytes (complex re im bits) = complex_bytes re im bits

  -- `AppendString`, `AppendBool`, … into the top frame
  unfoldable pub append_prim : Prim F → Stack → Stack
  append_prim v = on_top (append_value (prim_bytes v))

  -- What an `EncodeTime`, `EncodeDuration`, `EncodeLevel`, … hook appends.
  unfoldable pub append_all : List (Prim F) → Stack → Stack
  unfolding append_prim
  append_all [] st = st
  append_all (v ∷ vs) st = append_all vs (append_prim v st)

  -- `AppendDuration`, `AppendTime`: a hook that appends nothing falls back.
  unfoldable pub append_hooked : List (Prim F) → Prim F → Stack → Stack
  unfolding append_all append_prim
  append_hooked hook fallback st =
      let st' = append_all hook st in
      if buf_len st' == buf_len st then append_prim fallback st' else st'

  -- `addKey`
  unfoldable pub add_key : Bytes → Stack → Stack
  add_key key = on_top (λ t. record t { buf = t.buf ++ m.string key; count = t.count + 1 })

  -- `appendMapHeader`, `appendArrayHeader`: the count is cut to a uint32.
  unfoldable pub header : Kind → ℕ → Bytes
  header map_kind n = m.map_header (n % 2 ^ 32)
  header array_kind n = m.array_header (n % 2 ^ 32)

  -- The body of the loop of `sealDownTo`.
  unfoldable pub seal : Frame → Frame → Frame
  unfolding header
  seal top parent = record parent { buf = (parent.buf ++ header top.kind top.count) ++ top.buf }

  -- `sealDownTo`: the frames in front are sealed until `depth` are left, and one at least.
  unfoldable pub seal_onto : ℕ → Frame → Stack → Stack
  unfolding seal
  seal_onto depth top [] = top ∷ []
  seal_onto depth top (parent ∷ st) =
      let more = seal_onto depth (seal top parent) st in
      if ltb depth (suc (suc (length st))) then more else top ∷ parent ∷ st

  unfoldable pub seal_down_to : ℕ → Stack → Stack
  unfolding seal_onto
  seal_down_to depth [] = []
  seal_down_to depth (top ∷ st) = seal_onto depth top st

  -- `OpenNamespace`
  unfoldable pub open_namespace : Bytes → Stack → Stack
  unfolding add_key
  open_namespace key st = fresh map_kind ∷ add_key key st

  -- `AddBinary`
  unfoldable pub add_binary : Bytes → Bytes → Stack → Stack
  unfolding add_key
  add_binary key v st = on_top (λ t. record t { buf = t.buf ++ m.bytes v }) (add_key key st)

  -- `AppendObject` and `AppendArray`, by the marshaler, which returns whether it failed.
  unfoldable pub append_container : Kind → (Stack → Stack × Bool) → Stack → Stack × Bool
  unfolding seal_down_to
  append_container kind marshal st =
      let d = length st in
      let r = marshal (fresh kind ∷ count_top st) in
      if leb max_encode_depth d
      then (st, true)
      else (seal_down_to d (seal_down_to (suc d) r.0), r.1)

  -- `AddObject` and `AddArray`
  unfoldable pub add_container : Kind → Bytes → (Stack → Stack × Bool) → Stack → Stack × Bool
  unfolding append_container add_key
  add_container kind key marshal st =
      if leb max_encode_depth (length st)
      then (st, true)
      else append_container kind marshal (add_key key st)
