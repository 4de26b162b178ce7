-- ===== src/Otlp/Attr.antt =====
-- The frame stack of otlp/attr.go. A stack is a list with its top first; the encoder never empties it.
-- A double is its 64 bits; where a trace context is stored does not show on the stack.
pub mod Marshaler
pub mod Sink
pub mod Tree
pub mod Layout
pub mod Containers
pub mod Writes
pub mod MapCalls
pub mod ArrayCalls
pub mod Runs
pub mod Transactions
use zapwire.Common.{
  ℕ, suc, ◌+◌, Bool, true, false, Option, none, some, List, [], ◌∷◌, ◌++◌, Bytes, length, take, ltb,
  leb, if◌then◌else◌,
}
use zapwire.Common.Int.{ℤ, pos}
use zapwire.Common.Digits.{decimal}
use zapwire.Otlp.Proto.Varint.{append_uvarint, uvarint_len}
use zapwire.Otlp.Proto.Append.{
  append_tagged_bytes, append_tagged_string, append_tagged_varint, append_tagged_fixed64,
}

-- `frameKind`
pub data Kind : Type 0 where
  frame_root frame_kv_list frame_array : Kind

-- `frame`
pub record Frame : Type 0 where
  pub kind : Kind
  pub ns_key : Bytes
  pub buf : Bytes

abbrev pub Stack : Type 0
Stack = List Frame

abbrev pub max_encode_depth : ℕ
max_encode_depth = 1000

-- The values of the `Add` and `Append` methods; narrower integers, durations and times are widened, and
-- complex numbers printed, before.
pub data Value : Type 0 where
  text : Bytes → Value
  boolean : Bool → Value
  int64 : ℤ → Value
  uint64 : ℕ → Value
  double : ℕ → Value
  binary : Bytes → Value

-- `anyString`, `anyBool`, `anyInt`, `anyDouble`, `anyBytes`, and `AddUint64` above them.
unfoldable pub any_value : Value → Bytes
unfolding append_tagged_string append_tagged_varint append_tagged_fixed64 append_tagged_bytes
any_value (text v) = append_tagged_string [] 0x0a v
any_value (boolean v) = 0x10 ∷ (if v then 1 else 0) ∷ []
any_value (int64 v) = append_tagged_varint [] 0x18 v
any_value (uint64 v) =
    if ltb 0x7fff_ffff_ffff_ffff v
    then append_tagged_string [] 0x0a (decimal v)
    else append_tagged_varint [] 0x18 (pos v)
any_value (double v) = append_tagged_fixed64 [] 0x21 v
any_value (binary v) = append_tagged_bytes [] 0x3a v

abbrev pub entry_tag : Kind → ℕ
entry_tag frame_root = 0x32
entry_tag frame_kv_list = 0x0a
entry_tag frame_array = 0x0a

-- `kvLen`, for a value of `n` bytes.
abbrev pub kv_len : Bytes → ℕ → ℕ
kv_len key n = 1 + uvarint_len (length key) + length key + 1 + uvarint_len n + n

-- `addKV`
unfoldable pub add_kv : Bytes → Bytes → Frame → Frame
unfolding append_tagged_bytes append_tagged_string
add_kv key av f =
    let tagged = append_uvarint (f.buf ++ (entry_tag f.kind ∷ [])) (kv_len key (length av)) in
    record f { buf = append_tagged_bytes (append_tagged_string tagged 0x0a key) 0x12 av }

-- `addAV`
unfoldable pub add_av : Bytes → Frame → Frame
unfolding append_tagged_bytes
add_av av f = record f { buf = append_tagged_bytes f.buf (entry_tag f.kind) av }

-- `addValue`, by the kind of the frame
abbrev pub add_by : Kind → Bytes → Bytes → Frame → Frame
add_by frame_array key av f = add_av av f
add_by frame_root key av f = add_kv key av f
add_by frame_kv_list key av f = add_kv key av f

abbrev pub on_top : (Frame → Frame) → Stack → Stack
on_top f [] = []
on_top f (t ∷ st) = f t ∷ st

unfoldable pub add_value : Bytes → Bytes → Stack → Stack
unfolding add_kv add_av
add_value key av = on_top (λ f. add_by f.kind key av f)

-- A pushed frame: `frame{kind: kind, nsKey: key, buf: getFrameBuf()}`
abbrev pub fresh : Kind → Bytes → Frame
fresh kind key = record { kind = kind; ns_key = key; buf = [] }

-- `openFrame`
abbrev pub open_frame : Kind → Bytes → Stack → Stack
open_frame kind key st = fresh kind key ∷ st

abbrev pub av_tag : Kind → ℕ
av_tag frame_array = 0x2a
av_tag frame_root = 0x32
av_tag frame_kv_list = 0x32

-- What `sealTop` writes in front of the value's tag, by the kind of the parent.
abbrev pub seal_head : Kind → Bytes → Bytes → ℕ → Bytes
seal_head frame_array buf key av_len = append_uvarint (buf ++ (entry_tag frame_array ∷ [])) av_len
seal_head frame_root buf key av_len =
    append_uvarint
      (append_tagged_string
          (append_uvarint (buf ++ (entry_tag frame_root ∷ [])) (kv_len key av_len)) 0x0a key
        ++ (0x12 ∷ []))
      av_len
seal_head frame_kv_list buf key av_len =
    append_uvarint
      (append_tagged_string
          (append_uvarint (buf ++ (entry_tag frame_kv_list ∷ [])) (kv_len key av_len)) 0x0a key
        ++ (0x12 ∷ []))
      av_len

-- `sealTop`
unfoldable pub seal_top : Frame → Frame → Frame
seal_top top parent =
    let av_len = 1 + uvarint_len (length top.buf) + length top.buf in
    record parent {
      buf =
          append_uvarint
            (seal_head parent.kind parent.buf top.ns_key av_len ++ (av_tag top.kind ∷ []))
            (length top.buf)
          ++ top.buf;
    }

-- `sealDownTo`: the frames in front are sealed until `depth` are left, and one at least.
unfoldable pub seal_onto : ℕ → Frame → Stack → Stack
unfolding seal_top
seal_onto depth top [] = top ∷ []
seal_onto depth top (parent ∷ st) =
    let more = seal_onto depth (seal_top top parent) st in
    if ltb depth (suc (suc (length st))) then more else top ∷ parent ∷ st

unfoldable pub seal_down_to : ℕ → Stack → Stack
unfolding seal_onto
seal_down_to depth [] = []
seal_down_to depth (top ∷ st) = seal_onto depth top st

-- `sealAll`
abbrev pub seal_all : Stack → Stack
seal_all = seal_down_to 1

-- The loop of `rollback`.
unfoldable pub pop_to : ℕ → Stack → Stack
pop_to depth [] = []
pop_to depth (top ∷ st) =
    let more = pop_to depth st in if ltb depth (suc (length st)) then more else top ∷ st

-- `snapshot`
pub record Snapshot : Type 0 where
  pub depth : ℕ
  pub buf_len : ℕ

abbrev pub snap : Stack → Snapshot
snap [] = record { depth = 0; buf_len = 0 }
snap (f ∷ st) = record { depth = suc (length st); buf_len = length f.buf }

unfoldable pub rollback : Snapshot → Stack → Stack
unfolding pop_to
rollback sn st = on_top (λ f. record f { buf = take sn.buf_len f.buf }) (pop_to sn.depth st)

-- `AddObject` and `AddArray`, and with an empty key `AppendObject` and `AppendArray`, by the marshaler,
-- which returns whether it failed.
unfoldable pub add_container : Kind → Bytes → (Stack → Stack × Bool) → Stack → Stack × Bool
unfolding rollback seal_down_to
add_container kind key marshal st =
    let sn = snap st in
    let r = marshal (open_frame kind key st) in
    if leb max_encode_depth (length st)
    then (st, true)
    else if r.1
    then (rollback sn r.0, true)
    else (seal_down_to sn.depth r.0, false)
