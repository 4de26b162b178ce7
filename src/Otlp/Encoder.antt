-- ===== src/Otlp/Encoder.antt =====
-- The fields of an entry in otlp/encoder.go, its trace context, and the attributes that it pins to the
-- root frame.
use zapwire.Common.{
  Option, some, ℕ, ◌≡◌, ap, Bool, List, [], ◌∷◌, ◌++◌, Bytes, if◌then◌else◌, ◌||◌, not, ◌==◌,
  length,
}
use zapwire.Common.Int.{pos}
use zapwire.Otlp.Attr.{Frame, Stack, text, int64, any_value, add_kv, add_value, snap, rollback}
use zapwire.Otlp.Attr.Marshaler.{Fields, run_fields}
use zapwire.Otlp.Attr.Sink.{sink_fields}
use zapwire.Otlp.Attr.Transactions.{rollback-run_fields}

-- A zap field: an inline marshaler with its key and the text of its error, or the calls of its `AddTo`.
pub data Field : Type 0 where
  inline : Bytes → Fields → Bytes → Field
  add_to : Fields → Field

-- The encoder's state in `EncodeEntry`: the stack, and the trace context (`sc`, `scSet`).
abbrev pub Work : Type 0
Work = Stack × Option Bytes

-- `applyField`; the rollback is the stack's.
unfoldable pub apply_field : Field → Work → Work
unfolding run_fields rollback add_value any_value sink_fields
apply_field (add_to s) (st, sc) = ((run_fields s st).0, sink_fields s st sc)
apply_field (inline key s error) (st, sc) =
    let r = run_fields s st in
    (
      if r.1
          then add_value (key ++ (b'E' ∷ b'r' ∷ b'r' ∷ b'o' ∷ b'r' ∷ [])) (any_value (text error))
              (rollback (snap st) r.0)
          else r.0,
      sink_fields s st sc,
    )

-- A zap field of the loop of `EncodeEntry`: one with a trace context, which is taken out, or another.
pub data CallField : Type 0 where
  traced : Bytes → CallField
  plain : Field → CallField

-- The loop over the fields of `EncodeEntry`.
unfoldable pub apply_fields : List CallField → Work → Work
unfolding apply_field
apply_fields [] w = w
apply_fields (traced sc ∷ xs) (st, old) = apply_fields xs (st, some sc)
apply_fields (plain x ∷ xs) w = apply_fields xs (apply_field x w)

-- `addKVRoot`, into the frame at the bottom
unfoldable pub add_kv_root : Bytes → Bytes → Stack → Stack
unfolding add_kv
add_kv_root key av [] = []
add_kv_root key av (f ∷ []) = add_kv key av f ∷ []
add_kv_root key av (f ∷ g ∷ st) = f ∷ add_kv_root key av (g ∷ st)

-- The configuration and the entry, as far as `addMeta` reads them.
pub record Meta : Type 0 where
  pub logger_name_key : Bytes
  pub caller_attrs : Bool
  pub logger_name : Bytes
  pub caller_defined : Bool
  pub function : Bytes
  pub file : Bytes
  pub line : ℕ
  pub stack : Bytes

-- `addMeta`
unfoldable pub add_meta : Meta → Stack → Stack
unfolding add_kv_root any_value
add_meta e st =
    let named =
      if length e.logger_name_key == 0 || length e.logger_name == 0
      then st
      else add_kv_root e.logger_name_key (any_value (text e.logger_name)) st in
    let called =
      if length e.function == 0
      then named
      else add_kv_root
          (b'c' ∷ b'o' ∷ b'd' ∷ b'e' ∷ b'.' ∷ b'f' ∷ b'u' ∷ b'n' ∷ b'c' ∷ b't' ∷ b'i' ∷ b'o' ∷ b'n'
            ∷ b'.' ∷ b'n' ∷ b'a' ∷ b'm' ∷ b'e' ∷ [])
          (any_value (text e.function)) named in
    let placed =
      if not e.caller_attrs || not e.caller_defined
      then named
      else add_kv_root
          (b'c' ∷ b'o' ∷ b'd' ∷ b'e' ∷ b'.' ∷ b'l' ∷ b'i' ∷ b'n' ∷ b'e' ∷ b'.' ∷ b'n' ∷ b'u' ∷ b'm'
            ∷ b'b' ∷ b'e' ∷ b'r' ∷ [])
          (any_value (int64 (pos e.line)))
          (add_kv_root
            (b'c' ∷ b'o' ∷ b'd' ∷ b'e' ∷ b'.' ∷ b'f' ∷ b'i' ∷ b'l' ∷ b'e' ∷ b'.' ∷ b'p' ∷ b'a'
              ∷ b't' ∷ b'h' ∷ [])
            (any_value (text e.file)) called) in
    if length e.stack == 0
    then placed
    else add_kv_root
        (b'c' ∷ b'o' ∷ b'd' ∷ b'e' ∷ b'.' ∷ b's' ∷ b't' ∷ b'a' ∷ b'c' ∷ b'k' ∷ b't' ∷ b'r' ∷ b'a'
          ∷ b'c' ∷ b'e' ∷ [])
        (any_value (text e.stack)) placed

-- An inline field that fails leaves in the attributes its error under its key, and nothing of what its
-- marshaler wrote and left open before; one that succeeds leaves what its marshaler wrote. The trace
-- context is in both cases what the marshaler has left in the sink.
pub apply_field-rollback :
    (key error : Bytes) (s : Fields) (f : Frame) (st : Stack) (sc : Option Bytes)
    → apply_field (inline key s error) (f ∷ st, sc) ≡ (
      if (run_fields s (f ∷ st)).1
          then add_value
              (key ++ (b'E' ∷ b'r' ∷ b'r' ∷ b'o' ∷ b'r' ∷ []))
              (any_value (text error))
              (f ∷ st)
          else (run_fields s (f ∷ st)).0,
      sink_fields s (f ∷ st) sc,
    )
unfolding apply_field
apply_field-rollback key error s f st sc =
    ap
      (λ x. (
        if (run_fields s (f ∷ st)).1
            then add_value (key ++ (b'E' ∷ b'r' ∷ b'r' ∷ b'o' ∷ b'r' ∷ [])) (any_value (text error))
                x
            else (run_fields s (f ∷ st)).0,
        sink_fields s (f ∷ st) sc,
      ))
      (rollback-run_fields s f st)
