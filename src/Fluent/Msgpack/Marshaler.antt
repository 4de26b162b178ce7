-- ===== src/Fluent/Msgpack/Marshaler.antt =====
-- What a marshaler does to the encoder of fluent/msgpack_encoder.go: a tree of the calls that it makes,
-- each of which may depend on whether the call before it failed.
use zapwire.Common.{Bool, true, false, Option, none, some, List, ◌++◌, Bytes}
use zapwire.Fluent.Msgpack.{
  Writers, Prim, map_kind, array_kind, Stack, append_value, on_top, append_prim, append_hooked,
  add_key, add_binary, open_namespace, append_container, add_container,
}

-- A value that takes one call: `hooked` is a time or a duration, with what the configured hook appends
-- for it, and the fallback.
pub data Value (F : Type 0) : Type 0 where
  plain : Prim F → Value F
  hooked : List (Prim F) → Prim F → Value F

-- An `ObjectMarshaler`, or a list of zap fields, and an `ArrayMarshaler`. `end` and `stop` say whether
-- it returns an error. A reflected value is its serialization; `none` is the error.
mutual
  pub data Fields (F : Type 0) : Type 0 where
    end : Bool → Fields F
    add : Bytes → Value F → Fields F → Fields F
    add_bin : Bytes → Bytes → Fields F → Fields F
    add_any : Bytes → Option Bytes → (Bool → Fields F) → Fields F
    namespace : Bytes → Fields F → Fields F
    object : Bytes → Fields F → (Bool → Fields F) → Fields F
    array : Bytes → Elements F → (Bool → Fields F) → Fields F

  pub data Elements (F : Type 0) : Type 0 where
    stop : Bool → Elements F
    append : Value F → Elements F → Elements F
    append_any : Option Bytes → (Bool → Elements F) → Elements F
    append_object : Fields F → (Bool → Elements F) → Elements F
    append_array : Elements F → (Bool → Elements F) → Elements F

-- `encodeReflected`: msgp's own conversion, or else the way through JSON with its numbers normalised.
unfoldable pub encode_reflected :
    {V : Type 0}
    → (V → Option Bytes)
    → (V → Option Bytes)
    → (Bytes → Option V)
    → (V → V)
    → V
    → Option Bytes
encode_reflected append_intf marshal decode normalize_number value = elim (append_intf value) [
  | some b ↦ some b
  | none ↦ elim (marshal value) [
    | none ↦ none
    | some j ↦ elim (decode j) [ none ↦ none | some v ↦ append_intf (normalize_number v) ]
  ]
]

-- `AppendReflected`: on an error the element is left out.
abbrev pub append_reflected : Option Bytes → Stack → Stack × Bool
append_reflected none st = (st, true)
append_reflected (some b) st = (on_top (append_value b) st, false)

module _ {F : Type 0} (m : Writers F) where
  unfoldable pub append_call : Value F → Stack → Stack
  unfolding append_prim append_hooked
  append_call (plain v) = append_prim m v
  append_call (hooked hook fallback) = append_hooked m hook fallback

  -- `AddReflected`
  unfoldable pub add_reflected : Bytes → Option Bytes → Stack → Stack × Bool
  unfolding add_key
  add_reflected key none st = (st, true)
  add_reflected key (some b) st =
      (on_top (λ t. record t { buf = t.buf ++ b }) (add_key m key st), false)

  unfoldable mutual
    -- A marshaler's run on the encoder, and whether it returns an error.
    pub run_fields : Fields F → Stack → Stack × Bool
    run_fields (end failed) st = (st, failed)
    run_fields (add key v next) st = run_fields next (append_call v (add_key m key st))
    run_fields (add_bin key v next) st = run_fields next (add_binary m key v st)
    run_fields (add_any key v next) st = let r = add_reflected key v st in run_fields (next r.1) r.0
    run_fields (namespace key next) st = run_fields next (open_namespace m key st)
    run_fields (object key child next) st =
        let r = add_container m map_kind key (λ s. run_fields child s) st in
        run_fields (next r.1) r.0
    run_fields (array key child next) st =
        let r = add_container m array_kind key (λ s. run_elements child s) st in
        run_fields (next r.1) r.0

    pub run_elements : Elements F → Stack → Stack × Bool
    run_elements (stop failed) st = (st, failed)
    run_elements (append v next) st = run_elements next (append_call v st)
    run_elements (append_any v next) st =
        let r = append_reflected v st in run_elements (next r.1) r.0
    run_elements (append_object child next) st =
        let r = append_container m map_kind (λ s. run_fields child s) st in
        run_elements (next r.1) r.0
    run_elements (append_array child next) st =
        let r = append_container m array_kind (λ s. run_elements child s) st in
        run_elements (next r.1) r.0
