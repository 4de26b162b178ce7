-- ===== src/Otlp/Attr/Marshaler.antt =====
-- What a marshaler does to the encoder state of otlp/attr.go: a tree of the calls that it makes, each of
-- which may depend on whether the call before it failed.
use zapwire.Common.{Bool, true, false, Option, none, some, [], Bytes}
use zapwire.Otlp.Attr.{
  Stack, Value, text, any_value, on_top, add_av, add_value, open_frame, frame_kv_list, frame_array,
  add_container,
}

-- A value for `AddReflected`: a trace context, by its bytes, or its JSON; `none` is the error of json.Marshal.
pub data Reflected : Type 0 where
  span : Bytes → Reflected
  json : Option Bytes → Reflected

-- An `ObjectMarshaler`, or a list of zap fields, and an `ArrayMarshaler`. `end` and `stop` say whether
-- it returns an error.
mutual
  pub data Fields : Type 0 where
    end : Bool → Fields
    add : Bytes → Value → Fields → Fields
    add_any : Bytes → Reflected → (Bool → Fields) → Fields
    namespace : Bytes → Fields → Fields
    object : Bytes → Fields → (Bool → Fields) → Fields
    array : Bytes → Elements → (Bool → Fields) → Fields

  pub data Elements : Type 0 where
    stop : Bool → Elements
    append : Value → Elements → Elements
    append_any : Option Bytes → (Bool → Elements) → Elements
    append_object : Fields → (Bool → Elements) → Elements
    append_array : Elements → (Bool → Elements) → Elements

-- `AddReflected` on the stack: nothing is written before an error, and a trace context goes to the sink
-- (Otlp.Attr.Sink).
unfoldable pub add_reflected : Bytes → Reflected → Stack → Stack × Bool
unfolding add_value any_value
add_reflected key (span sc) st = (st, false)
add_reflected key (json none) st = (st, true)
add_reflected key (json (some js)) st = (add_value key (any_value (text js)) st, false)

-- `AppendReflected`
unfoldable pub append_reflected : Option Bytes → Stack → Stack × Bool
unfolding add_av any_value
append_reflected none st = (st, true)
append_reflected (some js) st = (on_top (add_av (any_value (text js))) st, false)

unfoldable mutual
  -- A marshaler's run on the state, and whether it returns an error.
  pub run_fields : Fields → Stack → Stack × Bool
  run_fields (end failed) st = (st, failed)
  run_fields (add key v next) st = run_fields next (add_value key (any_value v) st)
  run_fields (add_any key v next) st = let r = add_reflected key v st in run_fields (next r.1) r.0
  run_fields (namespace key next) st = run_fields next (open_frame frame_kv_list key st)
  run_fields (object key child next) st =
      let r = add_container frame_kv_list key (λ s. run_fields child s) st in
      run_fields (next r.1) r.0
  run_fields (array key child next) st =
      let r = add_container frame_array key (λ s. run_elements child s) st in
      run_fields (next r.1) r.0

  pub run_elements : Elements → Stack → Stack × Bool
  run_elements (stop failed) st = (st, failed)
  run_elements (append v next) st = run_elements next (on_top (add_av (any_value v)) st)
  run_elements (append_any v next) st = let r = append_reflected v st in run_elements (next r.1) r.0
  run_elements (append_object child next) st =
      let r = add_container frame_kv_list [] (λ s. run_fields child s) st in
      run_elements (next r.1) r.0
  run_elements (append_array child next) st =
      let r = add_container frame_array [] (λ s. run_elements child s) st in
      run_elements (next r.1) r.0
