-- ===== src/Otlp/Attr/Sink.antt =====
-- The trace sink of otlp/attr.go while it is armed, as in `EncodeEntry`: the trace context that the last
-- `AddReflected` of one has stored. It is not part of the stack, and no rollback takes it back.
use zapwire.Common.{Option, some, [], Bytes, length, leb, if◌then◌else◌}
use zapwire.Otlp.Attr.{
  Stack, any_value, on_top, add_av, add_value, open_frame, frame_kv_list, frame_array,
  add_container, max_encode_depth,
}
use zapwire.Otlp.Attr.Marshaler.{
  Reflected, span, json, Fields, end, add, add_any, namespace, object, array, Elements, stop,
  append, append_any, append_object, append_array, add_reflected, append_reflected, run_fields,
  run_elements,
}

-- `*s.scSink, *s.scSinkSet = sc, true`
abbrev pub store : Reflected → Option Bytes → Option Bytes
store (span sc) old = some sc
store (json js) old = old

-- At the depth limit a container's marshaler is not called.
abbrev unless_deep : Stack → Option Bytes → Option Bytes → Option Bytes
unless_deep st sc old = if leb max_encode_depth (length st) then old else sc

unfoldable mutual
  -- What a marshaler's run on the state leaves in the sink.
  pub sink_fields : Fields → Stack → Option Bytes → Option Bytes
  sink_fields (end failed) st old = old
  sink_fields (add key v next) st old = sink_fields next (add_value key (any_value v) st) old
  sink_fields (add_any key v next) st old =
      let r = add_reflected key v st in sink_fields (next r.1) r.0 (store v old)
  sink_fields (namespace key next) st old = sink_fields next (open_frame frame_kv_list key st) old
  sink_fields (object key child next) st old =
      let r = add_container frame_kv_list key (λ s. run_fields child s) st in
      let sc = sink_fields child (open_frame frame_kv_list key st) old in
      sink_fields (next r.1) r.0 (unless_deep st sc old)
  sink_fields (array key child next) st old =
      let r = add_container frame_array key (λ s. run_elements child s) st in
      let sc = sink_elements child (open_frame frame_array key st) old in
      sink_fields (next r.1) r.0 (unless_deep st sc old)

  pub sink_elements : Elements → Stack → Option Bytes → Option Bytes
  sink_elements (stop failed) st old = old
  sink_elements (append v next) st old = sink_elements next (on_top (add_av (any_value v)) st) old
  sink_elements (append_any v next) st old =
      let r = append_reflected v st in sink_elements (next r.1) r.0 old
  sink_elements (append_object child next) st old =
      let r = add_container frame_kv_list [] (λ s. run_fields child s) st in
      let sc = sink_fields child (open_frame frame_kv_list [] st) old in
      sink_elements (next r.1) r.0 (unless_deep st sc old)
  sink_elements (append_array child next) st old =
      let r = add_container frame_array [] (λ s. run_elements child s) st in
      let sc = sink_elements child (open_frame frame_array [] st) old in
      sink_elements (next r.1) r.0 (unless_deep st sc old)
