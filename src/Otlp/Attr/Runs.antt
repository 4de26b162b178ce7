-- ===== src/Otlp/Attr/Runs.antt =====
-- Every run of a marshaler on the state of otlp/attr.go writes its tree, or what is left of it.
use zapwire.Common.{◌≡◌, Bool, true, false, none, some, [], ◌∷◌, ◌++◌, Bytes}
use zapwire.Otlp.Attr.{frame_root, Stack, text, any_value, fresh, seal_all}
use zapwire.Otlp.Attr.Marshaler.{
  span, json, Fields, end, add, add_any, namespace, object, array, Elements, stop, append,
  append_any, append_object, append_array, run_fields,
}
use zapwire.Otlp.Attr.Tree.{tagged, encode_pairs, meaning}
use zapwire.Otlp.Attr.Layout.{entry}
use zapwire.Otlp.Attr.Writes.{frame_of, pairs_kind, FieldsWrite, ElementsWrite}
use zapwire.Otlp.Attr.MapCalls.{
  end_lem, add_lem, add_json_lem, add_span_lem, add_none_lem, namespace_lem, object_lem, array_lem,
}
use zapwire.Otlp.Attr.ArrayCalls.{
  stop_lem, append_lem, append_json_lem, append_none_lem, append_object_lem, append_array_lem,
}

mutual
  pub fields_lem : (s : Fields) (top : Bool) (ns b : Bytes) (st : Stack) → FieldsWrite s top ns b st
  fields_lem (end failed) top ns b st = end_lem failed top ns b st
  fields_lem (add key v next) top ns b st =
      add_lem key v next top ns b st
        (fields_lem next top ns (b ++ entry (pairs_kind top) key (any_value v)) st)
  fields_lem (add_any key (span sc) next) top ns b st =
      add_span_lem key sc next top ns b st (fields_lem (next false) top ns b st)
  fields_lem (add_any key (json none) next) top ns b st =
      add_none_lem key next top ns b st (fields_lem (next true) top ns b st)
  fields_lem (add_any key (json (some js)) next) top ns b st =
      add_json_lem key js next top ns b st
        (fields_lem (next false) top ns (b ++ entry (pairs_kind top) key (any_value (text js))) st)
  fields_lem (namespace key next) top ns b st =
      namespace_lem key next top ns b st
        (fields_lem next false key [] (frame_of (pairs_kind top) ns b ∷ st))
  fields_lem (object key child next) top ns b st =
      object_lem key child next top ns b st (λ ns' b' st'. fields_lem child false ns' b' st')
        (λ e b'. fields_lem (next e) top ns b' st)
  fields_lem (array key child next) top ns b st =
      array_lem key child next top ns b st (λ ns' b' st'. elements_lem child ns' b' st')
        (λ e b'. fields_lem (next e) top ns b' st)

  elements_lem : (s : Elements) (ns b : Bytes) (st : Stack) → ElementsWrite s ns b st
  elements_lem (stop failed) ns b st = stop_lem failed ns b st
  elements_lem (append v next) ns b st =
      append_lem v next ns b st (elements_lem next ns (b ++ tagged 0x0a (any_value v)) st)
  elements_lem (append_any none next) ns b st =
      append_none_lem next ns b st (elements_lem (next true) ns b st)
  elements_lem (append_any (some js) next) ns b st =
      append_json_lem js next ns b st
        (elements_lem (next false) ns (b ++ tagged 0x0a (any_value (text js))) st)
  elements_lem (append_object child next) ns b st =
      append_object_lem child next ns b st (λ ns' b' st'. fields_lem child false ns' b' st')
        (λ e b'. elements_lem (next e) ns b' st)
  elements_lem (append_array child next) ns b st =
      append_array_lem child next ns b st (λ ns' b' st'. elements_lem child ns' b' st')
        (λ e b'. elements_lem (next e) ns b' st)

-- The attributes of a record: whatever fields are added to a new state, failures, namespaces left open
-- and depth included, sealing all of it leaves one frame with exactly the tree's pairs, each under a
-- length that is that of its bytes.
pub seal_all-run_fields :
    (s : Fields)
    → seal_all (run_fields s (fresh frame_root [] ∷ [])).0
      ≡ frame_of frame_root [] (encode_pairs 0x32 (meaning s 1).0) ∷ []
unfolding FieldsWrite
seal_all-run_fields s = (fields_lem s true [] [] []).0
