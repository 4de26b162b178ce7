-- ===== src/Fluent/Msgpack/Runs.antt =====
-- Every run of a marshaler on the encoder of fluent/msgpack_encoder.go writes its tree.
use zapwire.Common.{ℕ, ◌+◌, true, false, none, some, [], ◌∷◌, ◌++◌, Bytes, length, concat}
use zapwire.Fluent.Msgpack.{Writers, Stack}
use zapwire.Fluent.Msgpack.Marshaler.{
  Fields, end, add, add_bin, add_any, namespace, object, array, Elements, stop, append, append_any,
  append_object, append_array,
}
use zapwire.Fluent.Msgpack.Tree.{value_leaves}
use zapwire.Fluent.Msgpack.Refines.{map_frame}
use zapwire.Fluent.Msgpack.Writes.{FieldsWrite, ElementsWrite}
use zapwire.Fluent.Msgpack.MapCalls.{
  end_lem, add_lem, add_bin_lem, add_any_lem, add_any_none, namespace_lem, object_lem, array_lem,
}
use zapwire.Fluent.Msgpack.ArrayCalls.{
  stop_lem, append_lem, append_any_lem, append_any_none, append_object_lem, append_array_lem,
}

module _ {F : Type 0} (m : Writers F) where
  mutual
    pub fields_lem : (s : Fields F) (b : Bytes) (n : ℕ) (st : Stack) → FieldsWrite m s b n st
    fields_lem (end failed) b n st = end_lem m failed b n st
    fields_lem (add key v next) b n st =
        add_lem m key v next b n st
          (fields_lem next (b ++ (m.string key ++ concat (value_leaves m v))) (n + 1) st)
    fields_lem (add_bin key v next) b n st =
        add_bin_lem m key v next b n st
          (fields_lem next (b ++ (m.string key ++ m.bytes v)) (n + 1) st)
    fields_lem (add_any key none next) b n st =
        add_any_none m key next b n st (fields_lem (next true) b n st)
    fields_lem (add_any key (some v) next) b n st =
        add_any_lem m key v next b n st
          (fields_lem (next false) (b ++ (m.string key ++ v)) (n + 1) st)
    fields_lem (namespace key next) b n st =
        namespace_lem m key next b n st
          (fields_lem next [] 0 (map_frame (b ++ m.string key) (n + 1) ∷ st))
    fields_lem (object key child next) b n st =
        object_lem m key child next b n st (λ b' n' st'. fields_lem child b' n' st')
          (λ e b' n'. fields_lem (next e) b' n' st)
    fields_lem (array key child next) b n st =
        array_lem m key child next b n st (λ b' n' st'. elements_lem child b' n' st')
          (λ e b' n'. fields_lem (next e) b' n' st)

    elements_lem : (s : Elements F) (b : Bytes) (n : ℕ) (st : Stack) → ElementsWrite m s b n st
    elements_lem (stop failed) b n st = stop_lem m failed b n st
    elements_lem (append v next) b n st =
        append_lem m v next b n st
          (elements_lem next (b ++ concat (value_leaves m v)) (n + length (value_leaves m v)) st)
    elements_lem (append_any none next) b n st =
        append_any_none m next b n st (elements_lem (next true) b n st)
    elements_lem (append_any (some v) next) b n st =
        append_any_lem m v next b n st (elements_lem (next false) (b ++ v) (n + 1) st)
    elements_lem (append_object child next) b n st =
        append_object_lem m child next b n st (λ b' n' st'. fields_lem child b' n' st')
          (λ e b' n'. elements_lem (next e) b' n' st)
    elements_lem (append_array child next) b n st =
        append_array_lem m child next b n st (λ b' n' st'. elements_lem child b' n' st')
          (λ e b' n'. elements_lem (next e) b' n' st)
