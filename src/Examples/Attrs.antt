-- ===== src/Examples/Attrs.antt =====
-- Concrete fields for the attribute encoder of otlp/.
use zapwire.Common.{none, some, ◌≡◌, refl, true, false, [], ◌∷◌, ◌++◌, if◌then◌else◌}
use zapwire.Common.Int.{pos}
use zapwire.Otlp.Attr.{frame_root, fresh, add_value, seal_all, text, int64, boolean, any_value}
use zapwire.Otlp.Attr.Marshaler.{
  Fields, end, add, add_any, namespace, array, stop, append, append_object, span, run_fields,
}
use zapwire.Otlp.Attr.Tree.{meaning, encode_pairs, pair, leaf, tree, no_pair}
use zapwire.Otlp.Attr.Sink.{sink_fields}
use zapwire.Otlp.Encoder.{inline, apply_field, apply_field-rollback}
use zapwire.Otlp.Attr.Writes.{frame_of}
use zapwire.Otlp.Attr.Runs.{seal_all-run_fields}

-- An array whose second element fails, a trace context, and a namespace that is never closed.
abbrev fields : Fields
fields =
    array (b'r' ∷ [])
      (append (int64 (pos 2))
        (append_object (add (b'x' ∷ []) (boolean true) (end true)) (λ e. stop e)))
      (λ e.
        add_any (b't' ∷ []) (span (7 ∷ []))
          (λ e. namespace (b'n' ∷ []) (add (b'a' ∷ []) (text (b'v' ∷ [])) (end false))))

left :
    (meaning fields 1).0
    ≡ pair
        (b'n' ∷ [])
        (tree (pair (b'a' ∷ []) (leaf (any_value (text (b'v' ∷ [])))) no_pair))
        no_pair
unfolding meaning
left = refl

seal_all-run_fields_example :
    seal_all (run_fields fields (fresh frame_root [] ∷ [])).0
    ≡ frame_of frame_root [] (encode_pairs 0x32 (meaning fields 1).0) ∷ []
seal_all-run_fields_example = seal_all-run_fields fields

-- An inline marshaler that fails inside a namespace that it opened.
abbrev failing : Fields
failing = add (b'a' ∷ []) (int64 (pos 1)) (
    add_any (b't' ∷ []) (span (9 ∷ []))
      (λ e. namespace (b'n' ∷ []) (add (b'b' ∷ []) (boolean true) (end true))))

apply_field-rollback_example :
    apply_field (inline (b'k' ∷ []) failing (b'e' ∷ [])) (fresh frame_root [] ∷ [], none) ≡ (
      if (run_fields failing (fresh frame_root [] ∷ [])).1
          then add_value
              ((b'k' ∷ []) ++ (b'E' ∷ b'r' ∷ b'r' ∷ b'o' ∷ b'r' ∷ []))
              (any_value (text (b'e' ∷ [])))
              (fresh frame_root [] ∷ [])
          else (run_fields failing (fresh frame_root [] ∷ [])).0,
      sink_fields failing (fresh frame_root [] ∷ []) none,
    )
apply_field-rollback_example =
    apply_field-rollback (b'k' ∷ []) (b'e' ∷ []) failing (fresh frame_root []) [] none

-- Its trace context stays, though the marshaler failed.
sink_keeps : sink_fields failing (fresh frame_root [] ∷ []) none ≡ some (9 ∷ [])
unfolding sink_fields
sink_keeps = refl
