-- ===== src/Otlp/Attr/ArrayCalls.antt =====
-- The calls of otlp/attr.go into an array's frame, each against the elements that it stands for.
use zapwire.Common.{
  ℕ, suc, ◌≡◌, refl, ◌∙◌, ap, inl, inr, Bool, true, false, ◌||◌, none, some, [], ◌∷◌, ◌++◌,
  append_assoc, append-nil, Bytes, length, leb, Bool-cases, if◌then◌else◌,
}
use zapwire.Otlp.Attr.{frame_kv_list, frame_array, Stack, Value, text, any_value, max_encode_depth}
use zapwire.Otlp.Attr.Marshaler.{
  Fields, Elements, stop, append, append_any, append_object, append_array, append_reflected,
  run_fields, run_elements,
}
use zapwire.Otlp.Attr.Tree.{
  Node, leaf, tree, row, Nodes, node, tagged, encode_node, encode_nodes, meaning, elements_meaning,
}
use zapwire.Otlp.Attr.Layout.{add_by_lem}
use zapwire.Otlp.Attr.Containers.{container_full}
use zapwire.Otlp.Attr.Writes.{frame_of, FieldsWrite, ElementsWrite, object_step, array_step}

node_step :
    (v : Node) (s next : Elements) (ns b : Bytes) (st : Stack)
    → run_elements s (frame_of frame_array ns b ∷ st)
      ≡ run_elements next (frame_of frame_array ns (b ++ tagged 0x0a (encode_node v)) ∷ st)
    → (let g = elements_meaning next (suc (length st)) in
        elements_meaning s (suc (length st)) ≡ (node v g.0, g.1))
    → ElementsWrite next ns (b ++ tagged 0x0a (encode_node v)) st
    → ElementsWrite s ns b st
unfolding ElementsWrite encode_node
node_step v s next ns b st runs means ih =
    rw
      (
        runs,
        means,
        ih,
        append_assoc b (tagged 0x0a (encode_node v))
            (encode_nodes (elements_meaning next (suc (length st))).0),
      )
      refl

same_step :
    (s next : Elements) (ns b : Bytes) (st : Stack)
    → run_elements s (frame_of frame_array ns b ∷ st)
      ≡ run_elements next (frame_of frame_array ns b ∷ st)
    → elements_meaning s (suc (length st)) ≡ elements_meaning next (suc (length st))
    → ElementsWrite next ns b st
    → ElementsWrite s ns b st
unfolding ElementsWrite
same_step s next ns b st runs means ih = rw (runs, means) ih

pub stop_lem : (failed : Bool) (ns b : Bytes) (st : Stack) → ElementsWrite (stop failed) ns b st
unfolding ElementsWrite run_elements elements_meaning encode_node
stop_lem failed ns b st = rw (append-nil b) refl

pub append_lem :
    (v : Value) (next : Elements) (ns b : Bytes) (st : Stack)
    → ElementsWrite next ns (b ++ tagged 0x0a (any_value v)) st
    → ElementsWrite (append v next) ns b st
unfolding run_elements elements_meaning encode_node
append_lem v next ns b st ih =
    node_step (leaf (any_value v)) (append v next) next ns b st
      (ap (λ f. run_elements next (f ∷ st)) (add_by_lem frame_array ns b [] (any_value v))) refl ih

pub append_json_lem :
    (js : Bytes) (next : Bool → Elements) (ns b : Bytes) (st : Stack)
    → ElementsWrite (next false) ns (b ++ tagged 0x0a (any_value (text js))) st
    → ElementsWrite (append_any (some js) next) ns b st
unfolding run_elements elements_meaning encode_node append_reflected
append_json_lem js next ns b st ih =
    node_step (leaf (any_value (text js))) (append_any (some js) next) (next false) ns b st
      (ap (λ f. run_elements (next false) (f ∷ st))
        (add_by_lem frame_array ns b [] (any_value (text js))))
      refl ih

pub append_none_lem :
    (next : Bool → Elements) (ns b : Bytes) (st : Stack)
    → ElementsWrite (next true) ns b st
    → ElementsWrite (append_any none next) ns b st
unfolding run_elements elements_meaning append_reflected
append_none_lem next ns b st ih = same_step (append_any none next) (next true) ns b st refl refl ih

append_object_meaning :
    (child : Fields) (next : Bool → Elements) (d : ℕ) (t : Bool)
    → (leb max_encode_depth d || (meaning child (suc d)).1) ≡ t
    → (let r = elements_meaning (next false) d in
        elements_meaning (append_object child next) d ≡ elim t as (λ _. Nodes × Bool) [
          | true ↦ elements_meaning (next true) d
          | false ↦ (node (tree (meaning child (suc d)).0) r.0, r.1)
        ])
unfolding elements_meaning
append_object_meaning child next d t e =
    let r = elements_meaning (next false) d in
    ap
      (λ (t : Bool). elim t as (λ _. Nodes × Bool) [
        | true ↦ elements_meaning (next true) d
        | false ↦ (node (tree (meaning child (suc d)).0) r.0, r.1)
      ])
      e

pub append_object_lem :
    (child : Fields) (next : Bool → Elements) (ns b : Bytes) (st : Stack)
    → ((ns' b' : Bytes) (st' : Stack) → FieldsWrite child false ns' b' st')
    → ((e : Bool) (b' : Bytes) → ElementsWrite (next e) ns b' st)
    → ElementsWrite (append_object child next) ns b st
unfolding run_elements
append_object_lem child next ns b st inner rest =
    let d = suc (length st) in
    let c = meaning child (suc d) in
    let here = frame_of frame_array ns b in
    let v = encode_node (tree c.0) in
    elim (Bool-cases (leb max_encode_depth d)) [
      | inl full ↦
          same_step (append_object child next) (next true) ns b st
            (ap (λ r. run_elements (next r.1) r.0)
              (container_full frame_kv_list [] (λ s. run_fields child s) (here ∷ st) full))
            (append_object_meaning child next d true (ap (λ t. t || c.1) full)) (rest true b)
      | inr below ↦ elim (Bool-cases c.1) [
        | inl failed ↦
            same_step (append_object child next) (next true) ns b st
              (ap (λ r. run_elements (next r.1) r.0)
                (object_step child [] frame_array ns b st below (inner [] [] (here ∷ st))
                  ∙ ap
                      (λ t.
                        if t
                        then (here ∷ st, true)
                        else (frame_of frame_array ns (b ++ tagged 0x0a v) ∷ st, false))
                      failed))
              (append_object_meaning child next d true (ap (λ t. t || c.1) below ∙ failed))
              (rest true b)
        | inr fine ↦
            node_step (tree c.0) (append_object child next) (next false) ns b st
              (ap (λ r. run_elements (next r.1) r.0)
                (object_step child [] frame_array ns b st below (inner [] [] (here ∷ st))
                  ∙ ap
                      (λ t.
                        if t
                        then (here ∷ st, true)
                        else (frame_of frame_array ns (b ++ tagged 0x0a v) ∷ st, false))
                      fine))
              (append_object_meaning child next d false (ap (λ t. t || c.1) below ∙ fine))
              (rest false (b ++ tagged 0x0a v))
      ]
    ]

append_array_meaning :
    (child : Elements) (next : Bool → Elements) (d : ℕ) (t : Bool)
    → (leb max_encode_depth d || (elements_meaning child (suc d)).1) ≡ t
    → (let r = elements_meaning (next false) d in
        elements_meaning (append_array child next) d ≡ elim t as (λ _. Nodes × Bool) [
          | true ↦ elements_meaning (next true) d
          | false ↦ (node (row (elements_meaning child (suc d)).0) r.0, r.1)
        ])
unfolding elements_meaning
append_array_meaning child next d t e =
    let r = elements_meaning (next false) d in
    ap
      (λ (t : Bool). elim t as (λ _. Nodes × Bool) [
        | true ↦ elements_meaning (next true) d
        | false ↦ (node (row (elements_meaning child (suc d)).0) r.0, r.1)
      ])
      e

pub append_array_lem :
    (child : Elements) (next : Bool → Elements) (ns b : Bytes) (st : Stack)
    → ((ns' b' : Bytes) (st' : Stack) → ElementsWrite child ns' b' st')
    → ((e : Bool) (b' : Bytes) → ElementsWrite (next e) ns b' st)
    → ElementsWrite (append_array child next) ns b st
unfolding run_elements
append_array_lem child next ns b st inner rest =
    let d = suc (length st) in
    let c = elements_meaning child (suc d) in
    let here = frame_of frame_array ns b in
    let v = encode_node (row c.0) in
    elim (Bool-cases (leb max_encode_depth d)) [
      | inl full ↦
          same_step (append_array child next) (next true) ns b st
            (ap (λ r. run_elements (next r.1) r.0)
              (container_full frame_array [] (λ s. run_elements child s) (here ∷ st) full))
            (append_array_meaning child next d true (ap (λ t. t || c.1) full)) (rest true b)
      | inr below ↦ elim (Bool-cases c.1) [
        | inl failed ↦
            same_step (append_array child next) (next true) ns b st
              (ap (λ r. run_elements (next r.1) r.0)
                (array_step child [] frame_array ns b st below (inner [] [] (here ∷ st))
                  ∙ ap
                      (λ t.
                        if t
                        then (here ∷ st, true)
                        else (frame_of frame_array ns (b ++ tagged 0x0a v) ∷ st, false))
                      failed))
              (append_array_meaning child next d true (ap (λ t. t || c.1) below ∙ failed))
              (rest true b)
        | inr fine ↦
            node_step (row c.0) (append_array child next) (next false) ns b st
              (ap (λ r. run_elements (next r.1) r.0)
                (array_step child [] frame_array ns b st below (inner [] [] (here ∷ st))
                  ∙ ap
                      (λ t.
                        if t
                        then (here ∷ st, true)
                        else (frame_of frame_array ns (b ++ tagged 0x0a v) ∷ st, false))
                      fine))
              (append_array_meaning child next d false (ap (λ t. t || c.1) below ∙ fine))
              (rest false (b ++ tagged 0x0a v))
      ]
    ]
