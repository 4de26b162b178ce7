-- ===== src/Otlp/Attr/MapCalls.antt =====
-- The calls of otlp/attr.go into the record's frame or a map's, each against the pairs that it stands for.
use zapwire.Common.{
  ℕ, suc, ◌≡◌, refl, ◌∙◌, sym, ap, inl, inr, Bool, true, false, ◌||◌, none, some, [], ◌∷◌, ◌++◌,
  append_assoc, append-nil, Bytes, length, leb, Bool-cases, if◌then◌else◌,
}
use zapwire.Otlp.Attr.{
  frame_kv_list, frame_array, Stack, Value, text, any_value, max_encode_depth, entry_tag, fresh,
  add_value, seal_down_to,
}
use zapwire.Otlp.Attr.Marshaler.{
  span, json, Fields, end, add, add_any, namespace, object, array, Elements, add_reflected,
  run_fields, run_elements,
}
use zapwire.Otlp.Attr.Tree.{
  Node, leaf, tree, row, Pairs, pair, tagged, key_value, encode_node, encode_pairs, meaning,
  elements_meaning,
}
use zapwire.Otlp.Attr.Layout.{entry, add_by_lem, seal_top_lem}
use zapwire.Otlp.Attr.Containers.{seal_none, seal_one, seal_twice, container_full}
use zapwire.Otlp.Attr.Writes.{
  frame_of, pairs_kind, FieldsWrite, ElementsWrite, object_step, array_step,
}

entry_pairs :
    (top : Bool) (key av : Bytes)
    → entry (pairs_kind top) key av ≡ tagged (entry_tag (pairs_kind top)) (key_value key av)
entry_pairs true key av = refl
entry_pairs false key av = refl

add_value_lem :
    (top : Bool) (ns b key av : Bytes) (st : Stack)
    → add_value key av (frame_of (pairs_kind top) ns b ∷ st)
      ≡ frame_of (pairs_kind top) ns (b ++ entry (pairs_kind top) key av) ∷ st
unfolding add_value
add_value_lem top ns b key av st = ap (λ f. f ∷ st) (add_by_lem (pairs_kind top) ns b key av)

-- A call that writes one pair, in front of a run that writes the others.
pair_step :
    (key : Bytes) (v : Node) (s next : Fields) (top : Bool) (ns b : Bytes) (st : Stack)
    → run_fields s (frame_of (pairs_kind top) ns b ∷ st)
      ≡ run_fields next
          (frame_of (pairs_kind top) ns (b ++ entry (pairs_kind top) key (encode_node v)) ∷ st)
    → (let g = meaning next (suc (length st)) in
        meaning s (suc (length st)) ≡ (pair key v g.0, g.1))
    → FieldsWrite next top ns (b ++ entry (pairs_kind top) key (encode_node v)) st
    → FieldsWrite s top ns b st
unfolding FieldsWrite encode_node
pair_step key v s next top ns b st runs means ih =
    rw (runs, means)
      (
        ih.0
            ∙ ap (λ x. frame_of (pairs_kind top) ns x ∷ st)
                (rw
                  (
                    append_assoc b (entry (pairs_kind top) key (encode_node v)) (
                        encode_pairs (entry_tag (pairs_kind top))
                          (meaning next (suc (length st))).0),
                    entry_pairs top key (encode_node v),
                  )
                  refl),
        ih.1,
      )

-- A call that writes nothing.
same_step :
    (s next : Fields) (top : Bool) (ns b : Bytes) (st : Stack)
    → run_fields s (frame_of (pairs_kind top) ns b ∷ st)
      ≡ run_fields next (frame_of (pairs_kind top) ns b ∷ st)
    → meaning s (suc (length st)) ≡ meaning next (suc (length st))
    → FieldsWrite next top ns b st
    → FieldsWrite s top ns b st
unfolding FieldsWrite
same_step s next top ns b st runs means ih = rw (runs, means) ih

pub end_lem : (failed top : Bool) (ns b : Bytes) (st : Stack) → FieldsWrite (end failed) top ns b st
unfolding FieldsWrite run_fields meaning encode_node
end_lem failed top ns b st = rw (append-nil b) (seal_none (frame_of (pairs_kind top) ns b) st, refl)

pub add_lem :
    (key : Bytes) (v : Value) (next : Fields) (top : Bool) (ns b : Bytes) (st : Stack)
    → FieldsWrite next top ns (b ++ entry (pairs_kind top) key (any_value v)) st
    → FieldsWrite (add key v next) top ns b st
unfolding run_fields meaning encode_node
add_lem key v next top ns b st ih =
    pair_step key (leaf (any_value v)) (add key v next) next top ns b st
      (ap (λ s. run_fields next s) (add_value_lem top ns b key (any_value v) st)) refl ih

pub add_json_lem :
    (key js : Bytes) (next : Bool → Fields) (top : Bool) (ns b : Bytes) (st : Stack)
    → FieldsWrite (next false) top ns (b ++ entry (pairs_kind top) key (any_value (text js))) st
    → FieldsWrite (add_any key (json (some js)) next) top ns b st
unfolding run_fields meaning encode_node add_reflected
add_json_lem key js next top ns b st ih =
    pair_step key (leaf (any_value (text js))) (add_any key (json (some js)) next) (next false) top
      ns b st
      (ap (λ s. run_fields (next false) s) (add_value_lem top ns b key (any_value (text js)) st))
      refl ih

pub add_span_lem :
    (key sc : Bytes) (next : Bool → Fields) (top : Bool) (ns b : Bytes) (st : Stack)
    → FieldsWrite (next false) top ns b st
    → FieldsWrite (add_any key (span sc) next) top ns b st
unfolding run_fields meaning add_reflected
add_span_lem key sc next top ns b st ih =
    same_step (add_any key (span sc) next) (next false) top ns b st refl refl ih

pub add_none_lem :
    (key : Bytes) (next : Bool → Fields) (top : Bool) (ns b : Bytes) (st : Stack)
    → FieldsWrite (next true) top ns b st
    → FieldsWrite (add_any key (json none) next) top ns b st
unfolding run_fields meaning add_reflected
add_none_lem key next top ns b st ih =
    same_step (add_any key (json none) next) (next true) top ns b st refl refl ih

pub namespace_lem :
    (key : Bytes) (next : Fields) (top : Bool) (ns b : Bytes) (st : Stack)
    → FieldsWrite next false key [] (frame_of (pairs_kind top) ns b ∷ st)
    → FieldsWrite (namespace key next) top ns b st
unfolding FieldsWrite run_fields meaning encode_node
namespace_lem key next top ns b st ih =
    let g = meaning next (suc (suc (length st))) in
    let p = frame_of (pairs_kind top) ns b in
    let inner = frame_of frame_kv_list key (encode_pairs 0x0a g.0) in
    (
      sym (seal_twice (suc (length st)) (run_fields next (fresh frame_kv_list key ∷ p ∷ st)).0)
          ∙ ap (λ s. seal_down_to (suc (length st)) s) ih.0
          ∙ seal_one inner p st
          ∙ ap (λ f. f ∷ st) (seal_top_lem inner p)
          ∙ ap (λ x. frame_of (pairs_kind top) ns (b ++ x) ∷ st)
              (entry_pairs top key (encode_node (tree g.0))
                ∙ sym (
                    append-nil (
                      tagged (entry_tag (pairs_kind top))
                        (key_value key (encode_node (tree g.0)))))),
      ih.1,
    )

-- The tree of a container that leaves nothing and of one that does.
object_meaning :
    (key : Bytes) (child : Fields) (next : Bool → Fields) (d : ℕ) (t : Bool)
    → (leb max_encode_depth d || (meaning child (suc d)).1) ≡ t
    → (let r = meaning (next false) d in
        meaning (object key child next) d ≡ elim t as (λ _. Pairs × Bool) [
          | true ↦ meaning (next true) d
          | false ↦ (pair key (tree (meaning child (suc d)).0) r.0, r.1)
        ])
unfolding meaning
object_meaning key child next d t e =
    let r = meaning (next false) d in
    ap
      (λ (t : Bool). elim t as (λ _. Pairs × Bool) [
        | true ↦ meaning (next true) d
        | false ↦ (pair key (tree (meaning child (suc d)).0) r.0, r.1)
      ])
      e

pub object_lem :
    (key : Bytes) (child : Fields) (next : Bool → Fields) (top : Bool) (ns b : Bytes) (st : Stack)
    → ((ns' b' : Bytes) (st' : Stack) → FieldsWrite child false ns' b' st')
    → ((e : Bool) (b' : Bytes) → FieldsWrite (next e) top ns b' st)
    → FieldsWrite (object key child next) top ns b st
unfolding run_fields
object_lem key child next top ns b st inner rest =
    let d = suc (length st) in
    let c = meaning child (suc d) in
    let k = pairs_kind top in
    elim (Bool-cases (leb max_encode_depth d)) [
      | inl full ↦
          same_step (object key child next) (next true) top ns b st
            (ap (λ r. run_fields (next r.1) r.0)
              (container_full frame_kv_list key (λ s. run_fields child s) (frame_of k ns b ∷ st)
                full))
            (object_meaning key child next d true (ap (λ t. t || c.1) full)) (rest true b)
      | inr below ↦ elim (Bool-cases c.1) [
        | inl failed ↦
            same_step (object key child next) (next true) top ns b st
              (ap (λ r. run_fields (next r.1) r.0)
                (object_step child key k ns b st below (inner key [] (frame_of k ns b ∷ st))
                  ∙ ap
                      (λ t. if t then (frame_of k ns b ∷ st, true) else (
                        frame_of k ns (b ++ entry k key (encode_node (tree c.0))) ∷ st,
                        false,
                      ))
                      failed))
              (object_meaning key child next d true (ap (λ t. t || c.1) below ∙ failed))
              (rest true b)
        | inr fine ↦
            pair_step key (tree c.0) (object key child next) (next false) top ns b st
              (ap (λ r. run_fields (next r.1) r.0)
                (object_step child key k ns b st below (inner key [] (frame_of k ns b ∷ st))
                  ∙ ap
                      (λ t. if t then (frame_of k ns b ∷ st, true) else (
                        frame_of k ns (b ++ entry k key (encode_node (tree c.0))) ∷ st,
                        false,
                      ))
                      fine))
              (object_meaning key child next d false (ap (λ t. t || c.1) below ∙ fine))
              (rest false (b ++ entry k key (encode_node (tree c.0))))
      ]
    ]

array_meaning :
    (key : Bytes) (child : Elements) (next : Bool → Fields) (d : ℕ) (t : Bool)
    → (leb max_encode_depth d || (elements_meaning child (suc d)).1) ≡ t
    → (let r = meaning (next false) d in
        meaning (array key child next) d ≡ elim t as (λ _. Pairs × Bool) [
          | true ↦ meaning (next true) d
          | false ↦ (pair key (row (elements_meaning child (suc d)).0) r.0, r.1)
        ])
unfolding meaning
array_meaning key child next d t e =
    let r = meaning (next false) d in
    ap
      (λ (t : Bool). elim t as (λ _. Pairs × Bool) [
        | true ↦ meaning (next true) d
        | false ↦ (pair key (row (elements_meaning child (suc d)).0) r.0, r.1)
      ])
      e

pub array_lem :
    (key : Bytes) (child : Elements) (next : Bool → Fields) (top : Bool) (ns b : Bytes) (st : Stack)
    → ((ns' b' : Bytes) (st' : Stack) → ElementsWrite child ns' b' st')
    → ((e : Bool) (b' : Bytes) → FieldsWrite (next e) top ns b' st)
    → FieldsWrite (array key child next) top ns b st
unfolding run_fields
array_lem key child next top ns b st inner rest =
    let d = suc (length st) in
    let c = elements_meaning child (suc d) in
    let k = pairs_kind top in
    elim (Bool-cases (leb max_encode_depth d)) [
      | inl full ↦
          same_step (array key child next) (next true) top ns b st
            (ap (λ r. run_fields (next r.1) r.0)
              (container_full frame_array key (λ s. run_elements child s) (frame_of k ns b ∷ st)
                full))
            (array_meaning key child next d true (ap (λ t. t || c.1) full)) (rest true b)
      | inr below ↦ elim (Bool-cases c.1) [
        | inl failed ↦
            same_step (array key child next) (next true) top ns b st
              (ap (λ r. run_fields (next r.1) r.0)
                (array_step child key k ns b st below (inner key [] (frame_of k ns b ∷ st))
                  ∙ ap
                      (λ t.
                        if t
                        then (frame_of k ns b ∷ st, true)
                        else (frame_of k ns (b ++ entry k key (encode_node (row c.0))) ∷ st, false))
                      failed))
              (array_meaning key child next d true (ap (λ t. t || c.1) below ∙ failed))
              (rest true b)
        | inr fine ↦
            pair_step key (row c.0) (array key child next) (next false) top ns b st
              (ap (λ r. run_fields (next r.1) r.0)
                (array_step child key k ns b st below (inner key [] (frame_of k ns b ∷ st))
                  ∙ ap
                      (λ t.
                        if t
                        then (frame_of k ns b ∷ st, true)
                        else (frame_of k ns (b ++ entry k key (encode_node (row c.0))) ∷ st, false))
                      fine))
              (array_meaning key child next d false (ap (λ t. t || c.1) below ∙ fine))
              (rest false (b ++ entry k key (encode_node (row c.0))))
      ]
    ]
