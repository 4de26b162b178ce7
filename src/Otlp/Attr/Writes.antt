-- ===== src/Otlp/Attr/Writes.antt =====
-- A marshaler's run on the stack of otlp/attr.go, against its tree.
use zapwire.Common.{
  suc, ◌≡◌, ◌∙◌, ap, Bool, true, false, [], ◌∷◌, ◌++◌, Bytes, length, leb, if◌then◌else◌,
}
use zapwire.Otlp.Attr.{
  Kind, frame_root, frame_kv_list, frame_array, Frame, Stack, max_encode_depth, entry_tag,
  seal_down_to, add_container,
}
use zapwire.Otlp.Attr.Marshaler.{Fields, Elements, run_fields, run_elements}
use zapwire.Otlp.Attr.Tree.{
  tree, row, encode_node, encode_pairs, encode_nodes, meaning, elements_meaning,
}
use zapwire.Otlp.Attr.Layout.{entry, seal_top_lem}
use zapwire.Otlp.Attr.Containers.{seal_none, container_lem}

abbrev pub frame_of : Kind → Bytes → Bytes → Frame
frame_of k ns b = record { kind = k; ns_key = ns; buf = b }

-- The kinds that take pairs: the record's own frame, and a map's.
abbrev pub pairs_kind : Bool → Kind
pairs_kind true = frame_root
pairs_kind false = frame_kv_list

-- A run on such a frame, with all that it left open sealed, adds exactly the tree's pairs.
unfoldable pub FieldsWrite : Fields → Bool → Bytes → Bytes → Stack → Type 0
FieldsWrite s top ns b st =
    let g = meaning s (suc (length st)) in
    let r = run_fields s (frame_of (pairs_kind top) ns b ∷ st) in
    (seal_down_to (suc (length st)) r.0
      ≡ frame_of (pairs_kind top) ns (b ++ encode_pairs (entry_tag (pairs_kind top)) g.0) ∷ st)
    × (r.1 ≡ g.1)

-- A run on an array's frame adds exactly the tree's elements, and leaves nothing open.
unfoldable pub ElementsWrite : Elements → Bytes → Bytes → Stack → Type 0
ElementsWrite s ns b st =
    let g = elements_meaning s (suc (length st)) in
    run_elements s (frame_of frame_array ns b ∷ st)
    ≡ (frame_of frame_array ns (b ++ encode_nodes g.0) ∷ st, g.1)

-- A container below the cap writes its tree, or nothing, once its marshaler does.
pub object_step :
    (child : Fields) (key : Bytes) (k : Kind) (ns b : Bytes) (st : Stack)
    → leb max_encode_depth (suc (length st)) ≡ false
    → FieldsWrite child false key [] (frame_of k ns b ∷ st)
    → (let c = meaning child (suc (suc (length st))) in
        add_container frame_kv_list key (λ s. run_fields child s) (frame_of k ns b ∷ st) ≡ (
          if c.1
          then (frame_of k ns b ∷ st, true)
          else (frame_of k ns (b ++ entry k key (encode_node (tree c.0))) ∷ st, false)))
unfolding FieldsWrite encode_node
object_step child key k ns b st below ih =
    let c = meaning child (suc (suc (length st))) in
    let inner = frame_of frame_kv_list key (encode_pairs 0x0a c.0) in
    container_lem frame_kv_list key (λ s. run_fields child s) (frame_of k ns b) inner st c.1 below
      ih.0 ih.1
    ∙ ap (λ f. if c.1 then (frame_of k ns b ∷ st, true) else (f ∷ st, false))
        (seal_top_lem inner (frame_of k ns b))

pub array_step :
    (child : Elements) (key : Bytes) (k : Kind) (ns b : Bytes) (st : Stack)
    → leb max_encode_depth (suc (length st)) ≡ false
    → ElementsWrite child key [] (frame_of k ns b ∷ st)
    → (let c = elements_meaning child (suc (suc (length st))) in
        add_container frame_array key (λ s. run_elements child s) (frame_of k ns b ∷ st) ≡ (
          if c.1
          then (frame_of k ns b ∷ st, true)
          else (frame_of k ns (b ++ entry k key (encode_node (row c.0))) ∷ st, false)))
unfolding ElementsWrite encode_node
array_step child key k ns b st below ih =
    let c = elements_meaning child (suc (suc (length st))) in
    let inner = frame_of frame_array key (encode_nodes c.0) in
    container_lem frame_array key (λ s. run_elements child s) (frame_of k ns b) inner st c.1 below
      (ap (λ r. seal_down_to (suc (suc (length st))) r.0) ih
        ∙ seal_none inner (frame_of k ns b ∷ st))
      (ap (λ r. r.1) ih)
    ∙ ap (λ f. if c.1 then (frame_of k ns b ∷ st, true) else (f ∷ st, false))
        (seal_top_lem inner (frame_of k ns b))
