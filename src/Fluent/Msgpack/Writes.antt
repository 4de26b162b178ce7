-- ===== src/Fluent/Msgpack/Writes.antt =====
-- A marshaler's run on the stack of fluent/msgpack_encoder.go, against its tree.
use zapwire.Common.{ℕ, suc, ◌+◌, ◌≡◌, ◌∙◌, ap, false, [], ◌∷◌, ◌++◌, Bytes, length, leb}
use zapwire.Fluent.Msgpack.{
  Writers, Kind, map_kind, array_kind, Stack, max_encode_depth, count_element, seal_down_to,
  append_container,
}
use zapwire.Fluent.Msgpack.Marshaler.{Fields, Elements, run_fields, run_elements}
use zapwire.Fluent.Msgpack.Tree.{
  tree, row, count_pairs, count_nodes, encode_node, encode_pairs, encode_nodes, meaning,
  elements_meaning,
}
use zapwire.Fluent.Msgpack.Refines.{
  map_frame, array_frame, seal_none, append_container_lem, sealed_tree, sealed_row,
}

module _ {F : Type 0} (m : Writers F) where
  -- A run on a map's frame, with all that it left open sealed, adds exactly the tree's pairs.
  unfoldable pub FieldsWrite : Fields F → Bytes → ℕ → Stack → Type 0
  FieldsWrite s b n st =
      let g = meaning m s (suc (length st)) in
      let r = run_fields m s (map_frame b n ∷ st) in
      (seal_down_to m (suc (length st)) r.0
        ≡ map_frame (b ++ encode_pairs m g.0) (n + count_pairs g.0) ∷ st)
      × (r.1 ≡ g.1)

  -- A run on an array's frame adds exactly the tree's elements, and leaves nothing open.
  unfoldable pub ElementsWrite : Elements F → Bytes → ℕ → Stack → Type 0
  ElementsWrite s b n st =
      let g = elements_meaning m s (suc (length st)) in
      run_elements m s (array_frame b n ∷ st)
      ≡ (array_frame (b ++ encode_nodes m g.0) (n + count_nodes g.0) ∷ st, g.1)

  -- A container below the cap writes its tree, once its marshaler does.
  pub object_step :
      (child : Fields F) (k : Kind) (b : Bytes) (n : ℕ) (st : Stack)
      → leb max_encode_depth (suc (length st)) ≡ false
      → FieldsWrite child [] 0 (record { kind = k; buf = b; count = count_element k n } ∷ st)
      → let c = meaning m child (suc (suc (length st))) in
        append_container m map_kind
          (λ s. run_fields m child s)
          (record { kind = k; buf = b; count = n } ∷ st)
        ≡ (
          record { kind = k; buf = b ++ encode_node m (tree c.0); count = count_element k n } ∷ st,
          c.1,
        )
  unfolding FieldsWrite
  object_step child k b n st below ih =
      let c = meaning m child (suc (suc (length st))) in
      append_container_lem m map_kind (λ s. run_fields m child s)
        (record { kind = k; buf = b; count = n })
        (map_frame ([] ++ encode_pairs m c.0) (0 + count_pairs c.0)) st c.1 below ih.0 ih.1
      ∙ ap (λ f. (f ∷ st, c.1)) (sealed_tree m c.0 k b (count_element k n))

  pub array_step :
      (child : Elements F) (k : Kind) (b : Bytes) (n : ℕ) (st : Stack)
      → leb max_encode_depth (suc (length st)) ≡ false
      → ElementsWrite child [] 0 (record { kind = k; buf = b; count = count_element k n } ∷ st)
      → let c = elements_meaning m child (suc (suc (length st))) in
        append_container m array_kind
          (λ s. run_elements m child s)
          (record { kind = k; buf = b; count = n } ∷ st)
        ≡ (
          record { kind = k; buf = b ++ encode_node m (row c.0); count = count_element k n } ∷ st,
          c.1,
        )
  unfolding ElementsWrite
  array_step child k b n st below ih =
      let c = elements_meaning m child (suc (suc (length st))) in
      append_container_lem m array_kind (λ s. run_elements m child s)
        (record { kind = k; buf = b; count = n })
        (array_frame ([] ++ encode_nodes m c.0) (0 + count_nodes c.0)) st c.1 below
        (ap (λ r. seal_down_to m (suc (suc (length st))) r.0) ih
          ∙ seal_none m (array_frame ([] ++ encode_nodes m c.0) (0 + count_nodes c.0))
              (record { kind = k; buf = b; count = count_element k n } ∷ st))
        (ap (λ r. r.1) ih)
      ∙ ap (λ f. (f ∷ st, c.1)) (sealed_row m c.0 k b (count_element k n))
