-- ===== src/Fluent/Msgpack/ArrayCalls.antt =====
-- The calls of fluent/msgpack_array.go into an array's frame, each against the elements it stands for.
use zapwire.Common.{
  ℕ, suc, ◌+◌, ◌≡◌, refl, ◌∙◌, ap, inl, inr, Bool, true, false, none, some, [], ◌∷◌, ◌++◌,
  append_assoc, append-nil, Bytes, length, leb, concat, Bool-cases, arith,
}
use zapwire.Fluent.Msgpack.{Writers, map_kind, array_kind, Stack, max_encode_depth}
use zapwire.Fluent.Msgpack.Marshaler.{
  Value, Fields, Elements, stop, append, append_any, append_object, append_array, run_fields,
  run_elements,
}
use zapwire.Fluent.Msgpack.Tree.{
  Node, leaf, tree, row, node, Nodes, count_nodes, encode_node, encode_nodes, value_leaves, meaning,
  elements_meaning,
}
use zapwire.Fluent.Msgpack.Refines.{
  array_frame, append_container_full, append_call_lem, encode_nodes-leaves,
}
use zapwire.Fluent.Msgpack.Writes.{FieldsWrite, ElementsWrite, object_step, array_step}

module _ {F : Type 0} (m : Writers F) where
  one_lem :
      (v : Node) (s next : Elements F) (b val : Bytes) (n : ℕ) (st : Stack)
      → val ≡ encode_node m v
      → run_elements m s (array_frame b n ∷ st)
        ≡ run_elements m next (array_frame (b ++ val) (n + 1) ∷ st)
      → (let g = elements_meaning m next (suc (length st)) in
          elements_meaning m s (suc (length st)) ≡ (node v g.0, g.1))
      → ElementsWrite m next (b ++ val) (n + 1) st
      → ElementsWrite m s b n st
  unfolding ElementsWrite encode_node
  one_lem v s next b val n st is runs means ih =
      let g = elements_meaning m next (suc (length st)) in
      let z : n + 1 + count_nodes g.0 ≡ n + suc (count_nodes g.0) = omega arith in
      rw (runs, means, ih, z, append_assoc b val (encode_nodes m g.0), is) refl

  nothing_lem :
      (s next : Elements F) (b : Bytes) (n : ℕ) (st : Stack)
      → run_elements m s (array_frame b n ∷ st) ≡ run_elements m next (array_frame b n ∷ st)
      → elements_meaning m s (suc (length st)) ≡ elements_meaning m next (suc (length st))
      → ElementsWrite m next b n st
      → ElementsWrite m s b n st
  unfolding ElementsWrite
  nothing_lem s next b n st runs means ih = rw (runs, means) ih

  pub stop_lem :
      (failed : Bool) (b : Bytes) (n : ℕ) (st : Stack) → ElementsWrite m (stop failed) b n st
  unfolding ElementsWrite run_elements elements_meaning encode_node
  stop_lem failed b n st = let z : n + 0 ≡ n = omega arith in rw (append-nil b, z) refl

  pub append_lem :
      (v : Value F) (next : Elements F) (b : Bytes) (n : ℕ) (st : Stack)
      → (let bs = value_leaves m v in ElementsWrite m next (b ++ concat bs) (n + length bs) st)
      → ElementsWrite m (append v next) b n st
  unfolding ElementsWrite run_elements elements_meaning
  append_lem v next b n st ih =
      let bs = value_leaves m v in
      let g = elements_meaning m next (suc (length st)) in
      let l = encode_nodes-leaves m bs g.0 in
      let z : n + length bs + count_nodes g.0 ≡ n + (length bs + count_nodes g.0) = omega arith in
      ap (λ s. run_elements m next s) (append_call_lem m v array_kind b n st)
      ∙ ih
      ∙ rw (l.0, l.1, z, append_assoc b (concat bs) (encode_nodes m g.0)) refl

  pub append_any_lem :
      (v : Bytes) (next : Bool → Elements F) (b : Bytes) (n : ℕ) (st : Stack)
      → ElementsWrite m (next false) (b ++ v) (n + 1) st
      → ElementsWrite m (append_any (some v) next) b n st
  unfolding run_elements elements_meaning encode_node
  append_any_lem v next b n st ih =
      one_lem (leaf v) (append_any (some v) next) (next false) b v n st refl refl refl ih

  pub append_any_none :
      (next : Bool → Elements F) (b : Bytes) (n : ℕ) (st : Stack)
      → ElementsWrite m (next true) b n st
      → ElementsWrite m (append_any none next) b n st
  unfolding run_elements elements_meaning
  append_any_none next b n st ih =
      nothing_lem (append_any none next) (next true) b n st refl refl ih

  append_object_meaning :
      (child : Fields F) (next : Bool → Elements F) (d : ℕ) (t : Bool)
      → leb max_encode_depth d ≡ t
      → (let c = meaning m child (suc d) in
          let r = elements_meaning m (next c.1) d in
          elements_meaning m (append_object child next) d
          ≡ elim t [ true ↦ elements_meaning m (next true) d | false ↦ (node (tree c.0) r.0, r.1) ])
  unfolding elements_meaning
  append_object_meaning child next d t e =
      let c = meaning m child (suc d) in
      let r = elements_meaning m (next c.1) d in
      ap
        (λ (t : Bool). elim t as (λ _. Nodes × Bool) [
          | true ↦ elements_meaning m (next true) d
          | false ↦ (node (tree c.0) r.0, r.1)
        ])
        e

  pub append_object_lem :
      (child : Fields F) (next : Bool → Elements F) (b : Bytes) (n : ℕ) (st : Stack)
      → ((b' : Bytes) (n' : ℕ) (st' : Stack) → FieldsWrite m child b' n' st')
      → ((e : Bool) (b' : Bytes) (n' : ℕ) → ElementsWrite m (next e) b' n' st)
      → ElementsWrite m (append_object child next) b n st
  unfolding run_elements elements_meaning encode_node
  append_object_lem child next b n st inner rest =
      let c = meaning m child (suc (suc (length st))) in
      let v = encode_node m (tree c.0) in
      elim (Bool-cases (leb max_encode_depth (suc (length st)))) [
        | inl full ↦
            nothing_lem (append_object child next) (next true) b n st
              (ap (λ r. run_elements m (next r.1) r.0)
                (append_container_full m map_kind (λ s. run_fields m child s) (array_frame b n ∷ st)
                  full))
              (append_object_meaning child next (suc (length st)) true full) (rest true b n)
        | inr below ↦
            one_lem (tree c.0) (append_object child next) (next c.1) b v n st refl
              (ap (λ r. run_elements m (next r.1) r.0)
                (object_step m child array_kind b n st below
                  (inner [] 0 (array_frame b (n + 1) ∷ st))))
              (append_object_meaning child next (suc (length st)) false below)
              (rest c.1 (b ++ v) (n + 1))
      ]

  append_array_meaning :
      (child : Elements F) (next : Bool → Elements F) (d : ℕ) (t : Bool)
      → leb max_encode_depth d ≡ t
      → (let c = elements_meaning m child (suc d) in
          let r = elements_meaning m (next c.1) d in
          elements_meaning m (append_array child next) d
          ≡ elim t [ true ↦ elements_meaning m (next true) d | false ↦ (node (row c.0) r.0, r.1) ])
  unfolding elements_meaning
  append_array_meaning child next d t e =
      let c = elements_meaning m child (suc d) in
      let r = elements_meaning m (next c.1) d in
      ap
        (λ (t : Bool). elim t as (λ _. Nodes × Bool) [
          | true ↦ elements_meaning m (next true) d
          | false ↦ (node (row c.0) r.0, r.1)
        ])
        e

  pub append_array_lem :
      (child : Elements F) (next : Bool → Elements F) (b : Bytes) (n : ℕ) (st : Stack)
      → ((b' : Bytes) (n' : ℕ) (st' : Stack) → ElementsWrite m child b' n' st')
      → ((e : Bool) (b' : Bytes) (n' : ℕ) → ElementsWrite m (next e) b' n' st)
      → ElementsWrite m (append_array child next) b n st
  unfolding run_elements elements_meaning encode_node
  append_array_lem child next b n st inner rest =
      let c = elements_meaning m child (suc (suc (length st))) in
      let v = encode_node m (row c.0) in
      elim (Bool-cases (leb max_encode_depth (suc (length st)))) [
        | inl full ↦
            nothing_lem (append_array child next) (next true) b n st
              (ap (λ r. run_elements m (next r.1) r.0)
                (append_container_full m array_kind (λ s. run_elements m child s)
                  (array_frame b n ∷ st) full))
              (append_array_meaning child next (suc (length st)) true full) (rest true b n)
        | inr below ↦
            one_lem (row c.0) (append_array child next) (next c.1) b v n st refl
              (ap (λ r. run_elements m (next r.1) r.0)
                (array_step m child array_kind b n st below
                  (inner [] 0 (array_frame b (n + 1) ∷ st))))
              (append_array_meaning child next (suc (length st)) false below)
              (rest c.1 (b ++ v) (n + 1))
      ]
