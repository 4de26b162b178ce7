-- ===== src/Fluent/Msgpack/MapCalls.antt =====
-- The calls of fluent/msgpack_encoder.go into a map's frame, each against the pairs that it stands for.
use zapwire.Common.{
  ℕ, suc, ◌+◌, ◌≡◌, refl, ◌∙◌, sym, ap, inl, inr, Bool, true, false, none, some, [], ◌∷◌, ◌++◌,
  append_assoc, append-nil, Bytes, length, leb, concat, Bool-cases, arith,
}
use zapwire.Fluent.Msgpack.{
  Writers, map_kind, array_kind, Stack, fresh, max_encode_depth, add_key, add_binary, seal_down_to,
  open_namespace,
}
use zapwire.Fluent.Msgpack.Marshaler.{
  Value, Fields, end, add, add_bin, add_any, namespace, object, array, Elements, add_reflected,
  run_fields, run_elements,
}
use zapwire.Fluent.Msgpack.Tree.{
  Node, leaf, tree, row, Pairs, pair, count_pairs, encode_node, encode_pairs, value_leaves, meaning,
  elements_meaning,
}
use zapwire.Fluent.Msgpack.Refines.{
  map_frame, seal_none, seal_one, seal_twice, add_container_full, add_container_below,
  append_call_lem, sealed_tree, after_pair,
}
use zapwire.Fluent.Msgpack.Writes.{FieldsWrite, ElementsWrite, object_step, array_step}

module _ {F : Type 0} (m : Writers F) where
  -- A call that writes one pair, in front of a run that writes the others.
  pair_lem :
      (k : Bytes) (v : Node) (s next : Fields F) (b val : Bytes) (n : ℕ) (st : Stack)
      → val ≡ encode_node m v
      → run_fields m s (map_frame b n ∷ st)
        ≡ run_fields m next (map_frame (b ++ (m.string k ++ val)) (n + 1) ∷ st)
      → (let g = meaning m next (suc (length st)) in
          meaning m s (suc (length st)) ≡ (pair k v g.0, g.1))
      → FieldsWrite m next (b ++ (m.string k ++ val)) (n + 1) st
      → FieldsWrite m s b n st
  unfolding FieldsWrite
  pair_lem k v s next b val n st is runs means ih =
      rw (runs, means)
        (
          ih.0
              ∙ after_pair m b (m.string k ++ val) n k v (meaning m next (suc (length st))).0 st
                  (ap (λ x. m.string k ++ x) is),
          ih.1,
        )

  -- A call that writes nothing.
  same_lem :
      (s next : Fields F) (b : Bytes) (n : ℕ) (st : Stack)
      → run_fields m s (map_frame b n ∷ st) ≡ run_fields m next (map_frame b n ∷ st)
      → meaning m s (suc (length st)) ≡ meaning m next (suc (length st))
      → FieldsWrite m next b n st
      → FieldsWrite m s b n st
  unfolding FieldsWrite
  same_lem s next b n st runs means ih = rw (runs, means) ih

  pub end_lem : (failed : Bool) (b : Bytes) (n : ℕ) (st : Stack) → FieldsWrite m (end failed) b n st
  unfolding FieldsWrite run_fields meaning encode_node
  end_lem failed b n st =
      let z : n + 0 ≡ n = omega arith in rw (append-nil b, z) (seal_none m (map_frame b n) st, refl)

  pub add_lem :
      (key : Bytes) (v : Value F) (next : Fields F) (b : Bytes) (n : ℕ) (st : Stack)
      → FieldsWrite m next (b ++ (m.string key ++ concat (value_leaves m v))) (n + 1) st
      → FieldsWrite m (add key v next) b n st
  unfolding run_fields meaning add_key encode_node
  add_lem key v next b n st ih =
      let val = concat (value_leaves m v) in
      pair_lem key (leaf val) (add key v next) next b val n st refl
        (ap (λ s. run_fields m next s)
          (rw
            (
              append_call_lem m v map_kind (b ++ m.string key) (n + 1) st,
              append_assoc b (m.string key) val,
            )
            refl))
        refl ih

  pub add_bin_lem :
      (key v : Bytes) (next : Fields F) (b : Bytes) (n : ℕ) (st : Stack)
      → FieldsWrite m next (b ++ (m.string key ++ m.bytes v)) (n + 1) st
      → FieldsWrite m (add_bin key v next) b n st
  unfolding run_fields meaning add_key add_binary encode_node
  add_bin_lem key v next b n st ih =
      pair_lem key (leaf (m.bytes v)) (add_bin key v next) next b (m.bytes v) n st refl
        (ap (λ x. run_fields m next (map_frame x (n + 1) ∷ st))
          (append_assoc b (m.string key) (m.bytes v)))
        refl ih

  pub add_any_lem :
      (key v : Bytes) (next : Bool → Fields F) (b : Bytes) (n : ℕ) (st : Stack)
      → FieldsWrite m (next false) (b ++ (m.string key ++ v)) (n + 1) st
      → FieldsWrite m (add_any key (some v) next) b n st
  unfolding run_fields meaning add_key add_reflected encode_node
  add_any_lem key v next b n st ih =
      pair_lem key (leaf v) (add_any key (some v) next) (next false) b v n st refl
        (ap (λ x. run_fields m (next false) (map_frame x (n + 1) ∷ st))
          (append_assoc b (m.string key) v))
        refl ih

  pub add_any_none :
      (key : Bytes) (next : Bool → Fields F) (b : Bytes) (n : ℕ) (st : Stack)
      → FieldsWrite m (next true) b n st
      → FieldsWrite m (add_any key none next) b n st
  unfolding run_fields meaning add_reflected
  add_any_none key next b n st ih = same_lem (add_any key none next) (next true) b n st refl refl ih

  pub namespace_lem :
      (key : Bytes) (next : Fields F) (b : Bytes) (n : ℕ) (st : Stack)
      → FieldsWrite m next [] 0 (map_frame (b ++ m.string key) (n + 1) ∷ st)
      → FieldsWrite m (namespace key next) b n st
  unfolding FieldsWrite run_fields meaning add_key open_namespace encode_node
  namespace_lem key next b n st ih =
      let g = meaning m next (suc (suc (length st))) in
      let p = map_frame (b ++ m.string key) (n + 1) in
      (
        sym (seal_twice m (suc (length st)) (run_fields m next (fresh map_kind ∷ p ∷ st)).0)
            ∙ ap (λ s. seal_down_to m (suc (length st)) s) ih.0
            ∙ seal_one m (map_frame ([] ++ encode_pairs m g.0) (0 + count_pairs g.0)) p st
            ∙ ap (λ f. f ∷ st) (sealed_tree m g.0 map_kind (b ++ m.string key) (n + 1))
            ∙ (ap (λ x. map_frame x (n + 1) ∷ st)
                (rw (append_assoc b (m.string key) (encode_node m (tree g.0))) (
                  ap (λ x. b ++ (m.string key ++ x))
                    (sym (append-nil (encode_node m (tree g.0))))))),
        ih.1,
      )

  -- The tree of a container at the cap and below it.
  object_meaning :
      (key : Bytes) (child : Fields F) (next : Bool → Fields F) (d : ℕ) (t : Bool)
      → leb max_encode_depth d ≡ t
      → (let c = meaning m child (suc d) in
          let r = meaning m (next c.1) d in
          meaning m (object key child next) d
          ≡ elim t [ true ↦ meaning m (next true) d | false ↦ (pair key (tree c.0) r.0, r.1) ])
  unfolding meaning
  object_meaning key child next d t e =
      let c = meaning m child (suc d) in
      let r = meaning m (next c.1) d in
      ap
        (λ (t : Bool). elim t as (λ _. Pairs × Bool) [
          | true ↦ meaning m (next true) d
          | false ↦ (pair key (tree c.0) r.0, r.1)
        ])
        e

  pub object_lem :
      (key : Bytes) (child : Fields F) (next : Bool → Fields F) (b : Bytes) (n : ℕ) (st : Stack)
      → ((b' : Bytes) (n' : ℕ) (st' : Stack) → FieldsWrite m child b' n' st')
      → ((e : Bool) (b' : Bytes) (n' : ℕ) → FieldsWrite m (next e) b' n' st)
      → FieldsWrite m (object key child next) b n st
  unfolding run_fields meaning add_key encode_node
  object_lem key child next b n st inner rest =
      let c = meaning m child (suc (suc (length st))) in
      let v = encode_node m (tree c.0) in
      elim (Bool-cases (leb max_encode_depth (suc (length st)))) [
        | inl full ↦
            same_lem (object key child next) (next true) b n st
              (ap (λ r. run_fields m (next r.1) r.0)
                (add_container_full m map_kind key (λ s. run_fields m child s) (map_frame b n ∷ st)
                  full))
              (object_meaning key child next (suc (length st)) true full) (rest true b n)
        | inr below ↦
            pair_lem key (tree c.0) (object key child next) (next c.1) b v n st refl
              (ap (λ r. run_fields m (next r.1) r.0)
                  (add_container_below m map_kind key (λ s. run_fields m child s)
                      (map_frame b n ∷ st) below
                    ∙ object_step m child map_kind (b ++ m.string key) (n + 1) st below
                        (inner [] 0 (map_frame (b ++ m.string key) (n + 1) ∷ st)))
                ∙ ap (λ x. run_fields m (next c.1) (map_frame x (n + 1) ∷ st))
                    (append_assoc b (m.string key) v))
              (object_meaning key child next (suc (length st)) false below)
              (rest c.1 (b ++ (m.string key ++ v)) (n + 1))
      ]

  array_meaning :
      (key : Bytes) (child : Elements F) (next : Bool → Fields F) (d : ℕ) (t : Bool)
      → leb max_encode_depth d ≡ t
      → (let c = elements_meaning m child (suc d) in
          let r = meaning m (next c.1) d in
          meaning m (array key child next) d
          ≡ elim t [ true ↦ meaning m (next true) d | false ↦ (pair key (row c.0) r.0, r.1) ])
  unfolding meaning
  array_meaning key child next d t e =
      let c = elements_meaning m child (suc d) in
      let r = meaning m (next c.1) d in
      ap
        (λ (t : Bool). elim t as (λ _. Pairs × Bool) [
          | true ↦ meaning m (next true) d
          | false ↦ (pair key (row c.0) r.0, r.1)
        ])
        e

  pub array_lem :
      (key : Bytes) (child : Elements F) (next : Bool → Fields F) (b : Bytes) (n : ℕ) (st : Stack)
      → ((b' : Bytes) (n' : ℕ) (st' : Stack) → ElementsWrite m child b' n' st')
      → ((e : Bool) (b' : Bytes) (n' : ℕ) → FieldsWrite m (next e) b' n' st)
      → FieldsWrite m (array key child next) b n st
  unfolding run_fields meaning add_key encode_node
  array_lem key child next b n st inner rest =
      let c = elements_meaning m child (suc (suc (length st))) in
      let v = encode_node m (row c.0) in
      elim (Bool-cases (leb max_encode_depth (suc (length st)))) [
        | inl full ↦
            same_lem (array key child next) (next true) b n st
              (ap (λ r. run_fields m (next r.1) r.0)
                (add_container_full m array_kind key (λ s. run_elements m child s)
                  (map_frame b n ∷ st) full))
              (array_meaning key child next (suc (length st)) true full) (rest true b n)
        | inr below ↦
            pair_lem key (row c.0) (array key child next) (next c.1) b v n st refl
              (ap (λ r. run_fields m (next r.1) r.0)
                  (add_container_below m array_kind key (λ s. run_elements m child s)
                      (map_frame b n ∷ st) below
                    ∙ array_step m child map_kind (b ++ m.string key) (n + 1) st below
                        (inner [] 0 (map_frame (b ++ m.string key) (n + 1) ∷ st)))
                ∙ ap (λ x. run_fields m (next c.1) (map_frame x (n + 1) ∷ st))
                    (append_assoc b (m.string key) v))
              (array_meaning key child next (suc (length st)) false below)
              (rest c.1 (b ++ (m.string key ++ v)) (n + 1))
      ]
