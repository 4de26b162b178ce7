-- ===== src/Fluent/Msgpack/Tree.antt =====
-- What an entry's fields mean, without a stack: trees of maps and arrays, their encoding with the
-- counts in front, and the tree that a marshaler stands for at a depth of nesting.
use zapwire.Common.{
  ℕ, suc, Bool, true, false, none, some, List, [], ◌∷◌, ◌++◌, map, Bytes, length, concat, leb, ◌==◌,
  if◌then◌else◌,
}
pub use zapwire.Common.Trees.{Node, leaf, tree, row, Pairs, no_pair, pair, Nodes, no_node, node}
use zapwire.Fluent.Msgpack.{
  Writers, Prim, map_kind, array_kind, max_encode_depth, prim_bytes, header,
}
use zapwire.Fluent.Msgpack.Marshaler.{
  Value, plain, hooked, Fields, end, add, add_bin, add_any, namespace, object, array, Elements,
  stop, append, append_any, append_object, append_array,
}

abbrev pub count_pairs : Pairs → ℕ
count_pairs no_pair = 0
count_pairs (pair k v ps) = suc (count_pairs ps)

abbrev pub count_nodes : Nodes → ℕ
count_nodes no_node = 0
count_nodes (node v vs) = suc (count_nodes vs)

abbrev pub append_pairs : Pairs → Pairs → Pairs
append_pairs no_pair qs = qs
append_pairs (pair k v ps) qs = pair k v (append_pairs ps qs)

-- One leaf for each value, in front of others.
abbrev pub leaves : List Bytes → Nodes → Nodes
leaves [] vs = vs
leaves (b ∷ bs) vs = node (leaf b) (leaves bs vs)

module _ {F : Type 0} (m : Writers F) where
  -- Each map and each array is its number of entries, and then the entries.
  unfoldable mutual
    unfolding header

    pub encode_node : Node → Bytes
    encode_node (leaf b) = b
    encode_node (tree ps) = header m map_kind (count_pairs ps) ++ encode_pairs ps
    encode_node (row vs) = header m array_kind (count_nodes vs) ++ encode_nodes vs

    pub encode_pairs : Pairs → Bytes
    encode_pairs no_pair = []
    encode_pairs (pair k v ps) = m.string k ++ (encode_node v ++ encode_pairs ps)

    pub encode_nodes : Nodes → Bytes
    encode_nodes no_node = []
    encode_nodes (node v vs) = encode_node v ++ encode_nodes vs

  -- The values that a hook appends, or the fallback's if they have no bytes.
  unfoldable pub value_leaves : Value F → List Bytes
  value_leaves (plain v) = prim_bytes m v ∷ []
  value_leaves (hooked hook fallback) =
      let bs = map (λ v. prim_bytes m v) hook in
      if length (concat bs) == 0 then bs ++ (prim_bytes m fallback ∷ []) else bs

  -- The tree of a marshaler that runs inside `depth` containers, and whether it fails. A namespace
  -- takes all that follows it; a container at the cap fails and leaves nothing.
  unfoldable mutual
    pub meaning : Fields F → ℕ → Pairs × Bool
    meaning (end failed) depth = (no_pair, failed)
    meaning (add key v next) depth =
        let r = meaning next depth in (pair key (leaf (concat (value_leaves v))) r.0, r.1)
    meaning (add_bin key v next) depth =
        let r = meaning next depth in (pair key (leaf (m.bytes v)) r.0, r.1)
    meaning (add_any key none next) depth = meaning (next true) depth
    meaning (add_any key (some b) next) depth =
        let r = meaning (next false) depth in (pair key (leaf b) r.0, r.1)
    meaning (namespace key next) depth =
        let r = meaning next (suc depth) in (pair key (tree r.0) no_pair, r.1)
    meaning (object key child next) depth = elim (leb max_encode_depth depth) [
      | true ↦ meaning (next true) depth
      | false ↦
          let c = meaning child (suc depth) in
          let r = meaning (next c.1) depth in (pair key (tree c.0) r.0, r.1)
    ]
    meaning (array key child next) depth = elim (leb max_encode_depth depth) [
      | true ↦ meaning (next true) depth
      | false ↦
          let c = elements_meaning child (suc depth) in
          let r = meaning (next c.1) depth in (pair key (row c.0) r.0, r.1)
    ]

    pub elements_meaning : Elements F → ℕ → Nodes × Bool
    elements_meaning (stop failed) depth = (no_node, failed)
    elements_meaning (append v next) depth =
        let r = elements_meaning next depth in (leaves (value_leaves v) r.0, r.1)
    elements_meaning (append_any none next) depth = elements_meaning (next true) depth
    elements_meaning (append_any (some b) next) depth =
        let r = elements_meaning (next false) depth in (node (leaf b) r.0, r.1)
    elements_meaning (append_object child next) depth = elim (leb max_encode_depth depth) [
      | true ↦ elements_meaning (next true) depth
      | false ↦
          let c = meaning child (suc depth) in
          let r = elements_meaning (next c.1) depth in (node (tree c.0) r.0, r.1)
    ]
    elements_meaning (append_array child next) depth = elim (leb max_encode_depth depth) [
      | true ↦ elements_meaning (next true) depth
      | false ↦
          let c = elements_meaning child (suc depth) in
          let r = elements_meaning (next c.1) depth in (node (row c.0) r.0, r.1)
    ]
