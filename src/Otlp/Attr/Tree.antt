-- ===== src/Otlp/Attr/Tree.antt =====
-- What the attributes of a record mean, without a stack: the OTLP protobuf of a tree of values, and the
-- tree that a marshaler stands for at a depth of nesting.
pub use zapwire.Common.Trees.{Node, leaf, tree, row, Pairs, no_pair, pair, Nodes, no_node, node}
use zapwire.Common.{ℕ, suc, ◌||◌, Bool, true, false, none, some, [], ◌++◌, Bytes, leb}
use zapwire.Otlp.Proto.Append.{append_tagged_bytes}
use zapwire.Otlp.Attr.{text, any_value, max_encode_depth}
use zapwire.Otlp.Attr.Marshaler.{
  span, json, Fields, end, add, add_any, namespace, object, array, Elements, stop, append,
  append_any, append_object, append_array,
}

-- A length-delimited field.
unfoldable pub tagged : ℕ → Bytes → Bytes
unfolding append_tagged_bytes
tagged tag b = append_tagged_bytes [] tag b

-- `KeyValue{key, value}`
unfoldable pub key_value : Bytes → Bytes → Bytes
unfolding tagged
key_value key av = tagged 0x0a key ++ tagged 0x12 av

-- `AnyValue`, the entries of a `KeyValueList` or of the record, under their tag, and those of an
-- `ArrayValue`.
unfoldable mutual
  unfolding tagged key_value

  pub encode_node : Node → Bytes
  encode_node (leaf av) = av
  encode_node (tree ps) = tagged 0x32 (encode_pairs 0x0a ps)
  encode_node (row vs) = tagged 0x2a (encode_nodes vs)

  pub encode_pairs : ℕ → Pairs → Bytes
  encode_pairs tag no_pair = []
  encode_pairs tag (pair k v ps) = tagged tag (key_value k (encode_node v)) ++ encode_pairs tag ps

  pub encode_nodes : Nodes → Bytes
  encode_nodes no_node = []
  encode_nodes (node v vs) = tagged 0x0a (encode_node v) ++ encode_nodes vs

-- The tree of a marshaler that runs inside `depth` frames, and whether it fails. A namespace takes all
-- that follows it; a container that fails, or is at the cap, leaves nothing.
unfoldable mutual
  unfolding any_value

  pub meaning : Fields → ℕ → Pairs × Bool
  meaning (end failed) depth = (no_pair, failed)
  meaning (add key v next) depth =
      let r = meaning next depth in (pair key (leaf (any_value v)) r.0, r.1)
  meaning (add_any key (span sc) next) depth = meaning (next false) depth
  meaning (add_any key (json none) next) depth = meaning (next true) depth
  meaning (add_any key (json (some js)) next) depth =
      let r = meaning (next false) depth in (pair key (leaf (any_value (text js))) r.0, r.1)
  meaning (namespace key next) depth =
      let r = meaning next (suc depth) in (pair key (tree r.0) no_pair, r.1)
  meaning (object key child next) depth =
      let c = meaning child (suc depth) in
      elim (leb max_encode_depth depth || c.1) as (λ _. Pairs × Bool) [
        | true ↦ meaning (next true) depth
        | false ↦ let r = meaning (next false) depth in (pair key (tree c.0) r.0, r.1)
      ]
  meaning (array key child next) depth =
      let c = elements_meaning child (suc depth) in
      elim (leb max_encode_depth depth || c.1) as (λ _. Pairs × Bool) [
        | true ↦ meaning (next true) depth
        | false ↦ let r = meaning (next false) depth in (pair key (row c.0) r.0, r.1)
      ]

  pub elements_meaning : Elements → ℕ → Nodes × Bool
  elements_meaning (stop failed) depth = (no_node, failed)
  elements_meaning (append v next) depth =
      let r = elements_meaning next depth in (node (leaf (any_value v)) r.0, r.1)
  elements_meaning (append_any none next) depth = elements_meaning (next true) depth
  elements_meaning (append_any (some js) next) depth =
      let r = elements_meaning (next false) depth in (node (leaf (any_value (text js))) r.0, r.1)
  elements_meaning (append_object child next) depth =
      let c = meaning child (suc depth) in
      elim (leb max_encode_depth depth || c.1) as (λ _. Nodes × Bool) [
        | true ↦ elements_meaning (next true) depth
        | false ↦ let r = elements_meaning (next false) depth in (node (tree c.0) r.0, r.1)
      ]
  elements_meaning (append_array child next) depth =
      let c = elements_meaning child (suc depth) in
      elim (leb max_encode_depth depth || c.1) as (λ _. Nodes × Bool) [
        | true ↦ elements_meaning (next true) depth
        | false ↦ let r = elements_meaning (next false) depth in (node (row c.0) r.0, r.1)
      ]
