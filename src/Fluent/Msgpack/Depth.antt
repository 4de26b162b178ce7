-- ===== src/Fluent/Msgpack/Depth.antt =====
-- The depth cap of fluent/msgpack_encoder.go.
use zapwire.Common.{
  ℕ, suc, ◌+◌, ◌-◌, ◌≤◌, ◌<◌, ◌≡◌, refl, inl, inr, Bool, true, false, ◌&&◌, none, some, [], ◌∷◌,
  ◌++◌, List, Bytes, leb, Bool-cases, arith,
}
use Prim.Native.Nat.{max}
use zapwire.Fluent.Msgpack.{Writers, max_encode_depth, seal_down_to}
use zapwire.Fluent.Msgpack.Marshaler.{
  Fields, end, add, add_bin, add_any, namespace, object, array, Elements, stop, append, append_any,
  append_object, append_array, run_fields,
}
use zapwire.Fluent.Msgpack.Tree.{
  Node, leaf, tree, row, Pairs, no_pair, pair, Nodes, no_node, node, leaves, count_pairs,
  encode_pairs, value_leaves, meaning, elements_meaning,
}
use zapwire.Fluent.Msgpack.Refines.{map_frame}
use zapwire.Fluent.Msgpack.Writes.{FieldsWrite}
use zapwire.Fluent.Msgpack.Runs.{fields_lem}

-- How many containers are open at once, at most.
unfoldable mutual
  pub node_nesting : Node → ℕ
  node_nesting (leaf b) = 0
  node_nesting (tree ps) = suc (nesting ps)
  node_nesting (row vs) = suc (nodes_nesting vs)

  pub nesting : Pairs → ℕ
  nesting no_pair = 0
  nesting (pair k v ps) = max (node_nesting v) (nesting ps)

  pub nodes_nesting : Nodes → ℕ
  nodes_nesting no_node = 0
  nodes_nesting (node v vs) = max (node_nesting v) (nodes_nesting vs)

module _ {F : Type 0} where
  -- No call of the marshaler opens a namespace.
  unfoldable mutual
    pub without_namespace : Fields F → Bool
    without_namespace (end failed) = true
    without_namespace (add key v next) = without_namespace next
    without_namespace (add_bin key v next) = without_namespace next
    without_namespace (add_any key v next) =
        without_namespace (next true) && without_namespace (next false)
    without_namespace (namespace key next) = false
    without_namespace (object key child next) =
        without_namespace child && (without_namespace (next true) && without_namespace (next false))
    without_namespace (array key child next) =
        elements_without child && (without_namespace (next true) && without_namespace (next false))

    pub elements_without : Elements F → Bool
    elements_without (stop failed) = true
    elements_without (append v next) = elements_without next
    elements_without (append_any v next) =
        elements_without (next true) && elements_without (next false)
    elements_without (append_object child next) =
        without_namespace child && (elements_without (next true) && elements_without (next false))
    elements_without (append_array child next) =
        elements_without child && (elements_without (next true) && elements_without (next false))

both : {a b : Bool} → (a && b) ≡ true → (a ≡ true) × (b ≡ true)
both {a} {b} e = elim (Bool-cases a) [
  | inl t ↦ (t, ground arith)
  | inr f ↦ (ground arith, ground arith)
]

nodes_nesting-leaves :
    (bs : List Bytes) (vs : Nodes) → nodes_nesting (leaves bs vs) ≡ nodes_nesting vs
unfolding nodes_nesting
nodes_nesting-leaves [] vs = refl
nodes_nesting-leaves (b ∷ bs) vs = omega (arith, nodes_nesting-leaves bs vs)

-- A test that holds of what follows, whether the call failed or not.
of_each :
    {S : Type 0} (test : S → Bool) (next : Bool → S)
    → (test (next true) && test (next false)) ≡ true
    → (e : Bool) → test (next e) ≡ true
of_each test next h true = (both h).0
of_each test next h false = (both h).1

-- Below the cap a bound is only needed of the container, at it only of what follows.
capped :
    {S : Type 0} (size : S → ℕ) (x y : S × Bool) (d : ℕ)
    → size x.0 ≤ max_encode_depth - d
    → (leb max_encode_depth d ≡ false → size y.0 ≤ max_encode_depth - d)
    → size (elim (leb max_encode_depth d) as (λ _. S × Bool) [ true ↦ x | false ↦ y ]).0
      ≤ max_encode_depth - d
capped {S} size x y d full below = go (leb max_encode_depth d) below
  where
    go :
        (t : Bool)
        → (t ≡ false → size y.0 ≤ max_encode_depth - d)
        → size (elim t as (λ _. S × Bool) [ true ↦ x | false ↦ y ]).0 ≤ max_encode_depth - d
    go true below = full
    go false below = below refl

under_cap :
    (inner rest d : ℕ)
    → leb max_encode_depth d ≡ false
    → inner ≤ max_encode_depth - suc d
    → rest ≤ max_encode_depth - d
    → max (suc inner) rest ≤ max_encode_depth - d
under_cap inner rest d below hi hr = ground arith

module _ {F : Type 0} (m : Writers F) where
  mutual
    unfolding meaning nesting without_namespace

    nesting_lem :
        (s : Fields F) (d : ℕ)
        → without_namespace s ≡ true
        → nesting (meaning m s d).0 ≤ max_encode_depth - d
    nesting_lem (end failed) d h = omega arith
    nesting_lem (add key v next) d h = omega (arith, nesting_lem next d h)
    nesting_lem (add_bin key v next) d h = omega (arith, nesting_lem next d h)
    nesting_lem (add_any key none next) d h = nesting_lem (next true) d (both h).0
    nesting_lem (add_any key (some b) next) d h =
        omega (arith, nesting_lem (next false) d (both h).1)
    nesting_lem (namespace key next) d h = absurd (ground arith)
    nesting_lem (object key child next) d h =
        let inner = nesting_lem child (suc d) (both h).0 in
        let rest : (e : Bool) → nesting (meaning m (next e) d).0 ≤ max_encode_depth - d =
          λ e. nesting_lem (next e) d (of_each (λ s. without_namespace s) next (both h).1 e) in
        capped (λ s. nesting s) (meaning m (next true) d) _ d (rest true)
          (λ below.
            under_cap (nesting (meaning m child (suc d)).0) _ d below inner
              (rest (meaning m child (suc d)).1))
    nesting_lem (array key child next) d h =
        let inner = elements_nesting child (suc d) (both h).0 in
        let rest : (e : Bool) → nesting (meaning m (next e) d).0 ≤ max_encode_depth - d =
          λ e. nesting_lem (next e) d (of_each (λ s. without_namespace s) next (both h).1 e) in
        capped (λ s. nesting s) (meaning m (next true) d) _ d (rest true)
          (λ below.
            under_cap (nodes_nesting (elements_meaning m child (suc d)).0) _ d below inner
              (rest (elements_meaning m child (suc d)).1))

    elements_nesting :
        (s : Elements F) (d : ℕ)
        → elements_without s ≡ true
        → nodes_nesting (elements_meaning m s d).0 ≤ max_encode_depth - d
    elements_nesting (stop failed) d h = omega arith
    elements_nesting (append v next) d h = omega (
      arith,
      nodes_nesting-leaves (value_leaves m v) (elements_meaning m next d).0,
      elements_nesting next d h,
    )
    elements_nesting (append_any none next) d h = elements_nesting (next true) d (both h).0
    elements_nesting (append_any (some b) next) d h =
        omega (arith, elements_nesting (next false) d (both h).1)
    elements_nesting (append_object child next) d h =
        let inner = nesting_lem child (suc d) (both h).0 in
        let rest : (e : Bool)
            → nodes_nesting (elements_meaning m (next e) d).0 ≤ max_encode_depth - d =
          λ e. elements_nesting (next e) d (of_each (λ s. elements_without s) next (both h).1 e) in
        capped (λ s. nodes_nesting s) (elements_meaning m (next true) d) _ d (rest true)
          (λ below.
            under_cap (nesting (meaning m child (suc d)).0) _ d below inner
              (rest (meaning m child (suc d)).1))
    elements_nesting (append_array child next) d h =
        let inner = elements_nesting child (suc d) (both h).0 in
        let rest : (e : Bool)
            → nodes_nesting (elements_meaning m (next e) d).0 ≤ max_encode_depth - d =
          λ e. elements_nesting (next e) d (of_each (λ s. elements_without s) next (both h).1 e) in
        capped (λ s. nodes_nesting s) (elements_meaning m (next true) d) _ d (rest true)
          (λ below.
            under_cap (nodes_nesting (elements_meaning m child (suc d)).0) _ d below inner
              (rest (elements_meaning m child (suc d)).1))

  -- Whatever a marshaler that opens no namespace does to an encoder of one frame, and however deep it
  -- recurses, the bytes are those of the pairs of its `meaning`, and these nest fewer than 1000
  -- containers deep.
  pub run_fields-nesting :
      (s : Fields F) (b : Bytes) (n : ℕ)
      → without_namespace s ≡ true
      → (seal_down_to m 1 (run_fields m s (map_frame b n ∷ [])).0
          ≡ map_frame (b ++ encode_pairs m (meaning m s 1).0) (n + count_pairs (meaning m s 1).0)
            ∷ [])
        × (nesting (meaning m s 1).0 < 1000)
  unfolding FieldsWrite
  run_fields-nesting s b n h =
      let bound = nesting_lem s 1 h in ((fields_lem m s b n []).0, omega (arith, bound))
