-- ===== src/Fluent/Msgpack/Refines.antt =====
-- The frame stack of fluent/msgpack_encoder.go writes what the tree of its calls encodes to.
use zapwire.Common.{
  ℕ, suc, ◌+◌, ◌≡◌, refl, ◌∙◌, ap, inl, inr, Bool, true, false, List, [], ◌∷◌, ◌++◌, append_assoc,
  append-nil, Bytes, length, length-append, leb, ltb, concat, concat-append, map, Bool-cases, arith,
  ◌==◌,
}
use zapwire.Fluent.Msgpack.{
  Writers, Prim, Kind, map_kind, array_kind, Frame, Stack, fresh, max_encode_depth, count_element,
  count_top, prim_bytes, append_prim, append_all, append_hooked, add_key, header, seal, seal_onto,
  seal_down_to, append_container, add_container,
}
use zapwire.Fluent.Msgpack.Marshaler.{Value, plain, hooked, append_call}
use zapwire.Fluent.Msgpack.Tree.{
  Node, tree, row, Pairs, pair, Nodes, count_pairs, count_nodes, leaves, encode_node, encode_pairs,
  encode_nodes, value_leaves,
}

abbrev pub map_frame : Bytes → ℕ → Frame
map_frame b n = record { kind = map_kind; buf = b; count = n }

abbrev pub array_frame : Bytes → ℕ → Frame
array_frame b n = record { kind = array_kind; buf = b; count = n }

module _ {F : Type 0} (m : Writers F) where
  -- To seal down to one frame more first changes nothing.
  seal_onto_twice :
      (d : ℕ) (top : Frame) (st : Stack)
      → seal_down_to m d (seal_onto m (suc d) top st) ≡ seal_onto m d top st
  unfolding seal_down_to seal_onto
  seal_onto_twice d top [] = refl
  seal_onto_twice d top (p ∷ st) = elim (Bool-cases (ltb (suc d) (suc (suc (length st))))) [
    | inl more ↦
        let more' : ltb d (suc (suc (length st))) ≡ true = ground arith in
        rw (more, more') (seal_onto_twice d (seal m top p) st)
    | inr done ↦ rw done refl
  ]

  pub seal_twice :
      (d : ℕ) (st : Stack) → seal_down_to m d (seal_down_to m (suc d) st) ≡ seal_down_to m d st
  unfolding seal_down_to
  seal_twice d [] = refl
  seal_twice d (top ∷ st) = seal_onto_twice d top st

  pub seal_none :
      (top : Frame) (st : Stack) → seal_down_to m (suc (length st)) (top ∷ st) ≡ top ∷ st
  unfolding seal_down_to seal_onto
  seal_none top [] = refl
  seal_none top (p ∷ st) =
      let e : ltb (suc (suc (length st))) (suc (suc (length st))) ≡ false = ground arith in
      rw e refl

  pub seal_one :
      (top p : Frame) (st : Stack)
      → seal_down_to m (suc (length st)) (top ∷ p ∷ st) ≡ seal m top p ∷ st
  unfolding seal_down_to seal_onto
  seal_one top p st =
      let e : ltb (suc (length st)) (suc (suc (length st))) ≡ true = ground arith in
      rw e (seal_none (seal m top p) st)

  -- A container below the cap, by what its marshaler leaves above the parent.
  pub append_container_lem :
      (kind : Kind) (marshal : Stack → Stack × Bool) (t child : Frame) (st : Stack) (failed : Bool)
      → leb max_encode_depth (suc (length st)) ≡ false
      → seal_down_to m (suc (suc (length st))) (marshal (fresh kind ∷ count_top (t ∷ st))).0
        ≡ child ∷ count_top (t ∷ st)
      → (marshal (fresh kind ∷ count_top (t ∷ st))).1 ≡ failed
      → append_container m kind marshal (t ∷ st)
        ≡ (seal m child (record t { count = count_element t.kind t.count }) ∷ st, failed)
  unfolding append_container
  append_container_lem kind marshal t child st failed below sealed returns =
      rw (below, sealed, returns)
        (ap (λ (s : Stack). (s, failed))
          (seal_one child (record t { count = count_element t.kind t.count }) st))

  pub append_container_full :
      (kind : Kind) (marshal : Stack → Stack × Bool) (st : Stack)
      → leb max_encode_depth (length st) ≡ true
      → append_container m kind marshal st ≡ (st, true)
  unfolding append_container
  append_container_full kind marshal st full = rw full refl

  pub add_container_full :
      (kind : Kind) (key : Bytes) (marshal : Stack → Stack × Bool) (st : Stack)
      → leb max_encode_depth (length st) ≡ true
      → add_container m kind key marshal st ≡ (st, true)
  unfolding add_container
  add_container_full kind key marshal st full = rw full refl

  pub add_container_below :
      (kind : Kind) (key : Bytes) (marshal : Stack → Stack × Bool) (st : Stack)
      → leb max_encode_depth (length st) ≡ false
      → add_container m kind key marshal st ≡ append_container m kind marshal (add_key m key st)
  unfolding add_container
  add_container_below kind key marshal st below = rw below refl

  -- The count behind `j` more values.
  abbrev pub counted : Kind → ℕ → ℕ → ℕ
  counted map_kind n j = n
  counted array_kind n j = n + j

  counted_zero : (k : Kind) (n : ℕ) → counted k n 0 ≡ n
  counted_zero map_kind n = refl
  counted_zero array_kind n = omega arith

  counted_again : (k : Kind) (n j : ℕ) → counted k (count_element k n) j ≡ counted k n (suc j)
  counted_again map_kind n j = refl
  counted_again array_kind n j = omega arith

  abbrev pub frame_of : Kind → Bytes → ℕ → Frame
  frame_of k b n = record { kind = k; buf = b; count = n }

  append_all_lem :
      (vs : List (Prim F)) (k : Kind) (b : Bytes) (n : ℕ) (st : Stack)
      → append_all m vs (frame_of k b n ∷ st)
        ≡ frame_of k
            (b ++ concat (map (λ v. prim_bytes m v) vs))
            (counted k n (length (map (λ v. prim_bytes m v) vs)))
          ∷ st
  unfolding append_all append_prim
  append_all_lem [] k b n st = rw (append-nil b, counted_zero k n) refl
  append_all_lem (v ∷ vs) k b n st =
      append_all_lem vs k (b ++ prim_bytes m v) (count_element k n) st
      ∙ rw
          (
            append_assoc b (prim_bytes m v) (concat (map (λ v. prim_bytes m v) vs)),
            counted_again k n (length (map (λ v. prim_bytes m v) vs)),
          )
          refl

  same_length : (b c : Bytes) → (length (b ++ c) == length b) ≡ (length c == 0)
  same_length b c = ground (arith, length-append b c)

  concat_snoc : (bs : List Bytes) (c : Bytes) → concat (bs ++ (c ∷ [])) ≡ concat bs ++ c
  concat_snoc bs c = rw (concat-append bs (c ∷ []), append-nil c) refl

  counted_snoc :
      (k : Kind) (n : ℕ) (bs : List Bytes) (c : Bytes)
      → count_element k (counted k n (length bs)) ≡ counted k n (length (bs ++ (c ∷ [])))
  counted_snoc map_kind n bs c = refl
  counted_snoc array_kind n bs c = omega (arith, length-append bs (c ∷ []))

  pub append_call_lem :
      (v : Value F) (k : Kind) (b : Bytes) (n : ℕ) (st : Stack)
      → append_call m v (frame_of k b n ∷ st)
        ≡ frame_of k (b ++ concat (value_leaves m v)) (counted k n (length (value_leaves m v))) ∷ st
  unfolding append_call append_prim append_hooked value_leaves
  append_call_lem (plain v) map_kind b n st = rw (append-nil (prim_bytes m v)) refl
  append_call_lem (plain v) array_kind b n st = rw (append-nil (prim_bytes m v)) refl
  append_call_lem (hooked hook fallback) k b n st =
      let bs = map (λ v. prim_bytes m v) hook in
      elim (Bool-cases (length (concat bs) == 0)) [
        | inl silent ↦
            rw (append_all_lem hook k b n st, same_length b (concat bs), silent)
              (rw
                (
                  concat_snoc bs (prim_bytes m fallback),
                  append_assoc b (concat bs) (prim_bytes m fallback),
                  counted_snoc k n bs (prim_bytes m fallback),
                )
                refl)
        | inr wrote ↦ rw (append_all_lem hook k b n st, same_length b (concat bs), wrote) refl
      ]

  -- Sealing a frame writes its tree's encoding.
  pub sealed_tree :
      (ps : Pairs) (k : Kind) (b : Bytes) (n : ℕ)
      → seal m (map_frame ([] ++ encode_pairs m ps) (0 + count_pairs ps)) (frame_of k b n)
        ≡ frame_of k (b ++ encode_node m (tree ps)) n
  unfolding seal encode_node
  sealed_tree ps k b n =
      let z : 0 + count_pairs ps ≡ count_pairs ps = omega arith in
      rw (z, append_assoc b (header m map_kind (count_pairs ps)) (encode_pairs m ps)) refl

  pub sealed_row :
      (vs : Nodes) (k : Kind) (b : Bytes) (n : ℕ)
      → seal m (array_frame ([] ++ encode_nodes m vs) (0 + count_nodes vs)) (frame_of k b n)
        ≡ frame_of k (b ++ encode_node m (row vs)) n
  unfolding seal encode_node
  sealed_row vs k b n =
      let z : 0 + count_nodes vs ≡ count_nodes vs = omega arith in
      rw (z, append_assoc b (header m array_kind (count_nodes vs)) (encode_nodes m vs)) refl

  -- What follows a pair in a map's frame.
  pub after_pair :
      (b kv : Bytes) (n : ℕ) (k : Bytes) (v : Node) (ps : Pairs) (st : Stack)
      → kv ≡ m.string k ++ encode_node m v
      → map_frame ((b ++ kv) ++ encode_pairs m ps) (n + 1 + count_pairs ps) ∷ st
        ≡ map_frame (b ++ encode_pairs m (pair k v ps)) (n + count_pairs (pair k v ps)) ∷ st
  unfolding encode_node
  after_pair b kv n k v ps st e =
      let c : n + 1 + count_pairs ps ≡ n + suc (count_pairs ps) = omega arith in
      rw
        (
          e,
          c,
          append_assoc b (m.string k ++ encode_node m v) (encode_pairs m ps),
          append_assoc (m.string k) (encode_node m v) (encode_pairs m ps),
        )
        refl

  pub encode_nodes-leaves :
      (bs : List Bytes) (vs : Nodes)
      → (encode_nodes m (leaves bs vs) ≡ concat bs ++ encode_nodes m vs)
        × (count_nodes (leaves bs vs) ≡ length bs + count_nodes vs)
  unfolding encode_node
  encode_nodes-leaves [] vs = (refl, omega arith)
  encode_nodes-leaves (b ∷ bs) vs =
      let ih = encode_nodes-leaves bs vs in
      (rw (ih.0, append_assoc b (concat bs) (encode_nodes m vs)) refl, omega (arith, ih.1))
