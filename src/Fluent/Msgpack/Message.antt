-- ===== src/Fluent/Msgpack/Message.antt =====
-- What `EncodeEntry` of fluent/msgpack_encoder.go writes: the message of the entry's tree.
use zapwire.Common.{◌+◌, ◌≡◌, refl, sym, ap, [], ◌∷◌, ◌++◌, append_assoc, arith}
use zapwire.Fluent.EventTime.{marshal_binary_to}
use zapwire.Fluent.Msgpack.{Writers, map_kind, Stack, fresh}
use zapwire.Fluent.Msgpack.Marshaler.{
  Fields, end, add, add_bin, add_any, namespace, object, array, run_fields,
}
use zapwire.Fluent.Msgpack.Tree.{
  Pairs, no_pair, pair, count_pairs, append_pairs, encode_node, encode_pairs, meaning,
}
use zapwire.Fluent.Msgpack.Refines.{map_frame}
use zapwire.Fluent.Msgpack.Writes.{FieldsWrite}
use zapwire.Fluent.Msgpack.Runs.{fields_lem}
use zapwire.Fluent.Msgpack.Entry.{
  Entry, EncoderConfig, new_msgpack_encoder, clone_stack, append_map_header_to, assemble,
  encode_entry,
}
use zapwire.Fluent.Msgpack.Envelope.{pairs_of, envelope, write_all_lem, envelope_lem}

-- A logger's fields and then the call's: they run on one stack.
unfoldable pub followed_by : {F : Type 0} → Fields F → Fields F → Fields F
followed_by (end failed) t = t
followed_by (add key v next) t = add key v (followed_by next t)
followed_by (add_bin key v next) t = add_bin key v (followed_by next t)
followed_by (add_any key v next) t = add_any key v (λ e. followed_by (next e) t)
followed_by (namespace key next) t = namespace key (followed_by next t)
followed_by (object key child next) t = object key child (λ e. followed_by (next e) t)
followed_by (array key child next) t = array key child (λ e. followed_by (next e) t)

module _ {F : Type 0} (m : Writers F) where
  run_fields-followed_by :
      (s t : Fields F) (st : Stack)
      → run_fields m (followed_by s t) st ≡ run_fields m t (run_fields m s st).0
  unfolding run_fields followed_by
  run_fields-followed_by (end failed) t st = refl
  run_fields-followed_by (add key v next) t st = run_fields-followed_by next t _
  run_fields-followed_by (add_bin key v next) t st = run_fields-followed_by next t _
  run_fields-followed_by (add_any key v next) t st = run_fields-followed_by (next _) t _
  run_fields-followed_by (namespace key next) t st = run_fields-followed_by next t _
  run_fields-followed_by (object key child next) t st = run_fields-followed_by (next _) t _
  run_fields-followed_by (array key child next) t st = run_fields-followed_by (next _) t _

  clone_stack_lem : (st : Stack) → clone_stack [] st ≡ st
  unfolding clone_stack
  clone_stack_lem [] = refl
  clone_stack_lem (f ∷ st) = ap (λ s. f ∷ s) (clone_stack_lem st)

  encode_pairs-append_pairs :
      (ps qs : Pairs) → encode_pairs m (append_pairs ps qs) ≡ encode_pairs m ps ++ encode_pairs m qs
  unfolding encode_node
  encode_pairs-append_pairs no_pair qs = refl
  encode_pairs-append_pairs (pair k v ps) qs =
      rw
        (
          encode_pairs-append_pairs ps qs,
          append_assoc (m.string k) (encode_node m v ++ encode_pairs m ps) (encode_pairs m qs),
          append_assoc (encode_node m v) (encode_pairs m ps) (encode_pairs m qs),
        )
        refl

  count_pairs-append_pairs :
      (ps qs : Pairs) → count_pairs (append_pairs ps qs) ≡ count_pairs ps + count_pairs qs
  count_pairs-append_pairs no_pair qs = omega arith
  count_pairs-append_pairs (pair k v ps) qs = omega (arith, count_pairs-append_pairs ps qs)

  -- The entry's tree: its own fields, then the logger's and the call's.
  abbrev pub entry_pairs : EncoderConfig F → Entry → Fields F → Fields F → Pairs
  entry_pairs cfg ent withs fields =
      append_pairs (pairs_of m (envelope m cfg ent)) (meaning m (followed_by withs fields) 1).0

  assemble_lem :
      (cfg : EncoderConfig F) (ent : Entry) (ps qs : Pairs)
      → assemble m cfg ent
          (map_frame ([] ++ encode_pairs m ps) (0 + count_pairs ps))
          (map_frame ([] ++ encode_pairs m qs) (0 + count_pairs qs))
        ≡ 0x92 ∷ 0xd7 ∷ 0x00 ∷ marshal_binary_to ent.time
          ++ (append_map_header_to (count_pairs (append_pairs ps qs))
              ++ encode_pairs m (append_pairs ps qs))
  unfolding assemble
  assemble_lem cfg ent ps qs =
      let z : 0 + count_pairs ps + (0 + count_pairs qs) ≡ count_pairs (append_pairs ps qs) =
        omega (arith, count_pairs-append_pairs ps qs) in
      rw (z, encode_pairs-append_pairs ps qs) refl

  -- The message is a fixarray of two: the EventTime, and a map with the tree's pairs behind their number.
  pub encode_entry-encode_pairs :
      (cfg : EncoderConfig F) (ent : Entry) (withs fields : Fields F)
      → (let ps = entry_pairs cfg ent withs fields in
          encode_entry m cfg ent fields (run_fields m withs new_msgpack_encoder).0
          ≡ 0x92 ∷ 0xd7 ∷ 0x00 ∷ marshal_binary_to ent.time
            ++ (append_map_header_to (count_pairs ps) ++ encode_pairs m ps))
  unfolding encode_entry FieldsWrite
  encode_entry-encode_pairs cfg ent withs fields =
      rw
        (
          sym (envelope_lem m cfg ent (fresh map_kind ∷ [])),
          write_all_lem m (envelope m cfg ent) [] 0 [],
          clone_stack_lem (run_fields m withs new_msgpack_encoder).0,
          sym (run_fields-followed_by withs fields new_msgpack_encoder),
          (fields_lem m (followed_by withs fields) [] 0 []).0,
        )
        (assemble_lem cfg ent (pairs_of m (envelope m cfg ent))
          (meaning m (followed_by withs fields) 1).0)
