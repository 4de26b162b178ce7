-- ===== src/Examples/Msgpacks.antt =====
-- A concrete msgpack writer, entry and marshalers for the encoder of fluent/.
use zapwire.Common.{ℕ, ◌+◌, ◌<◌, ◌≡◌, refl, true, false, none, some, [], ◌∷◌, ◌++◌, Bytes, length}
use zapwire.Common.Int.{pos, negsuc}
use zapwire.Fluent.EventTime.{marshal_binary_to}
use zapwire.Fluent.Msgpack.{
  Writers, add_container, open_namespace, prim_bytes, string, int64, seal_down_to,
}
use zapwire.Fluent.Msgpack.Marshaler.{
  Fields, end, add, add_any, namespace, array, stop, append, append_object, plain, hooked,
  add_reflected, append_call, run_fields,
}
use zapwire.Fluent.Msgpack.Tree.{meaning, count_pairs, encode_pairs}
use zapwire.Fluent.Msgpack.Refines.{map_frame}
use zapwire.Fluent.Msgpack.Entry.{
  Entry, EncoderConfig, new_msgpack_encoder, append_map_header_to, encode_entry,
}
use zapwire.Fluent.Msgpack.Message.{entry_pairs, encode_entry-encode_pairs}
use zapwire.Fluent.Msgpack.Depth.{without_namespace, nesting, run_fields-nesting}

abbrev text : Bytes → Bytes
text s = (0xa0 + length s) ∷ s

-- Short strings, small integers, and floats that are numbers.
abbrev short : Writers ℕ
short = record {
  string = text;
  string_from_bytes = text;
  boolean = λ b. elim b as (λ _. Bytes) [ true ↦ 0xc3 ∷ [] | false ↦ 0xc2 ∷ [] ];
  int64 = λ z. elim z as (λ _. Bytes) [ pos n ↦ n ∷ [] | negsuc n ↦ 0xff ∷ [] ];
  uint64 = λ n. n ∷ [];
  bytes = λ s. 0xc4 ∷ length s ∷ s;
  float32 = λ v. 0xca ∷ v ∷ [];
  float64 = λ v. 0xcb ∷ v ∷ [];
  map_header = λ n. (0x80 + n) ∷ [];
  array_header = λ n. (0x90 + n) ∷ [];
  is_nan = λ v. false;
  is_inf = λ v. false;
  not_negative = λ v. true;
  format_float = λ v bits. v ∷ [];
}

abbrev cfg : EncoderConfig ℕ
cfg = record {
  level_key = b'l' ∷ [];
  name_key = [];
  caller_key = [];
  function_key = [];
  message_key = b'm' ∷ [];
  stacktrace_key = [];
  encode_level = some (λ level. []);
  encode_name = none;
  encode_caller = none;
  level_string = λ level. b'i' ∷ [];
  caller_string = λ caller. [];
}

abbrev ent : Entry
ent = record {
  level = pos 0;
  time = record { seconds = pos 5; nanos = 7 };
  logger_name = [];
  message = b'h' ∷ [];
  caller = record { defined = false; function = []; file = []; line = 0 };
  stack = [];
}

-- A logger's open namespace, and an array of objects in it whose last value cannot be serialized.
abbrev withs : Fields ℕ
withs = add (b'a' ∷ []) (plain (int64 (pos 1))) (namespace (b'n' ∷ []) (end false))

abbrev row : Fields ℕ
row =
    array (b'r' ∷ [])
      (append (hooked [] (int64 (pos 2)))
        (append_object (add (b'x' ∷ []) (plain (string [])) (end true)) (λ e. stop e)))
      (λ e. add_any (b'j' ∷ []) none (λ e. end e))

written :
    encode_entry short cfg ent row (run_fields short withs new_msgpack_encoder).0
    ≡ 0x92 ∷ 0xd7 ∷ 0x00 ∷ marshal_binary_to ent.time
      ++ (0x84 ∷ 0xa1 ∷ b'l' ∷ 0xa1 ∷ b'i' ∷ 0xa1 ∷ b'm' ∷ 0xa1 ∷ b'h' ∷ 0xa1 ∷ b'a' ∷ 1 ∷ 0xa1
          ∷ b'n' ∷ 0x81 ∷ 0xa1 ∷ b'r' ∷ 0x92 ∷ 2 ∷ 0x81 ∷ 0xa1 ∷ b'x' ∷ 0xa0 ∷ [])
unfolding encode_entry marshal_binary_to run_fields append_map_header_to add_reflected add_container
    open_namespace append_call prim_bytes
written = refl

encode_entry-encode_pairs_example :
    let ps = entry_pairs short cfg ent withs row in
    encode_entry short cfg ent row (run_fields short withs new_msgpack_encoder).0
    ≡ 0x92 ∷ 0xd7 ∷ 0x00 ∷ marshal_binary_to ent.time
      ++ (append_map_header_to (count_pairs ps) ++ encode_pairs short ps)
encode_entry-encode_pairs_example = encode_entry-encode_pairs short cfg ent withs row

row_flat : without_namespace row ≡ true
unfolding without_namespace
row_flat = refl

run_fields-nesting_example :
    (seal_down_to short 1 (run_fields short row (map_frame [] 0 ∷ [])).0
      ≡ map_frame
          ([] ++ encode_pairs short (meaning short row 1).0)
          (0 + count_pairs (meaning short row 1).0)
        ∷ [])
    × (nesting (meaning short row 1).0 < 1000)
run_fields-nesting_example = run_fields-nesting short row [] 0 row_flat
