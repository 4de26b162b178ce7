-- ===== src/Fluent/Msgpack/Envelope.antt =====
-- The envelope that `writeEnvelope` of fluent/msgpack_encoder.go writes, as a list of fields.
use zapwire.Common.{
  ℕ, ◌+◌, ◌≡◌, refl, ◌∙◌, ap, inl, inr, Bool-cases, Bool, true, false, none, some, List, [], ◌∷◌,
  ◌++◌, append_assoc, append-nil, Bytes, length, concat, arith, ◌==◌, if◌then◌else◌,
}
use zapwire.Fluent.Msgpack.{Writers, string, map_kind, Stack, add_key, append_hooked, append_prim}
use zapwire.Fluent.Msgpack.Marshaler.{Value, plain, hooked, append_call}
use zapwire.Fluent.Msgpack.Tree.{
  Pairs, no_pair, pair, leaf, count_pairs, encode_node, encode_pairs, value_leaves,
}
use zapwire.Fluent.Msgpack.Refines.{map_frame, append_call_lem, after_pair}
use zapwire.Fluent.Msgpack.Entry.{
  Entry, EncoderConfig, name_enc, write_level, write_name, write_caller, write_function,
  write_message, write_stacktrace, write_envelope,
}

module _ {F : Type 0} (m : Writers F) where
  -- Pairs of single values.
  unfoldable pub pairs_of : List (Bytes × Value F) → Pairs
  pairs_of [] = no_pair
  pairs_of ((k, v) ∷ kvs) = pair k (leaf (concat (value_leaves m v))) (pairs_of kvs)

  unfoldable pub write_all : List (Bytes × Value F) → Stack → Stack
  write_all [] st = st
  write_all ((k, v) ∷ kvs) st = write_all kvs (append_call m v (add_key m k st))

  write_all-append :
      (xs ys : List (Bytes × Value F)) (st : Stack)
      → write_all (xs ++ ys) st ≡ write_all ys (write_all xs st)
  unfolding write_all
  write_all-append [] ys st = refl
  write_all-append ((k, v) ∷ xs) ys st = write_all-append xs ys (append_call m v (add_key m k st))

  pub write_all_lem :
      (kvs : List (Bytes × Value F)) (b : Bytes) (n : ℕ) (st : Stack)
      → write_all kvs (map_frame b n ∷ st)
        ≡ map_frame (b ++ encode_pairs m (pairs_of kvs)) (n + count_pairs (pairs_of kvs)) ∷ st
  unfolding write_all pairs_of encode_node add_key
  write_all_lem [] b n st = let z : n + 0 ≡ n = omega arith in rw (append-nil b, z) refl
  write_all_lem ((k, v) ∷ kvs) b n st =
      let val = concat (value_leaves m v) in
      ap (λ s. write_all kvs s) (append_call_lem m v map_kind (b ++ m.string k) (n + 1) st)
      ∙ write_all_lem kvs ((b ++ m.string k) ++ val) (n + 1) st
      ∙ rw (append_assoc b (m.string k) val)
          (after_pair m b (m.string k ++ val) n k (leaf val) (pairs_of kvs) st refl)

  -- A field that is left out on a test.
  abbrev pub unless : Bool → Bytes → Value F → List (Bytes × Value F)
  unless t k v = if t then [] else (k, v) ∷ []

  write_all-unless :
      (t : Bool) (k : Bytes) (v : Value F) (st : Stack)
      → write_all (unless t k v) st ≡ (if t then st else append_call m v (add_key m k st))
  unfolding write_all
  write_all-unless true k v st = refl
  write_all-unless false k v st = refl

  -- The fields of the entry itself, in the order of the message.
  abbrev pub level_fields : EncoderConfig F → Entry → List (Bytes × Value F)
  level_fields cfg ent = elim cfg.encode_level [
    | none ↦ []
    | some encode ↦
        unless (length cfg.level_key == 0) cfg.level_key
          (hooked (encode ent.level) (string (cfg.level_string ent.level)))
  ]

  abbrev pub name_fields : EncoderConfig F → Entry → List (Bytes × Value F)
  name_fields cfg ent =
      if length cfg.name_key == 0
      then []
      else unless (length ent.logger_name == 0) cfg.name_key
          (hooked (name_enc m cfg ent cfg.encode_name ent.logger_name) (string ent.logger_name))

  abbrev pub caller_fields : EncoderConfig F → Entry → List (Bytes × Value F)
  caller_fields cfg ent =
      let printed = string (cfg.caller_string ent.caller) in
      unless (length cfg.caller_key == 0) cfg.caller_key (elim cfg.encode_caller [
        | none ↦ plain printed
        | some encode ↦ hooked (encode ent.caller) printed
      ])

  abbrev pub function_fields : EncoderConfig F → Entry → List (Bytes × Value F)
  function_fields cfg ent =
      unless (length cfg.function_key == 0) cfg.function_key (plain (string ent.caller.function))

  abbrev pub message_fields : EncoderConfig F → Entry → List (Bytes × Value F)
  message_fields cfg ent =
      unless (length cfg.message_key == 0) cfg.message_key (plain (string ent.message))

  abbrev pub stacktrace_fields : EncoderConfig F → Entry → List (Bytes × Value F)
  stacktrace_fields cfg ent =
      if length cfg.stacktrace_key == 0
      then []
      else unless (length ent.stack == 0) cfg.stacktrace_key (plain (string ent.stack))

  abbrev pub envelope : EncoderConfig F → Entry → List (Bytes × Value F)
  envelope cfg ent =
      level_fields cfg ent
      ++ (name_fields cfg ent
          ++ ((if ent.caller.defined then caller_fields cfg ent ++ function_fields cfg ent else [])
              ++ (message_fields cfg ent ++ stacktrace_fields cfg ent)))

  module _ (cfg : EncoderConfig F) (ent : Entry) where
    level_lem : (st : Stack) → write_all (level_fields cfg ent) st ≡ write_level m cfg ent st
    unfolding write_level append_call write_all
    level_lem st =
        elim cfg.encode_level
          as (λ o.
            write_all
              (elim o [
                | none ↦ []
                | some encode ↦
                    unless (length cfg.level_key == 0) cfg.level_key
                      (hooked (encode ent.level) (string (cfg.level_string ent.level)))
              ])
              st
            ≡ elim o [
              | none ↦ st
              | some encode ↦
                  if length cfg.level_key == 0
                  then st
                  else append_hooked m (encode ent.level) (string (cfg.level_string ent.level))
                      (add_key m cfg.level_key st)
            ]) [ none ↦ refl | some encode ↦ write_all-unless _ _ _ st ]

    name_lem : (st : Stack) → write_all (name_fields cfg ent) st ≡ write_name m cfg ent st
    unfolding write_name append_call write_all
    name_lem st = elim (Bool-cases (length cfg.name_key == 0)) [
      | inl none_set ↦ rw none_set refl
      | inr set ↦ rw set (write_all-unless _ _ _ st)
    ]

    caller_lem : (st : Stack) → write_all (caller_fields cfg ent) st ≡ write_caller m cfg ent st
    unfolding write_caller append_call
    caller_lem st =
        write_all-unless (length cfg.caller_key == 0) cfg.caller_key _ st
        ∙ elim cfg.encode_caller
            as (λ o.
              (if length cfg.caller_key == 0
                then st
                else append_call m
                    (elim o [
                      | none ↦ plain (string (cfg.caller_string ent.caller))
                      | some encode ↦
                          hooked (encode ent.caller) (string (cfg.caller_string ent.caller))
                    ])
                    (add_key m cfg.caller_key st))
              ≡ (if length cfg.caller_key == 0 then st else elim o [
                | none ↦
                    append_prim m (string (cfg.caller_string ent.caller))
                      (add_key m cfg.caller_key st)
                | some encode ↦
                    append_hooked m (encode ent.caller) (string (cfg.caller_string ent.caller))
                      (add_key m cfg.caller_key st)
              ])) [ none ↦ refl | some encode ↦ refl ]

    function_lem :
        (st : Stack) → write_all (function_fields cfg ent) st ≡ write_function m cfg ent st
    unfolding write_function append_call
    function_lem st = write_all-unless _ _ _ st

    message_lem : (st : Stack) → write_all (message_fields cfg ent) st ≡ write_message m cfg ent st
    unfolding write_message append_call
    message_lem st = write_all-unless _ _ _ st

    stacktrace_lem :
        (st : Stack) → write_all (stacktrace_fields cfg ent) st ≡ write_stacktrace m cfg ent st
    unfolding write_stacktrace append_call write_all
    stacktrace_lem st = elim (Bool-cases (length cfg.stacktrace_key == 0)) [
      | inl none_set ↦ rw none_set refl
      | inr set ↦ rw set (write_all-unless _ _ _ st)
    ]

    rest_lem :
        (st : Stack)
        → write_all (message_fields cfg ent ++ stacktrace_fields cfg ent) st
          ≡ write_stacktrace m cfg ent (write_message m cfg ent st)
    rest_lem st =
        write_all-append (message_fields cfg ent) (stacktrace_fields cfg ent) st
        ∙ stacktrace_lem (write_all (message_fields cfg ent) st)
        ∙ ap (λ s. write_stacktrace m cfg ent s) (message_lem st)

    pub envelope_lem : (st : Stack) → write_all (envelope cfg ent) st ≡ write_envelope m cfg ent st
    unfolding write_envelope write_all
    envelope_lem st = elim (Bool-cases ent.caller.defined) [
      | inl defined ↦ rw defined (
          rw
            (
              write_all-append (level_fields cfg ent) _ st,
              level_lem st,
              write_all-append (name_fields cfg ent) _ (write_level m cfg ent st),
              name_lem (write_level m cfg ent st),
              write_all-append (caller_fields cfg ent ++ function_fields cfg ent) _
                  (write_name m cfg ent (write_level m cfg ent st)),
              write_all-append (caller_fields cfg ent) _
                  (write_name m cfg ent (write_level m cfg ent st)),
              caller_lem (write_name m cfg ent (write_level m cfg ent st)),
              function_lem
                  (write_caller m cfg ent (write_name m cfg ent (write_level m cfg ent st))),
            )
            (rest_lem _))
      | inr undefined ↦ rw undefined (
          rw
            (
              write_all-append (level_fields cfg ent) _ st,
              level_lem st,
              write_all-append (name_fields cfg ent) _ (write_level m cfg ent st),
              name_lem (write_level m cfg ent st),
            )
            (rest_lem _))
    ]
