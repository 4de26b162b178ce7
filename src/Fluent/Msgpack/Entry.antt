-- ===== src/Fluent/Msgpack/Entry.antt =====
-- `EncodeEntry` of fluent/msgpack_encoder.go: the envelope, the copy of the logger's stack, and the
-- message that they make.
use zapwire.Common.{
  ◌<◌, ◌-◌, ◌≡◌, ap, ◌&&◌, Bool-cases, inl, inr, arith, ℕ, ◌+◌, ◌/◌, ◌%◌, ◌^◌, Bool, Option, none,
  some, List, [], ◌∷◌, ◌++◌, Bytes, leb, ltb, if◌then◌else◌, length, ◌==◌,
}
use zapwire.Common.Int.{ℤ}
use zapwire.Fluent.Framer.{Reader, read_big_endian}
use zapwire.Fluent.EventTime.{Time, marshal_binary_to, big_endian32}
use zapwire.Fluent.Msgpack.{
  Writers, Prim, string, map_kind, Frame, Stack, fresh, append_prim, append_hooked, add_key,
  seal_down_to,
}
use zapwire.Fluent.Msgpack.Marshaler.{Fields, run_fields}

-- `zapcore.EntryCaller`, as far as the encoder reads it itself.
pub record Caller : Type 0 where
  pub defined : Bool
  pub function : Bytes
  pub file : Bytes
  pub line : ℕ

-- `zapcore.Entry`
pub record Entry : Type 0 where
  pub level : ℤ
  pub time : Time
  pub logger_name : Bytes
  pub message : Bytes
  pub caller : Caller
  pub stack : Bytes

-- `zapcore.EncoderConfig`, each hook by the values that it appends, and what zap prints for a level
-- and a caller.
pub record EncoderConfig (F : Type 0) : Type 0 where
  pub level_key : Bytes
  pub name_key : Bytes
  pub caller_key : Bytes
  pub function_key : Bytes
  pub message_key : Bytes
  pub stacktrace_key : Bytes
  pub encode_level : Option (ℤ → List (Prim F))
  pub encode_name : Option (Bytes → List (Prim F))
  pub encode_caller : Option (Caller → List (Prim F))
  pub level_string : ℤ → Bytes
  pub caller_string : Caller → Bytes

-- `newMsgpackEncoder`: the stack of a logger without fields.
abbrev pub new_msgpack_encoder : Stack
new_msgpack_encoder = fresh map_kind ∷ []

-- `cloneStack`, onto `dst`
unfoldable pub clone_stack : Stack → Stack → Stack
clone_stack dst [] = dst
clone_stack dst (f ∷ src) =
    record { kind = f.kind; buf = [] ++ f.buf; count = f.count } ∷ clone_stack dst src

-- `appendMapHeaderTo`
unfoldable pub append_map_header_to : ℕ → Bytes
append_map_header_to count =
    let c = count % 2 ^ 32 in
    if ltb c 16
    then (0x80 + c) ∷ []
    else if leb c 0xffff
    then 0xde ∷ c / 2 ^ 8 % 256 ∷ c % 256 ∷ []
    else 0xdf ∷ big_endian32 c

module _ {F : Type 0} (m : Writers F) (cfg : EncoderConfig F) (ent : Entry) where
  -- The parts of `writeEnvelope`, in its order.
  unfoldable pub write_level : Stack → Stack
  unfolding add_key append_hooked
  write_level st = elim cfg.encode_level [
    | none ↦ st
    | some encode ↦
        if length cfg.level_key == 0
        then st
        else append_hooked m (encode ent.level) (string (cfg.level_string ent.level))
            (add_key m cfg.level_key st)
  ]

  -- `zapcore.FullNameEncoder`, the default, appends the name.
  abbrev pub name_enc : Option (Bytes → List (Prim F)) → Bytes → List (Prim F)
  name_enc none name = string name ∷ []
  name_enc (some encode) name = encode name

  unfoldable pub write_name : Stack → Stack
  unfolding add_key append_hooked
  write_name st =
      if length cfg.name_key == 0
      then st
      else if length ent.logger_name == 0
      then st
      else append_hooked m (name_enc cfg.encode_name ent.logger_name) (string ent.logger_name)
          (add_key m cfg.name_key st)

  unfoldable pub write_caller : Stack → Stack
  unfolding add_key append_hooked append_prim
  write_caller st = if length cfg.caller_key == 0 then st else elim cfg.encode_caller [
    | none ↦ append_prim m (string (cfg.caller_string ent.caller)) (add_key m cfg.caller_key st)
    | some encode ↦
        append_hooked m (encode ent.caller) (string (cfg.caller_string ent.caller))
          (add_key m cfg.caller_key st)
  ]

  unfoldable pub write_function : Stack → Stack
  unfolding add_key append_prim
  write_function st =
      if length cfg.function_key == 0
      then st
      else append_prim m (string ent.caller.function) (add_key m cfg.function_key st)

  unfoldable pub write_message : Stack → Stack
  unfolding add_key append_prim
  write_message st =
      if length cfg.message_key == 0
      then st
      else append_prim m (string ent.message) (add_key m cfg.message_key st)

  unfoldable pub write_stacktrace : Stack → Stack
  unfolding add_key append_prim
  write_stacktrace st =
      if length cfg.stacktrace_key == 0
      then st
      else if length ent.stack == 0
      then st
      else append_prim m (string ent.stack) (add_key m cfg.stacktrace_key st)

  -- `writeEnvelope`
  unfoldable pub write_envelope : Stack → Stack
  unfolding write_level write_name write_caller write_function write_message write_stacktrace
  write_envelope st =
      let named = write_name (write_level st) in
      let called = if ent.caller.defined then write_function (write_caller named) else named in
      write_stacktrace (write_message called)

  -- The end of `EncodeEntry`: the message of the two root frames.
  unfoldable pub assemble : Frame → Frame → Bytes
  assemble env final =
      0x92 ∷ 0xd7 ∷ 0x00 ∷ marshal_binary_to ent.time
      ++ (append_map_header_to (env.count + final.count) ++ (env.buf ++ final.buf))

  -- `stack[0]`
  abbrev pub root : Stack → Frame
  root [] = fresh map_kind
  root (f ∷ []) = f
  root (_ ∷ f ∷ st) = root (f ∷ st)

  -- `EncodeEntry`, by the logger's stack
  unfoldable pub encode_entry : Fields F → Stack → Bytes
  unfolding write_envelope clone_stack seal_down_to assemble
  encode_entry fields stack =
      let env = write_envelope (fresh map_kind ∷ []) in
      let final = (run_fields m fields (clone_stack [] stack)).0 in
      assemble (root env) (root (seal_down_to m 1 final))

-- A reader of the map headers of the msgpack specification: the number of pairs, and what is left.
unfoldable pub read_map_header : Reader ℕ
read_map_header [] = none
read_map_header (h ∷ s) =
    if h == 0xde
    then read_big_endian 2 0 s
    else if h == 0xdf
    then read_big_endian 4 0 s
    else if leb 0x80 h && leb h 0x8f
    then some (h - 0x80, s)
    else none

-- The header of each of the three forms is read back as its count, whatever follows.
pub read_map_header-append_map_header_to :
    (n : ℕ) (s : Bytes) → n < 2 ^ 32 → read_map_header (append_map_header_to n ++ s) ≡ some (n, s)
unfolding append_map_header_to read_map_header
read_map_header-append_map_header_to n s h =
    let whole : n % 2 ^ 32 ≡ n = omega arith in
    rw whole (elim (Bool-cases (ltb n 16)) [
      | inl short ↦ rw short (ground (arith, short))
      | inr long ↦ rw long (elim (Bool-cases (leb n 0xffff)) [
        | inl two ↦ rw two (ap (λ (k : ℕ). some (k, s)) (ground (arith, two)))
        | inr four ↦ rw four (ap (λ (k : ℕ). some (k, s)) (omega (arith, h)))
      ])
    ])
