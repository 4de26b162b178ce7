-- ===== src/Syslog/Header.antt =====
-- syslog/encoder.go: the RFC 5424 header. A string is its bytes. The inner JSON encoder, the clock's
-- layout and the user's severity mapper are not the repository's: their results are arguments.
pub mod Fields
pub mod Entry
use zapwire.Common.{
  ℕ, zero, suc, ◌+◌, ◌*◌, ◌/◌, ◌%◌, ◌≤◌, ◌<◌, ◌≡◌, ◌≢◌, refl, ◌∙◌, ap, sym, Option, none, some,
  List, [], ◌∷◌, ◌++◌, Bool, true, false, arith, Bytes, length, length-append, leb, ltb, ◌==◌, ◌&&◌,
  if◌then◌else◌, append_assoc, append-nil, All, All-append,
}
use zapwire.Common.Int.{ℤ, pos, negsuc, pos_part, ltb_ℤ}
use zapwire.Common.Digits.{decimal}

-- `Facility` and `Severity` are Go ints; these are the constants that the code names.
abbrev pub kern : ℤ
kern = pos 0

abbrev pub local0 : ℤ
local0 = pos 16

abbrev pub local7 : ℤ
local7 = pos 23

abbrev pub emergency : ℤ
emergency = pos 0

abbrev pub critical : ℤ
critical = pos 2

abbrev pub error : ℤ
error = pos 3

abbrev pub warning : ℤ
warning = pos 4

abbrev pub informational : ℤ
informational = pos 6

abbrev pub debug : ℤ
debug = pos 7

unfoldable pub validate_facility : ℤ → ℤ
validate_facility f = if ltb_ℤ f kern then local0 else if ltb_ℤ local7 f then local0 else f

unfoldable pub clamp_severity : ℤ → ℤ
clamp_severity s = if ltb_ℤ s emergency then emergency else if ltb_ℤ debug s then debug else s

-- zap's levels: Debug is -1, Info 0, Warn 1, Error 2, and DPanic, Panic and Fatal above.
unfoldable pub default_severity_mapper : ℤ → ℤ
default_severity_mapper (negsuc n) = debug
default_severity_mapper (pos n) =
    if n == 0 then informational else if n == 1 then warning else if n == 2 then error else critical

abbrev pub nil_value : Bytes
nil_value = b'-' ∷ []

abbrev pub printable : ℕ → Bool
printable c = leb 33 c && leb c 126

-- The loop of `sanitizeField`: it stops once `out` has `max_len` bytes.
unfoldable pub sanitize_loop : ℕ → Bytes → Bytes → Bytes
sanitize_loop max_len out [] = out
sanitize_loop max_len out (c ∷ s) =
    let more = sanitize_loop max_len (if printable c then out ++ (c ∷ []) else out) s in
    if ltb (length out) max_len then more else out

abbrev pub or_nil : Bytes → Bytes
or_nil [] = nil_value
or_nil (c ∷ s) = c ∷ s

unfoldable pub sanitize_field : Bytes → ℕ → Bytes
unfolding sanitize_loop
sanitize_field s max_len = or_nil (sanitize_loop max_len [] s)

-- `header`: the resolved configuration.
pub record Header : Type 0 where
  pub facility : ℤ
  pub hostname : Bytes
  pub app_name : Bytes
  pub proc_id : Bytes
  pub msg_id : Bytes
  pub bom : Bool

-- `options` of syslog/syslog.go, as far as the header goes.
pub record HeaderOptions : Type 0 where
  pub facility : ℤ
  pub hostname : Bytes
  pub app_name : Bytes
  pub proc_id : Bytes
  pub msg_id : Bytes
  pub bom : Bool

unfoldable pub resolve_header : HeaderOptions → Header
resolve_header o = record {
  facility = validate_facility o.facility;
  hostname = sanitize_field o.hostname 255;
  app_name = sanitize_field o.app_name 48;
  proc_id = sanitize_field o.proc_id 128;
  msg_id = sanitize_field o.msg_id 32;
  bom = o.bom;
}

-- `int(e.cfg.facility)*8 + int(clampSeverity(e.cfg.severityOf(ent.Level)))`, where neither term is
-- negative: the facility was validated when the header was resolved.
unfoldable pub priority : Header → ℤ → ℕ
priority h severity = pos_part h.facility * 8 + pos_part (clamp_severity severity)

-- `jsonBody.appendBody`
unfoldable pub append_body : Bytes → Bool → Bytes → Bytes
append_body dst bom msg =
    let dst1 = dst ++ (b' ' ∷ b'-' ∷ b' ' ∷ []) in
    (if bom then dst1 ++ (0xef ∷ 0xbb ∷ 0xbf ∷ []) else dst1) ++ msg

-- `appendRFC3339Micros`, by the layout's result; `none` is the zero time.
unfoldable pub append_time : Bytes → Option Bytes → Bytes
append_time b none = b ++ nil_value
append_time b (some t) = b ++ t

-- `EncodeEntry`, by the inner encoder's result (`none` is its error) and the mapper's severity.
unfoldable pub encode_entry : Header → ℤ → Option Bytes → Option Bytes → Option Bytes
encode_entry h severity time none = none
encode_entry h severity time (some body) =
    let line1 = ((b'<' ∷ []) ++ decimal (priority h severity)) ++ (b'>' ∷ b'1' ∷ b' ' ∷ []) in
    let line2 = append_time line1 time ++ (b' ' ∷ []) in
    let line3 = (line2 ++ h.hostname) ++ (b' ' ∷ []) in
    let line4 = (line3 ++ h.app_name) ++ (b' ' ∷ []) in
    let line5 = (line4 ++ h.proc_id) ++ (b' ' ∷ []) in
    some (append_body (line5 ++ h.msg_id) h.bom body)
