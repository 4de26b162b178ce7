-- ===== src/Examples/Syslogs.antt =====
-- Concrete headers and frames of syslog/.
use zapwire.Common.{min, ◌/◌, ◌%◌, ◌≤◌, ◌≡◌, none, some, true, List, [], ◌∷◌, ◌++◌, Bytes, arith}
use zapwire.Common.Int.{pos, negsuc, pos_part}
use zapwire.Syslog.Framer.{
  new_framer, octet_counting, lf_terminated, frame, read_octets, read_octets-frame, read_lines,
  read_lines-frame,
}
use zapwire.Syslog.Header.{
  HeaderOptions, Header, resolve_header, sanitize_field, priority, encode_entry,
}
use zapwire.Syslog.Header.Fields.{
  IsField, IsValid, sanitize_field-IsField, resolve_header-IsValid, priority_lem,
}
use zapwire.Syslog.Header.Entry.{read_words, header_words, with_bom, read_words-encode_entry}

abbrev lines : List Bytes
lines = (b'a' ∷ b'b' ∷ []) ∷ [] ∷ (b'c' ∷ []) ∷ []

read_octets-frame_example :
    read_octets 3 (frame (new_framer octet_counting) [] lines ++ (9 ∷ [])) ≡ (lines, 9 ∷ [])
read_octets-frame_example = read_octets-frame lines (9 ∷ [])

read_lines-frame_example : read_lines [] (frame (new_framer lf_terminated) [] lines) ≡ (lines, [])
read_lines-frame_example =
    read_lines-frame lines ((omega arith, (omega arith, tt)), (tt, ((omega arith, tt), tt)))

abbrev options : HeaderOptions
options = record {
  facility = negsuc 3;
  hostname = b'm' ∷ b' ' ∷ b'x' ∷ [];
  app_name = [];
  proc_id = b'7' ∷ [];
  msg_id = 200 ∷ [];
  bom = true;
}

abbrev header : Header
header = resolve_header options

sanitize_field-IsField_example : IsField 2 (sanitize_field (b'm' ∷ b' ' ∷ b'x' ∷ []) 2)
sanitize_field-IsField_example = sanitize_field-IsField (b'm' ∷ b' ' ∷ b'x' ∷ []) 2 (omega arith)

resolve_header-IsValid_example : IsValid (resolve_header options)
resolve_header-IsValid_example = resolve_header-IsValid options

priority_lem_example :
    (priority header (pos 9) ≤ 191)
    × (priority header (pos 9) / 8 ≡ pos_part header.facility)
    × (priority header (pos 9) % 8 ≡ min (pos_part (pos 9)) 7)
priority_lem_example = priority_lem header (pos 9) (resolve_header-IsValid options)

abbrev body : Bytes
body = b'{' ∷ b'}' ∷ []

read_words-encode_entry_example :
    (line : Bytes) × (encode_entry header (pos 3) none (some body) ≡ some line)
    × (read_words 7 line ≡ (header_words header (pos 3) none, with_bom header.bom body))
read_words-encode_entry_example =
    read_words-encode_entry header (pos 3) none body (resolve_header-IsValid options)
      (omega arith, tt)
