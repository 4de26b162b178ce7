-- ===== src/Syslog/Header/Fields.antt =====
-- The header fields of syslog/encoder.go are valid whatever the options say.
use zapwire.Common.{
  ℕ, ◌/◌, ◌%◌, ◌≤◌, ◌<◌, ◌≡◌, [], ◌∷◌, ◌++◌, arith, Bytes, length, length-append, ltb,
  if◌then◌else◌, All, All-append, Bool-cases, inl, inr, min,
}
use zapwire.Common.Int.{ℤ, pos, negsuc, pos_part, ◌≤ℤ◌}
use zapwire.Syslog.Header.{
  validate_facility, clamp_severity, printable, sanitize_loop, sanitize_field, or_nil, Header,
  HeaderOptions, resolve_header, priority,
}

abbrev pub IsVisible : ℕ → Type 0
IsVisible c = (33 ≤ c) × (c ≤ 126)

-- A field of RFC 5424: at least one printable character other than a space, and at most `n`.
pub record IsField (n : ℕ) (s : Bytes) : Type 0 where
  pub nonempty : 0 < length s
  pub short : length s ≤ n
  pub visible : All IsVisible s

keep-IsVisible :
    (out : Bytes) (c : ℕ)
    → All IsVisible out
    → All IsVisible (if printable c then out ++ (c ∷ []) else out)
keep-IsVisible out c h = elim (Bool-cases (printable c)) [
  | inl e ↦ rw e (All-append IsVisible out (c ∷ []) h (ground arith, tt))
  | inr e ↦ rw e h
]

loop-IsVisible : (n : ℕ) (out s : Bytes) → All IsVisible out → All IsVisible (sanitize_loop n out s)
unfolding sanitize_loop
loop-IsVisible n out [] h = h
loop-IsVisible n out (c ∷ s) h = elim (Bool-cases (ltb (length out) n)) [
  | inl e ↦
      rw e
        (loop-IsVisible n (if printable c then out ++ (c ∷ []) else out) s (keep-IsVisible out c h))
  | inr e ↦ rw e h
]

loop_short : (n : ℕ) (out s : Bytes) → length out ≤ n → length (sanitize_loop n out s) ≤ n
unfolding sanitize_loop
loop_short n out [] h = h
loop_short n out (c ∷ s) h =
    ground
      (arith, loop_short n (out ++ (c ∷ [])) s, loop_short n out s h, length-append out (c ∷ []))

or_nil-IsField : (n : ℕ) (s : Bytes) → 0 < n → length s ≤ n → All IsVisible s → IsField n (or_nil s)
or_nil-IsField n [] h k v = record {
  nonempty = omega arith;
  short = omega arith;
  visible = (omega arith, tt);
}
or_nil-IsField n (c ∷ s) h k v = record { nonempty = omega arith; short = k; visible = v }

-- `sanitizeField` makes a valid field of any string.
pub sanitize_field-IsField : (s : Bytes) (n : ℕ) → 0 < n → IsField n (sanitize_field s n)
unfolding sanitize_field
sanitize_field-IsField s n h =
    or_nil-IsField n (sanitize_loop n [] s) h (loop_short n [] s (omega arith))
      (loop-IsVisible n [] s tt)

-- A header whose priority and fields are valid.
pub record IsValid (h : Header) : Type 0 where
  pub facility_low : pos 0 ≤ℤ h.facility
  pub facility_high : h.facility ≤ℤ pos 23
  pub hostname : IsField 255 h.hostname
  pub app_name : IsField 48 h.app_name
  pub proc_id : IsField 128 h.proc_id
  pub msg_id : IsField 32 h.msg_id

facility_range : (f : ℤ) → (pos 0 ≤ℤ validate_facility f) × (validate_facility f ≤ℤ pos 23)
unfolding validate_facility
facility_range (pos n) = ground arith
facility_range (negsuc n) = ground arith

-- Whatever the options, the resolved header is valid: the facility is in range, and every field is
-- printable, within its length, and never empty.
pub resolve_header-IsValid : (o : HeaderOptions) → IsValid (resolve_header o)
unfolding resolve_header
resolve_header-IsValid o = record {
  facility_low = (facility_range o.facility).0;
  facility_high = (facility_range o.facility).1;
  hostname = sanitize_field-IsField o.hostname 255 (omega arith);
  app_name = sanitize_field-IsField o.app_name 48 (omega arith);
  proc_id = sanitize_field-IsField o.proc_id 128 (omega arith);
  msg_id = sanitize_field-IsField o.msg_id 32 (omega arith);
}

severity_min : (s : ℤ) → pos_part (clamp_severity s) ≡ min (pos_part s) 7
unfolding clamp_severity
severity_min (pos n) = ground arith
severity_min (negsuc n) = ground arith

-- For a valid header and any mapper's severity the PRI is at most 191, and a receiver gets the
-- facility back from it, and the severity: itself from 0 to 7, 7 for a larger number, and 0 for a
-- negative one.
pub priority_lem :
    (h : Header) (s : ℤ)
    → IsValid h
    → (priority h s ≤ 191)
      × (priority h s / 8 ≡ pos_part h.facility)
      × (priority h s % 8 ≡ min (pos_part s) 7)
unfolding priority
priority_lem h s v = omega (arith, severity_min s, facility_small h.facility v.facility_high)
  where
    facility_small : (f : ℤ) → f ≤ℤ pos 23 → pos_part f ≤ 23
    facility_small (pos n) q = omega arith
    facility_small (negsuc n) q = omega arith
