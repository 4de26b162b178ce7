-- ===== src/Syslog/Framer.antt =====
-- syslog/framer.go: the two framings of RFC 6587, against receivers that read the stream.
use zapwire.Common.{
  ℕ, zero, suc, ◌≡◌, ◌≢◌, refl, ◌∙◌, ap, sym, none, some, List, [], ◌∷◌, ◌++◌, Bool, true, false,
  arith, Bytes, length, length-append, take, drop, take-append, drop-append, ltb, ◌==◌,
  if◌then◌else◌, append_assoc, append-nil, All,
}
use zapwire.Common.Digits.{decimal, read_count, read_count-decimal}

pub data Framing : Type 0 where
  octet_counting lf_terminated : Framing

-- `NewFramer`: the flag of the Framer.
unfoldable pub new_framer : Framing → Bool
new_framer octet_counting = true
new_framer lf_terminated = false

-- The body of the loop over the payloads.
unfoldable pub append_payload : Bool → Bytes → Bytes → Bytes
append_payload true dst p = ((dst ++ decimal (length p)) ++ (b' ' ∷ [])) ++ p
append_payload false dst p = (dst ++ p) ++ (0x0a ∷ [])

-- `Frame`; its error is always nil.
unfoldable pub frame : Bool → Bytes → List Bytes → Bytes
unfolding append_payload
frame octets dst [] = dst
frame octets dst (p ∷ ps) = frame octets (append_payload octets dst p) ps

-- A receiver of octet counting (RFC 6587, 3.4.1), on fuel: a count, a space, and that many bytes. It
-- returns the messages that it could read, and what is left.
pub read_octets : ℕ → Bytes → List Bytes × Bytes
read_octets zero s = ([], s)
read_octets (suc fuel) s = elim (read_count 0 s) [
  | none ↦ ([], s)
  | some (n, rest) ↦
      let more = read_octets fuel (drop n rest) in
      if ltb (length rest) n then ([], s) else (take n rest ∷ more.0, more.1)
]

-- A receiver of LF framing (3.4.2): what stands before each line feed, and what is left.
pub read_lines : Bytes → Bytes → List Bytes × Bytes
read_lines line [] = ([], line)
read_lines line (c ∷ s) =
    let fresh = read_lines [] s in
    let more = read_lines (line ++ (c ∷ [])) s in
    if c == 0x0a then (line ∷ fresh.0, fresh.1) else more

frame_lem :
    (octets : Bool) (dst : Bytes) (ps : List Bytes)
    → frame octets dst ps ≡ dst ++ frame octets [] ps
unfolding frame
frame_lem octets dst [] = sym (append-nil dst)
frame_lem octets dst (p ∷ ps) =
    frame_lem octets (append_payload octets dst p) ps
    ∙ rw (frame_lem octets (append_payload octets [] p) ps) (shift octets)
  where
    shift :
        (octets : Bool)
        → append_payload octets dst p ++ frame octets [] ps
          ≡ dst ++ (append_payload octets [] p ++ frame octets [] ps)
    shift true = simp append_assoc
    shift false = simp append_assoc

frame_cons :
    (octets : Bool) (p : Bytes) (ps : List Bytes)
    → frame octets [] (p ∷ ps) ≡ append_payload octets [] p ++ frame octets [] ps
unfolding frame
frame_cons octets p ps = frame_lem octets (append_payload octets [] p) ps

frames :
    (octets : Bool) (p : Bytes) (ps : List Bytes) (rest : Bytes)
    → frame octets [] (p ∷ ps) ++ rest ≡ append_payload octets [] p ++ (frame octets [] ps ++ rest)
frames octets p ps rest =
    rw (frame_cons octets p ps)
      (append_assoc (append_payload octets [] p) (frame octets [] ps) rest)

octets_payload :
    (p rest : Bytes) → append_payload true [] p ++ rest ≡ decimal (length p) ++ (b' ' ∷ (p ++ rest))
unfolding append_payload
octets_payload p rest = simp append_assoc

lines_payload : (p rest : Bytes) → append_payload false [] p ++ rest ≡ p ++ (0x0a ∷ rest)
unfolding append_payload
lines_payload p rest = append_assoc p (0x0a ∷ []) rest

read_octets-payload :
    (fuel : ℕ) (p rest : Bytes)
    → read_octets (suc fuel) (append_payload true [] p ++ rest)
      ≡ (p ∷ (read_octets fuel rest).0, (read_octets fuel rest).1)
unfolding read_octets
read_octets-payload fuel p rest =
    let fits : ltb (length (p ++ rest)) (length p) ≡ false = ground (arith, length-append p rest) in
    ap (read_octets (suc fuel)) (octets_payload p rest)
    ∙ rw (
      read_count-decimal (length p) (p ++ rest),
      read_octets,
      fits,
      drop-append p rest,
      take-append p rest,
    )

read_lines-payload :
    (line p rest : Bytes)
    → All (λ c. c ≢ 0x0a) p
    → read_lines line (p ++ (0x0a ∷ rest))
      ≡ ((line ++ p) ∷ (read_lines [] rest).0, (read_lines [] rest).1)
unfolding read_lines
read_lines-payload line [] rest h = rw (append-nil line)
read_lines-payload line (c ∷ p) rest h =
    ground (arith, read_lines-payload (line ++ (c ∷ [])) p rest h.1, append_assoc line (c ∷ []) p)

-- Octet counting is transparent: whatever bytes the payloads hold, a receiver that reads as many
-- messages gets exactly the payloads in order, and is left with what follows the frame.
pub read_octets-frame :
    (ps : List Bytes) (rest : Bytes)
    → read_octets (length ps) (frame (new_framer octet_counting) [] ps ++ rest) ≡ (ps, rest)
unfolding new_framer
read_octets-frame [] rest = unfold read_octets frame in refl
read_octets-frame (p ∷ ps) rest =
    ap (λ s. read_octets (suc (length ps)) s) (frames true p ps rest)
    ∙ read_octets-payload (length ps) p (frame true [] ps ++ rest)
    ∙ rw (read_octets-frame ps rest)

-- LF framing is safe for payloads without a line feed: a receiver then reads back exactly the
-- payloads in order, with nothing left.
pub read_lines-frame :
    (ps : List Bytes)
    → All (All (λ c. c ≢ 0x0a)) ps
    → read_lines [] (frame (new_framer lf_terminated) [] ps) ≡ (ps, [])
unfolding new_framer
read_lines-frame [] h = unfold read_lines frame in refl
read_lines-frame (p ∷ ps) h =
    ap (λ s. read_lines [] s) (frame_cons false p ps ∙ lines_payload p (frame false [] ps))
    ∙ read_lines-payload [] p (frame false [] ps) h.0
    ∙ rw (read_lines-frame ps h.1)
