-- ===== src/Otlp/Transport/Owned.antt =====
-- The headers that a transport of otlp/ owns, against those of `WithHeaders`, and the validation in
-- otlp/grpc_transport.go.
use zapwire.Common.{
  same_bytes, ◌-◌, ◌≡◌, ◌≢◌, refl, sym, ap, ◌∙◌, inl, inr, Bool, true, false, ◌&&◌, ◌||◌,
  Bool-cases, ==_iff, arith, All, Option, none, some, List, [], ◌∷◌, Bytes, length, drop, ltb, leb,
  ◌==◌, if◌then◌else◌,
}
use zapwire.Otlp.Export.{Prepared}
use zapwire.Otlp.Transport.{
  Header, no_header, set_header, del_header, set_all, get_header, header_value,
}
use zapwire.Otlp.Transport.Grpc.{Library, GrpcTransport, grpc_request}
use zapwire.Otlp.Transport.Http.{HttpLibrary, HttpTransport, http_request}

same_bytes_eq : (a b : Bytes) → same_bytes a b ≡ true → a ≡ b
same_bytes_eq [] [] h = refl
same_bytes_eq [] (y ∷ ys) h = absurd (ground arith)
same_bytes_eq (x ∷ xs) [] h = absurd (ground arith)
same_bytes_eq (x ∷ xs) (y ∷ ys) h = elim (Bool-cases (x == y)) [
  | inl e ↦
      let xy : x ≡ y = (==_iff x y).0 e in
      let rest : xs ≡ ys = same_bytes_eq xs ys (ground (arith, h, e)) in rw (xy, rest) refl
  | inr e ↦ absurd (ground (arith, h, e))
]

same_bytes_refl : (a : Bytes) → same_bytes a a ≡ true
same_bytes_refl [] = refl
same_bytes_refl (x ∷ xs) =
    let e : (x == x) ≡ true = (==_iff x x).1 refl in rw (e, same_bytes_refl xs) refl

different : {a b : Bytes} → a ≢ b → same_bytes a b ≡ false
different {a} {b} ne = elim (Bool-cases (same_bytes a b)) [
  | inl e ↦ absurd (ne (same_bytes_eq a b e))
  | inr e ↦ e
]

-- `strings.HasPrefix` and `strings.HasSuffix`
abbrev pub has_prefix : Bytes → Bytes → Bool
has_prefix s [] = true
has_prefix [] (p ∷ ps) = false
has_prefix (c ∷ s) (p ∷ ps) = c == p && has_prefix s ps

abbrev pub has_suffix : Bytes → Bytes → Bool
has_suffix s p = leb (length p) (length s) && same_bytes (drop (length s - length p) s) p

-- The error of `validateGRPCHeaders`, with the header's key.
pub data HeaderError : Type 0 where
  reserved : Bytes → HeaderError
  non_printable : Bytes → HeaderError
  untrimmed : Bytes → HeaderError

unfoldable pub is_reserved : Bytes → Bool
is_reserved lk =
    has_prefix lk (b'g' ∷ b'r' ∷ b'p' ∷ b'c' ∷ b'-' ∷ [])
    || has_suffix lk (b'-' ∷ b'b' ∷ b'i' ∷ b'n' ∷ [])
    || has_prefix lk (b':' ∷ [])
    || same_bytes lk
        (b'c' ∷ b'o' ∷ b'n' ∷ b't' ∷ b'e' ∷ b'n' ∷ b't' ∷ b'-' ∷ b't' ∷ b'y' ∷ b'p' ∷ b'e' ∷ [])
    || same_bytes lk (b't' ∷ b'e' ∷ [])

unfoldable pub printable : Bytes → Bool
printable [] = true
printable (c ∷ s) = if ltb c 0x20 || ltb 0x7e c then false else printable s

-- `validateGRPCHeaders`, in the order of the range; `strings.ToLower` and `strings.TrimSpace` are Go's.
unfoldable pub validate_grpc_headers :
    (Bytes → Bytes) → (Bytes → Bytes) → List (Bytes × Bytes) → Option HeaderError
unfolding is_reserved printable
validate_grpc_headers to_lower trim_space [] = none
validate_grpc_headers to_lower trim_space ((k, v) ∷ kvs) =
    let rest = validate_grpc_headers to_lower trim_space kvs in
    if is_reserved (to_lower k)
    then some (reserved k)
    else if printable v
    then (if same_bytes v (trim_space v) then rest else some (untrimmed k))
    else some (non_printable k)

validate_cons :
    (to_lower trim_space : Bytes → Bytes) (k v : Bytes) (kvs : List (Bytes × Bytes))
    → validate_grpc_headers to_lower trim_space ((k, v) ∷ kvs) ≡ none
    → (is_reserved (to_lower k) ≡ false) × (validate_grpc_headers to_lower trim_space kvs ≡ none)
unfolding validate_grpc_headers
validate_cons to_lower trim_space k v kvs h =
    go (is_reserved (to_lower k)) (printable v) (same_bytes v (trim_space v)) h
  where
    go :
        {rest : Option HeaderError} (a b c : Bool)
        → (if a
            then some (reserved k)
            else if b
            then (if c then rest else some (untrimmed k))
            else some (non_printable k))
          ≡ none
        → (a ≡ false) × (rest ≡ none)
    go true b c h = absurd (ground (arith, h))
    go false true true h = (refl, h)
    go false true false h = absurd (ground (arith, h))
    go false false c h = absurd (ground (arith, h))

module _ (canonical : Bytes → Bytes) where
  set_same : (k v : Bytes) (h : Header) → set_header canonical k v h (canonical k) ≡ some v
  set_same k v h = rw (same_bytes_refl (canonical k)) refl

  set_other :
      (k k' v : Bytes) (h : Header)
      → canonical k ≢ canonical k'
      → set_header canonical k' v h (canonical k) ≡ h (canonical k)
  set_other k k' v h ne = rw (different ne) refl

  del_other :
      (k k' : Bytes) (h : Header)
      → canonical k ≢ canonical k'
      → del_header canonical k' h (canonical k) ≡ h (canonical k)
  del_other k k' h ne = rw (different ne) refl

  set_all_other :
      (k : Bytes) (kvs : List (Bytes × Bytes)) (h : Header)
      → All (λ kv. canonical k ≢ canonical kv.0) kvs
      → set_all canonical kvs h (canonical k) ≡ h (canonical k)
  unfolding set_all
  set_all_other k [] h all = refl
  set_all_other k ((k', v) ∷ kvs) h (ne, all) =
      set_all_other k kvs (set_header canonical k' v h) all ∙ set_other k k' v h ne

  -- Both sides of a comparison change only the case of letters.
  abbrev pub ChangesCase : (Bytes → Bytes) → Type 0
  ChangesCase to_lower = (k : Bytes) → to_lower (canonical k) ≡ to_lower k

  reserved_apart :
      (to_lower : Bytes → Bytes) (k k' : Bytes)
      → ChangesCase to_lower
      → is_reserved (to_lower k) ≡ true
      → is_reserved (to_lower k') ≡ false
      → canonical k ≢ canonical k'
  reserved_apart to_lower k k' cases holds fails e =
      let same : to_lower k ≡ to_lower k' = sym (cases k) ∙ ap to_lower e ∙ cases k' in
      let t : true ≡ false = sym holds ∙ ap (λ s. is_reserved s) same ∙ fails in ground arith

  validated :
      (to_lower trim_space : Bytes → Bytes) (k : Bytes) (kvs : List (Bytes × Bytes))
      → ChangesCase to_lower
      → is_reserved (to_lower k) ≡ true
      → validate_grpc_headers to_lower trim_space kvs ≡ none
      → All (λ kv. canonical k ≢ canonical kv.0) kvs
  unfolding validate_grpc_headers
  validated to_lower trim_space k [] cases holds h = _
  validated to_lower trim_space k ((k', v) ∷ kvs) cases holds h =
      let passed = validate_cons to_lower trim_space k' v kvs h in
      (
        reserved_apart to_lower k k' cases holds passed.0,
        validated to_lower trim_space k kvs cases holds passed.1,
      )

-- A call of the gRPC transport whose `WithHeaders` passed the validation sends each reserved header,
-- however it is spelled, as a call without `WithHeaders` does.
pub grpc_request-validate_grpc_headers :
    (l : Library) (to_lower trim_space : Bytes → Bytes) (t : GrpcTransport) (p : Prepared)
    (k : Bytes)
    → ChangesCase l.canonical to_lower
    → validate_grpc_headers to_lower trim_space t.headers ≡ none
    → is_reserved (to_lower k) ≡ true
    → get_header l.canonical k (grpc_request l t p)
      ≡ get_header l.canonical k (grpc_request l (record t { headers = [] }) p)
unfolding grpc_request set_all
grpc_request-validate_grpc_headers l to_lower trim_space t p k cases valid holds = ap header_value (
    set_all_other l.canonical k t.headers _
      (validated l.canonical to_lower trim_space k t.headers cases holds valid))

owned_lem :
    (canonical : Bytes → Bytes)
    → canonical
        (b'C' ∷ b'o' ∷ b'n' ∷ b't' ∷ b'e' ∷ b'n' ∷ b't' ∷ b'-' ∷ b'T' ∷ b'y' ∷ b'p' ∷ b'e' ∷ [])
      ≢ canonical (
          b'C' ∷ b'o' ∷ b'n' ∷ b't' ∷ b'e' ∷ b'n' ∷ b't' ∷ b'-' ∷ b'E' ∷ b'n' ∷ b'c' ∷ b'o' ∷ b'd'
          ∷ b'i' ∷ b'n' ∷ b'g' ∷ [])
    → (compressed : Bool) (ct : Bytes) (user : Header)
    → (let h =
          set_header canonical
            (b'C' ∷ b'o' ∷ b'n' ∷ b't' ∷ b'e' ∷ b'n' ∷ b't' ∷ b'-' ∷ b'T' ∷ b'y' ∷ b'p' ∷ b'e' ∷ [])
            ct
            user in
        let sent =
          if compressed
          then set_header canonical
              (b'C' ∷ b'o' ∷ b'n' ∷ b't' ∷ b'e' ∷ b'n' ∷ b't' ∷ b'-' ∷ b'E' ∷ b'n' ∷ b'c' ∷ b'o'
                ∷ b'd' ∷ b'i' ∷ b'n' ∷ b'g' ∷ [])
              (b'g' ∷ b'z' ∷ b'i' ∷ b'p' ∷ [])
              h
          else del_header canonical
              (b'C' ∷ b'o' ∷ b'n' ∷ b't' ∷ b'e' ∷ b'n' ∷ b't' ∷ b'-' ∷ b'E' ∷ b'n' ∷ b'c' ∷ b'o'
                ∷ b'd' ∷ b'i' ∷ b'n' ∷ b'g' ∷ [])
              h in
        (get_header canonical
            (b'C' ∷ b'o' ∷ b'n' ∷ b't' ∷ b'e' ∷ b'n' ∷ b't' ∷ b'-' ∷ b'T' ∷ b'y' ∷ b'p' ∷ b'e' ∷ [])
            sent
          ≡ ct)
        × (sent (
              canonical (
                b'C' ∷ b'o' ∷ b'n' ∷ b't' ∷ b'e' ∷ b'n' ∷ b't' ∷ b'-' ∷ b'E' ∷ b'n' ∷ b'c' ∷ b'o'
                ∷ b'd' ∷ b'i' ∷ b'n' ∷ b'g' ∷ []))
            ≡ (if compressed then some (b'g' ∷ b'z' ∷ b'i' ∷ b'p' ∷ []) else none)))
owned_lem canonical ne true ct user =
    let h =
      set_header canonical
        (b'C' ∷ b'o' ∷ b'n' ∷ b't' ∷ b'e' ∷ b'n' ∷ b't' ∷ b'-' ∷ b'T' ∷ b'y' ∷ b'p' ∷ b'e' ∷ []) ct
        user in
    (
      ap header_value (
          set_other canonical
            (b'C' ∷ b'o' ∷ b'n' ∷ b't' ∷ b'e' ∷ b'n' ∷ b't' ∷ b'-' ∷ b'T' ∷ b'y' ∷ b'p' ∷ b'e' ∷ [])
            (b'C' ∷ b'o' ∷ b'n' ∷ b't' ∷ b'e' ∷ b'n' ∷ b't' ∷ b'-' ∷ b'E' ∷ b'n' ∷ b'c' ∷ b'o'
              ∷ b'd' ∷ b'i' ∷ b'n' ∷ b'g' ∷ [])
            (b'g' ∷ b'z' ∷ b'i' ∷ b'p' ∷ []) h ne
          ∙ set_same canonical
              (b'C' ∷ b'o' ∷ b'n' ∷ b't' ∷ b'e' ∷ b'n' ∷ b't' ∷ b'-' ∷ b'T' ∷ b'y' ∷ b'p' ∷ b'e'
                ∷ [])
              ct user),
      set_same canonical
          (b'C' ∷ b'o' ∷ b'n' ∷ b't' ∷ b'e' ∷ b'n' ∷ b't' ∷ b'-' ∷ b'E' ∷ b'n' ∷ b'c' ∷ b'o' ∷ b'd'
            ∷ b'i' ∷ b'n' ∷ b'g' ∷ [])
          (b'g' ∷ b'z' ∷ b'i' ∷ b'p' ∷ []) h,
    )
owned_lem canonical ne false ct user =
    let h =
      set_header canonical
        (b'C' ∷ b'o' ∷ b'n' ∷ b't' ∷ b'e' ∷ b'n' ∷ b't' ∷ b'-' ∷ b'T' ∷ b'y' ∷ b'p' ∷ b'e' ∷ []) ct
        user in
    (
      ap header_value (
          del_other canonical
            (b'C' ∷ b'o' ∷ b'n' ∷ b't' ∷ b'e' ∷ b'n' ∷ b't' ∷ b'-' ∷ b'T' ∷ b'y' ∷ b'p' ∷ b'e' ∷ [])
            (b'C' ∷ b'o' ∷ b'n' ∷ b't' ∷ b'e' ∷ b'n' ∷ b't' ∷ b'-' ∷ b'E' ∷ b'n' ∷ b'c' ∷ b'o'
              ∷ b'd' ∷ b'i' ∷ b'n' ∷ b'g' ∷ [])
            h ne
          ∙ set_same canonical
              (b'C' ∷ b'o' ∷ b'n' ∷ b't' ∷ b'e' ∷ b'n' ∷ b't' ∷ b'-' ∷ b'T' ∷ b'y' ∷ b'p' ∷ b'e'
                ∷ [])
              ct user),
      rw
          (same_bytes_refl (
            canonical (
              b'C' ∷ b'o' ∷ b'n' ∷ b't' ∷ b'e' ∷ b'n' ∷ b't' ∷ b'-' ∷ b'E' ∷ b'n' ∷ b'c' ∷ b'o'
              ∷ b'd' ∷ b'i' ∷ b'n' ∷ b'g' ∷ [])))
          refl,
    )

-- Whatever `WithHeaders` sets, the HTTP transport sends the content type of its encoding, and a content
-- encoding exactly with a compressed body, if the two keys are different header keys.
pub http_request_lem :
    (l : HttpLibrary) (t : HttpTransport) (p : Prepared)
    → l.canonical
        (b'C' ∷ b'o' ∷ b'n' ∷ b't' ∷ b'e' ∷ b'n' ∷ b't' ∷ b'-' ∷ b'T' ∷ b'y' ∷ b'p' ∷ b'e' ∷ [])
      ≢ l.canonical (
          b'C' ∷ b'o' ∷ b'n' ∷ b't' ∷ b'e' ∷ b'n' ∷ b't' ∷ b'-' ∷ b'E' ∷ b'n' ∷ b'c' ∷ b'o' ∷ b'd'
          ∷ b'i' ∷ b'n' ∷ b'g' ∷ [])
    → (get_header l.canonical
          (b'C' ∷ b'o' ∷ b'n' ∷ b't' ∷ b'e' ∷ b'n' ∷ b't' ∷ b'-' ∷ b'T' ∷ b'y' ∷ b'p' ∷ b'e' ∷ [])
          (http_request l t p)
        ≡ (if t.json_on
            then (b'a' ∷ b'p' ∷ b'p' ∷ b'l' ∷ b'i' ∷ b'c' ∷ b'a' ∷ b't' ∷ b'i' ∷ b'o' ∷ b'n' ∷ b'/'
                ∷ b'j' ∷ b's' ∷ b'o' ∷ b'n' ∷ [])
            else (b'a' ∷ b'p' ∷ b'p' ∷ b'l' ∷ b'i' ∷ b'c' ∷ b'a' ∷ b't' ∷ b'i' ∷ b'o' ∷ b'n' ∷ b'/'
                ∷ b'x' ∷ b'-' ∷ b'p' ∷ b'r' ∷ b'o' ∷ b't' ∷ b'o' ∷ b'b' ∷ b'u' ∷ b'f' ∷ [])))
      × (http_request l t p (
            l.canonical (
              b'C' ∷ b'o' ∷ b'n' ∷ b't' ∷ b'e' ∷ b'n' ∷ b't' ∷ b'-' ∷ b'E' ∷ b'n' ∷ b'c' ∷ b'o'
              ∷ b'd' ∷ b'i' ∷ b'n' ∷ b'g' ∷ []))
          ≡ (if p.compressed then some (b'g' ∷ b'z' ∷ b'i' ∷ b'p' ∷ []) else none))
unfolding http_request
http_request_lem l t p ne =
    owned_lem l.canonical ne p.compressed
      (if t.json_on
        then (b'a' ∷ b'p' ∷ b'p' ∷ b'l' ∷ b'i' ∷ b'c' ∷ b'a' ∷ b't' ∷ b'i' ∷ b'o' ∷ b'n' ∷ b'/'
            ∷ b'j' ∷ b's' ∷ b'o' ∷ b'n' ∷ [])
        else (b'a' ∷ b'p' ∷ b'p' ∷ b'l' ∷ b'i' ∷ b'c' ∷ b'a' ∷ b't' ∷ b'i' ∷ b'o' ∷ b'n' ∷ b'/'
            ∷ b'x' ∷ b'-' ∷ b'p' ∷ b'r' ∷ b'o' ∷ b't' ∷ b'o' ∷ b'b' ∷ b'u' ∷ b'f' ∷ []))
      (set_all l.canonical t.headers no_header)
