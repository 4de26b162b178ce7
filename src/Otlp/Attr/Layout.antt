-- ===== src/Otlp/Attr/Layout.antt =====
-- What single calls of otlp/attr.go do to the stack: the predicted lengths are those of what follows
-- them, and a container is sealed or rolled back.
use zapwire.Common.{
  ℕ, ◌+◌, ◌≡◌, refl, ◌∙◌, sym, ap, [], ◌∷◌, ◌++◌, append_assoc, Bytes, length, length-append, arith,
}
use zapwire.Otlp.Proto.Varint.{append_uvarint, uvarint_len}
use zapwire.Otlp.Proto.Varint.Encode.{append_uvarint_lem, length-append_uvarint}
use zapwire.Otlp.Proto.Append.{append_tagged_bytes, append_tagged_bytes_lem, append_tagged_string}
use zapwire.Otlp.Attr.{
  Kind, frame_root, frame_kv_list, frame_array, Frame, kv_len, add_kv, add_av, add_by, av_tag,
  seal_head, seal_top,
}
use zapwire.Otlp.Attr.Tree.{tagged, key_value}

-- A frame's entry: an array takes values, any other frame pairs.
abbrev pub entry : Kind → Bytes → Bytes → Bytes
entry frame_array key av = tagged 0x0a av
entry frame_root key av = tagged 0x32 (key_value key av)
entry frame_kv_list key av = tagged 0x0a (key_value key av)

tagged_lem : (tag : ℕ) (b : Bytes) → tagged tag b ≡ tag ∷ append_uvarint [] (length b) ++ b
unfolding tagged
tagged_lem tag b = append_tagged_bytes_lem [] tag b

length-tagged :
    (tag : ℕ) (b : Bytes) → length (tagged tag b) ≡ 1 + uvarint_len (length b) + length b
length-tagged tag b = rw (tagged_lem tag b) (
    omega (arith, length-append (append_uvarint [] (length b)) b, length-append_uvarint (length b)))

length-key_value : (key av : Bytes) → length (key_value key av) ≡ kv_len key (length av)
unfolding key_value
length-key_value key av = omega (
  arith,
  length-append (tagged 0x0a key) (tagged 0x12 av),
  length-tagged 0x0a key,
  length-tagged 0x12 av,
)

-- A field behind a prefix whose length was predicted.
field_lem :
    (buf : Bytes) (tag n : ℕ) (b : Bytes)
    → n ≡ length b
    → append_uvarint (buf ++ (tag ∷ [])) n ++ b ≡ buf ++ tagged tag b
field_lem buf tag n b e =
    rw
      (
        e,
        append_uvarint_lem (length b) (buf ++ (tag ∷ [])),
        tagged_lem tag b,
        append_assoc (buf ++ (tag ∷ [])) (append_uvarint [] (length b)) b,
      )
      (append_assoc (buf) (tag ∷ []) (append_uvarint [] (length b) ++ b))

pair_lem :
    (buf : Bytes) (tag : ℕ) (key av : Bytes) (n : ℕ)
    → n ≡ length av
    → append_uvarint
          ((append_uvarint
                (append_uvarint (buf ++ (tag ∷ [])) (kv_len key n) ++ (0x0a ∷ []))
                (length key)
              ++ key)
            ++ (0x12 ∷ []))
          n
        ++ av
      ≡ buf ++ tagged tag (key_value key av)
unfolding key_value
pair_lem buf tag key av n e =
    let p = append_uvarint (buf ++ (tag ∷ [])) (kv_len key n) in
    let total : kv_len key n ≡ length (key_value key av) =
      ap (λ x. kv_len key x) e ∙ sym (length-key_value key av) in
    ap (λ x. append_uvarint (x ++ (0x12 ∷ [])) n ++ av) (field_lem p 0x0a (length key) key refl)
    ∙ field_lem (p ++ tagged 0x0a key) 0x12 n av e
    ∙ append_assoc p (tagged 0x0a key) (tagged 0x12 av)
    ∙ field_lem buf tag (kv_len key n) (key_value key av) total

pub bytes_lem :
    (buf : Bytes) (tag : ℕ) (b : Bytes) → append_tagged_bytes buf tag b ≡ buf ++ tagged tag b
bytes_lem buf tag b = rw (append_tagged_bytes_lem buf tag b, tagged_lem tag b) refl

-- `addValue`
pub add_by_lem :
    (k : Kind) (ns buf key av : Bytes)
    → add_by k key av (record { kind = k; ns_key = ns; buf = buf })
      ≡ record { kind = k; ns_key = ns; buf = buf ++ entry k key av }
unfolding add_kv add_av append_tagged_bytes append_tagged_string
add_by_lem frame_array ns buf key av =
    ap (λ b. record { kind = frame_array; ns_key = ns; buf = b }) (bytes_lem buf 0x0a av)
add_by_lem frame_root ns buf key av =
    ap (λ b. record { kind = frame_root; ns_key = ns; buf = b })
      (pair_lem buf 0x32 key av (length av) refl)
add_by_lem frame_kv_list ns buf key av =
    ap (λ b. record { kind = frame_kv_list; ns_key = ns; buf = b })
      (pair_lem buf 0x0a key av (length av) refl)

seal_head_lem :
    (k : Kind) (buf key av : Bytes) (n : ℕ)
    → n ≡ length av
    → seal_head k buf key n ++ av ≡ buf ++ entry k key av
unfolding append_tagged_string
seal_head_lem frame_array buf key av n e = field_lem buf 0x0a n av e
seal_head_lem frame_root buf key av n e = pair_lem buf 0x32 key av n e
seal_head_lem frame_kv_list buf key av n e = pair_lem buf 0x0a key av n e

-- `sealTop`
pub seal_top_lem :
    (top parent : Frame)
    → seal_top top parent ≡ record parent {
      buf = parent.buf ++ entry parent.kind top.ns_key (tagged (av_tag top.kind) top.buf);
    }
unfolding seal_top
seal_top_lem top parent =
    let n = 1 + uvarint_len (length top.buf) + length top.buf in
    ap (λ b. record parent { buf = b })
      (field_lem (seal_head parent.kind parent.buf top.ns_key n) (av_tag top.kind) (length top.buf)
          top.buf refl
        ∙ seal_head_lem parent.kind parent.buf top.ns_key (tagged (av_tag top.kind) top.buf) n
            (sym (length-tagged (av_tag top.kind) top.buf)))
