-- ===== src/Asn1/Elements/Laws.antt =====
-- An element's size is that of its octets, and its octets are one element for the decoder.
use rs_iec.Common.{
  ℕ, ◌+◌, ◌<◌, ◌^◌, ◌≡◌, refl, sym, ap, ◌∙◌, List, [], ◌++◌, length, length-append, some, arith,
  append_assoc, append-nil,
}
use rs_iec.Asn1.Types.{Tag, IsTag}
use rs_iec.Asn1.Encode.{append_tag, append_length, append_tlv, tag_size, length_size, tlv_size}
use rs_iec.Asn1.RoundTrip.Tags.{append_tag-append}
use rs_iec.Asn1.RoundTrip.Elements.{append_length-append, length-append_tlv, read_tlv-append_tlv}
use rs_iec.Asn1.Decoder.{done, read_tlv}
use rs_iec.Asn1.Elements.{
  Element, Elements, primitive, constructed, raw, verbatim, nil, child, tag, size, sizes, append,
  append_all, encode,
}

-- Every tag number in the tree is below 2 ^ 28, as `tag_size` wants it.
abbrev mutual
  pub Small : Element → Type 0
  Small (primitive t value) = t.number < 2 ^ 28
  Small (constructed t children) = (t.number < 2 ^ 28) × SmallAll children
  Small (raw t content) = t.number < 2 ^ 28
  Small (verbatim v) = Unit {0}

  pub SmallAll : Elements → Type 0
  SmallAll nil = Unit {0}
  SmallAll (child c cs) = Small c × SmallAll cs

-- The octets of the children, one after the other.
abbrev pub encodings : Elements → List ℕ
encodings nil = []
encodings (child c cs) = encode c ++ encodings cs

header_onto :
    (dst : List ℕ) (t : Tag) (n : ℕ)
    → append_length (append_tag dst t) n ≡ dst ++ append_length (append_tag [] t) n
header_onto dst t n = simp (
  append_tag-append dst t,
  append_length-append (dst ++ append_tag [] t) n,
  append_length-append (append_tag [] t) n,
  append_assoc,
)

-- Encoding appends: what is in the buffer already does not matter.
mutual
  unfolding append append_all encode

  pub append-encode : (e : Element) (dst : List ℕ) → append e dst ≡ dst ++ encode e
  append-encode (verbatim v) dst = refl
  append-encode (primitive t value) dst = simp (header_onto dst t (length value), append_assoc)
  append-encode (raw t content) dst = simp (header_onto dst t (length content), append_assoc)
  append-encode (constructed t children) dst = rw (header_onto dst t (sizes children)) (
      append_all-encodings children (dst ++ append_length (append_tag [] t) (sizes children))
      ∙ append_assoc dst _ _
      ∙ ap (λ x. dst ++ x)
          (sym (append_all-encodings children (append_length (append_tag [] t) (sizes children)))))

  append_all-encodings : (cs : Elements) (dst : List ℕ) → append_all cs dst ≡ dst ++ encodings cs
  append_all-encodings nil dst = sym (append-nil dst)
  append_all-encodings (child c cs) dst =
      append_all-encodings cs (append c dst)
      ∙ ap (λ x. x ++ encodings cs) (append-encode c dst)
      ∙ append_assoc dst (encode c) (encodings cs)

encode-constructed :
    (t : Tag) (cs : Elements)
    → encode (constructed t cs) ≡ append_length (append_tag [] t) (sizes cs) ++ encodings cs
unfolding encode append
encode-constructed t cs = append_all-encodings cs (append_length (append_tag [] t) (sizes cs))

header_length :
    (t : Tag) (content : List ℕ)
    → t.number < 2 ^ 28
    → length (append_length (append_tag [] t) (length content) ++ content)
      ≡ tag_size t + length_size (length content) + length content
unfolding append_tlv tlv_size
header_length t content h = length-append_tlv t content h

primitive_length :
    (t : Tag) (value : List ℕ)
    → t.number < 2 ^ 28
    → length (encode (primitive t value)) ≡ size (primitive t value)
unfolding encode append size
primitive_length t value h = header_length t value h

raw_length :
    (t : Tag) (content : List ℕ)
    → t.number < 2 ^ 28
    → length (encode (raw t content)) ≡ size (raw t content)
unfolding encode append size
raw_length t content h = header_length t content h

verbatim_length : (v : List ℕ) → length (encode (verbatim v)) ≡ size (verbatim v)
unfolding encode append size
verbatim_length v = refl

sizes_nil : 0 ≡ sizes nil
unfolding sizes
sizes_nil = refl

sizes_child : (c : Element) (cs : Elements) → sizes (child c cs) ≡ size c + sizes cs
unfolding sizes
sizes_child c cs = refl

constructed_length :
    (t : Tag) (cs : Elements)
    → t.number < 2 ^ 28
    → length (encodings cs) ≡ sizes cs
    → length (encode (constructed t cs)) ≡ size (constructed t cs)
unfolding size
constructed_length t cs h e = rw (encode-constructed t cs, ← e) (header_length t (encodings cs) h)

mutual
  size_eq : (e : Element) → Small e → length (encode e) ≡ size e
  size_eq (verbatim v) h = verbatim_length v
  size_eq (primitive t value) h = primitive_length t value h
  size_eq (raw t content) h = raw_length t content h
  size_eq (constructed t cs) h = constructed_length t cs h.0 (sizes_eq cs h.1)

  pub sizes_eq : (cs : Elements) → SmallAll cs → length (encodings cs) ≡ sizes cs
  sizes_eq nil h = sizes_nil
  sizes_eq (child c cs) h = omega (
    arith,
    length-append (encode c) (encodings cs),
    sizes_child c cs,
    size_eq c h.0,
    sizes_eq cs h.1,
  )

-- `size` is the number of octets that `encode` writes, for a tree whose tag numbers are all below
-- 2 ^ 28.
pub length-encode : (e : Element) → Small e → length (encode e) ≡ size e
length-encode e h = size_eq e h

-- The content octets of an element.
abbrev pub content : Element → List ℕ
content (primitive t value) = value
content (constructed t cs) = encodings cs
content (raw t octets) = octets
content (verbatim v) = v

pub encode-primitive :
    (t : Tag) (value : List ℕ) → encode (primitive t value) ≡ append_tlv [] t value
unfolding encode append append_tlv
encode-primitive t value = refl

encode-raw : (t : Tag) (octets : List ℕ) → encode (raw t octets) ≡ append_tlv [] t octets
unfolding encode append append_tlv
encode-raw t octets = refl

pub encode-children :
    (t : Tag) (cs : Elements)
    → SmallAll cs
    → encode (constructed t cs) ≡ append_tlv [] t (encodings cs)
unfolding append_tlv
encode-children t cs h =
    encode-constructed t cs
    ∙ ap (λ n. append_length (append_tag [] t) n ++ encodings cs) (sym (sizes_eq cs h))

encode_tlv :
    (e : Element) {t : Tag} → tag e ≡ some t → Small e → encode e ≡ append_tlv [] t (content e)
unfolding tag
encode_tlv (primitive t value) q h = cc (encode-primitive t value)
encode_tlv (raw t octets) q h = cc (encode-raw t octets)
encode_tlv (constructed t cs) q h = cc (encode-children t cs h.1)
encode_tlv (verbatim v) q h = cc

Small-IsTag : (e : Element) {t : Tag} → tag e ≡ some t → Small e → IsTag t
unfolding tag
Small-IsTag (primitive t value) q h = ground arith
Small-IsTag (raw t octets) q h = ground arith
Small-IsTag (constructed t cs) q h = ground arith
Small-IsTag (verbatim v) q h = cc

-- The decoder reads an encoded element as one element: its tag, its content (for a constructed one
-- the children's octets in order) and a cursor that has moved by the element's `size`. The tag
-- numbers are below 2 ^ 28 and the content is shorter than 2 ^ 32 octets.
pub read_tlv-encode :
    (e : Element) (t : Tag) (r : List ℕ) (off : ℕ)
    → tag e ≡ some t
    → Small e
    → length (content e) < 2 ^ 32
    → read_tlv (record { rest = encode e ++ r; off = off })
      ≡ done (t, content e) (record { rest = r; off = off + size e })
read_tlv-encode e t r off q h k =
    rw (← length-encode e h, encode_tlv e q h)
      (read_tlv-append_tlv t (content e) r off (Small-IsTag e q h) k)
