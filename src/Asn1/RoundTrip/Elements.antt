-- ===== src/Asn1/RoundTrip/Elements.antt =====
-- The length octets and whole elements: the decoder reads back what the encoder writes, and the
-- sizes that the encoder computes are those of the octets it writes.
use rs_iec.Asn1.RoundTrip.Tags.{append_tag-append, length-append_tag, read_tag-append_tag}
use rs_iec.Common.{
  ℕ, ◌+◌, ◌^◌, ◌≤◌, ◌<◌, ◌≡◌, refl, ap, ◌∙◌, false, ltb, List, [], ◌++◌, length, length-append,
  arith, append_assoc, take_all, drop_all, lt→ltb, le→ltb-false,
}
use native.Mathlib.Nat.{add-zero}
use native.Mathlib.Numerals.{add-one}
use rs_iec.Asn1.Types.{Tag, IsTag, max_depth}
use rs_iec.Asn1.Encode.{append_tag, append_length, append_tlv, tag_size, length_size, tlv_size}
use rs_iec.Asn1.Decoder.{
  Decoder, Out, done, length_octets, read_length, read_element, definite_content, read_tlv_at,
  read_tlv,
}

pub append_length-append : (dst : List ℕ) (n : ℕ) → append_length dst n ≡ dst ++ append_length [] n
unfolding append_length
append_length-append dst n = ground arith

-- `append_length` writes the number of octets that `length_size` says.
pub length-append_length : (n : ℕ) → length (append_length [] n) ≡ length_size n
unfolding append_length length_size
length-append_length n = ground arith

pub read_length-append_length :
    (n : ℕ) (r : List ℕ) (off : ℕ)
    → n < 2 ^ 32
    → read_length (record { rest = append_length [] n ++ r; off = off })
      ≡ done (n, false) (record { rest = r; off = off + length (append_length [] n) })
unfolding append_length read_length length_octets
read_length-append_length n r off h = ground arith

pub append_tlv-append :
    (dst : List ℕ) (t : Tag) (content : List ℕ)
    → append_tlv dst t content ≡ dst ++ append_tlv [] t content
unfolding append_tlv
append_tlv-append dst t content = simp (
  append_tag-append dst t,
  append_length-append (dst ++ append_tag [] t) (length content),
  append_length-append (append_tag [] t) (length content),
  append_assoc,
)

-- The octets of an element are as many as `tlv_size` says, for a tag number below 2 ^ 28.
pub length-append_tlv :
    (t : Tag) (content : List ℕ)
    → t.number < 2 ^ 28
    → length (append_tlv [] t content) ≡ tlv_size t (length content)
unfolding append_tlv tlv_size
length-append_tlv t content h = rw (append_length-append (append_tag [] t) (length content)) (
    omega (
      arith,
      length-append (append_tag [] t ++ append_length [] (length content)) content,
      length-append (append_tag [] t) (append_length [] (length content)),
      length-append_length (length content),
      small,
    ))
  where
    small : length (append_tag [] t) ≡ tag_size t
    small = length-append_tag t (omega arith) ∙ rw (lt→ltb t.number (2 ^ 28) h) (add-zero _)

definite_content-append :
    (t : Tag) (content r : List ℕ) (off : ℕ)
    → definite_content t (length content) (record { rest = content ++ r; off = off })
      ≡ done (t, content) (record { rest = r; off = off + length content })
unfolding definite_content
definite_content-append t content r off = rw (not_short, take_all, drop_all)
  where
    not_short : ltb (length (content ++ r)) (length content) ≡ false
    not_short = le→ltb-false _ _ (omega (arith, length-append content r))

pub tlv_octets :
    (t : Tag) (content r : List ℕ)
    → append_tlv [] t content ++ r
      ≡ append_tag [] t ++ (append_length [] (length content) ++ (content ++ r))
unfolding append_tlv
tlv_octets t content r =
    ap (λ x. x ++ content ++ r) (append_length-append (append_tag [] t) (length content))
    ∙ append_assoc (append_tag [] t ++ append_length [] (length content)) content r
    ∙ append_assoc (append_tag [] t) (append_length [] (length content)) (content ++ r)

length-tlv_octets :
    (t : Tag) (content : List ℕ)
    → length (append_tlv [] t content)
      ≡ length (append_tag [] t) + length (append_length [] (length content)) + length content
unfolding append_tlv
length-tlv_octets t content =
    rw (append_length-append (append_tag [] t) (length content))
      (rw (length-append, length-append) refl)

read_element-append_tlv :
    (depth : ℕ) (scan : Tag → Decoder → Out (Tag × List ℕ)) (t : Tag) (content r : List ℕ) (off : ℕ)
    → depth ≤ 64
    → IsTag t
    → length content < 2 ^ 32
    → read_element depth scan (record { rest = append_tlv [] t content ++ r; off = off })
      ≡ done (t, content) (record { rest = r; off = off + length (append_tlv [] t content) })
unfolding read_element
read_element-append_tlv depth scan t content r off d h k =
    rw
      (
        tlv_octets t content r,
        le→ltb-false max_depth depth d,
        read_tag-append_tag t (append_length [] (length content) ++ (content ++ r)) off h,
        read_length-append_length (length content) (content ++ r) (off + length (append_tag [] t))
            k,
        definite_content-append t content r,
      )
      (ap (λ k. done (t, content) (record { rest = r; off = k }))
        (omega (arith, length-tlv_octets t content)))

-- `read_tlv` reads back the element that `append_tlv` wrote, whatever follows it: the tag, the
-- content, and a cursor just behind the element. The content is shorter than 2 ^ 32 octets.
pub read_tlv-append_tlv :
    (t : Tag) (content r : List ℕ) (off : ℕ)
    → IsTag t
    → length content < 2 ^ 32
    → read_tlv (record { rest = append_tlv [] t content ++ r; off = off })
      ≡ done (t, content) (record { rest = r; off = off + length (append_tlv [] t content) })
unfolding read_tlv read_tlv_at
read_tlv-append_tlv t content r off h k =
    rw add-one (read_element-append_tlv 0 _ t content r off (omega arith) h k)
