-- ===== src/Goose/Codec/Fields.antt =====
-- goose/message.rs: each field is read from the octets that were written for it.
use rs_iec.Common.{
  ==_iff, le→ltb-false, ℕ, ◌+◌, ◌-◌, ◌^◌, ◌<◌, ◌≡◌, refl, ap, ◌∙◌, Bool, true, false, List, [],
  ◌++◌, some, length, length-append, arith,
}
use rs_iec.Asn1.Types as Types
use rs_iec.Asn1.Types.{Tag, IsTag, tag_eq, tag_eq_iff, context_primitive, context_constructed}
use rs_iec.Asn1.Encode.{append_tlv, append_length}
use rs_iec.Asn1.RoundTrip.Elements.{read_tlv-append_tlv, tlv_octets}
use rs_iec.Asn1.RoundTrip.Tags.{read_tag-append_tag}
use rs_iec.Asn1.Integers.{append_uint, bool_content, decode_bool}
use rs_iec.Asn1.Integers.Unsigned.{decode_uint-append_uint}
use rs_iec.Asn1.Decoder as Decoder
use rs_iec.Asn1.Decoder.{Decoder, new, more, peek, read_tag, read_tlv, expect, optional}
use rs_iec.Asn1.Decoder.Fuel.{cursor}
use rs_iec.Mms.Codec.Scalars.{length-append_uint}
use rs_iec.Mms.Codec.RoundTrip.{more-cursor, header_octets}
use rs_iec.Goose.Codec.{
  Parsed, and_then, uint32_field, bool_field, time_field, string_field, id_field,
}

-- The cursor behind an element.
abbrev pub behind : Tag → List ℕ → List ℕ → ℕ → Decoder
behind t content r off = cursor r (off + length (append_tlv [] t content))

pub expect-append_tlv :
    (t : Tag) (content r : List ℕ) (off : ℕ)
    → IsTag t
    → length content < 2 ^ 32
    → expect t (cursor (append_tlv [] t content ++ r) off)
      ≡ Decoder.Out.done content (behind t content r off)
unfolding expect
expect-append_tlv t content r off h k =
    rw (read_tlv-append_tlv t content r off h k, (tag_eq_iff t t).1 refl) refl

pub peek-append_tlv :
    (t : Tag) (content r : List ℕ) (off : ℕ)
    → IsTag t
    → peek (cursor (append_tlv [] t content ++ r) off)
      ≡ Decoder.Out.done t (cursor (append_tlv [] t content ++ r) off)
unfolding peek
peek-append_tlv t content r off h = ap (seen (cursor (append_tlv [] t content ++ r) off)) (
    ap (λ x. read_tag (cursor x off)) (tlv_octets t content r)
    ∙ read_tag-append_tag t (append_length [] (length content) ++ (content ++ r)) off h)
  where
    seen : Decoder → Decoder.Out Tag → Decoder.Out Tag
    seen d o = elim o [
      | Decoder.Out.done got _ ↦ Decoder.Out.done got d
      | Decoder.Out.fail e _ ↦ Decoder.Out.fail e d
      | Decoder.Out.stuck ↦ Decoder.Out.stuck
    ]

pub optional-append_tlv :
    (t : Tag) (content r : List ℕ) (off : ℕ)
    → t.number < 2 ^ 28
    → length content < 2 ^ 32
    → optional t (cursor (append_tlv [] t content ++ r) off)
      ≡ Decoder.Out.done (some content) (behind t content r off)
unfolding optional
optional-append_tlv t content r off h k =
    rw
      (
        more-cursor (append_tlv [] t content ++ r) off
            (omega (arith, length-append (append_tlv [] t content) r, header_octets t content h)),
        peek-append_tlv t content r off (omega (arith, h)),
        (tag_eq_iff t t).1 refl,
        read_tlv-append_tlv t content r off (omega (arith, h)) k,
      )
      refl

flag_short : (v : Bool) → length (bool_content v) < 2 ^ 32
unfolding bool_content
flag_short true = omega arith
flag_short false = omega arith

flag_back : (v : Bool) → decode_bool (bool_content v) ≡ Types.Result.ok v
unfolding decode_bool bool_content
flag_back true = refl
flag_back false = refl

module _ {B : Type 0} (P : Parsed B → Type 0) (r : List ℕ) (off : ℕ) where
  -- What comes after a field, whatever the offset.
  abbrev pub Later : {A : Type 0} → (A → Decoder → Parsed B) → A → Type 0
  Later f a = (o : ℕ) → P (f a (cursor r o))

  pub text_step :
      (lossy : List ℕ → List ℕ) (tag : ℕ) (text : List ℕ) (f : List ℕ → Decoder → Parsed B)
      → tag < 2 ^ 28
      → length text < 2 ^ 32
      → lossy text ≡ text
      → Later f text
      → P (
          and_then
            (string_field lossy tag (cursor (append_tlv [] (context_primitive tag) text ++ r) off))
            f)
  unfolding string_field
  text_step lossy tag text f h k valid next =
      rw (expect-append_tlv (context_primitive tag) text r off (omega (arith, h)) k, valid) (next _)

  pub id_step :
      (lossy : List ℕ → List ℕ) (text : List ℕ) (f : List ℕ → Decoder → Parsed B)
      → length text < 2 ^ 32
      → lossy text ≡ text
      → Later f text
      → P (and_then (id_field lossy (cursor (append_tlv [] (context_primitive 3) text ++ r) off)) f)
  unfolding id_field
  id_step lossy text f k valid next =
      rw (optional-append_tlv (context_primitive 3) text r off (omega arith) k, valid) (next _)

  pub uint_step :
      (tag v : ℕ) (f : ℕ → Decoder → Parsed B)
      → tag < 2 ^ 28
      → v < 2 ^ 32
      → Later f v
      → P (
          and_then
            (uint32_field tag
              (cursor (append_tlv [] (context_primitive tag) (append_uint [] v) ++ r) off))
            f)
  unfolding uint32_field
  uint_step tag v f h k next =
      rw
        (
          expect-append_tlv (context_primitive tag) (append_uint [] v) r off (omega (arith, h))
              (omega (arith, length-append_uint v (omega (arith, k)))),
          decode_uint-append_uint v (omega (arith, k)),
          le→ltb-false (2 ^ 32 - 1) v (omega (arith, k)),
        )
        (next _)

  pub bool_step :
      (tag : ℕ) (v : Bool) (f : Bool → Decoder → Parsed B)
      → tag < 2 ^ 28
      → Later f v
      → P (
          and_then
            (bool_field tag
              (cursor (append_tlv [] (context_primitive tag) (bool_content v) ++ r) off))
            f)
  unfolding bool_field
  bool_step tag v f h next =
      rw
        (
          optional-append_tlv (context_primitive tag) (bool_content v) r off h (flag_short v),
          flag_back v,
        )
        (next _)

  pub time_step :
      (octets : List ℕ) (f : List ℕ → Decoder → Parsed B)
      → length octets ≡ 8
      → Later f octets
      → P (and_then (time_field (cursor (append_tlv [] (context_primitive 4) octets ++ r) off)) f)
  unfolding time_field
  time_step octets f h next =
      rw
        (
          expect-append_tlv (context_primitive 4) octets r off (omega arith) (omega (arith, h)),
          (==_iff (length octets) 8).1 h,
        )
        (next _)
