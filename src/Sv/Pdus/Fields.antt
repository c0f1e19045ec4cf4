-- ===== src/Sv/Pdus/Fields.antt =====
-- sv/pdu.rs: each field is read from the octets that were written for it, or known to be absent.
use rs_iec.Common.{
  ℕ, ◌+◌, ◌^◌, ◌≤◌, ◌<◌, ◌≡◌, ◌≢◌, refl, false, List, [], ◌++◌, Option, none, some, length,
  length-append, arith,
}
use rs_iec.Asn1.Types.{tag_eq, context_primitive}
use rs_iec.Asn1.Encode.{append_tlv}
use rs_iec.Asn1.Elements.{Elements, prim, sizes, size}
use rs_iec.Asn1.Elements.Laws.{encodings, encode-primitive, SmallAll}
use rs_iec.Asn1.Decoder as Decoder
use rs_iec.Asn1.Decoder.{Decoder, more, peek, expect, optional}
use rs_iec.Asn1.Decoder.Fuel.{cursor}
use rs_iec.Mms.Codec.RoundTrip.{more-cursor, header_octets}
use rs_iec.Goose.Codec.{Parsed, and_then, lift}
use rs_iec.Goose.Codec.Fields.{expect-append_tlv, optional-append_tlv, peek-append_tlv, Later}
use rs_iec.Goose.Codec.Written.{tlv}
use rs_iec.Sv.Pdus.{push_some}

-- The octets of a field that may be absent, before what follows.
unfoldable pub some_tlv : ℕ → Option (List ℕ) → List ℕ → List ℕ
some_tlv n none r = r
some_tlv n (some content) r = tlv n content ++ r

pub encodings-push_some :
    (n : ℕ) (c : Option (List ℕ)) (es : Elements)
    → encodings (push_some n c es) ≡ some_tlv n c (encodings es)
unfolding push_some some_tlv tlv prim
encodings-push_some n none es = refl
encodings-push_some n (some content) es = rw (encode-primitive (context_primitive n) content) refl

pub push_some-SmallAll :
    (n : ℕ) (c : Option (List ℕ)) (es : Elements)
    → n < 2 ^ 28
    → SmallAll es
    → SmallAll (push_some n c es)
unfolding push_some prim
push_some-SmallAll n none es k h = h
push_some-SmallAll n (some content) es k h = (k, h)

abbrev pub octets_of : Option (List ℕ) → List ℕ
octets_of none = []
octets_of (some content) = content

pub sizes-push_some :
    (n : ℕ) (c : Option (List ℕ)) (es : Elements)
    → length (octets_of c) + sizes es ≤ sizes (push_some n c es)
unfolding push_some prim sizes size
sizes-push_some n none es = omega arith
sizes-push_some n (some content) es = omega arith

-- No field of this tag is next.
abbrev pub Apart : ℕ → List ℕ → Type 0
Apart n r =
    (off : ℕ) → optional (context_primitive n) (cursor r off) ≡ Decoder.Out.done none (cursor r off)

pub nothing-Apart : (n : ℕ) → Apart n []
unfolding optional more
nothing-Apart n off = refl

tag_eq-apart : (n m : ℕ) → n ≢ m → tag_eq (context_primitive m) (context_primitive n) ≡ false
tag_eq-apart n m h = ground arith

pub tlv-Apart : (n m : ℕ) (content r : List ℕ) → n ≢ m → m < 2 ^ 28 → Apart n (tlv m content ++ r)
unfolding optional tlv
tlv-Apart n m content r h k off =
    let octets = append_tlv [] (context_primitive m) content in
    rw
      (
        more-cursor (octets ++ r) off
            (omega (arith, length-append octets r, header_octets (context_primitive m) content k)),
        peek-append_tlv (context_primitive m) content r off (omega (arith, k)),
        tag_eq-apart n m h,
      )
      refl

pub some_tlv-Apart :
    (n m : ℕ) (c : Option (List ℕ)) (r : List ℕ)
    → n ≢ m
    → m < 2 ^ 28
    → Apart n r
    → Apart n (some_tlv m c r)
unfolding some_tlv
some_tlv-Apart n m none r h k a = a
some_tlv-Apart n m (some content) r h k a = tlv-Apart n m content r h k

module _ {B : Type 0} (P : Parsed B → Type 0) (r : List ℕ) (off : ℕ) where
  pub expect_step :
      (n : ℕ) (content : List ℕ) (f : List ℕ → Decoder → Parsed B)
      → n < 2 ^ 28
      → length content < 2 ^ 32
      → Later P r off f content
      → P (and_then (lift (expect (context_primitive n) (cursor (tlv n content ++ r) off))) f)
  unfolding tlv
  expect_step n content f h k next =
      rw (expect-append_tlv (context_primitive n) content r off (omega (arith, h)) k) (next _)

  pub present_step :
      (n : ℕ) (content : List ℕ) (f : Option (List ℕ) → Decoder → Parsed B)
      → n < 2 ^ 28
      → length content < 2 ^ 32
      → Later P r off f (some content)
      → P (and_then (lift (optional (context_primitive n) (cursor (tlv n content ++ r) off))) f)
  unfolding tlv
  present_step n content f h k next =
      rw (optional-append_tlv (context_primitive n) content r off h k) (next _)

  pub optional_step :
      (n : ℕ) (c : Option (List ℕ)) (f : Option (List ℕ) → Decoder → Parsed B)
      → n < 2 ^ 28
      → length (octets_of c) < 2 ^ 32
      → Apart n r
      → Later P r off f c
      → P (and_then (lift (optional (context_primitive n) (cursor (some_tlv n c r) off))) f)
  unfolding some_tlv
  optional_step n none f h k a next = rw (a off) (next off)
  optional_step n (some content) f h k a next = present_step n content f h k next
