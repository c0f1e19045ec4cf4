-- ===== src/Sv/Pdus/RoundTrip.antt =====
-- sv/pdu.rs: an APDU that is written is read back.
use rs_iec.Common.{
  ℕ, ◌+◌, ◌*◌, ◌%◌, ◌^◌, ◌<◌, ◌≡◌, refl, sym, ap, ◌∙◌, List, [], ◌∷◌, ◌++◌, length, append-nil,
  arith, All, take_all, replicate,
}
use rs_iec.Asn1.Types.{context_primitive, context_constructed, application_constructed}
use rs_iec.Asn1.Encode.{append_tlv}
use rs_iec.Asn1.Elements.{Elements, nil, child, prim, cons, size, sizes, encode}
use rs_iec.Asn1.Elements.Laws.{
  encodings, append-encode, encode-primitive, encode-children, length-encode, sizes_eq, SmallAll,
}
use rs_iec.Asn1.Integers.{append_uint}
use rs_iec.Asn1.Decoder.{new}
use rs_iec.Goose.Codec.{Parsed, ok, finish, be16, header_len}
use rs_iec.Goose.Codec.Fields.{expect-append_tlv}
use rs_iec.Goose.Codec.Written.{tlv, eight_more, long_enough, header_checks}
use rs_iec.Sv.Pdus.{Pdu, elements_of, sav, marshal, parse_sav, parse}
use rs_iec.Sv.Pdus.Fields.{expect_step}
use rs_iec.Sv.Pdus.Asdus.{IsAsdu, elements_of-SmallAll, members_from, received_asdus}

-- The octets of the PDU's content.
unfoldable written : Pdu → List ℕ
written p =
    tlv 0 (append_uint [] (length p.asdus))
    ++ (append_tlv [] (context_constructed 2) (encodings (elements_of p.asdus)) ++ [])

-- The elements of the PDU.
abbrev parts : Pdu → Elements
parts p =
    child (prim (context_primitive 0) (append_uint [] (length p.asdus)))
      (child (cons (context_constructed 2) (elements_of p.asdus)) nil)

parts-SmallAll : (p : Pdu) → SmallAll (parts p)
unfolding cons prim
parts-SmallAll p = (omega arith, ((omega arith, elements_of-SmallAll p.asdus), tt))

parts_octets : (p : Pdu) → encodings (parts p) ≡ written p
unfolding cons prim written tlv
parts_octets p =
    rw
      (encode-children (context_constructed 2) (elements_of p.asdus) (elements_of-SmallAll p.asdus))
      (simp encode-primitive)

sav_octets : (p : Pdu) → encode (sav p) ≡ append_tlv [] (application_constructed 0) (written p)
unfolding sav cons
sav_octets p =
    encode-children (application_constructed 0) (parts p) (parts-SmallAll p)
    ∙ ap (append_tlv [] (application_constructed 0)) (parts_octets p)

sav_length : (p : Pdu) → length (encode (sav p)) ≡ size (sav p)
unfolding sav cons
sav_length p = length-encode (sav p) (omega arith, parts-SmallAll p)

-- Everything in an APDU fits the 16-bit length field that the APDU fits.
record Sizes (p : Pdu) : Type 0 where
  whole : length (written p) < 2 ^ 16
  count : length (append_uint [] (length p.asdus)) < 2 ^ 16
  asdus : sizes (elements_of p.asdus) < 2 ^ 16
  content : length (encodings (elements_of p.asdus)) < 2 ^ 16

fits-Sizes : (p : Pdu) → header_len + size (sav p) < 2 ^ 16 → Sizes p
unfolding sav cons prim size
fits-Sizes p h = record {
  whole = omega (arith, h, ap length (parts_octets p), sizes_eq (parts p) (parts-SmallAll p));
  count = omega (arith, h);
  asdus = omega (arith, h);
  content = omega (arith, h, sizes_eq (elements_of p.asdus) (elements_of-SmallAll p.asdus));
}

-- The APDU as a receiver gets it: with the times that the octets hold.
unfoldable pub received : Pdu → Pdu
received p = record p { asdus = received_asdus p.asdus }

module _ (lossy : List ℕ → List ℕ) where
  -- What an APDU has to satisfy: its ASDUs are well formed, and it fits the 16-bit length field.
  pub record IsSendable (p : Pdu) : Type 0 where
    pub app_id : p.app_id < 2 ^ 16
    pub asdus : All (IsAsdu lossy) p.asdus
    pub fits : header_len + size (sav p) < 2 ^ 16

  IsReceived : Pdu → Parsed Pdu → Type 0
  IsReceived p r = finish r ≡ ok (received p)

  parse_sav-encode :
      (p : Pdu) → IsSendable p → IsReceived p (parse_sav lossy p.app_id (encode (sav p)))
  unfolding parse_sav new written IsReceived received
  parse_sav-encode p h =
      let s = fits-Sizes p h.fits in
      let whole =
        expect-append_tlv (application_constructed 0) (written p) [] 0 (omega arith)
          (omega (arith, s.whole)) in
      let (o, read) =
        members_from lossy p.asdus (length (encodings (elements_of p.asdus)) + 1) 0 h.asdus s.asdus
          (omega arith) in
      rw (sav_octets p ∙ sym (append-nil _), whole)
        (expect_step (IsReceived p) _ 0 0 (append_uint [] (length p.asdus)) _ (omega arith)
          (omega (arith, s.count))
          λ o1.
            rw
              (
                expect-append_tlv (context_constructed 2) (encodings (elements_of p.asdus)) [] o1
                    (omega arith) (omega (arith, s.content)),
                read,
              )
              refl)

  parse-header :
      (a b c d id : ℕ) (octets pad : List ℕ)
      → a * 256 + b ≡ id
      → c * 256 + d ≡ eight_more (length octets)
      → parse lossy (a ∷ b ∷ c ∷ d ∷ 0 ∷ 0 ∷ 0 ∷ 0 ∷ (octets ++ pad))
        ≡ finish (parse_sav lossy id octets)
  unfolding parse
  parse-header a b c d id octets pad same n =
      rw
        (
          long_enough (octets ++ pad),
          header_checks (c * 256 + d) pad octets n,
          n,
          same,
          take_all octets pad,
        )
        refl

  marshal-apdu :
      (p : Pdu) (pad : List ℕ)
      → marshal p ++ pad
        ≡ be16 p.app_id
          ++ (be16 ((header_len + size (sav p)) % 2 ^ 16)
              ++ (replicate 4 0 ++ (encode (sav p) ++ pad)))
  unfolding marshal
  marshal-apdu p pad =
      rw
        (append-encode (sav p)
          (be16 p.app_id ++ (be16 ((header_len + size (sav p)) % 2 ^ 16) ++ replicate 4 0)))
        refl

  -- `parse` reads back a sendable APDU from what `marshal` wrote, also with padding behind it: every
  -- ASDU with every field, the absent ones as absent, and a time as its eight octets hold it, with the
  -- quality that they carry. Sendable means: the whole APDU is shorter than 2^16 octets, the texts are
  -- left as they are by `from_utf8_lossy`, the numbers fit their types, and a clock identity has eight
  -- octets.
  pub parse-marshal_sav :
      (p : Pdu) (pad : List ℕ) → IsSendable p → parse lossy (marshal p ++ pad) ≡ ok (received p)
  unfolding IsReceived
  parse-marshal_sav p pad h =
      ap (parse lossy) (marshal-apdu p pad)
      ∙ parse-header _ _ _ _ p.app_id (encode (sav p)) pad (omega (arith, h.app_id))
          (omega (arith, h.fits, sav_length p))
      ∙ parse_sav-encode p h
