-- ===== src/Goose/Codec/RoundTrip.antt =====
-- goose/message.rs: a message that is written is read back.
use rs_iec.Common.{
  ℕ, ◌+◌, ◌*◌, ◌/◌, ◌%◌, ◌^◌, ◌≤◌, ◌<◌, ◌≡◌, refl, sym, ap, ◌∙◌, List, [], ◌∷◌, ◌++◌, Option, none,
  some, length, length-append, append-nil, arith, zero, suc, All, IsU32, take_all, replicate,
}
use rs_iec.Asn1.Types.{context_constructed, application_constructed}
use rs_iec.Asn1.Encode.{append_tlv}
use rs_iec.Asn1.Elements.{cons, size, encode}
use rs_iec.Asn1.Elements.Laws.{encodings, append-encode, encode-children, length-encode, sizes_eq}
use rs_iec.Asn1.Decoder as Decoder
use rs_iec.Asn1.Decoder.{Decoder, new, more, expect}
use rs_iec.Asn1.Decoder.Fuel.{cursor}
use rs_iec.Mms.Values.{Value}
use rs_iec.Mms.Codec.{encode_data}
use rs_iec.Mms.Codec.Scalars.{IsWritable}
use rs_iec.Mms.Codec.RoundTrip.{
  height, encodings-child_of, octets_of_value, more_values, decode_data-encode_data,
}
use rs_iec.Mms.Times.{Time, utc_time, time, time_quality}
use rs_iec.Goose.Codec.{
  Goose, elements_of, stamp, fields, pdu, be16, marshal, Parsed, done, and_then, lift, Result, ok,
  finish, members, all_data, parse_fields, parse, header_len,
}
use rs_iec.Goose.Codec.Fields.{
  expect-append_tlv, text_step, id_step, uint_step, bool_step, time_step,
}
use rs_iec.Goose.Codec.Written.{
  fields-SmallAll, tlv, written, encodings-fields, Sizes, fits-Sizes, eight_more, long_enough,
  header_checks,
}

stamp_length : (t : Option Time) (q : Option ℕ) → length (stamp t q) ≡ 8
unfolding stamp utc_time
stamp_length none q = refl
stamp_length (some t) q = refl

-- The message as a subscriber gets it: with the time that the octets hold.
unfoldable pub received : Goose → Goose
received m = record m {
  t = time (stamp m.t m.time_quality);
  time_quality = some (time_quality (stamp m.t m.time_quality));
}

module _ (lossy : List ℕ → List ℕ) (widen narrow : ℕ → ℕ) where
  -- What a message has to satisfy: its texts are texts, its numbers fit their types, its values are
  -- fit to be written and nested within the decoder's limit, and it fits the 16-bit length field.
  pub record IsSendable (m : Goose) : Type 0 where
    pub go_cb_ref : lossy m.go_cb_ref ≡ m.go_cb_ref
    pub dat_set : lossy m.dat_set ≡ m.dat_set
    pub go_id : lossy m.go_id ≡ m.go_id
    pub time_allowed_to_live : IsU32 m.time_allowed_to_live
    pub st_num : IsU32 m.st_num
    pub sq_num : IsU32 m.sq_num
    pub conf_rev : IsU32 m.conf_rev
    pub num_dat_set_entries : IsU32 m.num_dat_set_entries
    pub app_id : m.app_id < 2 ^ 16
    pub values : All (IsWritable widen narrow) m.values
    pub flat : All (λ v. height v ≤ 32) m.values
    pub fits : header_len + size (pdu m) < 2 ^ 16

  members_from :
      (vs : List Value) (fuel off : ℕ)
      → All (IsWritable widen narrow) vs
      → All (λ v. height v ≤ 32) vs
      → length (encodings (elements_of vs)) < fuel
      → (o : ℕ) × (members widen narrow fuel (cursor (encodings (elements_of vs)) off)
          ≡ done vs (cursor [] o))
  unfolding members elements_of more
  members_from vs zero off h flat k = absurd (omega (arith, k))
  members_from [] (suc fuel) off h flat k = (off, refl)
  members_from (v ∷ vs) (suc fuel) off h flat k =
      let octets = encodings-child_of v (elements_of vs) in
      let (o, rest) = members_from vs fuel (off + length (encode_data v)) h.1 flat.1 (
        omega (
          arith,
          k,
          ap length octets,
          length-append (encode_data v) (encodings (elements_of vs)),
          octets_of_value widen narrow v h.0,
        )) in
      (
        o,
        rw
            (
              octets,
              more_values widen narrow v (encodings (elements_of vs)) off h.0,
              decode_data-encode_data widen narrow v (encodings (elements_of vs)) off h.0 flat.0,
              rest,
            )
            refl,
      )

  values_step :
      {B : Type 0} (P : Parsed B → Type 0) (m : Goose) (off : ℕ)
      (f : List Value → Decoder → Parsed B)
      → IsSendable m
      → Sizes m
      → ((o : ℕ) → P (f m.values (cursor [] o)))
      → P (
          and_then
            (all_data widen narrow (
              cursor
                (append_tlv [] (context_constructed 11) (encodings (elements_of m.values)) ++ [])
                off))
            f)
  unfolding all_data new
  values_step P m off f h s next =
      let (o, read) =
        members_from m.values (length (encodings (elements_of m.values)) + 1) 0 h.values h.flat
          (omega arith) in
      rw
        (
          expect-append_tlv (context_constructed 11) (encodings (elements_of m.values)) [] off
              (omega arith) (omega (arith, s.values)),
          read,
        )
        (next _)

  IsReceived : Goose → Parsed Goose → Type 0
  IsReceived m p = finish p ≡ ok (received m)

  fields_back :
      (m : Goose)
      → IsSendable m
      → Sizes m
      → IsReceived m (parse_fields lossy widen narrow m.app_id (cursor (written m) 0))
  unfolding parse_fields written tlv IsReceived received
  fields_back m h s =
      let P = IsReceived m in
      text_step P _ 0 lossy 0 m.go_cb_ref _ (omega arith) (omega (arith, s.go_cb_ref)) h.go_cb_ref
        λ o1. uint_step P _ o1 1 m.time_allowed_to_live _ (omega arith) h.time_allowed_to_live λ o2.
          text_step P _ o2 lossy 2 m.dat_set _ (omega arith) (omega (arith, s.dat_set)) h.dat_set
            λ o3. id_step P _ o3 lossy m.go_id _ (omega (arith, s.go_id)) h.go_id λ o4.
              time_step P _ o4 (stamp m.t m.time_quality) _ (stamp_length m.t m.time_quality) λ o5.
                uint_step P _ o5 5 m.st_num _ (omega arith) h.st_num λ o6.
                  uint_step P _ o6 6 m.sq_num _ (omega arith) h.sq_num λ o7.
                    bool_step P _ o7 7 m.test _ (omega arith) λ o8.
                      uint_step P _ o8 8 m.conf_rev _ (omega arith) h.conf_rev λ o9.
                        bool_step P _ o9 9 m.nds_com _ (omega arith) λ o10.
                          uint_step P _ o10 10 m.num_dat_set_entries _ (omega arith)
                            h.num_dat_set_entries λ o11. values_step P m o11 _ h s λ o12. refl

pdu_octets : (m : Goose) → encode (pdu m) ≡ append_tlv [] (application_constructed 1) (written m)
unfolding pdu cons
pdu_octets m =
    encode-children (application_constructed 1) (fields m) (fields-SmallAll m)
    ∙ ap (append_tlv [] (application_constructed 1)) (encodings-fields m)

pdu_length : (m : Goose) → length (encode (pdu m)) ≡ size (pdu m)
unfolding pdu cons
pdu_length m = length-encode (pdu m) (omega arith, fields-SmallAll m)

-- The length field counts the header and the PDU.
announced : Goose → ℕ
announced m = (header_len + size (pdu m)) % 2 ^ 16

apdu : (m : Goose) (pad : List ℕ) → List ℕ
apdu m pad =
    (m.app_id / 256 % 256)
    ∷ (m.app_id % 256)
    ∷ (announced m / 256 % 256)
    ∷ (announced m % 256)
    ∷ 0
    ∷ 0
    ∷ 0
    ∷ 0
    ∷ (encode (pdu m) ++ pad)

marshal-apdu : (m : Goose) (pad : List ℕ) → marshal m ++ pad ≡ apdu m pad
unfolding marshal apdu announced
marshal-apdu m pad =
    rw
      (append-encode (pdu m)
        (be16 m.app_id ++ (be16 ((header_len + size (pdu m)) % 2 ^ 16) ++ replicate 4 0)))
      refl

written_short : (m : Goose) → Sizes m → length (written m) < 2 ^ 32
written_short m s =
    omega (arith, s.whole, ap length (encodings-fields m), sizes_eq (fields m) (fields-SmallAll m))

expect-pdu :
    (m : Goose)
    → Sizes m
    → (o : ℕ) × (expect (application_constructed 1) (new (encode (pdu m)))
        ≡ Decoder.Out.done (written m) (cursor [] o))
unfolding new
expect-pdu m s = (
  _,
  ap (λ x. expect (application_constructed 1) (cursor x 0)) (pdu_octets m ∙ sym (append-nil _))
      ∙ expect-append_tlv (application_constructed 1) (written m) [] 0 (omega arith)
          (written_short m s),
)

module _ (lossy : List ℕ → List ℕ) (widen narrow : ℕ → ℕ) where
  -- What `parse` does with the octets of the PDU.
  read_pdu : ℕ → List ℕ → Result Goose
  read_pdu app_id octets = finish (
      and_then (lift (expect (application_constructed 1) (new octets)))
        (λ content _. parse_fields lossy widen narrow app_id (new content)))

  read_pdu-encode :
      (m : Goose)
      → IsSendable lossy widen narrow m
      → read_pdu m.app_id (encode (pdu m)) ≡ ok (received m)
  unfolding read_pdu IsReceived new
  read_pdu-encode m h =
      let s = fits-Sizes m h.fits in
      let (o, e) = expect-pdu m s in rw e (fields_back lossy widen narrow m h s)

  parse-header :
      (a b c d id : ℕ) (octets pad : List ℕ)
      → a * 256 + b ≡ id
      → c * 256 + d ≡ eight_more (length octets)
      → parse lossy widen narrow (a ∷ b ∷ c ∷ d ∷ 0 ∷ 0 ∷ 0 ∷ 0 ∷ (octets ++ pad))
        ≡ read_pdu id octets
  unfolding parse read_pdu
  parse-header a b c d id octets pad same n =
      rw
        (
          long_enough (octets ++ pad),
          header_checks (c * 256 + d) pad octets n,
          n,
          same,
          take_all octets pad,
        )
        refl

  -- `parse` reads back a sendable message from what `marshal` wrote, also with padding behind it: every
  -- field, the values with all that they hold, and the time and its quality as the eight octets hold
  -- them. Sendable means: the whole APDU is shorter than 2^16 octets, the texts are left as they are by
  -- `from_utf8_lossy`, the numbers fit their types, and every value is well formed, so that none is
  -- left out, is nested at most 32 deep, and has floats that the conversions keep.
  pub parse-marshal :
      (m : Goose) (pad : List ℕ)
      → IsSendable lossy widen narrow m
      → parse lossy widen narrow (marshal m ++ pad) ≡ ok (received m)
  unfolding apdu announced
  parse-marshal m pad h =
      ap (parse lossy widen narrow) (marshal-apdu m pad)
      ∙ parse-header _ _ _ _ m.app_id (encode (pdu m)) pad (omega (arith, h.app_id))
          (omega (arith, h.fits, pdu_length m))
      ∙ read_pdu-encode m h
