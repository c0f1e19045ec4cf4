-- ===== src/Sv/Pdus/Asdus.antt =====
-- sv/pdu.rs: the ASDUs that are written are read back.
use rs_iec.Common.{
  ==_iff, ℕ, ◌+◌, ◌%◌, ◌^◌, ◌≤◌, ◌<◌, ◌≡◌, refl, sym, ap, ◌∙◌, List, [], ◌∷◌, ◌++◌, Option, none,
  some, length, length-append, arith, zero, suc, All, IsU32,
}
use rs_iec.Asn1.Types.{context_primitive, tag_sequence}
use rs_iec.Asn1.Encode.{append_tlv}
use rs_iec.Asn1.Elements.{nil, child, prim, cons, size, sizes, encode}
use rs_iec.Asn1.Elements.Laws.{encodings, encode-primitive, encode-children, SmallAll, sizes_eq}
use rs_iec.Asn1.Integers.{decode_uint, push_uint}
use rs_iec.Asn1.Decoder.{Decoder, new, more}
use rs_iec.Asn1.Decoder.Fuel.{cursor}
use rs_iec.Mms.Times.{Time, utc_time}
use rs_iec.Mms.Codec.RoundTrip.{more-cursor, header_octets}
use rs_iec.Goose.Codec.{Parsed, done, or_text, and_then, be16}
use rs_iec.Goose.Codec.Fields.{expect-append_tlv}
use rs_iec.Goose.Codec.Written.{tlv}
use rs_iec.Sv.Pdus.{
  Asdu, SmpMod, be32, dat_set_content, refr_tm_content, smp_rate_content, smp_mod_content,
  push_some, fields, element, elements_of, be_u16, or_zero, last_of, time_of, quality_of, rate_of,
  mod_of, identity_of, parse_asdu, members,
}
use rs_iec.Sv.Pdus.Fields.{
  some_tlv, encodings-push_some, push_some-SmallAll, octets_of, sizes-push_some, nothing-Apart,
  tlv-Apart, some_tlv-Apart, expect_step, present_step, optional_step,
}

fields-SmallAll : (a : Asdu) → SmallAll (fields a)
unfolding fields prim
fields-SmallAll a = (
  omega arith,
  push_some-SmallAll 1 _ _ (omega arith) (
    omega arith,
    (
      omega arith,
      push_some-SmallAll 4 _ _ (omega arith) (
        omega arith,
        push_some-SmallAll 6 _ _ (omega arith) (
          omega arith,
          push_some-SmallAll 8 _ _ (omega arith) (push_some-SmallAll 9 _ _ (omega arith) tt),
        ),
      ),
    ),
  ),
)

-- The octets of an ASDU's fields in their order.
unfoldable written : Asdu → List ℕ
written a =
    tlv 0 a.sv_id
    ++ some_tlv 1 (dat_set_content a.dat_set) (
        tlv 2 (be16 a.smp_cnt)
        ++ (tlv 3 (be32 a.conf_rev)
            ++ some_tlv 4 (refr_tm_content a.refr_tm a.refr_tm_quality) (
                tlv 5 (a.smp_synch ∷ [])
                ++ some_tlv 6 (smp_rate_content a.smp_rate) (
                    tlv 7 a.sample
                    ++ some_tlv 8 (smp_mod_content a.smp_mod) (some_tlv 9 a.gm_identity [])))))

encodings-fields : (a : Asdu) → encodings (fields a) ≡ written a
unfolding fields prim written tlv
encodings-fields a = simp (encode-primitive, encodings-push_some)

-- What the octets say of an ASDU: the time as its eight octets hold it.
unfoldable pub received_asdu : Asdu → Asdu
received_asdu a = record a {
  refr_tm = time_of (refr_tm_content a.refr_tm a.refr_tm_quality);
  refr_tm_quality = quality_of (refr_tm_content a.refr_tm a.refr_tm_quality);
}

-- A clock identity has eight octets.
abbrev pub IsIdentity : Option (List ℕ) → Type 0
IsIdentity none = Unit {0}
IsIdentity (some b) = length b ≡ 8

module _ (lossy : List ℕ → List ℕ) where
  -- The texts of an ASDU are texts, and its numbers fit their types.
  pub record IsAsdu (a : Asdu) : Type 0 where
    pub sv_id : lossy a.sv_id ≡ a.sv_id
    pub dat_set : lossy a.dat_set ≡ a.dat_set
    pub smp_cnt : a.smp_cnt < 2 ^ 16
    pub conf_rev : IsU32 a.conf_rev
    pub smp_rate : a.smp_rate < 2 ^ 16
    pub gm_identity : IsIdentity a.gm_identity

-- What is written fits a `u16` of octets, so that everything in it does.
record Short (a : Asdu) : Type 0 where
  sv_id : length a.sv_id < 2 ^ 16
  dat_set : length (octets_of (dat_set_content a.dat_set)) < 2 ^ 16
  sample : length a.sample < 2 ^ 16
  gm_identity : length (octets_of a.gm_identity) < 2 ^ 16

fields-Short : (a : Asdu) → sizes (fields a) < 2 ^ 16 → Short a
unfolding fields prim sizes size
fields-Short a h =
    let after_mod = push_some 9 a.gm_identity nil in
    let after_sample = push_some 8 (smp_mod_content a.smp_mod) after_mod in
    let after_synch =
      push_some 6 (smp_rate_content a.smp_rate)
        (child (prim (context_primitive 7) a.sample) after_sample) in
    let after_rev =
      push_some 4 (refr_tm_content a.refr_tm a.refr_tm_quality)
        (child (prim (context_primitive 5) (a.smp_synch ∷ [])) after_synch) in
    let after_id =
      child (prim (context_primitive 2) (be16 a.smp_cnt))
        (child (prim (context_primitive 3) (be32 a.conf_rev)) after_rev) in
    let id = sizes-push_some 9 a.gm_identity nil in
    let mode = sizes-push_some 8 (smp_mod_content a.smp_mod) after_mod in
    let rate =
      sizes-push_some 6 (smp_rate_content a.smp_rate)
        (child (prim (context_primitive 7) a.sample) after_sample) in
    let stamp =
      sizes-push_some 4 (refr_tm_content a.refr_tm a.refr_tm_quality)
        (child (prim (context_primitive 5) (a.smp_synch ∷ [])) after_synch) in
    let set = sizes-push_some 1 (dat_set_content a.dat_set) after_id in
    record {
      sv_id = omega (arith, h);
      dat_set = omega (arith, h, set);
      sample = omega (arith, h, set, stamp, rate);
      gm_identity = omega (arith, h, set, stamp, rate, mode, id);
    }

be32_back : (n : ℕ) → n < 2 ^ 32 → or_zero (decode_uint (be32 n)) % 2 ^ 32 ≡ n
unfolding decode_uint push_uint
be32_back n h = omega (arith, h)

be16_back : (n : ℕ) → n < 2 ^ 16 → be_u16 (be16 n) ≡ n
unfolding be_u16
be16_back n h = omega (arith, h)

rate_back : (n : ℕ) → n < 2 ^ 16 → rate_of (smp_rate_content n) ≡ n
unfolding be_u16
rate_back n h = ground (arith, h)

mod_back : (m : Option SmpMod) → mod_of (smp_mod_content m) ≡ m
unfolding be_u16
mod_back none = refl
mod_back (some SmpMod.smp_per_period) = refl
mod_back (some SmpMod.smp_per_sec) = refl
mod_back (some SmpMod.sec_per_smp) = refl

rate_short : (n : ℕ) → length (octets_of (smp_rate_content n)) ≤ 2
rate_short n = ground arith

mod_short : (m : Option SmpMod) → length (octets_of (smp_mod_content m)) ≤ 2
mod_short none = omega arith
mod_short (some m) = omega arith

time_short : (t : Option Time) (q : Option ℕ) → length (octets_of (refr_tm_content t q)) ≤ 8
unfolding utc_time
time_short none q = omega arith
time_short (some t) q = omega arith

pub elements_of-SmallAll : (asdus : List Asdu) → SmallAll (elements_of asdus)
unfolding elements_of element cons
elements_of-SmallAll [] = tt
elements_of-SmallAll (a ∷ more_asdus) =
    ((omega arith, fields-SmallAll a), elements_of-SmallAll more_asdus)

asdu_octets : (a : Asdu) → encode (element a) ≡ append_tlv [] tag_sequence (written a)
unfolding element cons
asdu_octets a =
    encode-children tag_sequence (fields a) (fields-SmallAll a)
    ∙ ap (append_tlv [] tag_sequence) (encodings-fields a)

written_length : (a : Asdu) → length (written a) ≡ sizes (fields a)
written_length a = sym (ap length (encodings-fields a)) ∙ sizes_eq (fields a) (fields-SmallAll a)

unfoldable pub received_asdus : List Asdu → List Asdu
received_asdus [] = []
received_asdus (a ∷ more_asdus) = received_asdu a ∷ received_asdus more_asdus

module _ (lossy : List ℕ → List ℕ) where
  text_back : (text : List ℕ) → lossy text ≡ text → or_text lossy (dat_set_content text) ≡ text
  text_back [] h = refl
  text_back (x ∷ xs) h = h

  identity_step :
      {B : Type 0} (P : Parsed B → Type 0) (gm : Option (List ℕ)) (d : Decoder)
      (f : Option (List ℕ) → Decoder → Parsed B)
      → IsIdentity gm
      → P (f gm d)
      → P (and_then (identity_of gm d) f)
  unfolding identity_of
  identity_step P none d f h next = next
  identity_step P (some b) d f h next = rw ((==_iff (length b) 8).1 h) next

  Reads : Asdu → Parsed Asdu → Type 0
  Reads a p = (o : ℕ) × (p ≡ done (received_asdu a) (cursor [] o))

  asdu_back :
      (a : Asdu)
      → IsAsdu lossy a
      → sizes (fields a) < 2 ^ 16
      → Reads a (parse_asdu lossy (written a))
  unfolding parse_asdu written new last_of received_asdu Reads
  asdu_back a h s =
      let P = Reads a in
      let short = fields-Short a s in
      expect_step P _ 0 0 a.sv_id _ (omega arith) (omega (arith, short.sv_id)) λ o1.
        optional_step P _ o1 1 (dat_set_content a.dat_set) _ (omega arith)
          (omega (arith, short.dat_set)) (tlv-Apart 1 2 _ _ (omega arith) (omega arith))
          λ o2. expect_step P _ o2 2 (be16 a.smp_cnt) _ (omega arith) (omega arith) λ o3.
            expect_step P _ o3 3 (be32 a.conf_rev) _ (omega arith) (omega arith) λ o4.
              optional_step P _ o4 4 (refr_tm_content a.refr_tm a.refr_tm_quality) _ (omega arith)
                (omega (arith, time_short a.refr_tm a.refr_tm_quality))
                (tlv-Apart 4 5 _ _ (omega arith) (omega arith))
                λ o5. present_step P _ o5 5 (a.smp_synch ∷ []) _ (omega arith) (omega arith) λ o6.
                  optional_step P _ o6 6 (smp_rate_content a.smp_rate) _ (omega arith)
                    (omega (arith, rate_short a.smp_rate))
                    (tlv-Apart 6 7 _ _ (omega arith) (omega arith))
                    λ o7.
                      expect_step P _ o7 7 a.sample _ (omega arith) (omega (arith, short.sample))
                        λ o8.
                          optional_step P _ o8 8 (smp_mod_content a.smp_mod) _ (omega arith)
                            (omega (arith, mod_short a.smp_mod))
                            (some_tlv-Apart 8 9 a.gm_identity [] (omega arith) (omega arith)
                              (nothing-Apart 8))
                            λ o9.
                              optional_step P _ o9 9 a.gm_identity _ (omega arith)
                                (omega (arith, short.gm_identity)) (nothing-Apart 9)
                                λ o10.
                                  identity_step P a.gm_identity (cursor [] o10) _ h.gm_identity (
                                    o10,
                                    rw
                                        (
                                          h.sv_id,
                                          text_back a.dat_set h.dat_set,
                                          be16_back a.smp_cnt h.smp_cnt,
                                          be32_back a.conf_rev h.conf_rev,
                                          rate_back a.smp_rate h.smp_rate,
                                          mod_back a.smp_mod,
                                        )
                                        refl,
                                  )

  pub members_from :
      (asdus : List Asdu) (fuel off : ℕ)
      → All (IsAsdu lossy) asdus
      → sizes (elements_of asdus) < 2 ^ 16
      → length (encodings (elements_of asdus)) < fuel
      → (o : ℕ) × (members lossy fuel (cursor (encodings (elements_of asdus)) off)
          ≡ done (received_asdus asdus) (cursor [] o))
  unfolding members elements_of received_asdus more Reads sizes size element cons
  members_from asdus zero off h s k = absurd (omega (arith, k))
  members_from [] (suc fuel) off h s k = (off, refl)
  members_from (a ∷ more_asdus) (suc fuel) off h s k =
      let r = encodings (elements_of more_asdus) in
      let octets = append_tlv [] tag_sequence (written a) in
      let small : sizes (fields a) < 2 ^ 16 = omega (arith, s) in
      let two = header_octets tag_sequence (written a) (omega arith) in
      let (o, rest) =
        members_from more_asdus fuel (off + length octets) h.1 (omega (arith, s)) (
          omega (arith, k, two, ap length (asdu_octets a), length-append (encode (element a)) r)) in
      let (o', one) = asdu_back a h.0 small in
      (
        o,
        rw
            (
              asdu_octets a,
              more-cursor (octets ++ r) off (omega (arith, two, length-append octets r)),
              expect-append_tlv tag_sequence (written a) r off (omega arith)
                  (omega (arith, small, written_length a)),
              one,
              rest,
            )
            refl,
      )
