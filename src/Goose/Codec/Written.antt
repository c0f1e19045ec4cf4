-- ===== src/Goose/Codec/Written.antt =====
-- goose/message.rs: the octets of a message, field by field, and their lengths.
use rs_iec.Common.{
  false, ltb, ◌||◌, length-append, suc, ℕ, ◌+◌, ◌^◌, ◌<◌, ◌≡◌, List, [], ◌∷◌, ◌++◌, length, arith,
}
use rs_iec.Asn1.Types.{context_primitive, context_constructed}
use rs_iec.Asn1.Encode.{append_tlv}
use rs_iec.Asn1.Elements.{prim, cons, size, sizes}
use rs_iec.Asn1.Elements.Laws.{encodings, encode-primitive, encode-children, SmallAll, sizes_eq}
use rs_iec.Asn1.Integers.{append_uint, bool_content}
use rs_iec.Mms.Values.{Value}
use rs_iec.Mms.Codec.{data_element}
use rs_iec.Mms.Codec.RoundTrip.{child_of-SmallAll, data_element-Small}
use rs_iec.Goose.Codec.{Goose, elements_of, stamp, fields, pdu, header_len}

elements_of-SmallAll : (vs : List Value) → SmallAll (elements_of vs)
unfolding elements_of
elements_of-SmallAll [] = tt
elements_of-SmallAll (v ∷ vs) =
    child_of-SmallAll (data_element v) (elements_of vs) (data_element-Small v)
      (elements_of-SmallAll vs)

pub fields-SmallAll : (m : Goose) → SmallAll (fields m)
unfolding fields prim cons
fields-SmallAll m = (
  omega arith,
  (
    omega arith,
    (
      omega arith,
      (
        omega arith,
        (
          omega arith,
          (
            omega arith,
            (
              omega arith,
              (
                omega arith,
                (
                  omega arith,
                  (omega arith, (omega arith, ((omega arith, elements_of-SmallAll m.values), tt))),
                ),
              ),
            ),
          ),
        ),
      ),
    ),
  ),
)

unfoldable pub tlv : ℕ → List ℕ → List ℕ
tlv n content = append_tlv [] (context_primitive n) content

-- The fields' octets in their order.
unfoldable pub written : Goose → List ℕ
written m =
    tlv 0 m.go_cb_ref
    ++ (tlv 1 (append_uint [] m.time_allowed_to_live)
        ++ (tlv 2 m.dat_set
            ++ (tlv 3 m.go_id
                ++ (tlv 4 (stamp m.t m.time_quality)
                    ++ (tlv 5 (append_uint [] m.st_num)
                        ++ (tlv 6 (append_uint [] m.sq_num)
                            ++ (tlv 7 (bool_content m.test)
                                ++ (tlv 8 (append_uint [] m.conf_rev)
                                    ++ (tlv 9 (bool_content m.nds_com)
                                        ++ (tlv 10 (append_uint [] m.num_dat_set_entries)
                                            ++ (append_tlv [] (context_constructed 11)
                                                  (encodings (elements_of m.values))
                                                ++ [])))))))))))

pub encodings-fields : (m : Goose) → encodings (fields m) ≡ written m
unfolding fields prim cons written tlv
encodings-fields m =
    rw
      (encode-children (context_constructed 11) (elements_of m.values)
        (elements_of-SmallAll m.values))
      (simp encode-primitive)

-- What is written fits a `u16` of octets, so that everything in it does.
pub record Sizes (m : Goose) : Type 0 where
  pub whole : sizes (fields m) < 2 ^ 16
  pub go_cb_ref : length m.go_cb_ref < 2 ^ 16
  pub dat_set : length m.dat_set < 2 ^ 16
  pub go_id : length m.go_id < 2 ^ 16
  pub values : length (encodings (elements_of m.values)) < 2 ^ 16

pub fits-Sizes : (m : Goose) → header_len + size (pdu m) < 2 ^ 16 → Sizes m
unfolding pdu cons size fields prim
fits-Sizes m h = record {
  whole = omega (arith, h);
  go_cb_ref = omega (arith, h);
  dat_set = omega (arith, h);
  go_id = omega (arith, h);
  values = omega (arith, h, sizes_eq (elements_of m.values) (elements_of-SmallAll m.values));
}

-- The header and what follows it.
abbrev pub eight_more : ℕ → ℕ
eight_more n = suc (suc (suc (suc (suc (suc (suc (suc n)))))))

pub long_enough : (octets : List ℕ) → ltb (eight_more (length octets)) 8 ≡ false
long_enough octets = ground arith

pub header_checks :
    (n : ℕ) (pad octets : List ℕ)
    → n ≡ eight_more (length octets)
    → (ltb n 8 || ltb (eight_more (length (octets ++ pad))) n) ≡ false
header_checks n pad octets h = ground (arith, h, length-append octets pad)
