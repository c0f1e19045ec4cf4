-- ===== src/Tests/Frames.antt =====
-- goose/message.rs at a concrete message.
use rs_iec.Common.{
  ℕ, ◌+◌, ◌<◌, ◌^◌, ◌≡◌, refl, List, [], ◌∷◌, ◌++◌, false, none, some, replicate, arith, pos,
}
use rs_iec.Asn1.BitStrings.{append_bit_string}
use rs_iec.Asn1.BitStrings.Laws.{IsPacked}
use rs_iec.Asn1.Elements.{encode, size, sizes, append, prim, cons}
use rs_iec.Asn1.Encode.{tag_size, length_size, append_tag, append_length}
use rs_iec.Asn1.Integers.{
  append_int, append_uint, int_size, uint_size, int_octets, uint_octets, octet, uint_octet,
  bool_content,
}
use rs_iec.Mms.Values.Value.{bit_string, unsigned}
use rs_iec.Mms.Codec.{data_element}
use rs_iec.Mms.Codec.RoundTrip.{height}
use rs_iec.Mms.Times.{utc_time}
use rs_iec.Goose.Codec.{Goose, elements_of, stamp, fields, pdu, marshal, parse, header_len, ok}
use rs_iec.Goose.Codec.RoundTrip.{IsSendable, received, parse-marshal}

abbrev same : ℕ → ℕ
same n = n

abbrev valid_text : List ℕ → List ℕ
valid_text octets = octets

-- A breaker's position with its quality, half a second after some second of the year 2026.
abbrev position : Goose
position = record {
  go_cb_ref = 103 ∷ 99 ∷ 98 ∷ [];
  dat_set = 100 ∷ 115 ∷ [];
  go_id = 101 ∷ [];
  time_allowed_to_live = 2000;
  t = some (record { secs = pos 1786838400; nanos = 500000000 });
  st_num = 7;
  sq_num = 3;
  conf_rev = 1;
  test = false;
  nds_com = false;
  num_dat_set_entries = 2;
  values = unsigned 2 ∷ bit_string (record { bits = 0 ∷ 0 ∷ []; length = 13 }) ∷ [];
  app_id = 4096;
  time_quality = none;
}

position-quality : IsPacked (record { bits = 0 ∷ 0 ∷ []; length = 13 })
position-quality = record { room = omega arith; octets = (omega arith, (omega arith, tt)) }

position-fits : header_len + size (pdu position) < 2 ^ 16
unfolding pdu fields elements_of stamp utc_time data_element size sizes prim cons append_uint
    append_bit_string uint_size uint_octets uint_octet tag_size length_size bool_content
position-fits = omega arith

position-IsSendable : IsSendable valid_text same same position
unfolding data_element encode append prim cons append_int append_uint append_bit_string int_size
    uint_size int_octets uint_octets octet uint_octet append_tag append_length sizes tag_size
    length_size height
position-IsSendable = record {
  go_cb_ref = refl;
  dat_set = refl;
  go_id = refl;
  time_allowed_to_live = omega arith;
  st_num = omega arith;
  sq_num = omega arith;
  conf_rev = omega arith;
  num_dat_set_entries = omega arith;
  app_id = omega arith;
  values = (omega arith, ((position-quality, omega arith, omega arith), tt));
  flat = (omega arith, (omega arith, tt));
  fits = position-fits;
}

parse-marshal_example :
    parse valid_text same same (marshal position ++ replicate 32 0) ≡ ok (received position)
parse-marshal_example =
    parse-marshal valid_text same same position (replicate 32 0) position-IsSendable
