-- ===== src/Tests/Samples.antt =====
-- sv/ at concrete samples.
use rs_iec.Common.{
  ℕ, ◌+◌, ◌<◌, ◌^◌, ◌≡◌, refl, List, [], ◌∷◌, ◌++◌, none, some, replicate, arith, pos, All,
}
use rs_iec.Asn1.Elements.{size, sizes, prim, cons}
use rs_iec.Asn1.Encode.{tag_size, length_size}
use rs_iec.Asn1.Integers.{append_uint, uint_size, uint_octets, uint_octet}
use rs_iec.Mms.Times.{utc_time}
use rs_iec.Goose.Codec.{header_len, ok}
use rs_iec.Sv.Pdus.{
  Asdu, Pdu, smp_per_sec, marshal, parse, sav, elements_of, element, fields, push_some,
}
use rs_iec.Sv.Pdus.Asdus.{IsAsdu}
use rs_iec.Sv.Pdus.RoundTrip.{IsSendable, received, parse-marshal_sav}
use rs_iec.Sv.Subscribers.{Filter, run}
use rs_iec.Sv.Subscribers.Deliveries.{
  Traffic, sent, foreign, frames_of, Picked, published, IsTraffic, run-Picked,
}

abbrev valid_text : List ℕ → List ℕ
valid_text octets = octets

-- A sample with every field, and one with only those that have to be there.
abbrev full : Asdu
full = record {
  sv_id = 77 ∷ 85 ∷ [];
  dat_set = 80 ∷ [];
  smp_cnt = 3999;
  conf_rev = 1;
  refr_tm = some (record { secs = pos 1786838400; nanos = 500000000 });
  refr_tm_quality = some 10;
  smp_synch = 2;
  smp_rate = 4000;
  sample = 1 ∷ 2 ∷ 3 ∷ 4 ∷ [];
  smp_mod = some smp_per_sec;
  gm_identity = some (replicate 8 9);
}

abbrev bare : Asdu
bare = record {
  sv_id = 77 ∷ [];
  dat_set = [];
  smp_cnt = 0;
  conf_rev = 70000;
  refr_tm = none;
  refr_tm_quality = none;
  smp_synch = 0;
  smp_rate = 0;
  sample = [];
  smp_mod = none;
  gm_identity = none;
}

abbrev both : Pdu
both = record { app_id = 16384; asdus = full ∷ bare ∷ [] }

both-fits : header_len + size (sav both) < 2 ^ 16
unfolding sav elements_of element fields push_some utc_time size sizes prim cons append_uint
    uint_size uint_octets uint_octet tag_size length_size
both-fits = omega arith

full-IsAsdu : IsAsdu valid_text full
full-IsAsdu = record {
  sv_id = refl;
  dat_set = refl;
  smp_cnt = omega arith;
  conf_rev = omega arith;
  smp_rate = omega arith;
  gm_identity = refl;
}

bare-IsAsdu : IsAsdu valid_text bare
bare-IsAsdu = record {
  sv_id = refl;
  dat_set = refl;
  smp_cnt = omega arith;
  conf_rev = omega arith;
  smp_rate = omega arith;
  gm_identity = tt;
}

both-IsSendable : IsSendable valid_text both
both-IsSendable = record {
  app_id = omega arith;
  asdus = (full-IsAsdu, (bare-IsAsdu, tt));
  fits = both-fits;
}

parse-marshal_sav_example : parse valid_text (marshal both ++ replicate 4 0) ≡ ok (received both)
parse-marshal_sav_example = parse-marshal_sav valid_text both (replicate 4 0) both-IsSendable

-- One APDU between two frames of another protocol; the filter names the second stream.
abbrev segment : List Traffic
segment =
    foreign (record { ether_type = 2048; payload = 1 ∷ [] })
    ∷ sent both []
    ∷ foreign (record { ether_type = 35000; payload = [] })
    ∷ []

abbrev only_bare : Filter
only_bare = record { app_id = 0; sv_id = 77 ∷ [] }

segment-IsTraffic : All (IsTraffic valid_text) segment
segment-IsTraffic = (omega arith, (both-IsSendable, (omega arith, tt)))

run-Picked_example :
    Picked only_bare (published segment) (run valid_text only_bare (frames_of segment))
run-Picked_example = run-Picked valid_text only_bare segment segment-IsTraffic
