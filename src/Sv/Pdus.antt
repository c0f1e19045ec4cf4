-- ===== src/Sv/Pdus.antt =====
-- sv/pdu.rs: the octets of a sampled-value APDU; `SmpMod` of model/nodes.rs. Every error is a text,
-- which is left out. `lossy` is the runtime's `from_utf8_lossy`.
pub mod Fields
pub mod Asdus
pub mod RoundTrip
use rs_iec.Common.{
  ℕ, ◌+◌, ◌-◌, ◌*◌, ◌/◌, ◌%◌, ◌^◌, ◌==◌, Bool, true, false, ltb, not, ◌||◌, if◌then◌else◌, List, [],
  ◌∷◌, ◌++◌, Option, none, some, length, take, drop, get_or, replicate, zero, suc,
}
use rs_iec.Asn1.Types as Types
use rs_iec.Asn1.Types.{
  Tag, context_primitive, context_constructed, application_constructed, tag_sequence,
}
use rs_iec.Asn1.Elements.{Element, Elements, nil, child, prim, cons, size, append}
use rs_iec.Asn1.Integers.{append_uint, decode_uint}
use rs_iec.Asn1.Decoder.{Decoder, new, more, expect, optional}
use rs_iec.Mms.Times.{Time, utc_time, time, time_quality}
use rs_iec.Goose.Codec.{
  Parsed, done, refused, stuck, and_then, lift, Result, ok, err, finish, be16, header_len,
  or_default_quality, or_text,
}

pub data SmpMod : Type 0 where
  smp_per_period smp_per_sec sec_per_smp : SmpMod

abbrev pub code : SmpMod → ℕ
code smp_per_period = 0
code smp_per_sec = 1
code sec_per_smp = 2

abbrev pub from_code : ℕ → SmpMod
from_code (suc zero) = smp_per_sec
from_code (suc (suc zero)) = sec_per_smp
from_code _ = smp_per_period

pub record Asdu : Type 0 where
  pub sv_id : List ℕ
  pub dat_set : List ℕ
  pub smp_cnt : ℕ
  pub conf_rev : ℕ
  pub refr_tm : Option Time
  pub refr_tm_quality : Option ℕ
  pub smp_synch : ℕ
  pub smp_rate : ℕ
  pub sample : List ℕ
  pub smp_mod : Option SmpMod
  pub gm_identity : Option (List ℕ)

pub record Pdu : Type 0 where
  pub app_id : ℕ
  pub asdus : List Asdu

-- `to_be_bytes` of a `u32`
abbrev pub be32 : ℕ → List ℕ
be32 n = (n / 2 ^ 24 % 256) ∷ (n / 2 ^ 16 % 256) ∷ (n / 2 ^ 8 % 256) ∷ (n % 256) ∷ []

-- The contents of the fields that may be absent.
abbrev pub dat_set_content : List ℕ → Option (List ℕ)
dat_set_content [] = none
dat_set_content (x ∷ xs) = some (x ∷ xs)

abbrev pub refr_tm_content : Option Time → Option ℕ → Option (List ℕ)
refr_tm_content none quality = none
refr_tm_content (some t) quality = some (utc_time t (or_default_quality quality))

abbrev pub smp_rate_content : ℕ → Option (List ℕ)
smp_rate_content rate = if rate == 0 then none else some (be16 rate)

abbrev pub smp_mod_content : Option SmpMod → Option (List ℕ)
smp_mod_content none = none
smp_mod_content (some m) = some (0 ∷ code m ∷ [])

-- A field that is pushed if it has a content, and what is pushed after it.
unfoldable pub push_some : ℕ → Option (List ℕ) → Elements → Elements
push_some n none later = later
push_some n (some content) later = child (prim (context_primitive n) content) later

unfoldable pub fields : Asdu → Elements
fields a = child (prim (context_primitive 0) a.sv_id) (
    push_some 1 (dat_set_content a.dat_set) (
      child (prim (context_primitive 2) (be16 a.smp_cnt)) (
        child (prim (context_primitive 3) (be32 a.conf_rev)) (
          push_some 4 (refr_tm_content a.refr_tm a.refr_tm_quality) (
            child (prim (context_primitive 5) (a.smp_synch ∷ [])) (
              push_some 6 (smp_rate_content a.smp_rate) (
                child (prim (context_primitive 7) a.sample)
                  (push_some 8 (smp_mod_content a.smp_mod) (push_some 9 a.gm_identity nil)))))))))

unfoldable pub element : Asdu → Element
element a = cons tag_sequence (fields a)

-- `self.asdus.iter().map(Asdu::element)`
unfoldable pub elements_of : List Asdu → Elements
elements_of [] = nil
elements_of (a ∷ more_asdus) = child (element a) (elements_of more_asdus)

unfoldable pub sav : Pdu → Element
sav p = cons (application_constructed 0) (
    child (prim (context_primitive 0) (append_uint [] (length p.asdus)))
      (child (cons (context_constructed 2) (elements_of p.asdus)) nil))

unfoldable pub marshal : Pdu → List ℕ
marshal p =
    let len = header_len + size (sav p) in
    append (sav p) (be16 p.app_id ++ (be16 (len % 2 ^ 16) ++ replicate 4 0))

unfoldable pub last_two : ℕ → ℕ → List ℕ → ℕ
last_two a b [] = a * 256 + b
last_two a b (c ∷ cs) = last_two b c cs

unfoldable pub be_u16 : List ℕ → ℕ
unfolding last_two
be_u16 [] = 0
be_u16 (a ∷ []) = a
be_u16 (a ∷ b ∷ cs) = last_two a b cs

abbrev pub or_zero : Types.Result ℕ → ℕ
or_zero (Types.Result.ok v) = v
or_zero (Types.Result.err e) = 0

-- What an absent field leaves, and what a content sets.
abbrev pub time_of : Option (List ℕ) → Option Time
time_of none = none
time_of (some b) = time b

abbrev pub quality_of : Option (List ℕ) → Option ℕ
quality_of none = none
quality_of (some b) = if length b == 8 then some (time_quality b) else none

unfoldable pub last_of : ℕ → List ℕ → ℕ
last_of d [] = d
last_of d (x ∷ xs) = last_of x xs

abbrev pub synch_of : Option (List ℕ) → ℕ
synch_of none = 0
synch_of (some b) = last_of 0 b

abbrev pub rate_of : Option (List ℕ) → ℕ
rate_of none = 0
rate_of (some b) = be_u16 b

abbrev pub mod_of : Option (List ℕ) → Option SmpMod
mod_of none = none
mod_of (some b) = some (from_code (be_u16 b))

unfoldable pub identity_of : Option (List ℕ) → Decoder → Parsed (Option (List ℕ))
identity_of none d = done none d
identity_of (some b) d = if length b == 8 then done (some b) d else refused

module _ (lossy : List ℕ → List ℕ) where
  unfoldable pub parse_asdu : List ℕ → Parsed Asdu
  parse_asdu content = and_then (lift (expect (context_primitive 0) (new content))) λ sv_id d1.
      and_then (lift (optional (context_primitive 1) d1)) λ dat_set d2.
        and_then (lift (expect (context_primitive 2) d2)) λ smp_cnt d3.
          and_then (lift (expect (context_primitive 3) d3)) λ conf_rev d4.
            and_then (lift (optional (context_primitive 4) d4)) λ refr_tm d5.
              and_then (lift (optional (context_primitive 5) d5)) λ smp_synch d6.
                and_then (lift (optional (context_primitive 6) d6)) λ smp_rate d7.
                  and_then (lift (expect (context_primitive 7) d7)) λ sample d8.
                    and_then (lift (optional (context_primitive 8) d8)) λ smp_mod d9.
                      and_then (lift (optional (context_primitive 9) d9)) λ gm d10.
                        and_then (identity_of gm d10) λ gm_identity d11.
                          done
                            (record {
                              sv_id = lossy sv_id;
                              dat_set = or_text lossy dat_set;
                              smp_cnt = be_u16 smp_cnt;
                              conf_rev = or_zero (decode_uint conf_rev) % 2 ^ 32;
                              refr_tm = time_of refr_tm;
                              refr_tm_quality = quality_of refr_tm;
                              smp_synch = synch_of smp_synch;
                              smp_rate = rate_of smp_rate;
                              sample = sample;
                              smp_mod = mod_of smp_mod;
                              gm_identity = gm_identity;
                            })
                            d11

  -- `while sd.more()`; each round takes one unit of fuel.
  unfoldable pub members : ℕ → Decoder → Parsed (List Asdu)
  members zero d = stuck
  members (suc fuel) d =
      let rest = λ (content : List ℕ) (c : Decoder).
        and_then (parse_asdu content)
          (λ a _. and_then (members fuel c) (λ more_asdus c'. done (a ∷ more_asdus) c')) in
      if not (more d) then done [] d else and_then (lift (expect tag_sequence d)) rest

  -- An ASDU takes two octets at least.
  unfoldable pub parse_sav : ℕ → List ℕ → Parsed Pdu
  parse_sav app_id octets =
      and_then (lift (expect (application_constructed 0) (new octets))) λ content _.
        and_then (lift (expect (context_primitive 0) (new content))) λ count d.
          and_then (lift (expect (context_constructed 2) d)) λ seq _.
            and_then (members (length seq + 1) (new seq))
              λ asdus d'. done (record { app_id = app_id; asdus = asdus }) d'

  unfoldable pub parse : List ℕ → Result Pdu
  parse apdu =
      let len = get_or apdu 2 0 * 256 + get_or apdu 3 0 in
      if ltb (length apdu) header_len
      then err
      else if ltb len header_len || ltb (length apdu) len
      then err
      else finish
          (parse_sav (get_or apdu 0 0 * 256 + get_or apdu 1 0) (drop header_len (take len apdu)))
