-- ===== src/Goose/Codec.antt =====
-- goose/message.rs: the octets of a message. Every error is a text, which is left out. `lossy` is
-- the runtime's `from_utf8_lossy`; `widen` and `narrow` are the conversions between `f32` and `f64`.
pub mod Fields
pub mod Written
pub mod RoundTrip
use rs_iec.Common.{
  ℕ, ◌+◌, ◌-◌, ◌*◌, ◌/◌, ◌%◌, ◌^◌, ◌==◌, Bool, true, false, ltb, not, ◌||◌, if◌then◌else◌, List, [],
  ◌∷◌, ◌++◌, Option, none, some, length, take, drop, get_or, replicate, zero, suc,
}
use rs_iec.Asn1.Types as Types
use rs_iec.Asn1.Types.{Tag, context_primitive, context_constructed, application_constructed}
use rs_iec.Asn1.Elements.{Element, Elements, nil, child, prim, cons, size, append}
use rs_iec.Asn1.Integers.{append_uint, decode_uint, bool_content, decode_bool}
use rs_iec.Asn1.Decoder as Decoder
use rs_iec.Asn1.Decoder.{Decoder, new, more, expect, optional}
use rs_iec.Mms.Values.{Value}
use rs_iec.Mms.Codec as Data
use rs_iec.Mms.Codec.{child_of, data_element, decode_data}
use rs_iec.Mms.Times.{Time, utc_time, time, time_quality, default_quality}
use rs_iec.Goose.Messages.{Message}

abbrev pub header_len : ℕ
header_len = 8

abbrev pub Goose : Type 0
Goose = Message Value (Option Time)

-- `self.values.iter().filter_map(data_element)`
unfoldable pub elements_of : List Value → Elements
elements_of [] = nil
elements_of (v ∷ vs) = child_of (data_element v) (elements_of vs)

abbrev pub or_default_quality : Option ℕ → ℕ
or_default_quality none = default_quality
or_default_quality (some q) = q

-- The octets of `t`.
unfoldable pub stamp : Option Time → Option ℕ → List ℕ
stamp none quality = replicate 8 0
stamp (some t) quality = utc_time t (or_default_quality quality)

unfoldable pub fields : Goose → Elements
fields m = child (prim (context_primitive 0) m.go_cb_ref) (
    child (prim (context_primitive 1) (append_uint [] m.time_allowed_to_live)) (
      child (prim (context_primitive 2) m.dat_set) (
        child (prim (context_primitive 3) m.go_id) (
          child (prim (context_primitive 4) (stamp m.t m.time_quality)) (
            child (prim (context_primitive 5) (append_uint [] m.st_num)) (
              child (prim (context_primitive 6) (append_uint [] m.sq_num)) (
                child (prim (context_primitive 7) (bool_content m.test)) (
                  child (prim (context_primitive 8) (append_uint [] m.conf_rev)) (
                    child (prim (context_primitive 9) (bool_content m.nds_com)) (
                      child (prim (context_primitive 10) (append_uint [] m.num_dat_set_entries))
                        (child (cons (context_constructed 11) (elements_of m.values)) nil)))))))))))

unfoldable pub pdu : Goose → Element
pdu m = cons (application_constructed 1) (fields m)

-- `to_be_bytes` of a `u16`
abbrev pub be16 : ℕ → List ℕ
be16 n = (n / 256 % 256) ∷ (n % 256) ∷ []

unfoldable pub marshal : Goose → List ℕ
marshal m =
    let len = header_len + size (pdu m) in
    append (pdu m) (be16 m.app_id ++ (be16 (len % 2 ^ 16) ++ replicate 4 0))

-- What a step of `parse` returns. `stuck` is no Rust value: fuel ran out.
pub data Parsed {ℓ} (A : Type ℓ) : Type ℓ where
  done : A → Decoder → Parsed A
  refused stuck : Parsed A

abbrev pub and_then {ℓ κ} :
    {A : Type ℓ} {B : Type κ} → Parsed A → (A → Decoder → Parsed B) → Parsed B
and_then (done a d) f = f a d
and_then refused f = refused
and_then stuck f = stuck

-- What the caller gets.
pub data Result {ℓ} (A : Type ℓ) : Type ℓ where
  ok : A → Result A
  err exhausted : Result A

abbrev pub finish {ℓ} : {A : Type ℓ} → Parsed A → Result A
finish (done a d) = ok a
finish refused = err
finish stuck = exhausted

abbrev pub lift {ℓ} : {A : Type ℓ} → Decoder.Out A → Parsed A
lift (Decoder.Out.done a d) = done a d
lift (Decoder.Out.fail e d) = refused
lift Decoder.Out.stuck = stuck

abbrev pub of_data {ℓ} : {A : Type ℓ} → Data.Read A → Parsed A
of_data (Data.Read.done a d) = done a d
of_data (Data.Read.fail e) = refused
of_data Data.Read.stuck = stuck

abbrev pub of_result {ℓ κ} : {A : Type ℓ} {B : Type κ} → Types.Result A → (A → Parsed B) → Parsed B
of_result (Types.Result.ok a) f = f a
of_result (Types.Result.err e) f = refused

unfoldable pub in_u32 : ℕ → Decoder → Parsed ℕ
in_u32 v d = if ltb (2 ^ 32 - 1) v then refused else done v d

unfoldable pub uint32_field : ℕ → Decoder → Parsed ℕ
unfolding in_u32
uint32_field tag d =
    and_then (lift (expect (context_primitive tag) d))
      (λ b d'. of_result (decode_uint b) (λ v. in_u32 v d'))

-- A missing goID or flag keeps the default.
abbrev pub or_text : (List ℕ → List ℕ) → Option (List ℕ) → List ℕ
or_text lossy none = []
or_text lossy (some b) = lossy b

abbrev pub or_flag : Option (List ℕ) → Decoder → Parsed Bool
or_flag none d = done false d
or_flag (some b) d = of_result (decode_bool b) (λ v. done v d)

unfoldable pub bool_field : ℕ → Decoder → Parsed Bool
bool_field tag d = and_then (lift (optional (context_primitive tag) d)) or_flag

-- With the check of `Value::utc_time_raw`.
unfoldable pub time_field : Decoder → Parsed (List ℕ)
time_field d =
    and_then (lift (expect (context_primitive 4) d))
      (λ b d'. if length b == 8 then done b d' else refused)

module _ (lossy : List ℕ → List ℕ) where
  unfoldable pub string_field : ℕ → Decoder → Parsed (List ℕ)
  string_field tag d =
      and_then (lift (expect (context_primitive tag) d)) (λ b d'. done (lossy b) d')

  unfoldable pub id_field : Decoder → Parsed (List ℕ)
  id_field d =
      and_then (lift (optional (context_primitive 3) d)) (λ b d'. done (or_text lossy b) d')

module _ (widen narrow : ℕ → ℕ) where
  -- `while inner.more()`; each round takes one unit of fuel.
  unfoldable pub members : ℕ → Decoder → Parsed (List Value)
  members zero d = stuck
  members (suc fuel) d =
      let rest =
        λ (v : Value) (c : Decoder). and_then (members fuel c) (λ vs c'. done (v ∷ vs) c') in
      if not (more d) then done [] d else and_then (of_data (decode_data widen narrow d)) rest

  -- A member takes two octets at least.
  unfoldable pub all_data : Decoder → Parsed (List Value)
  all_data d =
      and_then (lift (expect (context_constructed 11) d))
        (λ content d'. and_then (members (length content + 1) (new content)) (λ vs _. done vs d'))

module _ (lossy : List ℕ → List ℕ) (widen narrow : ℕ → ℕ) where
  unfoldable pub parse_fields : ℕ → Decoder → Parsed Goose
  parse_fields app_id d0 = and_then (string_field lossy 0 d0) λ go_cb_ref d1.
      and_then (uint32_field 1 d1) λ ttl d2. and_then (string_field lossy 2 d2) λ dat_set d3.
        and_then (id_field lossy d3) λ go_id d4. and_then (time_field d4) λ tv d5.
          and_then (uint32_field 5 d5) λ st_num d6. and_then (uint32_field 6 d6) λ sq_num d7.
            and_then (bool_field 7 d7) λ test d8. and_then (uint32_field 8 d8) λ conf_rev d9.
              and_then (bool_field 9 d9) λ nds_com d10.
                and_then (uint32_field 10 d10) λ entries d11.
                  and_then (all_data widen narrow d11) λ values d12.
                    done
                      (record {
                        go_cb_ref = go_cb_ref;
                        dat_set = dat_set;
                        go_id = go_id;
                        time_allowed_to_live = ttl;
                        t = time tv;
                        st_num = st_num;
                        sq_num = sq_num;
                        conf_rev = conf_rev;
                        test = test;
                        nds_com = nds_com;
                        num_dat_set_entries = entries;
                        values = values;
                        app_id = app_id;
                        time_quality = some (time_quality tv);
                      })
                      d12

  unfoldable pub parse : List ℕ → Result Goose
  parse apdu =
      let len = get_or apdu 2 0 * 256 + get_or apdu 3 0 in
      if ltb (length apdu) header_len
      then err
      else if ltb len header_len || ltb (length apdu) len
      then err
      else finish (
          and_then
            (lift (expect (application_constructed 1) (new (drop header_len (take len apdu)))))
            (λ content _. parse_fields (get_or apdu 0 0 * 256 + get_or apdu 1 0) (new content)))
