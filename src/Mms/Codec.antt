-- ===== src/Mms/Codec.antt =====
-- mms/value_codec.rs: data values as BER elements. `widen` and `narrow` are the conversions between
-- `f32` and `f64`. A cursor stays unread after an error, so an error carries none.
pub mod Scalars
pub mod RoundTrip
pub mod Fuel
pub mod AccessResults
use rs_iec.Common.{
  ℕ, ◌+◌, ◌%◌, ◌^◌, Bool, true, false, ◌==◌, ltb, not, ◌&&◌, ◌||◌, List, [], ◌∷◌, if◌then◌else◌,
  length, Option, zero, suc,
}
use rs_iec.Asn1.Types as Types
use rs_iec.Asn1.Types.{Tag, class_bits, context_primitive, context_constructed}
use rs_iec.Asn1.Elements.{Element, Elements, nil, child, prim, cons, append}
use rs_iec.Asn1.Integers.{
  append_int, decode_int, append_uint, decode_uint, bool_content, decode_bool,
}
use rs_iec.Asn1.BitStrings.{append_bit_string, decode_bit_string}
use rs_iec.Asn1.Floats.{append_float32, append_float64, decode_float}
use rs_iec.Asn1.Decoder as Decoder
use rs_iec.Asn1.Decoder.{Decoder, read_tlv, new, more, peek}
use rs_iec.Mms.Values.{Value, Values, empty, end, value, code, from_code}
use rs_iec.Mms.Values.Value.{
  array, structure, boolean, bit_string, integer, unsigned, float32, float64, octet_string,
  visible_string, generalized_time, binary_time, mms_string, utc_time, data_access_error,
}

abbrev pub max_value_depth : ℕ
max_value_depth = 32

-- `filter_map`
abbrev pub child_of : Option Element → Elements → Elements
child_of Option.none es = es
child_of (Option.some e) es = child e es

unfoldable mutual
  pub data_element : Value → Option Element
  data_element empty = Option.none
  data_element (array vs) = Option.some (cons (context_constructed 1) (children vs))
  data_element (structure vs) = Option.some (cons (context_constructed 2) (children vs))
  data_element (boolean b) = Option.some (prim (context_primitive 3) (bool_content b))
  data_element (bit_string b) = Option.some (prim (context_primitive 4) (append_bit_string [] b))
  data_element (integer n) = Option.some (prim (context_primitive 5) (append_int [] n))
  data_element (unsigned n) = Option.some (prim (context_primitive 6) (append_uint [] n))
  data_element (float32 f) = Option.some (prim (context_primitive 7) (append_float32 [] f))
  data_element (float64 f) = Option.some (prim (context_primitive 7) (append_float64 [] f))
  data_element (octet_string b) = Option.some (prim (context_primitive 9) b)
  data_element (visible_string b) = Option.some (prim (context_primitive 10) b)
  data_element (generalized_time b) = Option.some (prim (context_primitive 11) b)
  data_element (binary_time b) = Option.some (prim (context_primitive 12) b)
  data_element (mms_string b) = Option.some (prim (context_primitive 16) b)
  data_element (utc_time b) = Option.some (prim (context_primitive 17) b)
  data_element (data_access_error e) =
      Option.some (prim (context_primitive 0) (append_uint [] (code e)))

  pub children : Values → Elements
  children end = nil
  children (value v vs) = child_of (data_element v) (children vs)

abbrev pub append_some : List ℕ → Option Element → List ℕ
append_some dst Option.none = dst
append_some dst (Option.some e) = append e dst

unfoldable pub append_data : List ℕ → Value → List ℕ
append_data dst v = append_some dst (data_element v)

unfoldable pub encode_data : Value → List ℕ
unfolding append_data
encode_data v = append_data [] v

-- `Error::Asn1`, and `Error::protocol` by its text and what is formatted into it.
pub data Error : Type 0 where
  asn1 : Types.Error → Error
  nesting : Error
  data_with_tag : Tag → Error
  binary_time_octets utc_time_octets unsupported_tag : ℕ → Error

pub data Read {ℓ} (A : Type ℓ) : Type ℓ where
  done : A → Decoder → Read A
  fail : Error → Read A
  stuck : Read A

pub data Result {ℓ} (A : Type ℓ) : Type ℓ where
  ok : A → Result A
  err : Error → Result A

abbrev pub and_then {ℓ κ} : {A : Type ℓ} {B : Type κ} → Read A → (A → Decoder → Read B) → Read B
and_then (done a d) f = f a d
and_then (fail e) f = fail e
and_then stuck f = stuck

-- `?` on a call of the decoder.
abbrev pub lift {ℓ} : {A : Type ℓ} → Decoder.Out A → Read A
lift (Decoder.Out.done a d) = done a d
lift (Decoder.Out.fail e d) = fail (asn1 e)
lift Decoder.Out.stuck = stuck

abbrev pub of_asn1 {ℓ κ} : {A : Type ℓ} {B : Type κ} → Types.Result A → (A → Result B) → Result B
of_asn1 (Types.Result.ok a) f = f a
of_asn1 (Types.Result.err e) f = err (asn1 e)

abbrev pub at_cursor {ℓ} : {A : Type ℓ} → Result A → Decoder → Read A
at_cursor (ok a) d = done a d
at_cursor (err e) d = fail e

unfoldable pub utc_time_raw : List ℕ → Result Value
utc_time_raw b = if length b == 8 then ok (utc_time b) else err (utc_time_octets (length b))

unfoldable pub binary_time_content : List ℕ → Result Value
binary_time_content b =
    if not (length b == 4) && not (length b == 6)
    then err (binary_time_octets (length b))
    else ok (binary_time b)

-- The value of an octet is `as u8`.
unfoldable pub access_error_content : List ℕ → Result Value
access_error_content content =
    of_asn1 (decode_uint content) (λ n. ok (data_access_error (from_code (n % 2 ^ 8))))

module _ (widen narrow : ℕ → ℕ) where
  unfoldable pub float_content : List ℕ → Result Value
  float_content content =
      of_asn1 (decode_float widen content)
        (λ f. ok (if length content == 5 then float32 (narrow f) else float64 f))

  -- The alternatives that hold no other values.
  unfoldable pub decode_scalar : Tag → List ℕ → Result Value
  unfolding float_content access_error_content binary_time_content utc_time_raw
  decode_scalar t content =
      if t.number == 3
      then of_asn1 (decode_bool content) (λ b. ok (boolean b))
      else if t.number == 4
      then of_asn1 (decode_bit_string content) (λ b. ok (bit_string b))
      else if t.number == 5
      then of_asn1 (decode_int content) (λ n. ok (integer n))
      else if t.number == 6
      then of_asn1 (decode_uint content) (λ n. ok (unsigned n))
      else if t.number == 7
      then float_content content
      else if t.number == 9
      then ok (octet_string content)
      else if t.number == 10
      then ok (visible_string content)
      else if t.number == 11
      then ok (generalized_time content)
      else if t.number == 12
      then binary_time_content content
      else if t.number == 16
      then ok (mms_string content)
      else if t.number == 17
      then utc_time_raw content
      else if t.number == 0 && not t.constructed
      then access_error_content content
      else err (unsupported_tag t.number)

  -- `inner` reads the values of the content, `outer` is the cursor behind the element.
  unfoldable pub decode_data_tlv : Tag → List ℕ → (Decoder → Read Values) → Decoder → Read Value
  unfolding decode_scalar
  decode_data_tlv t content inner outer =
      if not (class_bits t.class == 2)
      then fail (data_with_tag t)
      else if t.number == 1 || t.number == 2
      then and_then (inner (new content))
          (λ vs _. done (if t.number == 1 then array vs else structure vs) outer)
      else at_cursor (decode_scalar t content) outer

  -- Each value and each round of the loop over the children takes one unit of fuel.
  unfoldable mutual
    pub decode_data_at : ℕ → ℕ → Decoder → Read Value
    decode_data_at zero depth d = stuck
    decode_data_at (suc fuel) depth d =
        if ltb max_value_depth depth
        then fail nesting
        else and_then (lift (read_tlv d))
            λ p c. decode_data_tlv p.0 p.1 (λ inner. decode_children fuel (depth + 1) inner) c

    -- `while inner.more()`
    pub decode_children : ℕ → ℕ → Decoder → Read Values
    decode_children zero depth d = stuck
    decode_children (suc fuel) depth d =
        if not (more d)
        then done end d
        else and_then (decode_data_at fuel depth d)
            λ v c. and_then (decode_children fuel depth c) (λ vs c'. done (value v vs) c')

  -- An element takes two octets at least, so that this fuel is enough.
  unfoldable pub decode_data : Decoder → Read Value
  decode_data d = decode_data_at (length d.rest + 1) 0 d

  unfoldable pub decode_access_result : Decoder → Read Value
  decode_access_result d = and_then (lift (peek d)) λ t _.
      if class_bits t.class == 2 && ((t.number == 0) && not t.constructed)
      then and_then (lift (read_tlv d)) (λ p c. at_cursor (access_error_content p.1) c)
      else decode_data d
