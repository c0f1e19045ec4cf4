-- ===== src/Mms/Codec/RoundTrip.antt =====
-- mms/value_codec.rs: data values are read back, arrays and structures with all they hold.
use rs_iec.Common.{
  ℕ, ◌+◌, ◌^◌, ◌≤◌, ◌<◌, ◌≡◌, refl, ap, true, List, [], ◌∷◌, ◌++◌, length, length-append, arith,
  max, suc, zero, Option,
}
use rs_iec.Asn1.Types.{Tag, context_primitive, context_constructed, IsTag}
use rs_iec.Asn1.Encode.{append_tlv, tag_size, length_size, tlv_size}
use rs_iec.Asn1.Elements.{Element, Elements, prim, cons, encode}
use rs_iec.Asn1.Elements.Laws.{encodings, encode-children, Small, SmallAll}
use rs_iec.Asn1.RoundTrip.Elements.{read_tlv-append_tlv, length-append_tlv}
use rs_iec.Asn1.Decoder.{Decoder, new, more}
use rs_iec.Asn1.Decoder.Fuel.{cursor}
use rs_iec.Mms.Values.{Value, Values, empty, end, value}
use rs_iec.Mms.Values.Value.{
  array, structure, boolean, bit_string, integer, unsigned, float32, float64, octet_string,
  visible_string, generalized_time, binary_time, mms_string, utc_time, data_access_error,
}
use rs_iec.Mms.Codec.{
  children, child_of, data_element, append_some, encode_data, decode_data_at, decode_children,
  decode_data_tlv, decode_data, done,
}
use rs_iec.Mms.Codec.Scalars.{IsWritable, AllWritable, IsScalar, scalar-Written}

-- How deep values are nested in a value.
unfoldable mutual
  pub height : Value → ℕ
  height (array vs) = heights vs
  height (structure vs) = heights vs
  height _ = 0

  pub heights : Values → ℕ
  heights end = 0
  heights (value v vs) = max (suc (height v)) (heights vs)

abbrev pub SmallSome : Option Element → Type 0
SmallSome Option.none = Unit {0}
SmallSome (Option.some e) = Small e

pub child_of-SmallAll :
    (o : Option Element) (es : Elements) → SmallSome o → SmallAll es → SmallAll (child_of o es)
child_of-SmallAll Option.none es h k = k
child_of-SmallAll (Option.some e) es h k = (h, k)

mutual
  unfolding data_element cons prim

  pub data_element-Small : (v : Value) → SmallSome (data_element v)
  data_element-Small (array vs) = (omega arith, children-SmallAll vs)
  data_element-Small (structure vs) = (omega arith, children-SmallAll vs)
  data_element-Small empty = tt
  data_element-Small (boolean b) = omega arith
  data_element-Small (bit_string b) = omega arith
  data_element-Small (integer n) = omega arith
  data_element-Small (unsigned n) = omega arith
  data_element-Small (float32 f) = omega arith
  data_element-Small (float64 f) = omega arith
  data_element-Small (octet_string b) = omega arith
  data_element-Small (visible_string b) = omega arith
  data_element-Small (generalized_time b) = omega arith
  data_element-Small (binary_time b) = omega arith
  data_element-Small (mms_string b) = omega arith
  data_element-Small (utc_time b) = omega arith
  data_element-Small (data_access_error e) = omega arith

  children-SmallAll : (vs : Values) → SmallAll (children vs)
  children-SmallAll end = tt
  children-SmallAll (value v vs) =
      child_of-SmallAll (data_element v) (children vs) (data_element-Small v) (children-SmallAll vs)

pub array_octets :
    (vs : Values)
    → encode_data (array vs) ≡ append_tlv [] (context_constructed 1) (encodings (children vs))
unfolding encode_data encode data_element cons
array_octets vs = encode-children (context_constructed 1) (children vs) (children-SmallAll vs)

pub structure_octets :
    (vs : Values)
    → encode_data (structure vs) ≡ append_tlv [] (context_constructed 2) (encodings (children vs))
unfolding encode_data encode data_element cons
structure_octets vs = encode-children (context_constructed 2) (children vs) (children-SmallAll vs)

-- The octets of the children are those of the values, one after the other.
pub encodings-child_of :
    (v : Value) (es : Elements)
    → encodings (child_of (data_element v) es) ≡ encode_data v ++ encodings es
unfolding encode_data
encodings-child_of v es = first (data_element v)
  where
    first : (o : Option Element) → encodings (child_of o es) ≡ append_some [] o ++ encodings es
    first Option.none = refl
    first (Option.some e) = unfold encode in refl

encodings-children :
    (v : Value) (vs : Values)
    → encodings (children (value v vs)) ≡ encode_data v ++ encodings (children vs)
unfolding data_element
encodings-children v vs = encodings-child_of v (children vs)

pub header_octets :
    (t : Tag) (content : List ℕ)
    → t.number < 2 ^ 28
    → length content + 2 ≤ length (append_tlv [] t content)
unfolding tlv_size tag_size length_size
header_octets t content h = ground (arith, length-append_tlv t content h)

pub more-cursor : (xs : List ℕ) (off : ℕ) → 0 < length xs → more (cursor xs off) ≡ true
unfolding more
more-cursor [] off h = absurd (omega (arith, h))
more-cursor (x ∷ xs) off h = refl

module _ (widen narrow : ℕ → ℕ) where
  -- The value of one element, whatever follows it, once the content is known to be read.
  element_from :
      (v : Value) (t : Tag) (content r : List ℕ) (fuel depth off : ℕ)
      → encode_data v ≡ append_tlv [] t content
      → IsTag t
      → length content < 2 ^ 32
      → depth ≤ 32
      → ((c : Decoder)
          → decode_data_tlv widen narrow t content (decode_children widen narrow fuel (depth + 1)) c
            ≡ done v c)
      → decode_data_at widen narrow (suc fuel) depth (cursor (encode_data v ++ r) off)
        ≡ done v (cursor r (off + length (encode_data v)))
  unfolding decode_data_at
  element_from v t content r fuel depth off e small short near inner =
      rw (e, read_tlv-append_tlv t content r off small short)
        (ground (arith, inner (cursor r (off + length (append_tlv [] t content)))))

  scalar_from :
      (v : Value) (r : List ℕ) (fuel depth off : ℕ)
      → IsScalar widen narrow v
      → IsWritable widen narrow v
      → depth ≤ 32
      → decode_data_at widen narrow (suc fuel) depth (cursor (encode_data v ++ r) off)
        ≡ done v (cursor r (off + length (encode_data v)))
  unfolding decode_data_tlv
  scalar_from v r fuel depth off s h near =
      let w = scalar-Written widen narrow v s h in
      element_from v (context_primitive w.number) w.content r fuel depth off w.octets
        (omega (arith, w.small)) w.short near (λ c. rw (w.not_nested, w.decodes) refl)

  pub octets_of_value : (v : Value) → IsWritable widen narrow v → 2 ≤ length (encode_data v)
  octets_of_value (array vs) h = omega (
    arith,
    ap length (array_octets vs),
    header_octets (context_constructed 1) (encodings (children vs)) (omega arith),
  )
  octets_of_value (structure vs) h = omega (
    arith,
    ap length (structure_octets vs),
    header_octets (context_constructed 2) (encodings (children vs)) (omega arith),
  )
  octets_of_value v h =
      let w = scalar-Written widen narrow v tt h in
      omega (
        arith,
        ap length w.octets,
        header_octets (context_primitive w.number) w.content (omega (arith, w.small)),
      )

  array_fuel :
      (v : Value) (t : Tag) (content : List ℕ) (fuel : ℕ)
      → encode_data v ≡ append_tlv [] t content
      → t.number < 2 ^ 28
      → length (encode_data v) < suc fuel
      → length content + 1 < fuel
  array_fuel v t content fuel e small h =
      omega (arith, ap length e, header_octets t content small, h)

  pub more_values :
      (v : Value) (r : List ℕ) (off : ℕ)
      → IsWritable widen narrow v
      → more (cursor (encode_data v ++ r) off) ≡ true
  more_values v r off h =
      more-cursor (encode_data v ++ r) off
        (omega (arith, length-append (encode_data v) r, octets_of_value v h))

  no_children :
      (fuel depth off : ℕ)
      → decode_children widen narrow (suc fuel) depth (cursor (encodings (children end)) off)
        ≡ done end (cursor [] (off + length (encodings (children end))))
  unfolding decode_children data_element more
  no_children fuel depth off = ap (λ k. done end (cursor [] k)) (omega arith)

  mutual
    unfolding decode_children decode_data_tlv new height

    value_from :
        (v : Value) (r : List ℕ) (fuel depth off : ℕ)
        → IsWritable widen narrow v
        → depth + height v ≤ 32
        → length (encode_data v) < fuel
        → decode_data_at widen narrow fuel depth (cursor (encode_data v ++ r) off)
          ≡ done v (cursor r (off + length (encode_data v)))
    value_from v r zero depth off h near fuel_left = absurd (omega (arith, fuel_left))
    value_from (array vs) r (suc fuel) depth off h near fuel_left =
        element_from (array vs) (context_constructed 1) (encodings (children vs)) r fuel depth off
          (array_octets vs) (omega arith) h.0 (omega (arith, near))
          (λ c.
            rw
              (children_from vs fuel (depth + 1) 0 h.1 (omega (arith, near)) (
                array_fuel (array vs) (context_constructed 1) _ fuel (array_octets vs) (omega arith)
                  fuel_left))
              refl)
    value_from (structure vs) r (suc fuel) depth off h near fuel_left =
        element_from (structure vs) (context_constructed 2) (encodings (children vs)) r fuel depth
          off (structure_octets vs) (omega arith) h.0 (omega (arith, near))
          (λ c.
            rw
              (children_from vs fuel (depth + 1) 0 h.1 (omega (arith, near)) (
                array_fuel (structure vs) (context_constructed 2) _ fuel (structure_octets vs)
                  (omega arith) fuel_left))
              refl)
    value_from v r (suc fuel) depth off h near fuel_left =
        scalar_from v r fuel depth off tt h (omega (arith, near))

    children_from :
        (vs : Values) (fuel depth off : ℕ)
        → AllWritable widen narrow vs
        → depth + heights vs ≤ 33
        → length (encodings (children vs)) + 1 < fuel
        → decode_children widen narrow fuel depth (cursor (encodings (children vs)) off)
          ≡ done vs (cursor [] (off + length (encodings (children vs))))
    children_from vs zero depth off h near fuel_left = absurd (omega (arith, fuel_left))
    children_from end (suc fuel) depth off h near fuel_left = no_children fuel depth off
    children_from (value v vs) (suc fuel) depth off h near fuel_left =
        rw
          (
            encodings-children v vs,
            more_values v (encodings (children vs)) off h.0,
            value_from v (encodings (children vs)) fuel depth off h.0 (omega (arith, near)) (
                omega (
                  arith,
                  fuel_left,
                  ap length (encodings-children v vs),
                  length-append (encode_data v) (encodings (children vs)),
                )),
            children_from vs fuel depth (off + length (encode_data v)) h.1 (omega (arith, near)) (
                omega (
                  arith,
                  fuel_left,
                  ap length (encodings-children v vs),
                  length-append (encode_data v) (encodings (children vs)),
                  octets_of_value v h.0,
                )),
          )
          (ap (λ k. done (value v vs) (cursor [] k))
            (omega (arith, length-append (encode_data v) (encodings (children vs)))))

  -- `decode_data` reads back what `encode_data` wrote, whatever follows it, for a value that is fit to
  -- be written and nested no deeper than the decoder's limit of 32: arrays and structures with all
  -- that they hold, and a cursor just behind the value.
  pub decode_data-encode_data :
      (v : Value) (r : List ℕ) (off : ℕ)
      → IsWritable widen narrow v
      → height v ≤ 32
      → decode_data widen narrow (cursor (encode_data v ++ r) off)
        ≡ done v (cursor r (off + length (encode_data v)))
  unfolding decode_data
  decode_data-encode_data v r off h near =
      value_from v r (length (encode_data v ++ r) + 1) 0 off h (omega (arith, near))
        (omega (arith, length-append (encode_data v) r))
