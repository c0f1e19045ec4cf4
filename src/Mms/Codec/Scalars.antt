-- ===== src/Mms/Codec/Scalars.antt =====
-- mms/value_codec.rs: the values that hold no other values are read back from their elements.
use rs_iec.Common.{
  ℕ, ℤ, inl, inr, ◌+◌, ◌*◌, ◌%◌, ◌^◌, ◌≤◌, ◌<◌, ◌≡◌, ◌⊎◌, refl, ap, ◌∙◌, Bool, true, false, ◌==◌,
  ◌||◌, List, [], length, arith, if◌then◌else◌, Option,
}
use rs_iec.Asn1.Types.{context_primitive}
use rs_iec.Asn1.Encode.{append_tlv}
use rs_iec.Asn1.Elements.{prim, encode}
use rs_iec.Asn1.Elements.Laws.{encodings, encode-primitive}
use rs_iec.Asn1.Integers.{int_size, uint_size, append_int, append_uint, bool_content, decode_bool}
use rs_iec.Asn1.Integers.Laws.{IsI64, int_size-Least, length-int_octets, decode_int-append_int}
use rs_iec.Asn1.Integers.Unsigned.{uint_size-Least, length-uint_octets, decode_uint-append_uint}
use rs_iec.Asn1.BitStrings.{BitString, append_bit_string}
use rs_iec.Asn1.BitStrings.Laws.{IsPacked, decode_bit_string-append_bit_string}
use rs_iec.Asn1.Floats.{
  append_float32, append_float64, decode_float-append_float32, decode_float-append_float64,
}
use rs_iec.Mms.Values.{DataAccessError, Value, Values, empty, end, value, code, from_code}
use rs_iec.Mms.Values.Value.{
  array, structure, boolean, bit_string, integer, unsigned, float32, float64, octet_string,
  visible_string, generalized_time, binary_time, mms_string, utc_time, data_access_error,
}
use rs_iec.Mms.Codec.{
  children, data_element, encode_data, decode_scalar, float_content, access_error_content,
  binary_time_content, utc_time_raw, ok, of_asn1,
}

length-append_int : (v : ℤ) → IsI64 v → length (append_int [] v) ≤ 8
unfolding append_int
length-append_int v h =
    let (i, e, l) = int_size-Least v h in
    omega (arith, e, length-int_octets (int_size v) v, l.within)

pub length-append_uint : (v : ℕ) → v < 2 ^ 64 → length (append_uint [] v) ≤ 9
unfolding append_uint
length-append_uint v h =
    let (i, e, l) = uint_size-Least v h in
    omega (arith, e, length-uint_octets (uint_size v) v, l.within)

-- `code` and `from_code` name the same errors; `other` is for the codes that have no name.
abbrev pub IsNamed : DataAccessError → Type 0
IsNamed e = (code e < 256) × (from_code (code e) ≡ e)

-- What a value has to satisfy to be written and read back: its contents are shorter than 2 ^ 32
-- octets, its numbers fit their types, an `f32` survives its conversion to `f64` and back, times
-- have the octets of their forms, and it is not the empty value.
module _ (widen narrow : ℕ → ℕ) where
  abbrev mutual
    pub IsWritable : Value → Type 0
    IsWritable empty = ⊥
    IsWritable (array vs) = (length (encodings (children vs)) < 2 ^ 32) × AllWritable vs
    IsWritable (structure vs) = (length (encodings (children vs)) < 2 ^ 32) × AllWritable vs
    IsWritable (boolean b) = Unit {0}
    IsWritable (bit_string b) =
        IsPacked b × (length b.bits * 8 < b.length + 8) × (length b.bits + 1 < 2 ^ 32)
    IsWritable (integer n) = IsI64 n
    IsWritable (unsigned n) = n < 2 ^ 64
    IsWritable (float32 f) = (f < 2 ^ 32) × (narrow (widen f) ≡ f)
    IsWritable (float64 f) = f < 2 ^ 64
    IsWritable (octet_string b) = length b < 2 ^ 32
    IsWritable (visible_string b) = length b < 2 ^ 32
    IsWritable (generalized_time b) = length b < 2 ^ 32
    IsWritable (binary_time b) = (length b ≡ 4) ⊎ (length b ≡ 6)
    IsWritable (mms_string b) = length b < 2 ^ 32
    IsWritable (utc_time b) = length b ≡ 8
    IsWritable (data_access_error e) = IsNamed e

    pub AllWritable : Values → Type 0
    AllWritable end = Unit {0}
    AllWritable (value v vs) = IsWritable v × AllWritable vs

  -- The value's element, and that its content is read back.
  pub record Written (v : Value) : Type 0 where
    pub number : ℕ
    pub content : List ℕ
    pub octets : encode_data v ≡ append_tlv [] (context_primitive number) content
    pub small : number < 32
    pub short : length content < 2 ^ 32
    pub not_nested : (number == 1 || number == 2) ≡ false
    pub decodes : decode_scalar widen narrow (context_primitive number) content ≡ ok v

  written :
      (v : Value) (n : ℕ) (content : List ℕ)
      → data_element v ≡ Option.some (prim (context_primitive n) content)
      → n < 32
      → length content < 2 ^ 32
      → (n == 1 || n == 2) ≡ false
      → decode_scalar widen narrow (context_primitive n) content ≡ ok v
      → Written v
  unfolding encode_data encode prim
  written v n content e small short kind decodes = record {
    number = n;
    content = content;
    octets = rw e (encode-primitive (context_primitive n) content);
    small = small;
    short = short;
    not_nested = kind;
    decodes = decodes;
  }

  bool_short : (b : Bool) → length (bool_content b) < 2 ^ 32
  unfolding bool_content
  bool_short true = omega arith
  bool_short false = omega arith

  bool_back :
      (b : Bool) → of_asn1 (decode_bool (bool_content b)) (λ c. ok (boolean c)) ≡ ok (boolean b)
  unfolding bool_content decode_bool
  bool_back true = refl
  bool_back false = refl

  bits_short :
      (b : BitString) → length b.bits + 1 < 2 ^ 32 → length (append_bit_string [] b) < 2 ^ 32
  unfolding append_bit_string
  bits_short b h = omega (arith, h)

  float32_short : (f : ℕ) → length (append_float32 [] f) < 2 ^ 32
  unfolding append_float32
  float32_short f = omega arith

  float64_short : (f : ℕ) → length (append_float64 [] f) < 2 ^ 32
  unfolding append_float64
  float64_short f = omega arith

  float32_back :
      (f : ℕ)
      → IsWritable (float32 f)
      → float_content widen narrow (append_float32 [] f) ≡ ok (float32 f)
  unfolding float_content
  float32_back f h =
      ap
        (λ r.
          of_asn1 r
            (λ c. ok (if length (append_float32 [] f) == 5 then float32 (narrow c) else float64 c)))
        (decode_float-append_float32 widen f h.0)
      ∙ ap ok (five f)
      ∙ ap (λ c. ok (float32 c)) h.1
    where
      five :
          (f : ℕ)
          → (if length (append_float32 [] f) == 5
              then float32 (narrow (widen f))
              else float64 (widen f))
            ≡ float32 (narrow (widen f))
      five f = unfold append_float32 in refl

  float64_back :
      (f : ℕ)
      → IsWritable (float64 f)
      → float_content widen narrow (append_float64 [] f) ≡ ok (float64 f)
  unfolding float_content
  float64_back f h =
      ap
        (λ r.
          of_asn1 r
            (λ c. ok (if length (append_float64 [] f) == 5 then float32 (narrow c) else float64 c)))
        (decode_float-append_float64 widen f h)
      ∙ unfold append_float64 in refl

  time_short : (b : List ℕ) → IsWritable (binary_time b) → length b < 2 ^ 32
  time_short b (inl e) = omega arith
  time_short b (inr e) = omega arith

  time_back : (b : List ℕ) → IsWritable (binary_time b) → binary_time_content b ≡ ok (binary_time b)
  unfolding binary_time_content
  time_back b (inl e) = ground arith
  time_back b (inr e) = ground arith

  utc_back : (b : List ℕ) → length b ≡ 8 → utc_time_raw b ≡ ok (utc_time b)
  unfolding utc_time_raw
  utc_back b h = ground arith

  error_short : (e : DataAccessError) → IsNamed e → length (append_uint [] (code e)) < 2 ^ 32
  error_short e h = omega (arith, length-append_uint (code e) (omega (arith, h.0)))

  error_back :
      (e : DataAccessError)
      → IsNamed e
      → access_error_content (append_uint [] (code e)) ≡ ok (data_access_error e)
  unfolding access_error_content
  error_back e h =
      ap (λ r. of_asn1 r (λ n. ok (data_access_error (from_code (n % 2 ^ 8)))))
        (decode_uint-append_uint (code e) (omega (arith, h.0)))
      ∙ ap (λ n. ok (data_access_error (from_code n))) (omega (arith, h.0))
      ∙ ap (λ x. ok (data_access_error x)) h.1

  -- Not an array or a structure.
  abbrev pub IsScalar : Value → Type 0
  IsScalar (array vs) = ⊥
  IsScalar (structure vs) = ⊥
  IsScalar _ = Unit {0}

  pub scalar-Written : (v : Value) → IsScalar v → IsWritable v → Written v
  unfolding data_element decode_scalar
  scalar-Written empty s h = absurd h
  scalar-Written (array vs) s h = absurd s
  scalar-Written (structure vs) s h = absurd s
  scalar-Written (boolean b) s h =
      written (boolean b) 3 (bool_content b) refl (omega arith) (bool_short b) refl (bool_back b)
  scalar-Written (bit_string b) s h =
      written (bit_string b) 4 _ refl (omega arith) (bits_short b h.2) refl (
        ap (λ r. of_asn1 r (λ c. ok (bit_string c)))
          (decode_bit_string-append_bit_string b h.0 h.1))
  scalar-Written (integer n) s h =
      written (integer n) 5 _ refl (omega arith) (omega (arith, length-append_int n h)) refl
        (ap (λ r. of_asn1 r (λ c. ok (integer c))) (decode_int-append_int n h))
  scalar-Written (unsigned n) s h =
      written (unsigned n) 6 _ refl (omega arith) (omega (arith, length-append_uint n h)) refl
        (ap (λ r. of_asn1 r (λ c. ok (unsigned c))) (decode_uint-append_uint n h))
  scalar-Written (float32 f) s h =
      written (float32 f) 7 _ refl (omega arith) (float32_short f) refl (float32_back f h)
  scalar-Written (float64 f) s h =
      written (float64 f) 7 _ refl (omega arith) (float64_short f) refl (float64_back f h)
  scalar-Written (octet_string b) s h = written (octet_string b) 9 b refl (omega arith) h refl refl
  scalar-Written (visible_string b) s h =
      written (visible_string b) 10 b refl (omega arith) h refl refl
  scalar-Written (generalized_time b) s h =
      written (generalized_time b) 11 b refl (omega arith) h refl refl
  scalar-Written (binary_time b) s h =
      written (binary_time b) 12 b refl (omega arith) (time_short b h) refl (time_back b h)
  scalar-Written (mms_string b) s h = written (mms_string b) 16 b refl (omega arith) h refl refl
  scalar-Written (utc_time b) s h =
      written (utc_time b) 17 b refl (omega arith) (omega (arith, h)) refl (utc_back b h)
  scalar-Written (data_access_error e) s h =
      written (data_access_error e) 0 _ refl (omega arith) (error_short e h) refl (error_back e h)
