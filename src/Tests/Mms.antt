-- ===== src/Tests/Mms.antt =====
-- mms/value_codec.rs and mms/value.rs at concrete values.
use rs_iec.Common.{
  ℕ, pos, negsuc, some, ◌+◌, ◌≤◌, ◌≡◌, refl, [], ◌∷◌, ◌++◌, length, replicate, arith,
}
use rs_iec.Asn1.BitStrings.{BitString}
use rs_iec.Asn1.Decoder.Fuel.{cursor}
use rs_iec.Mms.Values.{Value, end, value, temporarily_unavailable, code, from_code}
use rs_iec.Mms.Values.Value.{
  array, structure, bit_string, integer, unsigned, float32, utc_time, data_access_error,
}
use rs_iec.Asn1.Elements.{encode, sizes, append, prim, cons}
use rs_iec.Asn1.Encode.{tag_size, length_size, append_tag, append_length}
use rs_iec.Asn1.Integers.{
  append_int, append_uint, int_size, uint_size, int_octets, uint_octets, octet, uint_octet,
}
use rs_iec.Asn1.BitStrings.{append_bit_string}
use rs_iec.Asn1.Floats.{append_float32}
use rs_iec.Mms.Codec.{data_element, encode_data, decode_data, decode_access_result, done}
use rs_iec.Mms.Codec.Scalars.{IsWritable}
use rs_iec.Mms.Codec.RoundTrip.{height, decode_data-encode_data}
use rs_iec.Mms.Codec.Fuel.{Ends, decode_data-Ends}
use rs_iec.Mms.Codec.AccessResults.{decode_access_result-decode_data}
use rs_iec.Mms.Times as Times
use rs_iec.Mms.Times.{time, fraction, nanoseconds, time-utc_time, fraction-nanoseconds}

-- A conversion that changes no bit pattern stands for the hardware's.
abbrev same : ℕ → ℕ
same n = n

-- A measurement: its magnitude, quality and time, and an element that cannot be served.
abbrev quality : BitString
quality = record { bits = 0 ∷ 8 ∷ []; length = 13 }

abbrev measurement : Value
measurement = structure (
    value (structure (value (float32 1130799923) end)) (
      value (bit_string quality) (
        value (utc_time (replicate 8 7)) (
          value (array (value (integer (negsuc 4)) (value (unsigned 230) end)))
            (value (data_access_error temporarily_unavailable) end)))))

measurement-IsWritable : IsWritable same same measurement
unfolding data_element encode append prim cons append_int append_uint append_bit_string
    append_float32 int_size uint_size int_octets uint_octets octet uint_octet append_tag
    append_length code from_code sizes tag_size length_size
measurement-IsWritable = (
  omega arith,
  (
    (omega arith, ((omega arith, refl), tt)),
    (omega arith, (refl, (omega arith, ((omega arith, refl), tt)))),
  ),
)

measurement-height_bound : height measurement ≤ 32
unfolding height
measurement-height_bound = omega arith

decode_data-encode_data_example :
    decode_data same same (cursor (encode_data measurement ++ (5 ∷ [])) 3)
    ≡ done measurement (cursor (5 ∷ []) (3 + length (encode_data measurement)))
decode_data-encode_data_example =
    decode_data-encode_data same same measurement (5 ∷ []) 3 measurement-IsWritable
      measurement-height_bound

-- Three octets announce a fourth that is not there.
decode_data-Ends_example : Ends 0 3 (decode_data same same (cursor (133 ∷ 2 ∷ 1 ∷ []) 0))
decode_data-Ends_example = decode_data-Ends same same (cursor (133 ∷ 2 ∷ 1 ∷ []) 0)

decode_access_result-decode_data_example :
    decode_access_result same same (cursor (128 ∷ 1 ∷ 10 ∷ []) 0)
    ≡ decode_data same same (cursor (128 ∷ 1 ∷ 10 ∷ []) 0)
decode_access_result-decode_data_example =
    decode_access_result-decode_data same same (cursor (128 ∷ 1 ∷ 10 ∷ []) 0)

time-utc_time_example :
    (n : ℕ) × (time (Times.utc_time (record { secs = pos 1786838400; nanos = 123456789 }) 138)
      ≡ some (record { secs = pos 1786838400; nanos = n }))
    × (n ≤ 123456789)
    × (123456789 ≤ n + 60)
time-utc_time_example = time-utc_time 1786838400 123456789 138 (omega arith) (omega arith)

fraction-nanoseconds_example : fraction (nanoseconds 7) + 1 ≡ 7
fraction-nanoseconds_example = fraction-nanoseconds 7 (omega arith) (omega arith)
