-- ===== src/Asn1/Integers.antt =====
-- asn1/primitives.rs: INTEGER, unsigned and BOOLEAN contents. An `i64` is a `ℤ`, and its arithmetic
-- shift by eight divides the number behind `pos` or `negsuc` by 256.
pub mod Laws
pub mod Unsigned
pub mod Minimal
use rs_iec.Common.{
  ℕ, zero, suc, ◌+◌, ◌-◌, ◌*◌, ◌/◌, ◌%◌, ◌^◌, Bool, ◌==◌, ltb, leb, List, [], ◌∷◌, ◌++◌, not, ◌&&◌,
  ◌||◌, if◌then◌else◌, length, ℤ, pos, negsuc,
}
use rs_iec.Asn1.Types.{
  Result, ok, err, bad_value, integer_octets, unsigned_octets, boolean_octets, empty_unsigned,
}

-- `v >> 8`
unfoldable pub shr8 : ℤ → ℤ
shr8 (pos n) = pos (n / 256)
shr8 (negsuc n) = negsuc (n / 256)

-- `(-0x80..=0x7f).contains(&v)`
unfoldable pub in_octet : ℤ → Bool
in_octet (pos n) = leb n 0x7f
in_octet (negsuc n) = leb n 0x7f

-- `(v >> (i * 8)) as u8`
unfoldable pub octet : ℤ → ℕ → ℕ
octet (pos n) i = n / 256 ^ i % 256
octet (negsuc n) i = 255 - n / 256 ^ i % 256

-- The loop of `int_size`; an `i64` leaves it within eight rounds.
unfoldable pub int_size_loop : ℕ → ℕ → ℤ → ℕ
int_size_loop zero n v = n
int_size_loop (suc fuel) n v =
    let rest = int_size_loop fuel (n + 1) (shr8 v) in if in_octet v then n else rest

unfoldable pub int_size : ℤ → ℕ
unfolding int_size_loop shr8 in_octet
int_size v = int_size_loop 8 1 v

-- `for i in (0..n).rev()`
unfoldable pub int_octets : ℕ → ℤ → List ℕ
int_octets zero v = []
int_octets (suc i) v = octet v i ∷ int_octets i v

unfoldable pub append_int : List ℕ → ℤ → List ℕ
append_int dst v = dst ++ int_octets (int_size v) v

-- `content[0] as i8`
unfoldable pub sign_extend : ℕ → ℤ
sign_extend b = if ltb b 128 then pos b else negsuc (255 - b)

-- `(v << 8) | b`; eight octets fit an `i64`, so nothing is shifted out.
unfoldable pub push_octet : ℤ → ℕ → ℤ
push_octet (pos n) b = pos (n * 256 + b)
push_octet (negsuc n) b = negsuc (n * 256 + (255 - b))

unfoldable pub push_octets : ℤ → List ℕ → ℤ
push_octets v [] = v
push_octets v (b ∷ bs) = push_octets (push_octet v b) bs

unfoldable pub decode_int : List ℕ → Result ℤ
decode_int [] = err (bad_value (integer_octets 0))
decode_int (b ∷ bs) =
    if ltb 8 (length (b ∷ bs))
    then err (bad_value (integer_octets (length (b ∷ bs))))
    else ok (push_octets (sign_extend b) bs)

-- The loop of `uint_size`; a `u64` leaves it within nine rounds.
unfoldable pub uint_size_loop : ℕ → ℕ → ℕ → ℕ
uint_size_loop zero n v = n
uint_size_loop (suc fuel) n v =
    let rest = uint_size_loop fuel (n + 1) (v / 256) in if ltb 0x7f v then rest else n

unfoldable pub uint_size : ℕ → ℕ
unfolding uint_size_loop
uint_size v = uint_size_loop 9 1 v

-- `v.checked_shr((i * 8) as u32).unwrap_or(0) as u8`
unfoldable pub uint_octet : ℕ → ℕ → ℕ
uint_octet v i = (if ltb (i * 8) 64 then v / 256 ^ i else 0) % 256

unfoldable pub uint_octets : ℕ → ℕ → List ℕ
uint_octets zero v = []
uint_octets (suc i) v = uint_octet v i ∷ uint_octets i v

unfoldable pub append_uint : List ℕ → ℕ → List ℕ
append_uint dst v = dst ++ uint_octets (uint_size v) v

-- `v = (v << 8) | b` in a `u64`
unfoldable pub push_uint : ℕ → List ℕ → ℕ
push_uint v [] = v
push_uint v (b ∷ bs) = push_uint (v * 256 % 2 ^ 64 + b) bs

unfoldable pub decode_uint : List ℕ → Result ℕ
decode_uint [] = err (bad_value empty_unsigned)
decode_uint (b ∷ bs) =
    if ltb 9 (length (b ∷ bs)) || (length (b ∷ bs) == 9 && not (b == 0))
    then err (bad_value (unsigned_octets (length (b ∷ bs))))
    else ok (push_uint 0 (b ∷ bs))

-- The content that `bool_elem` builds.
unfoldable pub bool_content : Bool → List ℕ
bool_content v = if v then 0xff ∷ [] else 0x00 ∷ []

unfoldable pub decode_bool : List ℕ → Result Bool
decode_bool (b ∷ []) = ok (not (b == 0))
decode_bool content = err (bad_value (boolean_octets (length content)))
