-- ===== src/Asn1/Integers/Unsigned.antt =====
-- Unsigned integer contents: what the encoder writes is decoded to the same number.
use rs_iec.Common.{
  ℕ, zero, suc, ◌+◌, ◌*◌, ◌/◌, ◌%◌, ◌^◌, ◌≤◌, ◌<◌, ◌≡◌, refl, ap, ◌∙◌, [], length, arith, dec_lt,
  lt→ltb,
}
use native.Mathlib.Nat.{div-le_self}
use rs_iec.Asn1.Types.{ok}
use rs_iec.Asn1.Integers.{uint_size, uint_octet, uint_octets, append_uint, push_uint, decode_uint}
use rs_iec.Asn1.Integers.Laws.{div_suc, Least, uint_size_loop-Least, quotient_small}

uint_octet-eq : (v i : ℕ) → v < 2 ^ 64 → i ≤ 8 → uint_octet v i ≡ v / 256 ^ i % 256
unfolding uint_octet
uint_octet-eq v i h k = elim (dec_lt i 8) [
  | yes l ↦ rw (lt→ltb (i * 8) 64 (omega arith)) refl
  | no l ↦ let e : i ≡ 8 = omega arith in rw e (omega arith)
]

push_uint-uint_octets :
    (i v : ℕ) → v < 2 ^ 64 → i ≤ 8 → push_uint (v / 256 ^ i) (uint_octets i v) ≡ v
unfolding push_uint uint_octets
push_uint-uint_octets zero v h k = omega arith
push_uint-uint_octets (suc i) v h k = rw (uint_octet-eq v i h (omega arith)) (
    ap (λ a. push_uint a (uint_octets i v)) (omega (arith, div_suc v i, div-le_self v (256 ^ i)))
    ∙ push_uint-uint_octets i v h (omega arith))

pub uint_size-Least : (v : ℕ) → v < 2 ^ 64 → (i : ℕ) × (uint_size v ≡ suc i) × Least v 8 i
unfolding uint_size
uint_size-Least v h =
    let (i, e, l) = uint_size_loop-Least 8 1 v (omega arith) in (i, e ∙ omega arith, l)

pub length-uint_octets : (i v : ℕ) → length (uint_octets i v) ≡ i
unfolding uint_octets
length-uint_octets zero v = refl
length-uint_octets (suc i) v = ap suc (length-uint_octets i v)

decode_uint-uint_octets :
    (i v : ℕ) → v < 2 ^ 64 → i ≤ 8 → v < 128 * 256 ^ i → decode_uint (uint_octets (suc i) v) ≡ ok v
unfolding decode_uint uint_octets push_uint
decode_uint-uint_octets i v h k b =
    rw (uint_octet-eq v i h k) (ground (arith, length-uint_octets i v, padding, whole))
  where
    padding : i ≡ 8 → v / 256 ^ i % 256 ≡ 0
    padding e = rw e (omega arith)

    whole : push_uint (0 + v / 256 ^ i % 256) (uint_octets i v) ≡ v
    whole =
        ap (λ a. push_uint a (uint_octets i v)) (omega (arith, quotient_small v i b))
        ∙ push_uint-uint_octets i v h k

-- `decode_uint` reads back the `u64` whose octets `append_uint` wrote.
pub decode_uint-append_uint : (v : ℕ) → v < 2 ^ 64 → decode_uint (append_uint [] v) ≡ ok v
unfolding append_uint
decode_uint-append_uint v h =
    let (i, e, l) = uint_size-Least v h in rw e (decode_uint-uint_octets i v h l.within l.holds)
