-- ===== src/Asn1/BitStrings.antt =====
-- asn1/primitives.rs: bit strings, packed with the first bit as the most significant of its octet.
pub mod Bytes
pub mod Laws
use rs_iec.Common.{
  ℕ, zero, suc, ◌+◌, ◌-◌, ◌*◌, ◌/◌, ◌%◌, ◌^◌, Bool, true, false, ◌==◌, ltb, leb, List, [], ◌∷◌,
  ◌++◌, not, ◌&&◌, ◌||◌, if◌then◌else◌, length, get_or, set, replicate, min,
}
use Prim.Native.Nat.{bit_and, bit_or}
use rs_iec.Asn1.Types.{Result, ok, err, bad_value, bit_string_padding, empty_bit_string}

pub record BitString : Type 0 where
  pub bits : List ℕ
  pub length : ℕ

-- `n.div_ceil(8)` octets of zeros
unfoldable pub new : ℕ → BitString
new n = record { bits = replicate ((n + 7) / 8) 0; length = n }

-- `0x80 >> (i % 8)`
abbrev pub mask : ℕ → ℕ
mask i = 128 / 2 ^ (i % 8)

-- A read behind the packed octets would be a panic; `IsPacked` of the laws excludes it.
unfoldable pub bit : BitString → ℕ → Bool
bit bs i = if leb bs.length i then false else not (bit_and (get_or bs.bits (i / 8) 0) (mask i) == 0)

unfoldable pub set_bit : BitString → ℕ → Bool → BitString
set_bit bs i v = if leb bs.length i then bs else record bs {
  bits = set bs.bits (i / 8) (
      if v
      then bit_or (get_or bs.bits (i / 8) 0) (mask i)
      else bit_and (get_or bs.bits (i / 8) 0) (255 - mask i));
}

-- The loop of `to_u32` from bit `i` on, for `k` more bits; `v` is below `1 << i` there, so that `|`
-- is `+`.
unfoldable pub to_u32_loop : ℕ → ℕ → BitString → ℕ → ℕ
to_u32_loop zero i bs v = v
to_u32_loop (suc k) i bs v = to_u32_loop k (i + 1) bs (if bit bs i then v + 2 ^ i else v)

unfoldable pub to_u32 : BitString → ℕ
to_u32 bs = to_u32_loop (min bs.length 32) 0 bs 0

-- The loop of `from_u32`; `v & (1 << i) != 0` is the bit `i` of `v`.
unfoldable pub from_u32_loop : ℕ → ℕ → ℕ → BitString → BitString
from_u32_loop zero i v bs = bs
from_u32_loop (suc k) i v bs = from_u32_loop k (i + 1) v (set_bit bs i (v / 2 ^ i % 2 == 1))

unfoldable pub from_u32 : ℕ → ℕ → BitString
from_u32 v n = from_u32_loop (min n 32) 0 v (new n)

-- `pad` is a `usize` difference; `IsPacked` of the laws keeps it from going below zero.
unfoldable pub append_bit_string : List ℕ → BitString → List ℕ
append_bit_string dst bs =
    let pad = length bs.bits * 8 - bs.length in dst ++ ((pad % 256) ∷ bs.bits)

abbrev is_empty : List ℕ → Bool
is_empty [] = true
is_empty (x ∷ xs) = false

unfoldable pub decode_bit_string : List ℕ → Result BitString
decode_bit_string [] = err (bad_value empty_bit_string)
decode_bit_string (pad ∷ bits) =
    if ltb 7 pad || (is_empty bits && not (pad == 0))
    then err (bad_value (bit_string_padding pad))
    else ok (record { bits = bits; length = length bits * 8 - pad })
