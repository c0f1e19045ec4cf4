-- ===== src/Asn1/BitStrings/Laws.antt =====
-- Bit strings: reads after writes, and the conversions to and from words and contents.
use rs_iec.Common.{
  ℕ, zero, suc, ◌+◌, ◌*◌, ◌/◌, ◌%◌, ◌^◌, ◌≤◌, ◌<◌, ◌≡◌, refl, ap, ◌∙◌, Bool, true, false, ◌==◌, ltb,
  leb, ◌&&◌, if◌then◌else◌, List, [], ◌∷◌, length, get_or, min, arith, IsByte, IsBytes, All-set,
  All-get_or, All-replicate, get_or-set, get_or-replicate, length-set, length-replicate, if_elim,
}
use native.Mathlib.Nat.{
  div-div-eq-div-mul, mod-eq-sub-div-mul, pow-suc, div-add-mod, div-mul-le_self,
}
use native.Mathlib.Numerals.{add-one}
use rs_iec.Asn1.Types.{ok}
use rs_iec.Asn1.BitStrings.{
  BitString, new, bit, set_bit, to_u32_loop, to_u32, from_u32_loop, from_u32, append_bit_string,
  decode_bit_string, is_empty,
}
use rs_iec.Asn1.BitStrings.Bytes.{
  octet_bit-zero, write_octet_bit, write_octet_bit-IsByte, octet_bit-write_octet_bit,
}

-- The packed octets hold every bit, and are octets.
pub record IsPacked (bs : BitString) : Type 0 where
  pub room : bs.length ≤ length bs.bits * 8
  pub octets : IsBytes bs.bits

pub new-IsPacked : (n : ℕ) → IsPacked (new n)
unfolding new
new-IsPacked n = record {
  room = omega (arith, length-replicate ((n + 7) / 8) (let z : ℕ = 0 in z));
  octets = All-replicate IsByte ((n + 7) / 8) 0 (omega arith);
}

pub set_bit-IsPacked : (bs : BitString) (i : ℕ) (v : Bool) → IsPacked bs → IsPacked (set_bit bs i v)
unfolding set_bit
set_bit-IsPacked bs i v h =
    if_elim IsPacked (leb bs.length i) (λ _. h)
      λ _. record {
        room = omega (
          arith,
          length-set bs.bits (i / 8) (write_octet_bit (get_or bs.bits (i / 8) 0) (i % 8) v),
          h.room,
        );
        octets = All-set IsByte bs.bits (i / 8) _ h.octets (
            write_octet_bit-IsByte _ (i % 8) v
              (All-get_or IsByte bs.bits (i / 8) 0 h.octets (omega arith)) (omega arith));
      }

length-set_bit : (bs : BitString) (i : ℕ) (v : Bool) → (set_bit bs i v).length ≡ bs.length
unfolding set_bit
length-set_bit bs i v = ground arith

-- A read after a write: the bit written has the new value if it is inside the string, and every
-- other bit, in or out of range, reads as before.
pub bit-set_bit :
    (bs : BitString) (i j : ℕ) (v : Bool)
    → IsPacked bs
    → bit (set_bit bs i v) j ≡ (if i == j && ltb i bs.length then v else bit bs j)
unfolding bit set_bit
bit-set_bit bs i j v h = ground (
  arith,
  get_or-set bs.bits (i / 8) (j / 8) (write_octet_bit (get_or bs.bits (i / 8) 0) (i % 8) v) 0,
  octet_bit-write_octet_bit (get_or bs.bits (i / 8) 0) (i % 8) (j % 8) v,
  All-get_or IsByte bs.bits (i / 8) 0 h.octets (omega arith),
)

from_u32_loop-IsPacked :
    (k i v : ℕ) (bs : BitString) → IsPacked bs → IsPacked (from_u32_loop k i v bs)
unfolding from_u32_loop
from_u32_loop-IsPacked zero i v bs h = h
from_u32_loop-IsPacked (suc k) i v bs h =
    from_u32_loop-IsPacked k (i + 1) v _ (set_bit-IsPacked bs i (v / 2 ^ i % 2 == 1) h)

length-from_u32_loop : (k i v : ℕ) (bs : BitString) → (from_u32_loop k i v bs).length ≡ bs.length
unfolding from_u32_loop
length-from_u32_loop zero i v bs = refl
length-from_u32_loop (suc k) i v bs =
    length-from_u32_loop k (i + 1) v _ ∙ length-set_bit bs i (v / 2 ^ i % 2 == 1)

bit-from_u32_loop :
    (k i v j : ℕ) (bs : BitString)
    → IsPacked bs
    → i + k ≤ bs.length
    → bit (from_u32_loop k i v bs) j
      ≡ (if leb i j && ltb j (i + k) then v / 2 ^ j % 2 == 1 else bit bs j)
unfolding from_u32_loop
bit-from_u32_loop zero i v j bs h r = ground arith
bit-from_u32_loop (suc k) i v j bs h r = ground (
  arith,
  bit-from_u32_loop k (i + 1) v j (set_bit bs i (v / 2 ^ i % 2 == 1)),
  set_bit-IsPacked bs i (v / 2 ^ i % 2 == 1) h,
  length-set_bit bs i (v / 2 ^ i % 2 == 1),
  bit-set_bit bs i j (v / 2 ^ i % 2 == 1) h,
)

bit-new : (n j : ℕ) → bit (new n) j ≡ false
unfolding bit new
bit-new n j =
    rw (get_or-replicate {A = ℕ} ((n + 7) / 8) (j / 8) 0) (ground (arith, octet_bit-zero (j % 8)))

new_length : (n : ℕ) → (new n).length ≡ n
unfolding new
new_length n = refl

length_word : (v n : ℕ) → (from_u32 v n).length ≡ n
unfolding from_u32
length_word v n = length-from_u32_loop (min n 32) 0 v (new n) ∙ new_length n

-- `from_u32` gives `n` bits, the first 32 of which are those of `v`, lowest first; the others are
-- clear.
pub bit-from_u32 :
    (v n j : ℕ) → bit (from_u32 v n) j ≡ (if ltb j n && ltb j 32 then v / 2 ^ j % 2 == 1 else false)
unfolding from_u32
bit-from_u32 v n j =
    ground (
      arith,
      bit-from_u32_loop (min n 32) 0 v j (new n) (new-IsPacked n),
      bit-new n j,
      new_length n,
    )

mod_double : (v p : ℕ) → v % (p * 2) ≡ v % p + v / p % 2 * p
mod_double v p = omega (
  arith,
  mod-eq-sub-div-mul v (p * 2),
  mod-eq-sub-div-mul v p,
  ap (λ (t : ℕ). t * (p * 2)) (div-div-eq-div-mul v p 2),
  ap (λ (t : ℕ). t * p) (div-add-mod (v / p) 2),
  div-mul-le_self v p,
)

mod_bit : (v i : ℕ) → v % 2 ^ suc i ≡ v % 2 ^ i + v / 2 ^ i % 2 * 2 ^ i
mod_bit v i = rw (pow-suc 2 i) (mod_double v (2 ^ i))

to_u32_loop-bits :
    (k i v : ℕ) (bs : BitString)
    → ((j : ℕ) → j < i + k → bit bs j ≡ (v / 2 ^ j % 2 == 1))
    → to_u32_loop k i bs (v % 2 ^ i) ≡ v % 2 ^ (i + k)
unfolding to_u32_loop
to_u32_loop-bits zero i v bs h = ap (λ n. v % 2 ^ n) (omega arith)
to_u32_loop-bits (suc k) i v bs h =
    ap (to_u32_loop k (i + 1) bs) next
    ∙ to_u32_loop-bits k (i + 1) v bs (λ j l. h j (omega arith))
    ∙ ap (λ n. v % 2 ^ n) (omega arith)
  where
    next : (if bit bs i then v % 2 ^ i + 2 ^ i else v % 2 ^ i) ≡ v % 2 ^ (i + 1)
    next = rw (h i (omega arith), add-one i) (ground (arith, mod_bit v i))

-- A word goes through a bit string of `n` bits with its lowest `n` bits kept, at most 32.
pub to_u32-from_u32 : (v n : ℕ) → to_u32 (from_u32 v n) ≡ v % 2 ^ min n 32
unfolding to_u32
to_u32-from_u32 v n =
    ap (λ l. to_u32_loop (min l 32) 0 (from_u32 v n) 0) (length_word v n)
    ∙ ap (to_u32_loop (min n 32) 0 (from_u32 v n)) (omega arith)
    ∙ to_u32_loop-bits (min n 32) 0 v (from_u32 v n) (λ j l. bit-from_u32 v n j ∙ ground arith)
    ∙ ap (λ k. v % 2 ^ k) (omega arith)

is_empty-length : (xs : List ℕ) → is_empty xs ≡ true → length xs ≡ 0
is_empty-length [] h = refl
is_empty-length (x ∷ xs) h = cc

-- `decode_bit_string` reads back a packed bit string with fewer than eight bits of padding.
pub decode_bit_string-append_bit_string :
    (bs : BitString)
    → IsPacked bs
    → length bs.bits * 8 < bs.length + 8
    → decode_bit_string (append_bit_string [] bs) ≡ ok bs
unfolding decode_bit_string append_bit_string
decode_bit_string-append_bit_string bs h p = ground (arith, is_empty-length bs.bits)

-- Whatever `decode_bit_string` accepts is a packed bit string, which `append_bit_string` writes
-- back octet for octet.
pub append_bit_string-decode_bit_string :
    (content : List ℕ) (bs : BitString)
    → IsBytes content
    → decode_bit_string content ≡ ok bs
    → IsPacked bs × (append_bit_string [] bs ≡ content)
unfolding decode_bit_string append_bit_string
append_bit_string-decode_bit_string [] bs b h = cc
append_bit_string-decode_bit_string (pad ∷ []) bs b h = (ground arith, ground arith)
append_bit_string-decode_bit_string (pad ∷ x ∷ xs) bs b h = (ground arith, ground arith)
