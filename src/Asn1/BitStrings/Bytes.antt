-- ===== src/Asn1/BitStrings/Bytes.antt =====
-- One octet of a bit string: what a write of one bit does to the others. The facts are tables over
-- the 256 octets and the 8 positions, checked by evaluation.
use rs_iec.Common.{
  ℕ, zero, suc, ◌+◌, ◌-◌, ◌*◌, ◌/◌, ◌%◌, ◌^◌, ◌<◌, ◌≡◌, refl, Bool, true, false, ◌==◌, ltb, not,
  ◌&&◌, if◌then◌else◌, arith, ltb→lt, left_true, right_true,
}
use Prim.Native.Nat.{bit_and, bit_or}
use rs_iec.Asn1.Types.{Bool_eq}

-- The test holds of the `count` numbers below `count`, the greatest first.
table_holds : (ℕ → Bool) → ℕ → Bool
table_holds test zero = true
table_holds test (suc count) = if test count then table_holds test count else false

table_entry :
    (test : ℕ → Bool) (count entry : ℕ)
    → entry < count
    → table_holds test count ≡ true
    → test entry ≡ true
unfolding table_holds
table_entry test zero entry below whole = absurd (omega arith)
table_entry test (suc count) entry below whole = ground (arith, table_entry test count entry)

-- The bit at position `k` of an octet.
abbrev pub octet_bit : ℕ → ℕ → Bool
octet_bit b k = not (bit_and b (128 / 2 ^ k) == 0)

abbrev pub write_octet_bit : ℕ → ℕ → Bool → ℕ
write_octet_bit b k v = if v then bit_or b (128 / 2 ^ k) else bit_and b (255 - 128 / 2 ^ k)

-- Octet, both positions and the value written, packed into one number.
write_right : ℕ → Bool
write_right x =
    let b = x / 128 in
    let k = x / 16 % 8 in
    let j = x / 2 % 8 in
    let v = x % 2 == 1 in
    ltb (write_octet_bit b k v) 256
    && Bool_eq (octet_bit (write_octet_bit b k v) j) (if k == j then v else octet_bit b j)

write_table : table_holds write_right 32768 ≡ true
unfolding table_holds write_right
write_table = refl

packed : ℕ → ℕ → ℕ → Bool → ℕ
packed b k j v = b * 128 + k * 16 + j * 2 + (if v then 1 else 0)

packed_parts :
    (b k j : ℕ) (v : Bool)
    → k < 8
    → j < 8
    → (packed b k j v / 128 ≡ b)
      × (packed b k j v / 16 % 8 ≡ k)
      × (packed b k j v / 2 % 8 ≡ j)
      × ((packed b k j v % 2 == 1) ≡ v)
unfolding packed
packed_parts b k j true hk hj = (omega arith, omega arith, omega arith, ground arith)
packed_parts b k j false hk hj = (omega arith, omega arith, omega arith, ground arith)

packed-lt : (b k j : ℕ) (v : Bool) → b < 256 → k < 8 → j < 8 → packed b k j v < 32768
unfolding packed
packed-lt b k j v hb hk hj = ground arith

written :
    (b k j : ℕ) (v : Bool)
    → b < 256
    → k < 8
    → j < 8
    → (ltb (write_octet_bit b k v) 256
        && Bool_eq (octet_bit (write_octet_bit b k v) j) (if k == j then v else octet_bit b j))
      ≡ true
unfolding write_right
written b k j v hb hk hj =
    let (pb, pk, pj, pv) = packed_parts b k j v hk hj in
    rw (pb, pk, pj, pv) at
      (table_entry write_right 32768 (packed b k j v) (packed-lt b k j v hb hk hj) write_table)

Bool_eq→eq : (a b : Bool) → Bool_eq a b ≡ true → a ≡ b
Bool_eq→eq a b h = ground arith

pub write_octet_bit-IsByte : (b k : ℕ) (v : Bool) → b < 256 → k < 8 → write_octet_bit b k v < 256
write_octet_bit-IsByte b k v hb hk =
    ltb→lt _ _ (left_true _ _ (written b k 0 v hb hk (omega arith)))

pub octet_bit-write_octet_bit :
    (b k j : ℕ) (v : Bool)
    → b < 256
    → k < 8
    → j < 8
    → octet_bit (write_octet_bit b k v) j ≡ (if k == j then v else octet_bit b j)
octet_bit-write_octet_bit b k j v hb hk hj =
    Bool_eq→eq _ _ (right_true _ _ (written b k j v hb hk hj))

clear_table : table_holds (λ k. Bool_eq (octet_bit 0 k) false) 8 ≡ true
unfolding table_holds
clear_table = refl

pub octet_bit-zero : (k : ℕ) → k < 8 → octet_bit 0 k ≡ false
octet_bit-zero k h =
    Bool_eq→eq _ _ (table_entry (λ k. Bool_eq (octet_bit 0 k) false) 8 k h clear_table)
