-- ===== src/Asn1/Base128.antt =====
-- Base-128 numbers, as tags and object identifiers carry them: what `append_base128` writes.
use rs_iec.Common.{
  ℕ, zero, suc, ◌+◌, ◌*◌, ◌/◌, ◌%◌, ◌^◌, ◌≤◌, ◌<◌, ◌≡◌, refl, ap, List, [], ◌∷◌, length, All, arith,
}
use rs_iec.Asn1.Encode.{base128_groups, mark_continuation}

-- The number that the groups `ds` add to `v`, highest first.
abbrev pub value : ℕ → List ℕ → ℕ
value v [] = v
value v (d ∷ ds) = value (v * 128 + d) ds

pub value-le : (v : ℕ) (ds : List ℕ) → v ≤ value v ds
value-le v [] = omega arith
value-le v (d ∷ ds) = omega (arith, value-le (v * 128 + d) ds)

abbrev pub IsGroup : ℕ → Type 0
IsGroup d = d < 128

-- Five groups hold any number below 2 ^ 35.
value-base128_groups :
    (i n : ℕ) (tmp : List ℕ)
    → n < 128 ^ suc i
    → value 0 (base128_groups (suc i) n tmp) ≡ value n tmp
unfolding base128_groups
value-base128_groups zero n tmp h = ground arith
value-base128_groups (suc i) n tmp h =
    ground (arith, value-base128_groups i (n / 128) (n % 128 ∷ tmp))

base128_groups-All :
    (i n : ℕ) (tmp : List ℕ) → All IsGroup tmp → All IsGroup (base128_groups i n tmp)
unfolding base128_groups
base128_groups-All zero n tmp h = h
base128_groups-All (suc i) n tmp h = ground (arith, base128_groups-All i (n / 128) (n % 128 ∷ tmp))

length-base128_groups :
    (i n : ℕ) (tmp : List ℕ)
    → (length tmp ≤ length (base128_groups i n tmp))
      × (length (base128_groups i n tmp) ≤ i + length tmp)
unfolding base128_groups
length-base128_groups zero n tmp = omega arith
length-base128_groups (suc i) n tmp =
    ground (arith, length-base128_groups i (n / 128) (n % 128 ∷ tmp))

-- The groups of a `u32`.
abbrev pub groups : ℕ → List ℕ
groups n = base128_groups 5 n []

pub value-groups : (n : ℕ) → n < 2 ^ 32 → value 0 (groups n) ≡ n
value-groups n h = value-base128_groups 4 n [] (omega arith)

pub groups-All : (n : ℕ) → All IsGroup (groups n)
groups-All n = base128_groups-All 5 n [] tt

pub length-groups : (n : ℕ) → (0 < length (groups n)) × (length (groups n) ≤ 5)
unfolding base128_groups
length-groups n = ground (arith, length-base128_groups 4 (n / 128) (n % 128 ∷ []))

pub length-mark_continuation : (ds : List ℕ) → length (mark_continuation ds) ≡ length ds
unfolding mark_continuation
length-mark_continuation [] = refl
length-mark_continuation (x ∷ []) = refl
length-mark_continuation (x ∷ y ∷ r) = ap suc (length-mark_continuation (y ∷ r))
