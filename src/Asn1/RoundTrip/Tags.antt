-- ===== src/Asn1/RoundTrip/Tags.antt =====
-- `read_tag` reads back what `append_tag` writes, and how many octets that is.
use rs_iec.Common.{
  ℕ, suc, ◌+◌, ◌*◌, ◌/◌, ◌%◌, ◌^◌, ◌≤◌, ◌<◌, ◌≡◌, refl, ap, ◌∙◌, Bool, true, false, ◌==◌, ltb, List,
  [], ◌∷◌, ◌++◌, if◌then◌else◌, length, All, arith, append_assoc, lt→ltb, le→ltb-false,
}
use native.Mathlib.Decide.{dec_lt}
use native.Mathlib.Nat.{add_assoc, add_comm}
use native.Mathlib.Numerals.{add-one}
use rs_iec.Asn1.Types.{Tag, Class, IsTag, class_bits, from_bits}
use rs_iec.Asn1.Types.Class.{universal, application, context_specific, private}
use rs_iec.Asn1.Encode.{base128_groups, mark_continuation, append_base128, append_tag, tag_size}
use rs_iec.Asn1.Base128.{
  value, value-le, value-groups, groups, groups-All, length-groups, length-mark_continuation,
  IsGroup,
}
use rs_iec.Asn1.Decoder.{done, high_tag_number, read_tag, and_then, tag_number, first_octet}

high_tag_number-mark :
    (d : ℕ) (ds r : List ℕ) (off i v : ℕ)
    → All IsGroup (d ∷ ds)
    → i + length ds < 5
    → value v (d ∷ ds) < 2 ^ 32
    → high_tag_number (mark_continuation (d ∷ ds) ++ r) off i v
      ≡ done (value v (d ∷ ds)) (record { rest = r; off = off + suc (length ds) })
unfolding high_tag_number mark_continuation
high_tag_number-mark d [] r off i v g h b = ground arith
high_tag_number-mark d (e ∷ ds) r off i v g h b = ground (
  arith,
  value-le (v * 128 + d) (e ∷ ds),
  high_tag_number-mark e ds r (off + 1) (i + 1) (v * 128 + d),
)

length-groups_sizes :
    (n : ℕ)
    → n < 2 ^ 32
    → length (groups n) ≡ (
        if ltb n (2 ^ 7)
        then 1
        else if ltb n (2 ^ 14)
        then 2
        else if ltb n (2 ^ 21)
        then 3
        else if ltb n (2 ^ 28)
        then 4
        else 5)
unfolding base128_groups
length-groups_sizes n h = ground arith

-- The first identifier octet of a tag with the low bits `n`.
abbrev identifier : Tag → ℕ → ℕ
identifier t n = class_bits t.class * 64 + (if t.constructed then 32 else 0) + n

append_tag-low :
    (dst : List ℕ) (t : Tag)
    → t.number < 31
    → append_tag dst t ≡ dst ++ (identifier t t.number ∷ [])
unfolding append_tag
append_tag-low dst t h = rw (lt→ltb t.number 31 h)

append_tag-high :
    (dst : List ℕ) (t : Tag)
    → 31 ≤ t.number
    → append_tag dst t ≡ dst ++ (identifier t 31 ∷ mark_continuation (groups t.number))
unfolding append_tag append_base128
append_tag-high dst t h =
    rw (le→ltb-false t.number 31 h) (append_assoc dst (identifier t 31 ∷ []) _)

pub append_tag-append : (dst : List ℕ) (t : Tag) → append_tag dst t ≡ dst ++ append_tag [] t
append_tag-append dst t = elim (dec_lt t.number 31) [
  | yes h ↦ rw (append_tag-low dst t h, append_tag-low [] t h)
  | no h ↦ rw (append_tag-high dst t (omega arith), append_tag-high [] t (omega arith))
]

-- `append_tag` writes the number of octets that `tag_size` says for every tag number below
-- 2 ^ 28, and one octet more for every greater one.
pub length-append_tag :
    (t : Tag)
    → IsTag t
    → length (append_tag [] t) ≡ tag_size t + (if ltb t.number (2 ^ 28) then 0 else 1)
unfolding tag_size
length-append_tag t h = elim (dec_lt t.number 31) [
  | yes k ↦ rw (append_tag-low [] t k) (ground arith)
  | no k ↦
      rw
        (
          append_tag-high [] t (omega arith),
          length-mark_continuation,
          length-groups_sizes t.number h,
        )
        (ground arith)
]

abbrev constructed_bit : Bool → ℕ
constructed_bit b = if b then 32 else 0

identifier-class :
    (c : Class) (b : Bool) (n : ℕ)
    → n < 32
    → from_bits ((class_bits c * 64 + constructed_bit b + n) / 64) ≡ c
identifier-class universal true n h = ground arith
identifier-class universal false n h = ground arith
identifier-class application true n h = ground arith
identifier-class application false n h = ground arith
identifier-class context_specific true n h = ground arith
identifier-class context_specific false n h = ground arith
identifier-class private true n h = ground arith
identifier-class private false n h = ground arith

identifier-constructed :
    (c : ℕ) (b : Bool) (n : ℕ) → n < 32 → ((c * 64 + constructed_bit b + n) / 32 % 2 == 1) ≡ b
identifier-constructed c true n h = ground arith
identifier-constructed c false n h = ground arith

identifier-number : (c : ℕ) (b : Bool) (n : ℕ) → n < 32 → (c * 64 + constructed_bit b + n) % 32 ≡ n
identifier-number c true n h = omega arith
identifier-number c false n h = omega arith

first_octet-identifier :
    (t : Tag) (n : ℕ) → n < 32 → first_octet (identifier t n) ≡ record t { number = n }
first_octet-identifier t n h = λ i. record {
  class = identifier-class t.class t.constructed n h i;
  constructed = identifier-constructed (class_bits t.class) t.constructed n h i;
  number = identifier-number (class_bits t.class) t.constructed n h i;
}

read_tag-first :
    (b : ℕ) {t : Tag} (r : List ℕ) (off : ℕ)
    → first_octet b ≡ t
    → read_tag (record { rest = b ∷ r; off = off }) ≡ tag_number t r (off + 1)
read_tag-first b r off e = first ∙ ap (λ s. tag_number s r (off + 1)) e
  where
    first : read_tag (record { rest = b ∷ r; off = off }) ≡ tag_number (first_octet b) r (off + 1)
    first = unfold read_tag in refl

tag_number-low :
    (t : Tag) (r : List ℕ) (off : ℕ)
    → t.number < 31
    → tag_number t r off ≡ done t (record { rest = r; off = off })
unfolding tag_number
tag_number-low t r off h = ground arith

tag_number-high :
    (t : Tag) (r : List ℕ) (off : ℕ)
    → tag_number (record t { number = 31 }) r off
      ≡ and_then (high_tag_number r off 0 0) (λ n d. done (record t { number = n }) d)
unfolding tag_number
tag_number-high t r off = refl

high_tag_number-groups :
    (n : ℕ) (r : List ℕ) (off : ℕ)
    → n < 2 ^ 32
    → high_tag_number (mark_continuation (groups n) ++ r) off 0 0
      ≡ done n (record { rest = r; off = off + length (groups n) })
high_tag_number-groups n r off h = go (groups n) (groups-All n) (length-groups n) (value-groups n h)
  where
    go :
        (ds : List ℕ)
        → All IsGroup ds
        → (0 < length ds) × (length ds ≤ 5)
        → value 0 ds ≡ n
        → high_tag_number (mark_continuation ds ++ r) off 0 0
          ≡ done n (record { rest = r; off = off + length ds })
    go [] g l e = absurd (omega arith)
    go (d ∷ ds) g l e = rw (high_tag_number-mark d ds r off 0 0 g (omega arith) (rw e h)) (rw e)

-- `read_tag` reads back the tag that `append_tag` wrote, whatever follows, and leaves the cursor
-- behind its octets.
pub read_tag-append_tag :
    (t : Tag) (r : List ℕ) (off : ℕ)
    → IsTag t
    → read_tag (record { rest = append_tag [] t ++ r; off = off })
      ≡ done t (record { rest = r; off = off + length (append_tag [] t) })
read_tag-append_tag t r off h = elim (dec_lt t.number 31) [
  | yes k ↦ rw (append_tag-low [] t k) (
      read_tag-first (identifier t t.number) r off (first_octet-identifier t t.number (omega arith))
      ∙ tag_number-low t r (off + 1) k)
  | no k ↦ rw (append_tag-high [] t (omega arith)) (
      read_tag-first (identifier t 31) _ off (first_octet-identifier t 31 (omega arith))
      ∙ tag_number-high t _ (off + 1)
      ∙ rw
          (
            high_tag_number-groups t.number r (off + 1) h,
            length-mark_continuation (groups t.number),
          )
          (ap (λ k. done t (record { rest = r; off = k }))
            (add_assoc off 1 _ ∙ ap (λ k. off + k) (add_comm 1 _ ∙ add-one _))))
]
