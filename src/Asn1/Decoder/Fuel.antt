-- ===== src/Asn1/Decoder/Fuel.antt =====
-- `read_tlv_at` ends on every input, and how far a cursor moves.
use rs_iec.Common.{
  ℕ, zero, suc, ◌+◌, ◌≤◌, ◌<◌, ◌≡◌, refl, true, List, [], ◌∷◌, length, arith, ltb-false-le, if_elim,
  not, ◌/◌, ◌*◌, length-drop, ltb, leb, ◌==◌, ◌%◌,
}
use rs_iec.Asn1.Types.{Tag, max_depth}
use rs_iec.Asn1.Decoder.{
  Decoder, Out, done, fail, stuck, high_tag_number, read_tag, length_octets, read_length,
  definite_content, at_end_of_contents, read_element, scan_round, read_tlv_at, scan_children,
  read_tlv, and_then, tag_number, tag_from, length_from,
}

abbrev pub cursor : List ℕ → ℕ → Decoder
cursor r off = record { rest = r; off = off }

-- What `Out` says of the cursor: the offset and the octets left add up to those of `d`, and at
-- least `k` octets are consumed on success.
abbrev pub Moves {ℓ} : {A : Type ℓ} → ℕ → Decoder → Out A → Type 0
Moves k d (done a d') = (d'.off + length d'.rest ≡ d.off + length d.rest) × (d.off + k ≤ d'.off)
Moves k d (fail e d') = (d'.off + length d'.rest ≡ d.off + length d.rest) × (d.off ≤ d'.off)
Moves k d stuck = ⊥

pub Moves-trans {ℓ} :
    {A : Type ℓ} (j k : ℕ) (d d' : Decoder) (o : Out A)
    → d'.off + length d'.rest ≡ d.off + length d.rest
    → d.off + j ≤ d'.off
    → Moves k d' o
    → Moves (j + k) d o
Moves-trans j k d d' (done a c) e h m = omega arith
Moves-trans j k d d' (fail x c) e h m = omega arith
Moves-trans j k d d' stuck e h m = m

high_tag_number-Moves :
    (r : List ℕ) (off i number : ℕ) → Moves 0 (cursor r off) (high_tag_number r off i number)
unfolding high_tag_number
high_tag_number-Moves [] off i number = omega arith
high_tag_number-Moves (c ∷ r) off i number =
    if_elim (Moves 0 (cursor (c ∷ r) off)) (leb 5 i) (λ _. omega arith)
      λ _.
        if_elim (Moves 0 (cursor (c ∷ r) off)) (c / 128 == 0) (λ _. omega arith)
          λ _.
            Moves-trans 0 0 (cursor (c ∷ r) off) (cursor r (off + 1)) _ (omega arith) (omega arith)
              (high_tag_number-Moves r (off + 1) (i + 1) _)

length_octets-Moves :
    (k : ℕ) (r : List ℕ) (off n : ℕ) → Moves 0 (cursor r off) (length_octets k r off n)
unfolding length_octets
length_octets-Moves zero r off n = omega arith
length_octets-Moves (suc k) [] off n = omega arith
length_octets-Moves (suc k) (b ∷ r) off n =
    Moves-trans 0 0 (cursor (b ∷ r) off) (cursor r (off + 1))
      (length_octets k r (off + 1) (n * 256 + b)) (omega arith) (omega arith)
      (length_octets-Moves k r (off + 1) _)

pub Moves-and_then {ℓ κ} :
    {A : Type ℓ} {B : Type κ} (j k : ℕ) (d : Decoder) (o : Out A) (f : A → Decoder → Out B)
    → Moves j d o
    → ((a : A) (c : Decoder) → length c.rest + j ≤ length d.rest → Moves k c (f a c))
    → Moves (j + k) d (and_then o f)
Moves-and_then j k d (done a c) f m h = Moves-trans j k d c (f a c) m.0 m.1 (h a c (omega arith))
Moves-and_then j k d (fail e c) f m h = m
Moves-and_then j k d stuck f m h = m

tag_from-Moves : (r : List ℕ) (off : ℕ) → Moves 1 (cursor r off) (tag_from r off)
unfolding tag_from tag_number
tag_from-Moves [] off = omega arith
tag_from-Moves (b ∷ r) off =
    if_elim (Moves 1 (cursor (b ∷ r) off)) (not (b % 32 == 0x1f)) (λ _. omega arith)
      λ _.
        Moves-and_then 1 0 (cursor (b ∷ r) off) (high_tag_number r (off + 1) 0 0) _
          (Moves-trans 1 0 (cursor (b ∷ r) off) (cursor r (off + 1)) _ (omega arith) (omega arith)
            (high_tag_number-Moves r (off + 1) 0 0))
          (λ _ _ _. omega arith)

pub read_tag-Moves : (d : Decoder) → Moves 1 d (read_tag d)
unfolding read_tag
read_tag-Moves d = tag_from-Moves d.rest d.off

length_from-Moves : (r : List ℕ) (off : ℕ) → Moves 1 (cursor r off) (length_from r off)
unfolding length_from
length_from-Moves [] off = omega arith
length_from-Moves (b ∷ r) off =
    if_elim (Moves 1 (cursor (b ∷ r) off)) (ltb b 0x80) (λ _. omega arith)
      λ _.
        if_elim (Moves 1 (cursor (b ∷ r) off)) (b == 0x80) (λ _. omega arith)
          λ _.
            if_elim (Moves 1 (cursor (b ∷ r) off)) (ltb 4 (b % 128)) (λ _. omega arith)
              λ _.
                if_elim (Moves 1 (cursor (b ∷ r) off)) (ltb (length r) (b % 128)) (λ _. omega arith)
                  λ _.
                    Moves-and_then 1 0 (cursor (b ∷ r) off) (length_octets (b % 128) r (off + 1) 0)
                      _
                      (Moves-trans 1 0 (cursor (b ∷ r) off) (cursor r (off + 1)) _ (omega arith)
                        (omega arith) (length_octets-Moves (b % 128) r (off + 1) 0))
                      (λ _ _ _. omega arith)

pub read_length-Moves : (d : Decoder) → Moves 1 d (read_length d)
unfolding read_length
read_length-Moves d = length_from-Moves d.rest d.off

pub definite_content-Moves : (t : Tag) (n : ℕ) (d : Decoder) → Moves 0 d (definite_content t n d)
unfolding definite_content
definite_content-Moves t n d =
    if_elim (Moves 0 d) (ltb (length d.rest) n) (λ _. omega arith)
      λ h. omega (arith, length-drop n d.rest, ltb-false-le _ _ h)

-- The two bodies, over a loop and a reader that move the cursor.
read_element-Moves :
    (depth : ℕ) (scan : Tag → Decoder → Out (Tag × List ℕ)) (d : Decoder)
    → ((t : Tag) (c : Decoder) → length c.rest + 2 ≤ length d.rest → Moves 0 c (scan t c))
    → Moves 2 d (read_element depth scan d)
unfolding read_element
read_element-Moves depth scan d keep =
    if_elim (Moves 2 d) (ltb max_depth depth) (λ _. (refl, omega arith))
      λ _. Moves-and_then 1 1 d (read_tag d) _ (read_tag-Moves d) λ t c h.
        Moves-and_then 1 0 c (read_length c) _ (read_length-Moves c) λ p c' k.
          if_elim (Moves 0 c') (not p.1) (λ _. definite_content-Moves t p.0 c')
            λ _.
              if_elim (Moves 0 c') (not t.constructed) (λ _. (refl, omega arith))
                λ _. keep t c' (omega arith)

pub at_end_of_contents-length : (r : List ℕ) → at_end_of_contents r ≡ true → 2 ≤ length r
at_end_of_contents-length [] h = cc
at_end_of_contents-length (x ∷ []) h = cc
at_end_of_contents-length (x ∷ y ∷ r) h = omega arith

Moves-zero {ℓ} : {A : Type ℓ} (k : ℕ) (d : Decoder) (o : Out A) → Moves k d o → Moves 0 d o
Moves-zero k d (done a c) h = omega arith
Moves-zero k d (fail e c) h = h
Moves-zero k d stuck h = h

scan_round-Moves :
    (t : Tag) (start : Decoder) (child again : Decoder → Out (Tag × List ℕ)) (d : Decoder)
    → Moves 2 d (child d)
    → ((c : Decoder) → length c.rest + 2 ≤ length d.rest → Moves 0 c (again c))
    → Moves 0 d (scan_round t start child again d)
unfolding scan_round
scan_round-Moves t start child again d h keep =
    if_elim (Moves 0 d) (at_end_of_contents d.rest)
      (λ e. omega (arith, at_end_of_contents-length d.rest e, length-drop 2 d.rest))
      λ _. Moves-zero 2 d _ (Moves-and_then 2 0 d (child d) _ h (λ _ c k. keep c k))

-- Reading an element never runs out of fuel when one unit is given for each octet left and one
-- more; it consumes two octets at least.
mutual
  unfolding read_tlv_at scan_children

  pub read_tlv_at-Moves :
      (fuel depth : ℕ) (d : Decoder) → length d.rest < fuel → Moves 2 d (read_tlv_at fuel depth d)
  read_tlv_at-Moves zero depth d h = elim h [ ]
  read_tlv_at-Moves (suc fuel) depth d h =
      read_element-Moves depth _ d (λ t c k. scan_children-Moves fuel depth t c c (omega arith))

  pub scan_children-Moves :
      (fuel depth : ℕ) (t : Tag) (start d : Decoder)
      → length d.rest + 1 < fuel
      → Moves 0 d (scan_children fuel depth t start d)
  scan_children-Moves zero depth t start d h = elim h [ ]
  scan_children-Moves (suc fuel) depth t start d h =
      scan_round-Moves t start _ _ d (read_tlv_at-Moves fuel (depth + 1) d (omega arith))
        (λ c k. scan_children-Moves fuel depth t start c (omega arith))

-- `read_tlv` returns an element or an error on every input, well formed or not, and never runs
-- out of fuel. The cursor that it leaves stands between where it stood and the end of the input,
-- and on success it has moved by two octets at least.
pub read_tlv-Moves : (d : Decoder) → Moves 2 d (read_tlv d)
unfolding read_tlv
read_tlv-Moves d = read_tlv_at-Moves (length d.rest + 1) 0 d (omega arith)
