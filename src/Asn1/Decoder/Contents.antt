-- ===== src/Asn1/Decoder/Contents.antt =====
-- asn1/decoder.rs: an element's content is a part of the input that the cursor passes.
use rs_iec.Common.{
  ℕ, zero, suc, ◌+◌, ◌-◌, ◌≤◌, ◌<◌, ◌≡◌, refl, List, length, arith, ltb, not, if_elim, length-drop,
  length-take, ltb-false-le,
}
use rs_iec.Asn1.Types.{Tag, max_depth}
use rs_iec.Asn1.Decoder.{
  Decoder, Out, done, fail, stuck, read_tag, read_length, definite_content, at_end_of_contents,
  read_element, scan_round, read_tlv_at, scan_children, read_tlv, and_then,
}
use rs_iec.Asn1.Decoder.Fuel.{
  Moves, read_tag-Moves, read_length-Moves, read_tlv_at-Moves, at_end_of_contents-length,
}

-- The content, the octets left and `k` more are together no more than those that were there.
abbrev pub Within : ℕ → Decoder → Out (Tag × List ℕ) → Type 0
Within k d (done (t, content) d') = length content + length d'.rest + k ≤ length d.rest
Within k d (fail e d') = Unit {0}
Within k d stuck = Unit {0}

Within-and_then {ℓ} :
    {A : Type ℓ} (k j : ℕ) (d start : Decoder) (o : Out A) (f : A → Decoder → Out (Tag × List ℕ))
    → Moves k d o
    → ((a : A) (c : Decoder)
        → c.off + length c.rest ≡ d.off + length d.rest
        → length c.rest + k ≤ length d.rest
        → Within j start (f a c))
    → Within j start (and_then o f)
Within-and_then k j d start (done a c) f m h = h a c m.0 (omega (arith, m.0, m.1))
Within-and_then k j d start (fail e c) f m h = tt
Within-and_then k j d start stuck f m h = tt

Within-later :
    (k : ℕ) (d c : Decoder) (o : Out (Tag × List ℕ))
    → length c.rest + k ≤ length d.rest
    → Within 0 c o
    → Within k d o
Within-later k d c (done (t, content) d') h w = omega (arith, h, w)
Within-later k d c (fail e d') h w = tt
Within-later k d c stuck h w = tt

definite_content-Within : (t : Tag) (n : ℕ) (d : Decoder) → Within 0 d (definite_content t n d)
unfolding definite_content
definite_content-Within t n d =
    if_elim (Within 0 d) (ltb (length d.rest) n) (λ _. tt)
      λ h. omega (arith, length-drop n d.rest, length-take n d.rest, ltb-false-le _ _ h)

read_element-Within :
    (depth : ℕ) (scan : Tag → Decoder → Out (Tag × List ℕ)) (d : Decoder)
    → ((t : Tag) (c : Decoder) → length c.rest + 2 ≤ length d.rest → Within 0 c (scan t c))
    → Within 2 d (read_element depth scan d)
unfolding read_element
read_element-Within depth scan d keep =
    if_elim (Within 2 d) (ltb max_depth depth) (λ _. tt)
      λ _. Within-and_then 1 2 d d (read_tag d) _ (read_tag-Moves d) λ t c e h.
        Within-and_then 1 2 c d (read_length c) _ (read_length-Moves c) λ p c' e' k.
          if_elim (Within 2 d) (not p.1)
            (λ _. Within-later 2 d c' _ (omega arith) (definite_content-Within t p.0 c'))
            λ _.
              if_elim (Within 2 d) (not t.constructed) (λ _. tt)
                λ _. Within-later 2 d c' _ (omega arith) (keep t c' (omega arith))

mutual
  unfolding read_tlv_at scan_children scan_round

  read_tlv_at-Within :
      (fuel depth : ℕ) (d : Decoder) → length d.rest < fuel → Within 2 d (read_tlv_at fuel depth d)
  read_tlv_at-Within zero depth d h = tt
  read_tlv_at-Within (suc fuel) depth d h =
      read_element-Within depth _ d
        (λ t c k. scan_children-Within fuel depth t c c refl (omega arith) (omega arith))

  scan_children-Within :
      (fuel depth : ℕ) (t : Tag) (start d : Decoder)
      → d.off + length d.rest ≡ start.off + length start.rest
      → start.off ≤ d.off
      → length d.rest + 1 < fuel
      → Within 0 start (scan_children fuel depth t start d)
  scan_children-Within zero depth t start d e o h = tt
  scan_children-Within (suc fuel) depth t start d e o h =
      if_elim (Within 0 start) (at_end_of_contents d.rest)
        (λ two. omega (
          arith,
          e,
          o,
          at_end_of_contents-length d.rest two,
          length-drop 2 d.rest,
          length-take (d.off - start.off) start.rest,
        ))
        λ _.
          Within-and_then 2 0 d start (read_tlv_at fuel (depth + 1) d) _
            (read_tlv_at-Moves fuel (depth + 1) d (omega arith))
            λ p c e' k.
              scan_children-Within fuel depth t start c (omega (arith, e, e'))
                (omega (arith, o, e', k)) (omega arith)

pub read_tlv-Within : (d : Decoder) → Within 2 d (read_tlv d)
unfolding read_tlv
read_tlv-Within d = read_tlv_at-Within (length d.rest + 1) 0 d (omega arith)
