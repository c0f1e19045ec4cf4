-- ===== src/Mms/Codec/AccessResults.antt =====
-- mms/value_codec.rs: an access result is read as data is.
use rs_iec.Common.{
  ℕ, zero, suc, ◌≡◌, refl, sym, ap, ◌∙◌, Bool, true, ◌==◌, ltb, not, ◌&&◌, List, length, arith,
  if_elim, Bool-cases, inl, inr, if◌then◌else◌,
}
use native.Mathlib.Numerals.{add-one}
use rs_iec.Asn1.Types.{Tag, class_bits}
use rs_iec.Asn1.Decoder as Decoder
use rs_iec.Asn1.Decoder.{
  Decoder, Out, read_tag, read_length, read_tlv, read_tlv_at, scan_children, scan_round,
  read_element, definite_content, at_end_of_contents, peek,
}
use rs_iec.Mms.Values.{Value, Values}
use rs_iec.Mms.Codec.{
  Read, decode_data_at, decode_children, decode_data_tlv, decode_data, decode_scalar,
  decode_access_result, access_error_content, and_then, lift, at_cursor,
}

-- An element that is read has this tag.
abbrev Tagged : Tag → Out (Tag × List ℕ) → Type 0
Tagged t (Decoder.Out.done p c) = p.0 ≡ t
Tagged t (Decoder.Out.fail e c) = Unit {0}
Tagged t Decoder.Out.stuck = Unit {0}

Tagged-and_then {ℓ} :
    {A : Type ℓ} (t : Tag) (o : Out A) (f : A → Decoder → Out (Tag × List ℕ))
    → ((a : A) (c : Decoder) → Tagged t (f a c))
    → Tagged t (Decoder.and_then o f)
Tagged-and_then t (Decoder.Out.done a c) f h = h a c
Tagged-and_then t (Decoder.Out.fail e c) f h = tt
Tagged-and_then t Decoder.Out.stuck f h = tt

scan_children-Tagged :
    (fuel depth : ℕ) (t : Tag) (start d : Decoder) → Tagged t (scan_children fuel depth t start d)
unfolding scan_children scan_round
scan_children-Tagged zero depth t start d = tt
scan_children-Tagged (suc fuel) depth t start d =
    if_elim (Tagged t) (at_end_of_contents d.rest) (λ _. refl)
      (λ _. Tagged-and_then t _ _ (λ p c. scan_children-Tagged fuel depth t start c))

definite-Tagged : (t : Tag) (n : ℕ) (d : Decoder) → Tagged t (definite_content t n d)
unfolding definite_content
definite-Tagged t n d = if_elim (Tagged t) (ltb (length d.rest) n) (λ _. tt) (λ _. refl)

-- What `read_tlv` does, by what `read_tag` returns: its error, or an element with its tag.
Follows : Out Tag → Out (Tag × List ℕ) → Type 0
Follows (Decoder.Out.done t c) o = Tagged t o
Follows (Decoder.Out.fail e c) o = o ≡ Decoder.Out.fail e c
Follows Decoder.Out.stuck o = o ≡ Decoder.Out.stuck

tag-Follows :
    (tag : Out Tag) (f : Tag → Decoder → Out (Tag × List ℕ))
    → ((t : Tag) (c : Decoder) → Tagged t (f t c))
    → Follows tag (Decoder.and_then tag f)
unfolding Follows
tag-Follows (Decoder.Out.done t c) f h = h t c
tag-Follows (Decoder.Out.fail e c) f h = refl
tag-Follows Decoder.Out.stuck f h = refl

element-Follows : (fuel : ℕ) (d : Decoder) → Follows (read_tag d) (read_tlv_at (suc fuel) 0 d)
unfolding read_tlv_at read_element
element-Follows fuel d = tag-Follows (read_tag d) _ λ t c.
    Tagged-and_then t (read_length c) _ λ p c'.
      if_elim (Tagged t) (not p.1) (λ _. definite-Tagged t p.0 c')
        λ _.
          if_elim (Tagged t) (not t.constructed) (λ _. tt)
            (λ _. scan_children-Tagged fuel 0 t c' c')

read_tlv-Follows : (d : Decoder) → Follows (read_tag d) (read_tlv d)
unfolding read_tlv
read_tlv-Follows d = rw add-one (element-Follows (length d.rest) d)

is_failure : Tag → Bool
is_failure t = class_bits t.class == 2 && ((t.number == 0) && not t.constructed)

module _ (widen narrow : ℕ → ℕ) where
  failure_element :
      (t : Tag) (content : List ℕ) (inner : Decoder → Read Values) (c : Decoder)
      → is_failure t ≡ true
      → at_cursor (access_error_content content) c ≡ decode_data_tlv widen narrow t content inner c
  unfolding decode_data_tlv decode_scalar is_failure
  failure_element t content inner c h = ground arith

  same_failure :
      (o : Out (Tag × List ℕ)) (t : Tag) (inner : Decoder → Read Values)
      → Tagged t o
      → is_failure t ≡ true
      → and_then (lift o) (λ p c. at_cursor (access_error_content p.1) c)
        ≡ and_then (lift o) (λ p c. decode_data_tlv widen narrow p.0 p.1 inner c)
  same_failure (Decoder.Out.done p c) t inner e h =
      failure_element p.0 p.1 inner c (ap is_failure e ∙ h)
  same_failure (Decoder.Out.fail x c) t inner e h = refl
  same_failure Decoder.Out.stuck t inner e h = refl

  read_data : Out (Tag × List ℕ) → (Decoder → Read Values) → Read Value
  read_data o inner = and_then (lift o) (λ p c. decode_data_tlv widen narrow p.0 p.1 inner c)

  by_tag :
      (tag : Out Tag) (o : Out (Tag × List ℕ)) (inner : Decoder → Read Values) (d : Decoder)
      → Follows tag o
      → and_then
          (lift (elim tag [
            | Decoder.Out.done t _ ↦ Decoder.Out.done t d
            | Decoder.Out.fail e _ ↦ Decoder.Out.fail e d
            | Decoder.Out.stuck ↦ Decoder.Out.stuck
          ]))
          (λ t _.
            if is_failure t
            then and_then (lift o) (λ p c. at_cursor (access_error_content p.1) c)
            else read_data o inner)
        ≡ read_data o inner
  unfolding Follows read_data
  by_tag (Decoder.Out.done t c) o inner d h = elim (Bool-cases (is_failure t)) [
    | inl yes_ ↦ rw yes_ (same_failure o t inner h yes_)
    | inr no_ ↦ rw no_ refl
  ]
  by_tag (Decoder.Out.fail e c) o inner d h = ap (λ x. read_data x inner) (sym h)
  by_tag Decoder.Out.stuck o inner d h = ap (λ x. read_data x inner) (sym h)

  decode_data-read_data :
      (d : Decoder)
      → decode_data widen narrow d
        ≡ read_data (read_tlv d) (decode_children widen narrow (length d.rest) 1)
  unfolding decode_data decode_data_at read_data
  decode_data-read_data d = rw add-one refl

  -- An access result is read exactly as data is, on every input: what `decode_access_result` does for
  -- the tag of a failure is what `decode_data` does with it.
  pub decode_access_result-decode_data :
      (d : Decoder) → decode_access_result widen narrow d ≡ decode_data widen narrow d
  unfolding decode_access_result peek is_failure
  decode_access_result-decode_data d = rw (decode_data-read_data d) (
      by_tag (read_tag d) (read_tlv d) (decode_children widen narrow (length d.rest) 1) d
        (read_tlv-Follows d))
