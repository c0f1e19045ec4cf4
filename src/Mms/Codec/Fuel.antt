-- ===== src/Mms/Codec/Fuel.antt =====
-- mms/value_codec.rs: decoding ends on every input, and nests no deeper than the limit.
use rs_iec.Common.{
  ℕ, zero, suc, ◌+◌, ◌≤◌, ◌<◌, ◌≡◌, refl, Bool, true, false, ◌==◌, ltb, not, ◌&&◌, ◌||◌, List,
  length, arith, if_elim, ltb-false-le, if◌then◌else◌,
}
use rs_iec.Asn1.Types as Types
use rs_iec.Asn1.Integers.{decode_bool, decode_int, decode_uint}
use rs_iec.Asn1.BitStrings.{decode_bit_string}
use rs_iec.Asn1.Floats.{decode_float}
use rs_iec.Asn1.Types.{Tag, class_bits}
use rs_iec.Asn1.Decoder as Decoder
use rs_iec.Asn1.Decoder.{Decoder, read_tlv, new, more, peek}
use rs_iec.Asn1.Decoder.Fuel.{Moves, read_tlv-Moves}
use rs_iec.Asn1.Decoder.Contents.{Within, read_tlv-Within}
use rs_iec.Mms.Values.{Value, Values, end, value}
use rs_iec.Mms.Values.Value.{array, structure}
use rs_iec.Mms.Codec.{
  Error, asn1, Read, done, fail, stuck, Result, ok, err, decode_data_at, decode_children,
  decode_data_tlv, decode_data, decode_scalar, float_content, access_error_content, of_asn1,
  and_then, lift, at_cursor, max_value_depth,
}
use rs_iec.Mms.Codec.RoundTrip.{height, heights}

-- What is left of `n` octets, and how deep the value nests from this depth on.
abbrev pub Ends : ℕ → ℕ → Read Value → Type 0
Ends depth n (done v d) = (length d.rest + 2 ≤ n) × (depth + height v ≤ 32)
Ends depth n (fail e) = Unit {0}
Ends depth n stuck = ⊥

abbrev AllEnd : ℕ → ℕ → Read Values → Type 0
AllEnd depth n (done vs d) = (length d.rest ≤ n) × (depth + heights vs ≤ 33)
AllEnd depth n (fail e) = Unit {0}
AllEnd depth n stuck = ⊥

-- An element's tag and content, when reading it ends.
lift_read :
    (P : Read Value → Type 0) (d : Decoder) (o : Decoder.Out (Tag × List ℕ))
    (f : Tag × List ℕ → Decoder → Read Value)
    → Moves 2 d o
    → Within 2 d o
    → ((e : Error) → P (fail e))
    → ((p : Tag × List ℕ) (c : Decoder)
        → length c.rest + 2 ≤ length d.rest
        → length p.1 + length c.rest + 2 ≤ length d.rest
        → P (f p c))
    → P (and_then (lift o) f)
lift_read P d (Decoder.Out.done p c) f m w bad good = good p c (omega (arith, m.0, m.1)) w
lift_read P d (Decoder.Out.fail e c) f m w bad good = bad (asn1 e)
lift_read P d Decoder.Out.stuck f m w bad good = absurd m

abbrev Flat : Result Value → Type 0
Flat (ok v) = height v ≡ 0
Flat (err e) = Unit {0}

Flat-of_asn1 {ℓ} :
    {A : Type ℓ} (r : Types.Result A) (f : A → Result Value)
    → ((a : A) → Flat (f a))
    → Flat (of_asn1 r f)
Flat-of_asn1 (Types.Result.ok a) f h = h a
Flat-of_asn1 (Types.Result.err e) f h = tt

at_cursor-Ends :
    (depth n : ℕ) (r : Result Value) (c : Decoder)
    → length c.rest + 2 ≤ n
    → depth ≤ 32
    → Flat r
    → Ends depth n (at_cursor r c)
at_cursor-Ends depth n (ok v) c h near flat = (h, omega (arith, flat, near))
at_cursor-Ends depth n (err e) c h near flat = tt

AllEnd-le : (depth m n : ℕ) (r : Read Values) → m ≤ n → AllEnd depth m r → AllEnd depth n r
AllEnd-le depth m n (done vs d) h e = (omega (arith, h, e.0), e.1)
AllEnd-le depth m n (fail e) h k = tt
AllEnd-le depth m n stuck h k = k

none_left : (depth : ℕ) (d : Decoder) → depth ≤ 33 → AllEnd depth (length d.rest) (done end d)
unfolding height
none_left depth d h = (omega arith, omega (arith, h))

module _ (widen narrow : ℕ → ℕ) where
  float-Flat : (content : List ℕ) → Flat (float_content widen narrow content)
  unfolding float_content height
  float-Flat content =
      Flat-of_asn1 (decode_float widen content) _
        (λ f. if_elim (λ v. height v ≡ 0) (length content == 5) (λ _. refl) (λ _. refl))

  access_error-Flat : (content : List ℕ) → Flat (access_error_content content)
  unfolding access_error_content height
  access_error-Flat content = Flat-of_asn1 (decode_uint content) _ (λ n. refl)

  scalar-Flat : (t : Tag) (content : List ℕ) → Flat (decode_scalar widen narrow t content)
  unfolding decode_scalar height
  scalar-Flat t content =
      if_elim Flat (t.number == 3) (λ _. Flat-of_asn1 (decode_bool content) _ (λ b. refl))
        λ _.
          if_elim Flat (t.number == 4) (λ _. Flat-of_asn1 (decode_bit_string content) _ (λ b. refl))
            λ _.
              if_elim Flat (t.number == 5) (λ _. Flat-of_asn1 (decode_int content) _ (λ b. refl))
                λ _.
                  if_elim Flat (t.number == 6)
                    (λ _. Flat-of_asn1 (decode_uint content) _ (λ b. refl))
                    λ _.
                      if_elim Flat (t.number == 7) (λ _. float-Flat content)
                        λ _.
                          if_elim Flat (t.number == 9) (λ _. refl)
                            λ _.
                              if_elim Flat (t.number == 10) (λ _. refl)
                                λ _.
                                  if_elim Flat (t.number == 11) (λ _. refl)
                                    λ _.
                                      if_elim Flat (t.number == 12)
                                        (λ _.
                                          if_elim Flat
                                            (not (length content == 4) && not (length content == 6))
                                            (λ _. tt) (λ _. refl))
                                        λ _.
                                          if_elim Flat (t.number == 16) (λ _. refl)
                                            λ _.
                                              if_elim Flat (t.number == 17)
                                                (λ _.
                                                  if_elim Flat (length content == 8) (λ _. refl)
                                                    (λ _. tt))
                                                λ _.
                                                  if_elim Flat (t.number == 0 && not t.constructed)
                                                    (λ _. access_error-Flat content) (λ _. tt)

  nested-Ends :
      (depth n : ℕ) (r : Read Values) (outer : Decoder) (kind : Bool)
      → AllEnd (depth + 1) n r
      → length outer.rest + 2 ≤ n
      → Ends depth n (and_then r (λ vs _. done (if kind then array vs else structure vs) outer))
  unfolding height
  nested-Ends depth n (done vs d) outer true h k = (k, omega (arith, h.1))
  nested-Ends depth n (done vs d) outer false h k = (k, omega (arith, h.1))
  nested-Ends depth n (fail e) outer kind h k = tt
  nested-Ends depth n stuck outer kind h k = h

  tlv-Ends :
      (depth n : ℕ) (t : Tag) (content : List ℕ) (inner : Decoder → Read Values) (outer : Decoder)
      → depth ≤ 32
      → length outer.rest + 2 ≤ n
      → AllEnd (depth + 1) n (inner (new content))
      → Ends depth n (decode_data_tlv widen narrow t content inner outer)
  unfolding decode_data_tlv
  tlv-Ends depth n t content inner outer near k h =
      if_elim (Ends depth n) (not (class_bits t.class == 2)) (λ _. tt)
        λ _.
          if_elim (Ends depth n) (t.number == 1 || t.number == 2)
            (λ _. nested-Ends depth n (inner (new content)) outer (t.number == 1) h k)
            (λ _.
              at_cursor-Ends depth n (decode_scalar widen narrow t content) outer k near
                (scalar-Flat t content))

  pushed :
      (depth n : ℕ) (v : Value) (r : Read Values)
      → depth + height v ≤ 32
      → AllEnd depth n r
      → AllEnd depth n (and_then r (λ vs c'. done (value v vs) c'))
  unfolding height
  pushed depth n v (done vs d) h k = (k.0, omega (arith, h, k.1))
  pushed depth n v (fail e) h k = tt
  pushed depth n v stuck h k = k

  more-Ends :
      (depth n : ℕ) (r : Read Value) (rest : Decoder → Read Values)
      → Ends depth n r
      → ((c : Decoder) → length c.rest + 2 ≤ n → AllEnd depth n (rest c))
      → AllEnd depth n (and_then r (λ v c. and_then (rest c) (λ vs c'. done (value v vs) c')))
  more-Ends depth n (done v d) rest h k = pushed depth n v (rest d) h.1 (k d h.0)
  more-Ends depth n (fail e) rest h k = tt
  more-Ends depth n stuck rest h k = h

  mutual
    unfolding decode_data_at decode_children new

    data_at-Ends :
        (fuel depth : ℕ) (d : Decoder)
        → length d.rest < fuel
        → Ends depth (length d.rest) (decode_data_at widen narrow fuel depth d)
    data_at-Ends zero depth d h = absurd (omega (arith, h))
    data_at-Ends (suc fuel) depth d h =
        if_elim (Ends depth (length d.rest)) (ltb max_value_depth depth) (λ _. tt)
          λ near.
            lift_read (Ends depth (length d.rest)) d (read_tlv d) _ (read_tlv-Moves d)
              (read_tlv-Within d) (λ e. tt)
              λ p c k w.
                tlv-Ends depth (length d.rest) p.0 p.1 _ c (ltb-false-le max_value_depth depth near)
                  k
                  (AllEnd-le (depth + 1) (length p.1) (length d.rest) _ (omega (arith, w)) (
                    children-AllEnd fuel (depth + 1) (new p.1)
                      (omega (arith, ltb-false-le max_value_depth depth near))
                      (omega (arith, w, k, h))))

    children-AllEnd :
        (fuel depth : ℕ) (d : Decoder)
        → depth ≤ 33
        → length d.rest + 1 < fuel
        → AllEnd depth (length d.rest) (decode_children widen narrow fuel depth d)
    children-AllEnd zero depth d near h = absurd (omega (arith, h))
    children-AllEnd (suc fuel) depth d near h =
        if_elim (AllEnd depth (length d.rest)) (not (more d)) (λ _. none_left depth d near)
          λ _.
            more-Ends depth (length d.rest) (decode_data_at widen narrow fuel depth d) _
              (data_at-Ends fuel depth d (omega (arith, h)))
              (λ c k.
                AllEnd-le depth (length c.rest) (length d.rest) _ (omega (arith, k))
                  (children-AllEnd fuel depth c near (omega (arith, k, h))))

  -- On every input `decode_data` returns a value or an error: the fuel is enough. A value has
  -- consumed two octets at least, and nests no deeper than the limit of 32.
  pub decode_data-Ends : (d : Decoder) → Ends 0 (length d.rest) (decode_data widen narrow d)
  unfolding decode_data
  decode_data-Ends d = data_at-Ends (length d.rest + 1) 0 d (omega arith)
