-- ===== src/Rsession/Payloads/RoundTrip.antt =====
-- rsession/spdu.rs: the payload elements that are written are read back.
use rs_iec.Common.{
  ℕ, ◌+◌, ◌*◌, ◌/◌, ◌%◌, ◌^◌, ◌≤◌, ◌<◌, ◌≡◌, refl, ap, ◌∙◌, Bool, true, false, ◌==◌, ltb, not, ◌||◌,
  List, [], ◌∷◌, ◌++◌, length, take, drop, zero, suc, arith, length-append,
}
use rs_iec.Rsession.Replay.Window.{if_false}
use rs_iec.Rsession.Payloads.{
  Payload, payloads, element, from_bool, user_data, too_long, push, payload, elements,
}

-- Each application identifier is a `u16`.
unfoldable pub IsWritable : List Payload → Type 0
IsWritable [] = Unit
IsWritable (p ∷ ps) = (p.app_id < 2 ^ 16) × IsWritable ps

take_front {ℓ} : {A : Type ℓ} (xs ys : List A) → take (length xs) (xs ++ ys) ≡ xs
take_front [] ys = refl
take_front (x ∷ xs) ys = ap (λ l. x ∷ l) (take_front xs ys)

drop_front {ℓ} : {A : Type ℓ} (xs ys : List A) → drop (length xs) (xs ++ ys) ≡ ys
drop_front [] ys = refl
drop_front (x ∷ xs) ys = drop_front xs ys

flag : (b : Bool) → not (from_bool b == 0) ≡ b
flag true = refl
flag false = refl

of_fields : ℕ → Bool → ℕ → List ℕ → Payload
of_fields k s a d = record { kind = k; simulation = s; app_id = a; apdu = d }

payload-element :
    (p : Payload) (more : List ℕ)
    → p.app_id < 2 ^ 16
    → payload (element p ++ more) (length p.apdu) ≡ p
unfolding of_fields
payload-element p more h =
    let a = p.app_id / 256 % 256 * 256 + p.app_id % 256 in
    let same : a ≡ p.app_id = omega (arith, h) in
    ap (λ s. of_fields p.kind s a (take (length p.apdu) (p.apdu ++ more))) (flag p.simulation)
    ∙ ap (λ n. of_fields p.kind p.simulation n (take (length p.apdu) (p.apdu ++ more))) same
    ∙ ap (λ d. of_fields p.kind p.simulation p.app_id d) (take_front p.apdu more)

written_length : (n : ℕ) → ltb 65535 n ≡ false → n % 2 ^ 16 / 256 % 256 * 256 + n % 2 ^ 16 % 256 ≡ n
written_length n h = ground (arith, h)

wide : (p : Payload) (more : List ℕ) → ltb (length (element p ++ more)) 6 ≡ false
wide p more = ground arith

fits : (xs ys : List ℕ) → ltb (length (xs ++ ys)) (length xs) ≡ false
fits xs ys = ground (arith, length-append xs ys)

-- The payloads of any number and content are read back from the user data that is written for them,
-- with fuel for each of them, if no APDU is too long for the 16 bits of its length.
pub elements-user_data :
    (ps : List Payload) (fuel : ℕ)
    → IsWritable ps
    → too_long ps ≡ false
    → length ps ≤ fuel
    → elements fuel (user_data ps) ≡ payloads ps
unfolding elements user_data too_long IsWritable
elements-user_data [] fuel w s h = refl
elements-user_data (p ∷ ps) zero w s h = absurd (omega (arith, h))
elements-user_data (p ∷ ps) (suc fuel) w s h =
    let short = left_false (ltb 65535 (length p.apdu)) (too_long ps) s in
    let more = user_data ps in
    let rest =
      ap (elements fuel)
        (ap (λ n. drop n (p.apdu ++ more)) (written_length _ short) ∙ drop_front p.apdu more)
      ∙ elements-user_data ps fuel w.1 (right_false (ltb 65535 (length p.apdu)) _ s)
          (omega (arith, h)) in
    if_false _ _ _ (wide p more)
    ∙ if_false _ _ _
        (ap (ltb (length (p.apdu ++ more))) (written_length _ short) ∙ fits p.apdu more)
    ∙ ap (push _) rest
    ∙ ap (λ n. push (payload (element p ++ more) n) (payloads ps)) (written_length _ short)
    ∙ ap (λ q. payloads (q ∷ ps)) (payload-element p more w.0)
  where
    left_false : (a b : Bool) → (a || b) ≡ false → a ≡ false
    left_false true b h = h
    left_false false b h = refl

    right_false : (a b : Bool) → (a || b) ≡ false → b ≡ false
    right_false true b h = ground arith
    right_false false b h = h
