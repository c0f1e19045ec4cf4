-- ===== src/Server/Reports/Inclusion.antt =====
-- server/reporting.rs, `report_element`: the inclusion bits of a report tell which members it has.
use rs_iec.Common.{
  ℕ, ◌+◌, ◌-◌, ◌<◌, ◌≡◌, refl, ap, ◌∙◌, Bool, true, false, List, [], ◌∷◌, zero, suc, take, drop,
  replicate, set, All, arith,
}
use rs_iec.Server.Reports.Messages.{set_bits, inclusion, range}
use rs_iec.Server.Reports.Merging.{Ascending}

-- The places of the set bits, counted from a number on.
unfoldable pub positions : ℕ → List Bool → List ℕ
positions k [] = []
positions k (true ∷ bits) = k ∷ positions (k + 1) bits
positions k (false ∷ bits) = positions (k + 1) bits

down : List ℕ → List ℕ
down [] = []
down (m ∷ ms) = (m - 1) ∷ down ms

above : ℕ → List ℕ → List ℕ
above k [] = []
above k (m ∷ ms) = (k + m) ∷ above k ms

abbrev AllPositive : List ℕ → Type 0
AllPositive = All (λ m. 0 < m)

set_bits-down :
    (b : Bool) (bits : List Bool) (ms : List ℕ)
    → AllPositive ms
    → set_bits (b ∷ bits) ms ≡ b ∷ set_bits bits (down ms)
unfolding down
set_bits-down b bits [] h = refl
set_bits-down b bits (zero ∷ ms) h = absurd (omega (arith, h.0))
set_bits-down b bits (suc m ∷ ms) h =
    let e : suc m - 1 ≡ m = omega arith in rw e (set_bits-down b (set bits m true) ms h.1)

above-down : (k : ℕ) (ms : List ℕ) → AllPositive ms → above (k + 1) (down ms) ≡ above k ms
unfolding above down
above-down k [] h = refl
above-down k (m ∷ ms) h =
    let e : k + 1 + (m - 1) ≡ k + m = omega (arith, h.0) in rw (e, above-down k ms h.1) refl

down-bounds :
    (c : ℕ) (ms : List ℕ) → AllPositive ms → All (λ m. m < suc c) ms → All (λ m. m < c) (down ms)
unfolding down
down-bounds c [] h k = tt
down-bounds c (m ∷ ms) h k = (omega (arith, h.0, k.0), down-bounds c ms h.1 k.1)

down-above : (x : ℕ) (ms : List ℕ) → 0 < x → All (λ m. x < m) ms → All (λ m. x - 1 < m) (down ms)
unfolding down
down-above x [] p h = tt
down-above x (m ∷ ms) p h = (omega (arith, p, h.0), down-above x ms p h.1)

down-Ascending : (ms : List ℕ) → AllPositive ms → Ascending ms → Ascending (down ms)
unfolding down
down-Ascending [] p h = tt
down-Ascending (m ∷ ms) p h = (down-above m ms p.0 h.0, down-Ascending ms p.1 h.1)

behind-AllPositive : (x : ℕ) (ms : List ℕ) → All (λ m. x < m) ms → AllPositive ms
behind-AllPositive x [] h = tt
behind-AllPositive x (m ∷ ms) h = (omega (arith, h.0), behind-AllPositive x ms h.1)

positions_from :
    (c k : ℕ) (ms : List ℕ)
    → Ascending ms
    → All (λ m. m < c) ms
    → positions k (set_bits (replicate c false) ms) ≡ above k ms
unfolding positions above
positions_from zero k [] h b = refl
positions_from zero k (m ∷ ms) h b = absurd (omega (arith, b.0))
positions_from (suc c) k [] h b = positions_from c (k + 1) [] tt tt
positions_from (suc c) k (zero ∷ ms) h b =
    let p = behind-AllPositive 0 ms h.0 in
    let e : k + 0 ≡ k = omega arith in
    rw
      (
        set_bits-down true (replicate c false) ms p,
        positions_from c (k + 1) (down ms) (down-Ascending ms p h.1) (down-bounds c ms p b.1),
        above-down k ms p,
        e,
      )
      refl
positions_from (suc c) k (suc m ∷ ms) h b =
    let all = suc m ∷ ms in
    let p : AllPositive all = (omega arith, behind-AllPositive (suc m) ms h.0) in
    ap (positions k) (set_bits-down false (replicate c false) all p)
    ∙ positions_from c (k + 1) (down all) (down-Ascending all p h) (down-bounds c all p b)
    ∙ above-down k all p

above-zero : (ms : List ℕ) → above 0 ms ≡ ms
unfolding above
above-zero [] = refl
above-zero (m ∷ ms) = let e : 0 + m ≡ m = omega arith in rw (e, above-zero ms) refl

-- The set bits stand at the members that are included.
pub positions-inclusion :
    (count : ℕ) (ms : List ℕ)
    → Ascending ms
    → All (λ m. m < count) ms
    → positions 0 (inclusion count ms) ≡ ms
unfolding inclusion
positions-inclusion count ms h b = positions_from count 0 ms h b ∙ above-zero ms

All-take : (P : ℕ → Type 0) (n : ℕ) (xs : List ℕ) → All P xs → All P (take n xs)
All-take P zero xs h = tt
All-take P (suc n) [] h = tt
All-take P (suc n) (x ∷ xs) h = (h.0, All-take P n xs h.1)

All-drop : (P : ℕ → Type 0) (n : ℕ) (xs : List ℕ) → All P xs → All P (drop n xs)
All-drop P zero xs h = h
All-drop P (suc n) [] h = tt
All-drop P (suc n) (x ∷ xs) h = All-drop P n xs h.1

pub All-range : (P : ℕ → Type 0) (a b : ℕ) (xs : List ℕ) → All P xs → All P (range xs a b)
All-range P a b xs h = All-take P (b - a) (drop a xs) (All-drop P a xs h)

take-Ascending : (n : ℕ) (xs : List ℕ) → Ascending xs → Ascending (take n xs)
take-Ascending zero xs h = tt
take-Ascending (suc n) [] h = tt
take-Ascending (suc n) (x ∷ xs) h = (All-take _ n xs h.0, take-Ascending n xs h.1)

drop-Ascending : (n : ℕ) (xs : List ℕ) → Ascending xs → Ascending (drop n xs)
drop-Ascending zero xs h = h
drop-Ascending (suc n) [] h = tt
drop-Ascending (suc n) (x ∷ xs) h = drop-Ascending n xs h.1

pub range-Ascending : (a b : ℕ) (xs : List ℕ) → Ascending xs → Ascending (range xs a b)
range-Ascending a b xs h = take-Ascending (b - a) (drop a xs) (drop-Ascending a xs h)
