-- ===== src/Common/Dictionary.antt =====
-- The standard library's `HashMap`, as an association list with one entry for a key: `get`,
-- `insert`, `remove`, `retain` and `len`, over a test of the keys.
use rs_iec.Common.Tests.{◌==◌, if◌then◌else◌}
use Prim.Native.Nat.{ℕ}
use mathlib.Core.Path.{◌≡◌, refl}
use mathlib.Core.Logic.{◌↔◌}
use mathlib.Core.Bool.{Bool, true, false, ◌&&◌}
use mathlib.Core.Option.{Option, none, some}
use mathlib.Core.List.{List, [], ◌∷◌}
use native.Mathlib.Omega.{arith}

-- A test that decides equality.
pub record Eq {ℓ} (K : Type ℓ) : Type ℓ where
  pub beq : K → K → Bool
  pub beq_iff : (a b : K) → (beq a b ≡ true) ↔ (a ≡ b)

module _ {ℓ κ} {K : Type ℓ} {V : Type κ} (eq : K → K → Bool) where
  unfoldable pub lookup : K → List (K × V) → Option V
  lookup k [] = none
  lookup k ((j, v) ∷ m) = if eq j k then some v else lookup k m

  unfoldable pub insert : K → V → List (K × V) → List (K × V)
  insert k v [] = (k, v) ∷ []
  insert k v ((j, w) ∷ m) = if eq j k then (k, v) ∷ m else (j, w) ∷ insert k v m

  unfoldable pub remove : K → List (K × V) → List (K × V)
  remove k [] = []
  remove k ((j, w) ∷ m) = if eq j k then remove k m else (j, w) ∷ remove k m

module _ {ℓ κ} {K : Type ℓ} {V : Type κ} where
  unfoldable pub retain : (K → V → Bool) → List (K × V) → List (K × V)
  retain p [] = []
  retain p ((j, w) ∷ m) = if p j w then (j, w) ∷ retain p m else retain p m

module _ {ℓ κ} {K : Type ℓ} {V : Type κ} (e : Eq K) where
  pub lookup-insert :
      (k j : K) (v : V) (m : List (K × V))
      → lookup e.beq j (insert e.beq k v m) ≡ (if e.beq k j then some v else lookup e.beq j m)
  unfolding lookup insert
  lookup-insert k j v [] = refl
  lookup-insert k j v ((i, w) ∷ m) =
      ground (arith, e.beq_iff k j, e.beq_iff i k, e.beq_iff i j, lookup-insert k j v m)

  pub lookup-remove :
      (k j : K) (m : List (K × V))
      → lookup e.beq j (remove e.beq k m) ≡ (if e.beq k j then none else lookup e.beq j m)
  unfolding lookup remove
  lookup-remove k j [] = ground arith
  lookup-remove k j ((i, w) ∷ m) =
      ground (arith, e.beq_iff k j, e.beq_iff i k, e.beq_iff i j, lookup-remove k j m)

  -- What is left under a key after `retain` satisfies the test and was there before.
  pub retain-holds :
      (p : K → V → Bool) (k : K) (v : V) (m : List (K × V))
      → lookup e.beq k (retain p m) ≡ some v
      → p k v ≡ true
  unfolding lookup retain
  retain-holds p k v [] h = cc
  retain-holds p k v ((i, w) ∷ m) h = ground (arith, e.beq_iff i k, retain-holds p k v m)

  -- An entry that satisfies the test stays.
  pub retain_keeps :
      (p : K → V → Bool) (k : K) (v : V) (m : List (K × V))
      → lookup e.beq k m ≡ some v
      → p k v ≡ true
      → lookup e.beq k (retain p m) ≡ some v
  unfolding lookup retain
  retain_keeps p k v [] h q = cc
  retain_keeps p k v ((i, w) ∷ m) h q = ground (arith, e.beq_iff i k, retain_keeps p k v m)

abbrev pub list_eq : List ℕ → List ℕ → Bool
list_eq [] [] = true
list_eq [] (y ∷ ys) = false
list_eq (x ∷ xs) [] = false
list_eq (x ∷ xs) (y ∷ ys) = x == y && list_eq xs ys

pub list_eq_iff : (xs ys : List ℕ) → (list_eq xs ys ≡ true) ↔ (xs ≡ ys)
list_eq_iff [] [] = (λ h. refl, λ h. refl)
list_eq_iff [] (y ∷ ys) = (λ h. cc, λ h. cc)
list_eq_iff (x ∷ xs) [] = (λ h. cc, λ h. cc)
list_eq_iff (x ∷ xs) (y ∷ ys) =
    (λ h. ground (arith, list_eq_iff xs ys), λ h. ground (arith, list_eq_iff xs ys))

-- The key of a text: its octets.
abbrev pub text_key : Eq (List ℕ)
text_key = record { beq = list_eq; beq_iff = list_eq_iff }
