-- ===== src/Osi/Stream.antt =====
-- The byte stream below TPKT: `read_exact`, `write_all` and `flush` of the asynchronous runtime,
-- which is not part of this repository, and the errors of osi/mod.rs.
use rs_iec.Common.{ℕ, List, ◌++◌, length, ◌≡◌, refl, Option, some}

-- The texts that the errors of TPKT, COTP and session carry, with the numbers formatted into them.
pub data Fault : Type 0 where
  exceeds_max bad_version bad_length truncated_tpdu expected_cr expected_cc unexpected_type :
      ℕ → Fault
  bad_li : ℕ → ℕ → Fault
  refused short_cc short_dt er_tpdu short_spdu short_long_form short_parameter : Fault
  spdu_exceeds parameter_overflows bad_spdu_li expected_accept expected_connect : ℕ → Fault

-- `exhausted` is no Rust value: a loop of the model ran out of fuel.
pub data Error : Type 0 where
  io closed exhausted : Error
  tpkt cotp session : Fault → Error
  session_refused : ℕ → List ℕ → Error
  session_aborted : List ℕ → Error

pub data Result {ℓ} (A : Type ℓ) : Type ℓ where
  ok : A → Result A
  err : Error → Result A

-- `?` on a result, and what follows.
infixl 5 ◌>>=◌
abbrev pub ◌>>=◌ {ℓ κ} : {A : Type ℓ} {B : Type κ} → Result A → (A → Result B) → Result B
(err reason) >>= next = err reason
(ok value) >>= next = next value

-- A bind that succeeds has succeeded in both its parts.
pub >>=-eq-ok {ℓ κ} :
    {A : Type ℓ} {B : Type κ} {b : B} (first : Result A) (next : A → Result B)
    → (first >>= next) ≡ ok b
    → (value : A) × (first ≡ ok value) × (next value ≡ ok b)
>>=-eq-ok (err reason) next whole = cc
>>=-eq-ok (ok value) next whole = (value, refl, whole)

-- A stream with the octets that wait to be read and those that were written. `none` is an I/O
-- error.
pub record Stream : Type 1 where
  pub State : Type 0
  pub Unread : State → List ℕ → Type 0
  pub Written : State → List ℕ → Type 0
  pub read_exact : ℕ → State → Option (List ℕ × State)
  pub write_all : List ℕ → State → Option State
  -- As many octets as are asked for are read, once they have arrived.
  pub read_exact_arrived :
      (s : State) (xs ys : List ℕ)
      → Unread s (xs ++ ys)
      → (s' : State) × (read_exact (length xs) s ≡ some (xs, s')) × Unread s' ys
  -- A successful write appends all its octets.
  pub write_all_appends :
      (s s' : State) (before xs : List ℕ)
      → Written s before
      → write_all xs s ≡ some s'
      → Written s' (before ++ xs)
