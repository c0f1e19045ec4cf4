-- ===== src/Osi/Session/Search.antt =====
-- The two searches of session parameters, by what they find whatever fuel they have.
use rs_iec.Common.{
  ℕ, zero, suc, ◌+◌, ◌<◌, ◌≤◌, ◌≡◌, ◌≢◌, refl, ◌∙◌, false, ◌==◌, List, [], ◌∷◌, ◌++◌, if◌then◌else◌,
  length, Option, none, some, arith, length-append,
}
use rs_iec.Osi.Stream.{ok}
use rs_iec.Osi.Session.{append_len, next_field, field, find_param_loop, find_user_data_loop}
use rs_iec.Osi.Session.Fields.{octets, next_field-octets}

-- The parameter of a selector, if it has one.
abbrev pub ssel_octets : ℕ → List ℕ → List ℕ
ssel_octets code [] = []
ssel_octets code (x ∷ xs) = octets code (x ∷ xs)

abbrev pub ssel_found : List ℕ → Option (List ℕ)
ssel_found [] = none
ssel_found (x ∷ xs) = some (x ∷ xs)

-- One round of each loop, at a parameter.
find_param-field :
    (fuel wanted code : ℕ) (params val rest : List ℕ)
    → next_field params ≡ field code val rest
    → find_param_loop (suc fuel) params wanted
      ≡ (if code == wanted then some val else find_param_loop fuel rest wanted)
unfolding find_param_loop
find_param-field fuel wanted code params val rest e = rw (find_param_loop, e) refl

find_user_data-field :
    (fuel code : ℕ) (params val rest : List ℕ)
    → next_field params ≡ field code val rest
    → find_user_data_loop (suc fuel) params
      ≡ (if code == 0xc1 then ok (some val) else find_user_data_loop fuel rest)
unfolding find_user_data_loop
find_user_data-field fuel code params val rest e = rw (find_user_data_loop, e) refl

length-octets : (code : ℕ) (val : List ℕ) → length val + 2 ≤ length (octets code val)
unfolding octets append_len
length-octets code val = ground arith

-- What a search finds, with any fuel that is enough.
abbrev pub Finds : ℕ → List ℕ → Option (List ℕ) → Type 0
Finds wanted params found =
    (fuel : ℕ) → length params ≤ fuel → find_param_loop fuel params wanted ≡ found

abbrev pub FindsUserData : List ℕ → List ℕ → Type 0
FindsUserData params found =
    (fuel : ℕ) → length params ≤ fuel → find_user_data_loop fuel params ≡ ok (some found)

-- The fuel that is left behind a parameter.
round_left :
    (fuel code : ℕ) (val rest : List ℕ)
    → length (octets code val ++ rest) ≤ fuel
    → (less : ℕ) × (fuel ≡ suc less) × (length rest ≤ less)
round_left zero code val rest h =
    absurd (omega (arith, length-octets code val, length-append (octets code val) rest))
round_left (suc fuel) code val rest h =
    (fuel, refl, omega (arith, length-octets code val, length-append (octets code val) rest))

pub Finds-nil : (wanted : ℕ) → Finds wanted [] none
unfolding find_param_loop next_field
Finds-nil wanted zero h = refl
Finds-nil wanted (suc fuel) h = refl

pub Finds-hit :
    (wanted : ℕ) (val rest : List ℕ)
    → length val < 65536
    → Finds wanted (octets wanted val ++ rest) (some val)
Finds-hit wanted val rest v fuel h =
    let (less, e, l) = round_left fuel wanted val rest h in
    rw e (
      find_param-field less wanted wanted _ val rest (next_field-octets wanted val rest v)
      ∙ ground arith)

pub Finds-miss :
    (wanted code : ℕ) (val rest : List ℕ) {found : Option (List ℕ)}
    → length val < 65536
    → code ≢ wanted
    → Finds wanted rest found
    → Finds wanted (octets code val ++ rest) found
Finds-miss wanted code val rest v d next fuel h =
    let (less, e, l) = round_left fuel code val rest h in
    rw e (
      find_param-field less wanted code _ val rest (next_field-octets code val rest v)
      ∙ ground (arith, next less l))

-- A selector that is looked for, and one that is not.
pub Finds-ssel_hit :
    (wanted : ℕ) (val rest : List ℕ)
    → length val < 65536
    → Finds wanted rest none
    → Finds wanted (ssel_octets wanted val ++ rest) (ssel_found val)
Finds-ssel_hit wanted [] rest v next = next
Finds-ssel_hit wanted (x ∷ xs) rest v next = Finds-hit wanted (x ∷ xs) rest v

pub Finds-ssel_miss :
    (wanted code : ℕ) (val rest : List ℕ) {found : Option (List ℕ)}
    → length val < 65536
    → code ≢ wanted
    → Finds wanted rest found
    → Finds wanted (ssel_octets code val ++ rest) found
Finds-ssel_miss wanted code [] rest v d next = next
Finds-ssel_miss wanted code (x ∷ xs) rest v d next = Finds-miss wanted code (x ∷ xs) rest v d next

pub FindsUserData-field :
    (code : ℕ) (val rest : List ℕ) {found : List ℕ}
    → length val < 65536
    → code ≢ 0xc1
    → FindsUserData rest found
    → FindsUserData (octets code val ++ rest) found
FindsUserData-field code val rest v d next fuel h =
    let (less, e, l) = round_left fuel code val rest h in
    rw e (
      find_user_data-field less code _ val rest (next_field-octets code val rest v)
      ∙ ground (arith, next less l))

pub FindsUserData-ssel :
    (code : ℕ) (val rest : List ℕ) {found : List ℕ}
    → length val < 65536
    → code ≢ 0xc1
    → FindsUserData rest found
    → FindsUserData (ssel_octets code val ++ rest) found
FindsUserData-ssel code [] rest v d next = next
FindsUserData-ssel code (x ∷ xs) rest v d next = FindsUserData-field code (x ∷ xs) rest v d next

pub FindsUserData-hit :
    (val rest : List ℕ) → length val < 65536 → FindsUserData (octets 0xc1 val ++ rest) val
FindsUserData-hit val rest v fuel h =
    let (less, e, l) = round_left fuel 0xc1 val rest h in
    rw e (find_user_data-field less 0xc1 _ val rest (next_field-octets 0xc1 val rest v))

pub differs : (a b : ℕ) → (a == b) ≡ false → a ≢ b
differs a b h e = ground arith
