-- ===== src/Osi/Session/Fields.antt =====
-- A parameter that was written is the next one found.
use rs_iec.Common.{
  ℕ, ◌+◌, ◌/◌, ◌%◌, ◌<◌, ◌≤◌, ◌≡◌, refl, ap, List, [], ◌∷◌, ◌++◌, length, take, drop, arith,
  length-append, append_assoc, append-nil,
}
use rs_iec.Osi.Stream.{ok}
use rs_iec.Osi.Session.{append_len, read_len, spdu, spdu_params, write_pi, next_field, field}

pub take_front : (xs ys : List ℕ) → take (length xs) (xs ++ ys) ≡ xs
take_front [] ys = refl
take_front (x ∷ xs) ys = ap (λ r. x ∷ r) (take_front xs ys)

pub drop_front : (xs ys : List ℕ) → drop (length xs) (xs ++ ys) ≡ ys
drop_front [] ys = refl
drop_front (x ∷ xs) ys = drop_front xs ys

-- A parameter as its octets.
unfoldable pub octets : ℕ → List ℕ → List ℕ
octets code val = code ∷ append_len [] (length val) ++ val

pub write_pi-octets :
    (b : List ℕ) (code : ℕ) (val : List ℕ) → write_pi b code val ≡ b ++ octets code val
unfolding write_pi append_len octets
write_pi-octets b code val = ground (
  arith,
  append_assoc b (code ∷ (length val % 256) ∷ []) val,
  append_assoc b (code ∷ 255 ∷ (length val / 256 % 256) ∷ (length val % 256) ∷ []) val,
  append_assoc b (code ∷ []) ((length val % 256) ∷ []),
  append_assoc b (code ∷ []) (255 ∷ (length val / 256 % 256) ∷ (length val % 256) ∷ []),
)

pub next_field-octets :
    (code : ℕ) (val rest : List ℕ)
    → length val < 65536
    → next_field (octets code val ++ rest) ≡ field code val rest
unfolding append_len next_field read_len octets
next_field-octets code val rest h =
    ground (arith, length-append val rest, take_front val rest, drop_front val rest)

pub length-octets_le : (code : ℕ) (val : List ℕ) → length (octets code val) ≤ length val + 4
unfolding octets append_len
length-octets_le code val = ground arith

pub spdu_params-spdu :
    (si : ℕ) (params : List ℕ) → length params < 65536 → spdu_params (spdu si params) ≡ ok params
unfolding spdu_params spdu append_len read_len
spdu_params-spdu si params h = ground (arith, take_front params [], append-nil params)
