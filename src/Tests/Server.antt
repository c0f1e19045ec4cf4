-- ===== src/Tests/Server.antt =====
-- server/select.rs at concrete reservations.
use rs_iec.Common.{ℕ, ◌<◌, ◌≡◌, ◌≢◌, refl, [], ◌∷◌, none, some, arith}
use rs_iec.Common.Dictionary.{lookup}
use rs_iec.Server.Select.{
  Selections, Selection, Reference, object_not_selected, inconsistent_parameters, reserve,
  check_operate,
}
use rs_iec.Server.Select.Exclusion.{after, exclusion}

abbrev switch : Reference
switch = 1 ∷ []

abbrev breaker : Reference
breaker = 1 ∷ 2 ∷ []

abbrev on_breaker : Selection
on_breaker = record { conn = 8; expiry = 140; ctl_num = none }

-- Connection 7 has the switch until 130, connection 8 the breaker until 140.
abbrev table : Selections
table = (switch, record { conn = 7; expiry = 130; ctl_num = some 3 }) ∷ (breaker, on_breaker) ∷ []

different : (m n : ℕ) → m < n → m ≢ n
different m n h e = omega arith

-- The table after connection 8 tried to reserve the switch that connection 7 holds.
abbrev tried : Selections
tried =
    after (reserve [] switch 7 (some 3) 30 100).0
      (record { reference = switch; conn = 8; ctl_num = none; timeout = 50; now = 110 } ∷ [])

exclusion_example :
    (check_operate tried switch 8 4 120 ≡ object_not_selected)
    × (check_operate tried switch 7 4 120 ≡ inconsistent_parameters)
unfolding reserve lookup
exclusion_example =
    exclusion [] (reserve [] switch 7 (some 3) 30 100).0 switch 7 8 30 100 120 (some 3)
      (record { reference = switch; conn = 8; ctl_num = none; timeout = 50; now = 110 } ∷ []) 4 4
      refl ((different 7 8 (omega arith), omega arith), tt) (different 7 8 (omega arith))
      (omega arith)
