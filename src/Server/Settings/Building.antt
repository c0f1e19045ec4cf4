-- ===== src/Server/Settings/Building.antt =====
-- server/settinggroup.rs: the state that a device's setting groups start from. The walk over the data
-- model, which collects the references of the SG attributes with those of their SE partners and pushes
-- the SGCB into LLN0, gives a list in the order of the map's keys; a table's entries stand for the tree.
use rs_iec.Common.{
  ℕ, false, ◌==◌, ltb, leb, not, ◌&&◌, ◌||◌, if◌then◌else◌, List, [], ◌∷◌, ◌++◌, Option, none, some,
  replicate, set, ◌-◌,
}
use rs_iec.Common.Dictionary.{lookup, list_eq}
use rs_iec.Mms.Values.{Value, empty}
use rs_iec.Mms.Values.Value.{boolean, unsigned}
use rs_iec.Server.Settings.Table.{
  sg, sp, num_of_sg, act_sg, edit_sg, cnf_edit, l_act_tm, resv_tms, Reference, sgcb, reference_eq,
  Model, read_attr,
}
use rs_iec.Server.Settings.{Setting, Manager, uint8, set_sgcb}

-- The values that the configuration records for one group of a device.
pub record SettingGroup : Type 0 where
  pub number : ℕ
  pub ld : List ℕ
  pub values : List (Reference × Value)

abbrev pub or_none : Option Value → Value
or_none none = empty
or_none (some v) = v

-- Each setting's own value in every group.
unfoldable pub snapshot : Model → ℕ → List (Reference × Option Reference) → List Setting
snapshot m n [] = []
snapshot m n ((r, e) ∷ paths) =
    record { sg = r; se = e; groups = replicate n (or_none (read_attr m r sg)) }
    ∷ snapshot m n paths

abbrev pub seed_one : ℕ → Setting → Option Value → Setting
seed_one number s none = s
seed_one number s (some v) = record s { groups = set s.groups (number - 1) v }

-- The loop over the settings.
unfoldable pub seed_all : ℕ → List (Reference × Value) → List Setting → List Setting
seed_all number values [] = []
seed_all number values (s ∷ ss) =
    seed_one number s (lookup reference_eq s.sg values) ∷ seed_all number values ss

unfoldable pub seed_groups : List ℕ → ℕ → List SettingGroup → List Setting → List Setting
seed_groups domain n [] ss = ss
seed_groups domain n (g ∷ gs) ss =
    let skip = not (list_eq g.ld domain) || (g.number == 0 || ltb n g.number) in
    seed_groups domain n gs (if skip then ss else seed_all g.number g.values ss)

-- The attributes of the SGCB.
unfoldable pub build_sgcb : ℕ → ℕ → Value → Model
build_sgcb n resv now =
    ((sgcb num_of_sg, sp), some (uint8 n))
    ∷ ((sgcb act_sg, sp), some (uint8 1))
    ∷ ((sgcb edit_sg, sp), some (uint8 0))
    ∷ ((sgcb cnf_edit, sp), some (boolean false))
    ∷ ((sgcb l_act_tm, sp), some now)
    ∷ (if ltb 0 resv then ((sgcb resv_tms, sp), some (unsigned resv)) ∷ [] else [])

-- The declared active group, if it is one of the device's.
abbrev pub declared_active : ℕ → Option ℕ → Option ℕ
declared_active n none = none
declared_active n (some a) = if leb 1 a && leb a n then some a else none

abbrev pub with_active : Option ℕ → List Setting → ℕ → Model → Manager × Model
with_active none ss n m = (record { num_of_sg = n; act_sg = 1; edit_sg = 0; settings = ss }, m)
with_active (some a) ss n m =
    (record { num_of_sg = n; act_sg = a; edit_sg = 0; settings = ss }, set_sgcb m act_sg (uint8 a))

-- One device of `materialise_sgcbs`, with `n` groups.
unfoldable pub materialise :
    List ℕ
    → ℕ
    → ℕ
    → Value
    → Option ℕ
    → List (Reference × Option Reference)
    → List SettingGroup
    → Model
    → Manager × Model
materialise domain n resv now declared paths seeds m =
    with_active (declared_active n declared) (seed_groups domain n seeds (snapshot m n paths)) n
      (m ++ build_sgcb n resv now)
