-- ===== src/Tests/Settings.antt =====
-- server/settinggroup.rs at a device with one setting and two groups.
use rs_iec.Common.{ℕ, ℤ, pos, ◌≡◌, refl, true, false, List, [], ◌∷◌, All, arith, Option}
use rs_iec.Common.Dictionary.{lookup}
use rs_iec.Mms.Values.Value.{boolean, integer, unsigned}
use rs_iec.Server.Settings.Table.{
  sg, se, sp, act_sg, edit_sg, cnf_edit, l_act_tm, leaf, sgcb, Model, read_attr, has,
}
use rs_iec.Server.Settings.{Manager, Setting, activate, confirm}
use rs_iec.Server.Settings.Live.{IsLive}
use rs_iec.Server.Settings.Runs.{Request, control, attribute, run, confirm-activate}
use rs_iec.Server.Settings.Building.{SettingGroup, materialise}
use rs_iec.Server.Settings.Seeds.{Agrees}
use rs_iec.Server.Settings.Initial.{run-materialise}

abbrev trunc : ℕ → ℤ
trunc n = pos 0

abbrev delay : Setting
delay = record {
  sg = leaf (1 ∷ []);
  se = Option.some (leaf (1 ∷ []));
  groups = integer (pos 1000) ∷ integer (pos 2000) ∷ [];
}

abbrev manager : ℕ → Manager
manager edit = record { num_of_sg = 2; act_sg = 1; edit_sg = edit; settings = delay ∷ [] }

-- The edit view holds a new value.
abbrev device : Model
device =
    ((leaf (1 ∷ []), sg), Option.some (integer (pos 1000)))
    ∷ ((leaf (1 ∷ []), se), Option.some (integer (pos 4200)))
    ∷ ((sgcb act_sg, sp), Option.some (unsigned 1))
    ∷ ((sgcb edit_sg, sp), Option.some (unsigned 2))
    ∷ ((sgcb cnf_edit, sp), Option.some (boolean false))
    ∷ ((sgcb l_act_tm, sp), Option.some (unsigned 0))
    ∷ []

device-IsLive : (edit : ℕ) → IsLive (manager edit) device
unfolding read_attr has lookup
device-IsLive edit = record {
  above = omega arith;
  below = omega arith;
  filled = (refl, tt);
  present = (refl, tt);
  distinct = (tt, tt);
  shown = (refl, tt);
}

-- A client confirms the edit of group 2 and activates it.
abbrev requests : List Request
requests =
    control Option.none (unsigned 8) cnf_edit (boolean true)
    ∷ control Option.none (unsigned 9) act_sg (unsigned 2)
    ∷ []

-- The same device with its second group declared active, before its SGCB is built; the configuration
-- records a value for each group.
abbrev bare_device : Model
bare_device =
    ((leaf (1 ∷ []), sg), Option.some (integer (pos 1000)))
    ∷ ((leaf (1 ∷ []), se), Option.some (integer (pos 4200)))
    ∷ []

abbrev recorded : List SettingGroup
recorded =
    record { number = 1; ld = 8 ∷ []; values = (leaf (1 ∷ []), integer (pos 500)) ∷ [] }
    ∷ record { number = 2; ld = 8 ∷ []; values = (leaf (1 ∷ []), integer (pos 1000)) ∷ [] }
    ∷ []

abbrev built : Manager × Model
built =
    materialise (8 ∷ []) 2 0 (unsigned 7) (Option.some 2)
      ((leaf (1 ∷ []), Option.some (leaf (1 ∷ []))) ∷ []) recorded bare_device

second-Agrees :
    Agrees bare_device
      (8 ∷ [])
      2
      (record { number = 2; ld = 8 ∷ []; values = (leaf (1 ∷ []), integer (pos 1000)) ∷ [] })
unfolding read_attr lookup
second-Agrees same active r v h = ground (arith, h)

run-materialise_example :
    IsLive
      (run trunc trunc [] requests built.0 built.1).0
      (run trunc trunc [] requests built.0 built.1).1
unfolding read_attr has lookup
run-materialise_example =
    run-materialise trunc trunc [] (8 ∷ []) 2 0 (unsigned 7) (Option.some 2)
      ((leaf (1 ∷ []), Option.some (leaf (1 ∷ []))) ∷ []) recorded bare_device requests
      (omega arith) (tt, tt) ((refl, (integer (pos 1000), refl)), tt)
      (λ same other. absurd (omega (arith, other)), (second-Agrees, tt))

confirm-activate_example :
    All
      (λ s.
        read_attr
          (activate
            (unsigned 9)
            2
            (confirm true (manager 2) device).0
            (confirm true (manager 2) device).1).1
          s.sg
          sg
        ≡ Option.some (integer (pos 4200)))
      (delay ∷ [])
unfolding read_attr lookup
confirm-activate_example =
    confirm-activate (unsigned 9) 2 (manager 2) device (device-IsLive 2) (omega arith) (omega arith)
      (omega arith) (omega arith)

-- A client opens the edit of group 2 and writes the edit view.
abbrev edits : List Request
edits =
    control Option.none (unsigned 8) edit_sg (unsigned 2)
    ∷ attribute Option.none (leaf (1 ∷ [])) se (integer (pos 500))
    ∷ []
