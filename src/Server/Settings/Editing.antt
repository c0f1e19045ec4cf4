-- ===== src/Server/Settings/Editing.antt =====
-- server/settinggroup.rs: editing a group does not touch what is in effect.
use rs_iec.Common.{◌≡◌}
use rs_iec.Server.Settings.Table.{act_sg, cnf_edit, Model}
use rs_iec.Server.Settings.{Manager}
use rs_iec.Server.Settings.Live.{SameActive}
use rs_iec.Server.Settings.Runs.{Request, control, attribute}

-- Not an activation and not a confirmation.
abbrev pub IsEditing : Request → Type 0
IsEditing (control verdict now act_sg v) = ⊥
IsEditing (control verdict now cnf_edit v) = ⊥
IsEditing (control verdict now _ v) = Unit {0}
IsEditing (attribute verdict r fc v) = Unit {0}

-- The groups' values, the active group and the active attributes are the same.
pub record Undisturbed (before after : Manager × Model) : Type 0 where
  pub settings : after.0.settings ≡ before.0.settings
  pub active : after.0.act_sg ≡ before.0.act_sg
  pub attributes : SameActive before.1 after.1
