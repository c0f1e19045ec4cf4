-- ===== src/Server/Settings.antt =====
-- server/settinggroup.rs: a device's setting groups, and the writes that reach them through
-- server/handler.rs. The conversions of floats to `i64` are parameters, and `now` is the clock's
-- time.
pub mod Table
pub mod Live
pub mod Commit
pub mod Runs
pub mod Editing
pub mod Building
pub mod Seeds
pub mod Initial
use rs_iec.Common.{
  ℕ, ℤ, pos, negsuc, ◌+◌, ◌-◌, ◌%◌, ◌^◌, Bool, true, false, ◌==◌, ltb, leb, not, ◌&&◌, ◌||◌,
  if◌then◌else◌, List, [], ◌∷◌, get_or, set,
}
use rs_iec.Common as Common
use rs_iec.Common.{Option}
use rs_iec.Mms.Values.{
  Value, DataAccessError, object_value_invalid, temporarily_unavailable, object_access_denied,
  empty,
}
use rs_iec.Mms.Values.Value.{boolean, integer, unsigned, float32, float64}
use rs_iec.Server.Settings.Table.{
  Fc, fc_eq, sg, se, sp, st, mx, or, ex, SgcbAttr, act_sg, edit_sg, cnf_edit, l_act_tm, num_of_sg,
  resv_tms, Reference, leaf, sgcb, Model, read_attr, write_attr,
}

pub record Setting : Type 0 where
  pub sg : Reference
  pub se : Option Reference
  pub groups : List Value

pub record Manager : Type 0 where
  pub num_of_sg : ℕ
  pub act_sg : ℕ
  pub edit_sg : ℕ
  pub settings : List Setting

-- `Value::uint8`
abbrev pub uint8 : ℕ → Value
uint8 n = unsigned n

abbrev pub as_bool : Value → Bool
as_bool (boolean b) = b
as_bool _ = false

-- `as i64` of a `u64` and `as u8` of an `i64`.
abbrev pub to_i64 : ℕ → ℤ
to_i64 n = if ltb n (2 ^ 63) then pos n else negsuc (2 ^ 64 - 1 - n)

abbrev pub to_u8 : ℤ → ℕ
to_u8 (pos n) = n % 256
to_u8 (negsuc n) = 255 - n % 256

abbrev pub of_bool : Bool → ℤ
of_bool true = pos 1
of_bool false = pos 0

-- `(low..=high).contains(&n)`
abbrev pub within : ℕ → ℕ → ℤ → Bool
within low high (pos n) = leb low n && leb n high
within low high (negsuc n) = false

-- `write_attr` for the active view of each setting.
unfoldable pub show_active : ℕ → List Setting → Model → Model
show_active g [] m = m
show_active g (s ∷ ss) m = show_active g ss (write_attr m s.sg sg (get_or s.groups (g - 1) empty))

abbrev pub show_one : Option Reference → Value → Model → Model
show_one Option.none v m = m
show_one (Option.some r) v m = write_attr m r se v

-- And for the edit view of those that have one.
unfoldable pub show_edit : ℕ → List Setting → Model → Model
show_edit g [] m = m
show_edit g (s ∷ ss) m = show_edit g ss (show_one s.se (get_or s.groups (g - 1) empty) m)

-- What a setting's edit view holds, if it has one.
abbrev pub edited : Model → Option Reference → Option Value
edited m Option.none = Option.none
edited m (Option.some r) = read_attr m r se

abbrev pub commit_one : ℕ → Setting → Option Value → Setting
commit_one edit s Option.none = s
commit_one edit s (Option.some v) = record s { groups = set s.groups (edit - 1) v }

-- The loop over the settings, whose stores take the edited values.
unfoldable pub commit : ℕ → Model → List Setting → List Setting
commit edit m [] = []
commit edit m (s ∷ ss) = commit_one edit s (edited m s.se) ∷ commit edit m ss

abbrev pub live_one : Setting → Option Value → List (Reference × Value) → List (Reference × Value)
live_one s Option.none live = live
live_one s (Option.some v) live = (s.sg, v) ∷ live

-- What that loop collects if the edited group is the active one.
unfoldable pub live : Model → List Setting → List (Reference × Value)
live m [] = []
live m (s ∷ ss) = live_one s (edited m s.se) (live m ss)

unfoldable pub write_live : List (Reference × Value) → Model → Model
write_live [] m = m
write_live ((r, v) ∷ more) m = write_live more (write_attr m r sg v)

abbrev pub set_sgcb : Model → SgcbAttr → Value → Model
set_sgcb m a v = write_attr m (sgcb a) sp v

unfoldable pub activate : Value → ℕ → Manager → Model → Manager × Model
activate now g mgr m = if ltb g 1 || ltb mgr.num_of_sg g then (mgr, m) else (
  record mgr { act_sg = g },
  show_active g mgr.settings (set_sgcb (set_sgcb m act_sg (uint8 g)) l_act_tm now),
)

unfoldable pub open_edit : ℕ → Manager → Model → Manager × Model
open_edit g mgr m =
    let m' = set_sgcb m edit_sg (uint8 g) in
    (
      record mgr { edit_sg = g },
      if leb 1 g && leb g mgr.num_of_sg then show_edit g mgr.settings m' else m',
    )

unfoldable pub confirm : Bool → Manager → Model → Manager × Model
confirm on mgr m =
    let edit = mgr.edit_sg in
    if not on || (ltb edit 1 || ltb mgr.num_of_sg edit)
    then (mgr, m)
    else let m' = write_live (if edit == mgr.act_sg then live m mgr.settings else []) m in
      (
        record mgr { edit_sg = 0; settings = commit edit m mgr.settings },
        set_sgcb (set_sgcb m' edit_sg (uint8 0)) cnf_edit (boolean false),
      )

module _ (trunc32 trunc64 : ℕ → ℤ) where
  unfoldable pub as_i64 : Value → ℤ
  as_i64 (integer n) = n
  as_i64 (unsigned n) = to_i64 n
  as_i64 (boolean b) = of_bool b
  as_i64 (float32 f) = trunc32 f
  as_i64 (float64 f) = trunc64 f
  as_i64 _ = pos 0

  -- `none` is `Ok(())`.
  unfoldable pub check_write : Manager → SgcbAttr → Value → Option DataAccessError
  check_write mgr act_sg v =
      if within 1 mgr.num_of_sg (as_i64 v) then Option.none else Option.some object_value_invalid
  check_write mgr edit_sg v =
      if within 0 mgr.num_of_sg (as_i64 v) then Option.none else Option.some object_value_invalid
  check_write mgr cnf_edit v =
      if as_bool v && not (leb 1 mgr.edit_sg && leb mgr.edit_sg mgr.num_of_sg)
      then Option.some temporarily_unavailable
      else Option.none
  check_write mgr _ v = Option.some object_access_denied

  unfoldable pub on_sgcb_write : Value → SgcbAttr → Value → Manager → Model → Manager × Model
  unfolding activate open_edit confirm
  on_sgcb_write now act_sg v mgr m = activate now (to_u8 (as_i64 v)) mgr m
  on_sgcb_write now edit_sg v mgr m = open_edit (to_u8 (as_i64 v)) mgr m
  on_sgcb_write now cnf_edit v mgr m = confirm (as_bool v) mgr m
  on_sgcb_write now _ v mgr m = (mgr, m)

  -- A client's write to the SGCB: the check, the store, which `verdict` refuses or not by the
  -- resolution of the item, the type and the hook, and the effect.
  abbrev pub stored_sgcb :
      Option DataAccessError
      → Value
      → SgcbAttr
      → Value
      → Manager
      → Model
      → (Manager × Model) × Option DataAccessError
  stored_sgcb (Option.some e) now a v mgr m = ((mgr, m), Option.some e)
  stored_sgcb Option.none now a v mgr m = (on_sgcb_write now a v mgr (set_sgcb m a v), Option.none)

  abbrev pub checked_sgcb :
      Option DataAccessError
      → Option DataAccessError
      → Value
      → SgcbAttr
      → Value
      → Manager
      → Model
      → (Manager × Model) × Option DataAccessError
  checked_sgcb (Option.some e) verdict now a v mgr m = ((mgr, m), Option.some e)
  checked_sgcb Option.none verdict now a v mgr m = stored_sgcb verdict now a v mgr m

  unfoldable pub write_sgcb :
      Option DataAccessError
      → Value
      → SgcbAttr
      → Value
      → Manager
      → Model
      → (Manager × Model) × Option DataAccessError
  write_sgcb verdict now a v mgr m = checked_sgcb (check_write mgr a v) verdict now a v mgr m

-- The constraints that a server asks for, without those that are never writable.
unfoldable pub never_writable : Fc → Bool
never_writable fc = fc_eq fc st || (fc_eq fc mx || (fc_eq fc or || (fc_eq fc ex || fc_eq fc sg)))

unfoldable pub writable_fcs : List Fc → List Fc
writable_fcs [] = []
writable_fcs (fc ∷ fcs) = if never_writable fc then writable_fcs fcs else fc ∷ writable_fcs fcs

unfoldable pub contains : List Fc → Fc → Bool
contains [] fc = false
contains (x ∷ xs) fc = fc_eq x fc || contains xs fc

unfoldable pub write_permitted : List Fc → Manager → Fc → Option DataAccessError
write_permitted writable mgr fc =
    if not (contains writable fc)
    then Option.some object_access_denied
    else if fc_eq fc se && not (leb 1 mgr.edit_sg)
    then Option.some temporarily_unavailable
    else Option.none

-- A client's write to any other attribute, where the verdict is that of the type and the hook.
abbrev pub stored :
    Option DataAccessError
    → Option DataAccessError
    → Reference
    → Fc
    → Value
    → Model
    → Model × Option DataAccessError
stored (Option.some e) verdict r fc v m = (m, Option.some e)
stored Option.none (Option.some e) r fc v m = (m, Option.some e)
stored Option.none Option.none r fc v m = (write_attr m r fc v, Option.none)

unfoldable pub write_attribute :
    List Fc
    → Option DataAccessError
    → Reference
    → Fc
    → Value
    → Manager
    → Model
    → Model × Option DataAccessError
write_attribute writable verdict r fc v mgr m =
    stored (write_permitted writable mgr fc) verdict r fc v m
