-- ===== src/Server/Select.antt =====
-- server/select.rs: the reservations of select-before-operate. An `Instant` and a `Duration` are
-- numbers of one unit, a `ConnId` is its number, and a reference is the octets of its text.
pub mod Exclusion
pub mod Checks
use rs_iec.Common.{
  ℕ, ◌+◌, Bool, true, false, ◌==◌, ltb, leb, not, ◌&&◌, ◌||◌, if◌then◌else◌, List, [], Option, none,
  some, length,
}
use rs_iec.Common.Dictionary.{lookup, insert, remove, retain, list_eq}

-- The values of `AddCause` that the table answers with.
pub data AddCause : Type 0 where
  none_given object_not_selected inconsistent_parameters : AddCause

abbrev pub Reference : Type 0
Reference = List ℕ

pub record Selection : Type 0 where
  pub conn : ℕ
  pub expiry : ℕ
  pub ctl_num : Option ℕ

abbrev pub Selections : Type 0
Selections = List (Reference × Selection)

-- `now + timeout`
unfoldable pub reserved : Reference → ℕ → Option ℕ → ℕ → ℕ → Selections → Selections
reserved reference conn ctl_num timeout now active =
    insert list_eq reference (record { conn = conn; expiry = now + timeout; ctl_num = ctl_num })
      active

-- Another connection holds a live reservation.
abbrev pub held_by_other : Option Selection → ℕ → ℕ → Bool
held_by_other none conn now = false
held_by_other (some sel) conn now = not (sel.conn == conn) && ltb now sel.expiry

unfoldable pub reserve : Selections → Reference → ℕ → Option ℕ → ℕ → ℕ → Selections × Bool
unfolding reserved
reserve active reference conn ctl_num timeout now =
    if held_by_other (lookup list_eq reference active) conn now
    then (active, false)
    else (reserved reference conn ctl_num timeout now active, true)

-- `Some(n) if n != ctl_num`
abbrev pub number_differs : Option ℕ → ℕ → Bool
number_differs none ctl_num = false
number_differs (some n) ctl_num = not (n == ctl_num)

abbrev pub operate_cause : Option Selection → ℕ → ℕ → ℕ → AddCause
operate_cause none conn ctl_num now = object_not_selected
operate_cause (some sel) conn ctl_num now =
    if not (sel.conn == conn) || leb sel.expiry now
    then object_not_selected
    else if number_differs sel.ctl_num ctl_num
    then inconsistent_parameters
    else none_given

unfoldable pub check_operate : Selections → Reference → ℕ → ℕ → ℕ → AddCause
check_operate active reference conn ctl_num now =
    operate_cause (lookup list_eq reference active) conn ctl_num now

abbrev pub cancel_cause : Option Selection → ℕ → ℕ → ℕ → AddCause
cancel_cause none conn ctl_num now = none_given
cancel_cause (some sel) conn ctl_num now =
    if leb sel.expiry now
    then none_given
    else if not (sel.conn == conn)
    then object_not_selected
    else if number_differs sel.ctl_num ctl_num
    then inconsistent_parameters
    else none_given

unfoldable pub check_cancel : Selections → Reference → ℕ → ℕ → ℕ → AddCause
check_cancel active reference conn ctl_num now =
    cancel_cause (lookup list_eq reference active) conn ctl_num now

unfoldable pub clear : Selections → Reference → Selections
clear active reference = remove list_eq reference active

unfoldable pub release_conn : Selections → ℕ → Selections
release_conn active conn = retain (λ _ sel. not (sel.conn == conn)) active

unfoldable pub len : Selections → ℕ
len active = length active
