-- ===== src/Server/Reports/Changes.antt =====
-- server/reporting.rs: the changes of an update, and the registry of blocks they are reported to.
use rs_iec.Common.{
  ℕ, ◌+◌, Bool, true, false, ◌==◌, not, ◌&&◌, ◌||◌, if◌then◌else◌, List, [], ◌∷◌, ◌++◌, Option,
  none, some, length,
}
use rs_iec.Common.Dictionary.{list_eq}
use rs_iec.Server.Reports.{
  ReportEntry, TrgOps, no_trigger, either, both, any_trigger, DsMember, Report, Rcb, Env,
}
use rs_iec.Server.Reports.Entries.{empty_entry}
use rs_iec.Server.Reports.Buffer.{event}
use rs_iec.Server.Reports.Control.{leave, shut_down}

-- A changed reference with its functional constraint, and the triggers raised for it.
pub record Change : Type 0 where
  pub reference : List ℕ
  pub fc : ℕ
  pub triggers : TrgOps

abbrev pub starts_with : List ℕ → List ℕ → Bool
starts_with xs [] = true
starts_with [] (p ∷ ps) = false
starts_with (x ∷ xs) (p ∷ ps) = x == p && starts_with xs ps

-- The changed reference is the member's, or below it, or above it; 46 is the separator `.`.
unfoldable pub touches : List ℕ → List ℕ → Bool
touches changed reference =
    list_eq changed reference
    || starts_with changed (reference ++ (46 ∷ []))
    || starts_with reference (changed ++ (46 ∷ []))

-- `model::from_mms` gives the member's reference and functional constraint.
unfoldable pub raised : (DsMember → List ℕ × ℕ) → List Change → DsMember → TrgOps → TrgOps
raised from_mms [] m r = r
raised from_mms (c ∷ cs) m r = raised from_mms cs m (
    if c.fc == (from_mms m).1 && touches c.reference (from_mms m).0 then either r c.triggers else r)

unfoldable pub member_reason : (DsMember → List ℕ × ℕ) → List Change → DsMember → TrgOps
member_reason from_mms changes m = raised from_mms changes m no_trigger

-- The triggers that a change set can raise.
abbrev pub change_triggers : TrgOps
change_triggers = record no_trigger {
  data_change = true;
  quality_change = true;
  data_update = true;
}

module _ {V : Type 0} where
  abbrev pub with_member : Env V → TrgOps → ℕ → DsMember → ReportEntry V → ReportEntry V
  with_member env r i m e = elim (env.item_value m) [
    | none ↦ e
    | some v ↦ record e {
      members = e.members ++ (i ∷ []);
      values = e.values ++ (v ∷ []);
      reasons = e.reasons ++ (r ∷ []);
    }
  ]

  -- The members that changed for a reason the block asks for, from index `i` on.
  unfoldable pub changed_members :
      Env V → (DsMember → TrgOps) → TrgOps → ℕ → List DsMember → ReportEntry V → ReportEntry V
  changed_members env reason_of want i [] e = e
  changed_members env reason_of want i (m ∷ ms) e =
      let r = both (reason_of m) want in
      changed_members env reason_of want (i + 1) ms
        (if any_trigger r then with_member env r i m e else e)

  abbrev pub event_of : Env V → ReportEntry V → Rcb V → Rcb V
  event_of env e s = if length e.members == 0 then s else event env e s

  abbrev pub update_in :
      Env V → (DsMember → List ℕ × ℕ) → List Change → Rcb V → Option (List DsMember) → Rcb V
  update_in env from_mms changes s none = s
  update_in env from_mms changes s (some members) =
      event_of env
        (changed_members env (member_reason from_mms changes) (both s.attrs.trg_ops change_triggers)
          0 members (empty_entry env.now))
        s

  -- `on_update`, for one block.
  unfoldable pub update_block : Env V → (DsMember → List ℕ × ℕ) → List Change → Rcb V → Rcb V
  update_block env from_mms changes s =
      if not s.buffered && not s.enabled
      then s
      else update_in env from_mms changes s (env.resolve_data_set s.attrs.dat_set)

  -- The engine's counter and the queues are the server's: each block finds them as the one before
  -- left them.
  abbrev pub joined : ℕ → List (Report V) → Rcb V → Rcb V
  joined counter sent s = record s { entry_counter = counter; sent = sent }

  unfoldable pub each_block : (Rcb V → Rcb V) → ℕ → List (Report V) → List (Rcb V) → List (Rcb V)
  each_block f counter sent [] = []
  each_block f counter sent (s ∷ rest) =
      let done = f (joined counter sent s) in done ∷ each_block f done.entry_counter done.sent rest

  unfoldable pub on_update :
      Env V
      → (DsMember → List ℕ × ℕ)
      → List Change
      → ℕ
      → List (Report V)
      → List (Rcb V)
      → List (Rcb V)
  on_update env from_mms [] counter sent registry = registry
  on_update env from_mms (c ∷ cs) counter sent registry =
      each_block (update_block env from_mms (c ∷ cs)) counter sent registry

  unfoldable pub disable_conn : Env V → ℕ → ℕ → List (Report V) → List (Rcb V) → List (Rcb V)
  disable_conn env conn counter sent registry = each_block (leave env conn) counter sent registry

  unfoldable pub shutdown : ℕ → List (Report V) → List (Rcb V) → List (Rcb V)
  shutdown counter sent registry = each_block shut_down counter sent registry
