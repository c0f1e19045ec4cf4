-- ===== src/Server/Settings/Runs.antt =====
-- server/settinggroup.rs and server/handler.rs: what clients do to a device's setting groups.
use rs_iec.Common.{
  ℕ, ℤ, ◌≤◌, ◌≡◌, refl, sym, ap, ◌∙◌, true, false, ◌==◌, ltb, leb, not, ◌&&◌, ◌||◌, if◌then◌else◌,
  List, [], ◌∷◌, All, arith, Bool-cases, inl, inr, if_elim, Option,
}
use mathlib.Core.Path.{subst}
use rs_iec.Mms.Values.{Value, DataAccessError}
use rs_iec.Server.Settings.Table.{
  Fc, fc_eq, fc_eq_iff, sg, SgcbAttr, act_sg, edit_sg, cnf_edit, l_act_tm, num_of_sg, resv_tms,
  Reference, Model, read_attr,
}
use rs_iec.Server.Settings.{
  Setting, Manager, uint8, as_bool, to_u8, as_i64, edited, commit, set_sgcb, activate, open_edit,
  confirm, on_sgcb_write, check_write, checked_sgcb, write_sgcb, never_writable, writable_fcs,
  contains, write_permitted, stored, write_attribute,
}
use rs_iec.Server.Settings.Live.{
  Filled, commit_one_active, group, Shows, IsLive, SameActive, SameActive-trans,
  set_sgcb-SameActive, show_edit-SameActive, write-SameActive, Shows-same, Present-same,
  show_active-Shows, show_active-Present, commit_one-group,
}
use rs_iec.Server.Settings.Commit.{confirm-IsLive}

same-IsLive :
    (mgr : Manager) (edit : ℕ) (m m' : Model)
    → SameActive m m'
    → IsLive mgr m
    → IsLive (record mgr { edit_sg = edit }) m'
same-IsLive mgr edit m m' e h = record {
  above = h.above;
  below = h.below;
  filled = h.filled;
  present = Present-same m m' mgr.settings e h.present;
  distinct = h.distinct;
  shown = Shows-same mgr.act_sg m m' mgr.settings e h.shown;
}

activate-IsLive :
    (now : Value) (g : ℕ) (mgr : Manager) (m : Model)
    → IsLive mgr m
    → IsLive (activate now g mgr m).0 (activate now g mgr m).1
unfolding activate
activate-IsLive now g mgr m h =
    if_elim (λ (r : Manager × Model). IsLive r.0 r.1) (ltb g 1 || ltb mgr.num_of_sg g) (λ _. h)
      λ valid.
        let same =
          SameActive-trans m _ _ (set_sgcb-SameActive m act_sg (uint8 g))
            (set_sgcb-SameActive _ l_act_tm now) in
        let present = Present-same m _ mgr.settings same h.present in
        record {
          above = ground (arith, valid);
          below = ground (arith, valid);
          filled = h.filled;
          present = show_active-Present g mgr.settings _ mgr.settings present;
          distinct = h.distinct;
          shown = show_active-Shows g mgr.settings _ h.distinct present;
        }

open_edit-IsLive :
    (g : ℕ) (mgr : Manager) (m : Model)
    → IsLive mgr m
    → IsLive (open_edit g mgr m).0 (open_edit g mgr m).1
unfolding open_edit
open_edit-IsLive g mgr m h =
    let first = set_sgcb-SameActive m edit_sg (uint8 g) in
    if_elim (λ m'. IsLive (record mgr { edit_sg = g }) m') (leb 1 g && leb g mgr.num_of_sg)
      (λ _.
        same-IsLive mgr g m _ (SameActive-trans m _ _ first (show_edit-SameActive g mgr.settings _))
          h)
      (λ _. same-IsLive mgr g m _ first h)

contains_writable : (fcs : List Fc) → contains (writable_fcs fcs) sg ≡ false
unfolding contains writable_fcs never_writable
contains_writable [] = refl
contains_writable (fc ∷ fcs) =
    if_elim (λ l. contains l sg ≡ false) (never_writable fc) (λ _. contains_writable fcs)
      (λ allowed. ground (arith, allowed, contains_writable fcs))

-- A client's request: a write to the SGCB, or to another attribute, each with the verdict of the
-- type and the hook and the time.
pub data Request : Type 0 where
  control : Option DataAccessError → Value → SgcbAttr → Value → Request
  attribute : Option DataAccessError → Reference → Fc → Value → Request

module _ (trunc32 trunc64 : ℕ → ℤ) (fcs : List Fc) where
  unfoldable pub step : Request → Manager → Model → Manager × Model
  step (control verdict now a v) mgr m = (write_sgcb trunc32 trunc64 verdict now a v mgr m).0
  step (attribute verdict r fc v) mgr m =
      (mgr, (write_attribute (writable_fcs fcs) verdict r fc v mgr m).0)

  unfoldable pub run : List Request → Manager → Model → Manager × Model
  run [] mgr m = (mgr, m)
  run (q ∷ qs) mgr m = let next = step q mgr m in run qs next.0 next.1

  written-IsLive :
      (now : Value) (a : SgcbAttr) (v : Value) (mgr : Manager) (m : Model)
      → IsLive mgr m
      → IsLive
          (on_sgcb_write trunc32 trunc64 now a v mgr m).0
          (on_sgcb_write trunc32 trunc64 now a v mgr m).1
  unfolding on_sgcb_write
  written-IsLive now act_sg v mgr m h =
      activate-IsLive now (to_u8 (as_i64 trunc32 trunc64 v)) mgr m h
  written-IsLive now edit_sg v mgr m h = open_edit-IsLive (to_u8 (as_i64 trunc32 trunc64 v)) mgr m h
  written-IsLive now cnf_edit v mgr m h = confirm-IsLive (as_bool v) mgr m h
  written-IsLive now num_of_sg v mgr m h = h
  written-IsLive now l_act_tm v mgr m h = h
  written-IsLive now resv_tms v mgr m h = h

  checked-IsLive :
      (o verdict : Option DataAccessError) (now : Value) (a : SgcbAttr) (v : Value) (mgr : Manager)
      (m : Model)
      → IsLive mgr m
      → IsLive
          (checked_sgcb trunc32 trunc64 o verdict now a v mgr m).0.0
          (checked_sgcb trunc32 trunc64 o verdict now a v mgr m).0.1
  checked-IsLive (Option.some e) verdict now a v mgr m h = h
  checked-IsLive Option.none (Option.some e) now a v mgr m h = h
  checked-IsLive Option.none Option.none now a v mgr m h =
      written-IsLive now a v mgr (set_sgcb m a v)
        (same-IsLive mgr mgr.edit_sg m _ (set_sgcb-SameActive m a v) h)

  pub stored-SameActive :
      (o verdict : Option DataAccessError) (r : Reference) (fc : Fc) (v : Value) (m : Model)
      → (o ≡ Option.none → fc_eq fc sg ≡ false)
      → SameActive m (stored o verdict r fc v m).0
  stored-SameActive (Option.some e) verdict r fc v m h = record {
    reads = λ r'. refl;
    there = λ r'. refl;
  }
  stored-SameActive Option.none (Option.some e) r fc v m h = record {
    reads = λ r'. refl;
    there = λ r'. refl;
  }
  stored-SameActive Option.none Option.none r fc v m h = write-SameActive m r fc v (h refl)

  pub not_active :
      (mgr : Manager) (fc : Fc)
      → write_permitted (writable_fcs fcs) mgr fc ≡ Option.none
      → fc_eq fc sg ≡ false
  unfolding write_permitted
  not_active mgr fc h = elim (Bool-cases (fc_eq fc sg)) [
    | inr e ↦ e
    | inl e ↦
        let refused : contains (writable_fcs fcs) fc ≡ false =
          ap (contains (writable_fcs fcs)) ((fc_eq_iff fc sg).0 e) ∙ contains_writable fcs in
        ground (arith, h, refused)
  ]

  step-IsLive :
      (q : Request) (mgr : Manager) (m : Model)
      → IsLive mgr m
      → IsLive (step q mgr m).0 (step q mgr m).1
  unfolding step write_sgcb write_attribute
  step-IsLive (control verdict now a v) mgr m h =
      checked-IsLive (check_write trunc32 trunc64 mgr a v) verdict now a v mgr m h
  step-IsLive (attribute verdict r fc v) mgr m h =
      same-IsLive mgr mgr.edit_sg m _
        (stored-SameActive (write_permitted (writable_fcs fcs) mgr fc) verdict r fc v m
          (not_active mgr fc))
        h

  -- If every setting's active attribute holds the value of the active group to begin with, that group
  -- is one of the device's, and the settings have a value for each group and are in the model under
  -- different references, then all of this still holds whatever clients write to the setting group
  -- control block and to the other attributes, in any order and with any constraints made writable.
  pub run-IsLive :
      (qs : List Request) (mgr : Manager) (m : Model)
      → IsLive mgr m
      → IsLive (run qs mgr m).0 (run qs mgr m).1
  unfolding run
  run-IsLive [] mgr m h = h
  run-IsLive (q ∷ qs) mgr m h =
      run-IsLive qs (step q mgr m).0 (step q mgr m).1 (step-IsLive q mgr m h)

-- The value that a setting gets from an edit of its group: what the edit view holds, if anything.
abbrev pub after_edit : Option Value → Value → Value
after_edit Option.none old = old
after_edit (Option.some v) old = v

committed-All :
    (n edit g : ℕ) (m0 m : Model) (ss : List Setting)
    → 1 ≤ edit
    → edit ≤ n
    → 1 ≤ g
    → Filled n ss
    → Shows g m (commit edit m0 ss)
    → All
        (λ s.
          read_attr m s.sg sg
          ≡ Option.some (if edit == g then after_edit (edited m0 s.se) (group g s) else group g s))
        ss
unfolding commit
committed-All n edit g m0 m [] lo hi one f h = tt
committed-All n edit g m0 m (s ∷ ss) lo hi one f h = (
  ap (λ r. read_attr m r sg) (sym (commit_one_active edit s (edited m0 s.se)))
      ∙ h.0
      ∙ ap Option.some
          (commit_one-group edit g s (edited m0 s.se) lo (omega (arith, f.0)) one ∙ ground arith),
  committed-All n edit g m0 m ss lo hi one f.1 h.1,
)

activate-Shows :
    (now : Value) (g : ℕ) (mgr : Manager) (m : Model)
    → 1 ≤ g
    → g ≤ mgr.num_of_sg
    → IsLive mgr m
    → Shows g (activate now g mgr m).1 mgr.settings
unfolding activate
activate-Shows now g mgr m lo hi h = rw (valid g mgr.num_of_sg lo hi) (
    show_active-Shows g mgr.settings _ h.distinct (
      Present-same m _ mgr.settings
        (SameActive-trans m _ _ (set_sgcb-SameActive m act_sg (uint8 g))
          (set_sgcb-SameActive _ l_act_tm now))
        h.present))
  where
    valid : (g n : ℕ) → 1 ≤ g → g ≤ n → (ltb g 1 || ltb n g) ≡ false
    valid g n lo hi = ground (arith, lo, hi)

confirmed :
    (mgr : Manager) (m : Model)
    → 1 ≤ mgr.edit_sg
    → mgr.edit_sg ≤ mgr.num_of_sg
    → (confirm true mgr m).0
      ≡ record mgr { edit_sg = 0; settings = commit mgr.edit_sg m mgr.settings }
unfolding confirm
confirmed mgr m lo hi =
    if_elim
      (λ (r : Manager × Model).
        r.0 ≡ record mgr { edit_sg = 0; settings = commit mgr.edit_sg m mgr.settings })
      (not true || (ltb mgr.edit_sg 1 || ltb mgr.num_of_sg mgr.edit_sg))
      (λ bad. absurd (ground (arith, bad, lo, hi))) (λ _. refl)

-- A confirmed edit is what a later activation brings into effect: after an edit of a group is
-- confirmed and a group activated, each setting's active attribute holds what its edit view held at
-- the confirmation if that group is the edited one (the old value if it held nothing), and that
-- group's own value otherwise.
pub confirm-activate :
    (now : Value) (g : ℕ) (mgr : Manager) (m : Model)
    → IsLive mgr m
    → 1 ≤ mgr.edit_sg
    → mgr.edit_sg ≤ mgr.num_of_sg
    → 1 ≤ g
    → g ≤ mgr.num_of_sg
    → All
        (λ s.
          read_attr (activate now g (confirm true mgr m).0 (confirm true mgr m).1).1 s.sg sg
          ≡ Option.some
              (if mgr.edit_sg == g then after_edit (edited m s.se) (group g s) else group g s))
        mgr.settings
confirm-activate now g mgr m h lo hi one top =
    let e = confirmed mgr m lo hi in
    let m' = (activate now g (confirm true mgr m).0 (confirm true mgr m).1).1 in
    committed-All mgr.num_of_sg mgr.edit_sg g m m' mgr.settings lo hi one h.filled (
      subst (λ (r : Manager). Shows g m' r.settings) e
        (activate-Shows now g (confirm true mgr m).0 (confirm true mgr m).1 one
          (omega (arith, ap (λ (r : Manager). r.num_of_sg) e, top)) (confirm-IsLive true mgr m h)))
