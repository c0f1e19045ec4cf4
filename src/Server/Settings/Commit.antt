-- ===== src/Server/Settings/Commit.antt =====
-- server/settinggroup.rs: a confirmed edit reaches the active view if its group is the active one.
use rs_iec.Common.{
  ℕ, ◌≤◌, ◌≡◌, refl, sym, ap, ◌∙◌, Bool, false, ◌==◌, ltb, not, ◌||◌, if◌then◌else◌, List, [], ◌∷◌,
  All, arith, Bool-cases, inl, inr, if_elim, Option,
}
use rs_iec.Mms.Values.{Value}
use rs_iec.Mms.Values.Value.{boolean}
use rs_iec.Server.Settings.Table.{
  sg, edit_sg, cnf_edit, Reference, Model, read_attr, write_attr, has,
}
use rs_iec.Server.Settings.{
  Setting, Manager, uint8, edited, commit_one, commit, live_one, live, write_live, set_sgcb,
  confirm,
}
use rs_iec.Server.Settings.Live.{
  Apart, Distinct, group, Shows, Present, Filled, IsLive, SameActive, SameActive-trans,
  set_sgcb-SameActive, Shows-same, Present-same, write-Present, write_self, write_other,
  Shows-write, flip, commit-All, commit_one_active, commit_one_length, commit-Distinct,
  commit_one-group,
}

write_live-Apart :
    (m0 : Model) (ss : List Setting) (m : Model) (r : Reference)
    → Apart r ss
    → read_attr (write_live (live m0 ss) m) r sg ≡ read_attr m r sg
unfolding live write_live
write_live-Apart m0 [] m r a = refl
write_live-Apart m0 (s ∷ ss) m r a = first (edited m0 s.se) (λ m'. write_live-Apart m0 ss m' r a.1)
  where
    first :
        (o : Option Value)
        → ((m' : Model) → read_attr (write_live (live m0 ss) m') r sg ≡ read_attr m' r sg)
        → read_attr (write_live (live_one s o (live m0 ss)) m) r sg ≡ read_attr m r sg
    first Option.none h = h m
    first (Option.some v) h = h (write_attr m s.sg sg v) ∙ write_other m s.sg r v (flip s.sg r a.0)

write_live-Present :
    (l : List (Reference × Value)) (m : Model) (all : List Setting)
    → Present m all
    → Present (write_live l m) all
unfolding write_live
write_live-Present [] m all h = h
write_live-Present ((r, v) ∷ more) m all h =
    write_live-Present more (write_attr m r sg v) all (write-Present m r sg v all h)

-- The active views show the committed values.
Committed : ℕ → Model → Model → List Setting → Type 0
Committed g m0 m =
    All (λ s. read_attr m s.sg sg ≡ Option.some (group g (commit_one g s (edited m0 s.se))))

write_live-Committed :
    (n g : ℕ) (m0 : Model) (ss : List Setting) (m : Model)
    → 1 ≤ g
    → g ≤ n
    → Filled n ss
    → Distinct ss
    → Present m ss
    → Shows g m ss
    → Committed g m0 (write_live (live m0 ss) m) ss
unfolding Committed live write_live
write_live-Committed n g m0 [] m lo hi f d p h = tt
write_live-Committed n g m0 (s ∷ ss) m lo hi f d p h = (
  here (edited m0 s.se),
  there (edited m0 s.se) (λ m' p' h'. write_live-Committed n g m0 ss m' lo hi f.1 d.1 p' h'),
)
  where
    here :
        (o : Option Value)
        → read_attr (write_live (live_one s o (live m0 ss)) m) s.sg sg
          ≡ Option.some (group g (commit_one g s o))
    here Option.none = write_live-Apart m0 ss m s.sg d.0 ∙ h.0
    here (Option.some v) =
        write_live-Apart m0 ss (write_attr m s.sg sg v) s.sg d.0
        ∙ write_self m s.sg v p.0
        ∙ ap Option.some
            (sym (commit_one-group g g s (Option.some v) lo (omega (arith, f.0)) lo ∙ ground arith))

    there :
        (o : Option Value)
        → ((m' : Model)
            → Present m' ss
            → Shows g m' ss
            → Committed g m0 (write_live (live m0 ss) m') ss)
        → Committed g m0 (write_live (live_one s o (live m0 ss)) m) ss
    there Option.none k = k m p.1 h.1
    there (Option.some v) k =
        k (write_attr m s.sg sg v) (write-Present m s.sg sg v ss p.1)
          (Shows-write g m s.sg v ss d.0 h.1)

-- What was written is what the committed settings hold.
Committed-Shows :
    (g : ℕ) (m0 m : Model) (ss : List Setting) → Committed g m0 m ss → Shows g m (commit g m0 ss)
unfolding Committed commit
Committed-Shows g m0 m [] h = tt
Committed-Shows g m0 m (s ∷ ss) h = (
  ap (λ r. read_attr m r sg) (commit_one_active g s (edited m0 s.se)) ∙ h.0,
  Committed-Shows g m0 m ss h.1,
)

-- A commit of another group leaves what the active views show.
other_group-Shows :
    (n edit g : ℕ) (m0 m : Model) (ss : List Setting)
    → 1 ≤ edit
    → edit ≤ n
    → 1 ≤ g
    → (edit == g) ≡ false
    → Filled n ss
    → Shows g m ss
    → Shows g m (commit edit m0 ss)
unfolding commit
other_group-Shows n edit g m0 m [] lo hi one ne f h = tt
other_group-Shows n edit g m0 m (s ∷ ss) lo hi one ne f h = (
  ap (λ r. read_attr m r sg) (commit_one_active edit s (edited m0 s.se))
      ∙ h.0
      ∙ ap Option.some (
          sym (
            commit_one-group edit g s (edited m0 s.se) lo (omega (arith, f.0)) one
            ∙ ground (arith, ne))),
  other_group-Shows n edit g m0 m ss lo hi one ne f.1 h.1,
)

-- What the active views show after the live values are written.
after_live-Shows :
    (n edit act : ℕ) (m : Model) (ss : List Setting)
    → 1 ≤ edit
    → edit ≤ n
    → 1 ≤ act
    → Filled n ss
    → Distinct ss
    → Present m ss
    → Shows act m ss
    → Shows act (write_live (if edit == act then live m ss else []) m) (commit edit m ss)
unfolding write_live
after_live-Shows n edit act m ss lo hi one f d p h = elim (Bool-cases (edit == act)) [
  | inl same ↦
      let e : edit ≡ act = ground (arith, same) in
      rw same (
        rw e (
          Committed-Shows act m _ ss
            (write_live-Committed n act m ss m one (omega (arith, e, hi)) f d p h)))
  | inr other ↦ rw other (other_group-Shows n edit act m m ss lo hi one other f h)
]

pub sgcb_reset : Model → Model
sgcb_reset m = set_sgcb (set_sgcb m edit_sg (uint8 0)) cnf_edit (boolean false)

sgcb_reset-SameActive : (m : Model) → SameActive m (sgcb_reset m)
unfolding sgcb_reset
sgcb_reset-SameActive m =
    SameActive-trans m _ _ (set_sgcb-SameActive m edit_sg (uint8 0))
      (set_sgcb-SameActive _ cnf_edit (boolean false))

pub confirm-IsLive :
    (on : Bool) (mgr : Manager) (m : Model)
    → IsLive mgr m
    → IsLive (confirm on mgr m).0 (confirm on mgr m).1
unfolding confirm sgcb_reset
confirm-IsLive on mgr m h =
    if_elim (λ (r : Manager × Model). IsLive r.0 r.1)
      (not on || (ltb mgr.edit_sg 1 || ltb mgr.num_of_sg mgr.edit_sg)) (λ _. h)
      λ open_. record {
        above = h.above;
        below = h.below;
        filled =
            commit-All _ _ mgr.edit_sg m mgr.settings
              (λ s e. commit_one_length mgr.edit_sg s (edited m s.se) ∙ e) h.filled;
        present =
            commit-All _ _ mgr.edit_sg m mgr.settings
              (λ s e.
                ap
                  (λ r.
                    has
                      (sgcb_reset (
                        write_live (if mgr.edit_sg == mgr.act_sg then live m mgr.settings else [])
                          m))
                      r sg)
                  (commit_one_active mgr.edit_sg s (edited m s.se))
                ∙ e)
              (Present-same _ _ mgr.settings (sgcb_reset-SameActive _) (
                write_live-Present (if mgr.edit_sg == mgr.act_sg then live m mgr.settings else []) m
                  mgr.settings h.present));
        distinct = commit-Distinct mgr.edit_sg m mgr.settings h.distinct;
        shown =
            Shows-same mgr.act_sg _ _ (commit mgr.edit_sg m mgr.settings) (sgcb_reset-SameActive _)
              (after_live-Shows mgr.num_of_sg mgr.edit_sg mgr.act_sg m mgr.settings
                (ground (arith, open_)) (ground (arith, open_)) h.above h.filled h.distinct
                h.present h.shown);
      }
