-- ===== src/Server/Settings/Live.antt =====
-- server/settinggroup.rs: the active view of every setting is the value of the active group.
use rs_iec.Common.{
  ℕ, ◌-◌, ◌≤◌, ◌≡◌, refl, ap, ◌∙◌, true, false, ◌==◌, if◌then◌else◌, List, [], ◌∷◌, All, All-map,
  get_or, length, length-set, get_or-set, arith, Option,
}
use rs_iec.Mms.Values.{Value, empty}
use rs_iec.Server.Settings.Table.{
  Fc, fc_eq, sg, se, sp, SgcbAttr, Reference, sgcb, reference_eq, reference_eq_iff, Model,
  read_attr, write_attr, has, read_attr-write_attr, has-write_attr,
}
use rs_iec.Server.Settings.{
  Setting, Manager, show_active, show_one, show_edit, edited, commit_one, commit, set_sgcb,
}

-- No other setting has this active attribute.
abbrev pub Apart : Reference → List Setting → Type 0
Apart r = All (λ s. reference_eq r s.sg ≡ false)

abbrev pub Distinct : List Setting → Type 0
Distinct [] = Unit {0}
Distinct (s ∷ ss) = Apart s.sg ss × Distinct ss

abbrev pub group : ℕ → Setting → Value
group g s = get_or s.groups (g - 1) empty

-- The active view of each setting shows this group.
abbrev pub Shows : ℕ → Model → List Setting → Type 0
Shows g m = All (λ s. read_attr m s.sg sg ≡ Option.some (group g s))

abbrev pub Present : Model → List Setting → Type 0
Present m = All (λ s. has m s.sg sg ≡ true)

abbrev pub Filled : ℕ → List Setting → Type 0
Filled n = All (λ s. length s.groups ≡ n)

-- The active group is one of the device's, each setting has a value for each group, the settings'
-- active attributes are in the model, no two of them the same, and they show the active group.
pub record IsLive (mgr : Manager) (m : Model) : Type 0 where
  pub above : 1 ≤ mgr.act_sg
  pub below : mgr.act_sg ≤ mgr.num_of_sg
  pub filled : Filled mgr.num_of_sg mgr.settings
  pub present : Present m mgr.settings
  pub distinct : Distinct mgr.settings
  pub shown : Shows mgr.act_sg m mgr.settings

-- The active attributes are the same in both models.
pub record SameActive (m m' : Model) : Type 0 where
  pub reads : (r : Reference) → read_attr m' r sg ≡ read_attr m r sg
  pub there : (r : Reference) → has m' r sg ≡ has m r sg

pub SameActive-trans : (a b c : Model) → SameActive a b → SameActive b c → SameActive a c
SameActive-trans a b c h k = record {
  reads = λ r. k.reads r ∙ h.reads r;
  there = λ r. k.there r ∙ h.there r;
}

-- A write under another constraint.
pub write-SameActive :
    (m : Model) (r : Reference) (fc : Fc) (v : Value)
    → fc_eq fc sg ≡ false
    → SameActive m (write_attr m r fc v)
write-SameActive m r fc v h = record {
  reads = λ r'. read_attr-write_attr m r r' fc sg v ∙ ground (arith, h);
  there = λ r'. has-write_attr m r r' fc sg v;
}

show_one-SameActive : (o : Option Reference) (v : Value) (m : Model) → SameActive m (show_one o v m)
show_one-SameActive Option.none v m = record { reads = λ r. refl; there = λ r. refl }
show_one-SameActive (Option.some r) v m = write-SameActive m r se v refl

pub show_edit-SameActive : (g : ℕ) (ss : List Setting) (m : Model) → SameActive m (show_edit g ss m)
unfolding show_edit
show_edit-SameActive g [] m = record { reads = λ r. refl; there = λ r. refl }
show_edit-SameActive g (s ∷ ss) m =
    SameActive-trans m _ _ (show_one-SameActive s.se (group g s) m) (show_edit-SameActive g ss _)

pub set_sgcb-SameActive : (m : Model) (a : SgcbAttr) (v : Value) → SameActive m (set_sgcb m a v)
set_sgcb-SameActive m a v = write-SameActive m (sgcb a) sp v refl

pub Shows-same :
    (g : ℕ) (m m' : Model) (ss : List Setting) → SameActive m m' → Shows g m ss → Shows g m' ss
Shows-same g m m' ss h k = All-map _ _ ss (λ s e. h.reads s.sg ∙ e) k

pub Present-same :
    (m m' : Model) (ss : List Setting) → SameActive m m' → Present m ss → Present m' ss
Present-same m m' ss h k = All-map _ _ ss (λ s e. h.there s.sg ∙ e) k

-- The writes of the active attributes leave which attributes there are.
pub write-Present :
    (m : Model) (r : Reference) (fc : Fc) (v : Value) (ss : List Setting)
    → Present m ss
    → Present (write_attr m r fc v) ss
write-Present m r fc v ss h = All-map _ _ ss (λ s e. has-write_attr m r s.sg fc sg v ∙ e) h

-- A write to one active attribute, read back, and read at another.
pub write_self :
    (m : Model) (r : Reference) (v : Value)
    → has m r sg ≡ true
    → read_attr (write_attr m r sg v) r sg ≡ Option.some v
write_self m r v h =
    read_attr-write_attr m r r sg sg v ∙ ground (arith, h, (reference_eq_iff r r).1 refl)

pub write_other :
    (m : Model) (r r' : Reference) (v : Value)
    → reference_eq r r' ≡ false
    → read_attr (write_attr m r sg v) r' sg ≡ read_attr m r' sg
write_other m r r' v h = read_attr-write_attr m r r' sg sg v ∙ ground (arith, h)

pub Shows-write :
    (g : ℕ) (m : Model) (r : Reference) (v : Value) (ss : List Setting)
    → Apart r ss
    → Shows g m ss
    → Shows g (write_attr m r sg v) ss
Shows-write g m r v [] a h = tt
Shows-write g m r v (s ∷ ss) a h =
    (write_other m r s.sg v a.0 ∙ h.0, Shows-write g m r v ss a.1 h.1)

pub flip : (x y : Reference) → reference_eq y x ≡ false → reference_eq x y ≡ false
flip x y h = ground (arith, h, reference_eq_iff x y, reference_eq_iff y x)

-- Showing a group leaves the other active attributes.
show_active-Apart :
    (g : ℕ) (ss : List Setting) (m : Model) (r : Reference)
    → Apart r ss
    → read_attr (show_active g ss m) r sg ≡ read_attr m r sg
unfolding show_active
show_active-Apart g [] m r a = refl
show_active-Apart g (s ∷ ss) m r a =
    show_active-Apart g ss (write_attr m s.sg sg (group g s)) r a.1
    ∙ write_other m s.sg r (group g s) (flip s.sg r a.0)

pub show_active-Present :
    (g : ℕ) (ss : List Setting) (m : Model) (all : List Setting)
    → Present m all
    → Present (show_active g ss m) all
unfolding show_active
show_active-Present g [] m all h = h
show_active-Present g (s ∷ ss) m all h =
    show_active-Present g ss _ all (write-Present m s.sg sg (group g s) all h)

pub show_active-Shows :
    (g : ℕ) (ss : List Setting) (m : Model)
    → Distinct ss
    → Present m ss
    → Shows g (show_active g ss m) ss
unfolding show_active
show_active-Shows g [] m d h = tt
show_active-Shows g (s ∷ ss) m d h = (
  show_active-Apart g ss (write_attr m s.sg sg (group g s)) s.sg d.0
      ∙ write_self m s.sg (group g s) h.0,
  show_active-Shows g ss (write_attr m s.sg sg (group g s)) d.1
      (write-Present m s.sg sg (group g s) ss h.1),
)

-- What holds of each setting by its active attribute or its number of values holds after a commit.
pub commit-All :
    (P Q : Setting → Type 0) (edit : ℕ) (m : Model) (ss : List Setting)
    → ((s : Setting) → P s → Q (commit_one edit s (edited m s.se)))
    → All P ss
    → All Q (commit edit m ss)
unfolding commit
commit-All P Q edit m [] f h = tt
commit-All P Q edit m (s ∷ ss) f h = (f s h.0, commit-All P Q edit m ss f h.1)

pub commit_one_active :
    (edit : ℕ) (s : Setting) (o : Option Value) → (commit_one edit s o).sg ≡ s.sg
commit_one_active edit s Option.none = refl
commit_one_active edit s (Option.some v) = refl

pub commit_one_length :
    (edit : ℕ) (s : Setting) (o : Option Value)
    → length (commit_one edit s o).groups ≡ length s.groups
commit_one_length edit s Option.none = refl
commit_one_length edit s (Option.some v) = length-set s.groups (edit - 1) v

pub commit-Distinct :
    (edit : ℕ) (m : Model) (ss : List Setting) → Distinct ss → Distinct (commit edit m ss)
unfolding commit
commit-Distinct edit m [] d = tt
commit-Distinct edit m (s ∷ ss) d = (
  commit-All _ _ edit m ss
      (λ t e.
        ap (λ r. reference_eq r (commit_one edit t (edited m t.se)).sg)
          (commit_one_active edit s (edited m s.se))
        ∙ ap (reference_eq s.sg) (commit_one_active edit t (edited m t.se))
        ∙ e)
      d.0,
  commit-Distinct edit m ss d.1,
)

-- The value of a group after a commit.
pub commit_one-group :
    (edit g : ℕ) (s : Setting) (o : Option Value)
    → 1 ≤ edit
    → edit ≤ length s.groups
    → 1 ≤ g
    → group g (commit_one edit s o)
      ≡ (if edit == g then elim o [ Option.none ↦ group g s | Option.some v ↦ v ] else group g s)
commit_one-group edit g s Option.none h k l = ground arith
commit_one-group edit g s (Option.some v) h k l =
    get_or-set s.groups (edit - 1) (g - 1) v empty (omega arith) ∙ ground (arith, h, l)
