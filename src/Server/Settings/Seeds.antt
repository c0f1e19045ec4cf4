-- ===== src/Server/Settings/Seeds.antt =====
-- server/settinggroup.rs: the values that the configuration records reach the groups.
use rs_iec.Common.{
  ℕ, ◌≤◌, ◌≡◌, refl, sym, ap, ◌∙◌, true, false, ◌==◌, ltb, not, ◌||◌, if◌then◌else◌, List, [], ◌∷◌,
  All, Option, none, some, length, arith, Bool-cases, inl, inr, if_elim,
}
use rs_iec.Common.Dictionary.{lookup, list_eq, list_eq_iff}
use rs_iec.Mms.Values.{Value}
use rs_iec.Server.Settings.Table.{sg, Reference, reference_eq, Model, read_attr, has}
use rs_iec.Server.Settings.{Setting, commit_one}
use rs_iec.Server.Settings.Live.{Distinct, Apart, group, commit_one_length, commit_one-group}
use rs_iec.Server.Settings.Building.{SettingGroup, seed_one, seed_all, seed_groups}

-- The setting has a value for each of the groups, and its active attribute is in the model and holds
-- that of the active group.
pub record Ready (n act : ℕ) (m : Model) (s : Setting) : Type 0 where
  pub filled : length s.groups ≡ n
  pub there : has m s.sg sg ≡ true
  pub shown : read_attr m s.sg sg ≡ some (group act s)

-- A group's recorded values are consistent with the model: those of this device's active group are the
-- values that the active attributes have.
abbrev pub Agrees : Model → List ℕ → ℕ → SettingGroup → Type 0
Agrees m domain act g =
    g.ld ≡ domain
    → g.number ≡ act
    → (r : Reference) (v : Value) → lookup reference_eq r g.values ≡ some v
    → read_attr m r sg ≡ some v

-- The active attribute is in the model and has a value.
abbrev pub HasValue : Model → Reference → Type 0
HasValue m r = (has m r sg ≡ true) × ((v : Value) × (read_attr m r sg ≡ some v))

-- No other setting has this reference.
abbrev pub ApartPaths : Reference → List (Reference × Option Reference) → Type 0
ApartPaths r = All (λ p. reference_eq r p.0 ≡ false)

abbrev pub DistinctPaths : List (Reference × Option Reference) → Type 0
DistinctPaths [] = Unit {0}
DistinctPaths (p ∷ paths) = ApartPaths p.0 paths × DistinctPaths paths

seed_one_eq : (k : ℕ) (s : Setting) (o : Option Value) → seed_one k s o ≡ commit_one k s o
seed_one_eq k s none = refl
seed_one_eq k s (some v) = refl

seed_one-Ready :
    (n act k : ℕ) (m : Model) (s : Setting) (o : Option Value)
    → 1 ≤ act
    → 1 ≤ k
    → k ≤ n
    → (k ≡ act → (v : Value) → o ≡ some v → read_attr m s.sg sg ≡ some v)
    → Ready n act m s
    → Ready n act m (seed_one k s o)
seed_one-Ready n act k m s none one lo hi agree h = h
seed_one-Ready n act k m s (some v) one lo hi agree h = record {
  filled = commit_one_length k s (some v) ∙ h.filled;
  there = h.there;
  shown = elim (Bool-cases (k == act)) [
    | inl e ↦ agree (ground (arith, e)) v refl ∙ ap some (sym (now ∙ rw e refl))
    | inr e ↦ h.shown ∙ ap some (sym (now ∙ rw e refl))
  ];
}
  where
    now : group act (commit_one k s (some v)) ≡ (if k == act then v else group act s)
    now = commit_one-group k act s (some v) lo (omega (arith, h.filled, hi)) one

seed_all-Ready :
    (n act k : ℕ) (m : Model) (values : List (Reference × Value)) (ss : List Setting)
    → 1 ≤ act
    → 1 ≤ k
    → k ≤ n
    → (k ≡ act
        → (r : Reference) (v : Value) → lookup reference_eq r values ≡ some v
        → read_attr m r sg ≡ some v)
    → All (Ready n act m) ss
    → All (Ready n act m) (seed_all k values ss)
unfolding seed_all
seed_all-Ready n act k m values [] one lo hi agree h = tt
seed_all-Ready n act k m values (s ∷ ss) one lo hi agree h = (
  seed_one-Ready n act k m s (lookup reference_eq s.sg values) one lo hi (λ e. agree e s.sg) h.0,
  seed_all-Ready n act k m values ss one lo hi agree h.1,
)

seed_one_active : (k : ℕ) (s : Setting) (o : Option Value) → (seed_one k s o).sg ≡ s.sg
seed_one_active k s none = refl
seed_one_active k s (some v) = refl

seed_all-Apart :
    (k : ℕ) (values : List (Reference × Value)) (r : Reference) (ss : List Setting)
    → Apart r ss
    → Apart r (seed_all k values ss)
unfolding seed_all
seed_all-Apart k values r [] h = tt
seed_all-Apart k values r (s ∷ ss) h = (
  ap (reference_eq r) (seed_one_active k s (lookup reference_eq s.sg values)) ∙ h.0,
  seed_all-Apart k values r ss h.1,
)

seed_all-Distinct :
    (k : ℕ) (values : List (Reference × Value)) (ss : List Setting)
    → Distinct ss
    → Distinct (seed_all k values ss)
unfolding seed_all
seed_all-Distinct k values [] h = tt
seed_all-Distinct k values (s ∷ ss) h = (
  rw (seed_one_active k s (lookup reference_eq s.sg values)) (seed_all-Apart k values s.sg ss h.0),
  seed_all-Distinct k values ss h.1,
)

pub seed_groups-Ready :
    (domain : List ℕ) (n act : ℕ) (m : Model) (gs : List SettingGroup) (ss : List Setting)
    → 1 ≤ act
    → All (Agrees m domain act) gs
    → All (Ready n act m) ss
    → All (Ready n act m) (seed_groups domain n gs ss)
unfolding seed_groups
seed_groups-Ready domain n act m [] ss one agree h = h
seed_groups-Ready domain n act m (g ∷ gs) ss one agree h =
    seed_groups-Ready domain n act m gs _ one agree.1 (
      if_elim (All (Ready n act m)) (not (list_eq g.ld domain) || (g.number == 0 || ltb n g.number))
        (λ _. h)
        (λ own.
          let same : list_eq g.ld domain ≡ true = ground (arith, own) in
          seed_all-Ready n act g.number m g.values ss one (ground (arith, own))
            (ground (arith, own)) (agree.0 ((list_eq_iff g.ld domain).0 same)) h))

pub seed_groups-Distinct :
    (domain : List ℕ) (n : ℕ) (gs : List SettingGroup) (ss : List Setting)
    → Distinct ss
    → Distinct (seed_groups domain n gs ss)
unfolding seed_groups
seed_groups-Distinct domain n [] ss h = h
seed_groups-Distinct domain n (g ∷ gs) ss h = seed_groups-Distinct domain n gs _ (
    if_elim Distinct (not (list_eq g.ld domain) || (g.number == 0 || ltb n g.number)) (λ _. h)
      (λ _. seed_all-Distinct g.number g.values ss h))
