-- ===== src/Server/Settings/Initial.antt =====
-- server/settinggroup.rs: a device's setting groups from their building on.
use rs_iec.Common.{
  ℕ, ℤ, ◌-◌, ◌≤◌, ◌≡◌, refl, sym, ap, ◌∙◌, false, ltb, leb, ◌&&◌, if◌then◌else◌, List, [], ◌∷◌,
  ◌++◌, All, All-map, Option, none, some, length-replicate, get_or, replicate, zero, suc, arith,
  if_elim,
}
use rs_iec.Common.Dictionary.{lookup}
use rs_iec.Mms.Values.{Value, empty}
use rs_iec.Server.Settings.Table.{Fc, sg, sp, act_sg, Reference, key_eq, Model, read_attr, has}
use rs_iec.Server.Settings.{Setting, uint8, set_sgcb}
use rs_iec.Server.Settings.Live.{
  IsLive, SameActive, SameActive-trans, Shows-same, Present-same, Distinct, Apart,
  set_sgcb-SameActive,
}
use rs_iec.Server.Settings.Building.{
  SettingGroup, snapshot, seed_groups, build_sgcb, declared_active, with_active, materialise,
  or_none,
}
use rs_iec.Server.Settings.Runs.{Request, run, run-IsLive}
use rs_iec.Server.Settings.Seeds.{
  Ready, Agrees, HasValue, ApartPaths, DistinctPaths, seed_groups-Ready, seed_groups-Distinct,
}

get_or-replicate : (n i : ℕ) (v : Value) → suc i ≤ n → get_or (replicate n v) i empty ≡ v
get_or-replicate zero i v h = absurd (omega (arith, h))
get_or-replicate (suc n) zero v h = refl
get_or-replicate (suc n) (suc i) v h = get_or-replicate n i v (omega (arith, h))

snapshot-Ready :
    (n act : ℕ) (m : Model) (paths : List (Reference × Option Reference))
    → 1 ≤ act
    → act ≤ n
    → All (λ p. HasValue m p.0) paths
    → All (Ready n act m) (snapshot m n paths)
unfolding snapshot
snapshot-Ready n act m [] one top h = tt
snapshot-Ready n act m ((r, e) ∷ paths) one top h =
    let (there, (v, holds)) = h.0 in
    (
      record {
        filled = length-replicate n (or_none (read_attr m r sg));
        there = there;
        shown =
            holds
            ∙ ap some (
                sym (
                  get_or-replicate n (act - 1) (or_none (read_attr m r sg))
                    (omega (arith, one, top))
                  ∙ ap or_none holds));
      },
      snapshot-Ready n act m paths one top h.1,
    )

snapshot-Apart :
    (n : ℕ) (m : Model) (r : Reference) (paths : List (Reference × Option Reference))
    → ApartPaths r paths
    → Apart r (snapshot m n paths)
unfolding snapshot
snapshot-Apart n m r [] h = tt
snapshot-Apart n m r ((r', e) ∷ paths) h = (h.0, snapshot-Apart n m r paths h.1)

snapshot-Distinct :
    (n : ℕ) (m : Model) (paths : List (Reference × Option Reference))
    → DistinctPaths paths
    → Distinct (snapshot m n paths)
unfolding snapshot
snapshot-Distinct n m [] h = tt
snapshot-Distinct n m ((r, e) ∷ paths) h =
    (snapshot-Apart n m r paths h.0, snapshot-Distinct n m paths h.1)

-- Entries under SP are found under no SG reference.
lookup_sp : (b : Model) (r : Reference) → All (λ e. e.0.1 ≡ sp) b → lookup key_eq (r, sg) b ≡ none
unfolding lookup
lookup_sp [] r h = refl
lookup_sp (((r', fc), v) ∷ b) r h =
    let other : key_eq (r', fc) (r, sg) ≡ false = rw h.0 (ground arith) in
    rw (other, lookup_sp b r h.1) refl

lookup-append_sp :
    (m b : Model) (r : Reference)
    → All (λ e. e.0.1 ≡ sp) b
    → lookup key_eq (r, sg) (m ++ b) ≡ lookup key_eq (r, sg) m
unfolding lookup
lookup-append_sp [] b r h = lookup_sp b r h
lookup-append_sp ((j, v) ∷ m) b r h =
    ap (λ o. if key_eq j (r, sg) then some v else o) (lookup-append_sp m b r h)

build_sgcb_sp : (n resv : ℕ) (now : Value) → All (λ e. e.0.1 ≡ sp) (build_sgcb n resv now)
unfolding build_sgcb
build_sgcb_sp n resv now = (
  refl,
  (
    refl,
    (
      refl,
      (refl, (refl, if_elim (All (λ e. e.0.1 ≡ sp)) (ltb 0 resv) (λ _. (refl, tt)) (λ _. tt))),
    ),
  ),
)

build_sgcb-SameActive :
    (n resv : ℕ) (now : Value) (m : Model) → SameActive m (m ++ build_sgcb n resv now)
unfolding read_attr has
build_sgcb-SameActive n resv now m =
    let same =
      λ (r : Reference). lookup-append_sp m (build_sgcb n resv now) r (build_sgcb_sp n resv now) in
    record { reads = λ r. rw (same r) refl; there = λ r. rw (same r) refl }

-- The active group that a device starts with.
abbrev pub first_active : Option ℕ → ℕ
first_active none = 1
first_active (some a) = a

with_active-IsLive :
    (o : Option ℕ) (n : ℕ) (ss : List Setting) (m m' : Model)
    → 1 ≤ first_active o
    → first_active o ≤ n
    → Distinct ss
    → SameActive m m'
    → All (Ready n (first_active o) m) ss
    → IsLive (with_active o ss n m').0 (with_active o ss n m').1
with_active-IsLive none n ss m m' lo hi d same h = record {
  above = lo;
  below = hi;
  filled = All-map _ _ ss (λ s r. r.filled) h;
  present = Present-same m m' ss same (All-map _ _ ss (λ s r. r.there) h);
  distinct = d;
  shown = Shows-same 1 m m' ss same (All-map _ _ ss (λ s r. r.shown) h);
}
with_active-IsLive (some a) n ss m m' lo hi d same h =
    let m'' = set_sgcb m' act_sg (uint8 a) in
    let all_same = SameActive-trans m m' m'' same (set_sgcb-SameActive m' act_sg (uint8 a)) in
    record {
      above = lo;
      below = hi;
      filled = All-map _ _ ss (λ s r. r.filled) h;
      present = Present-same m m'' ss all_same (All-map _ _ ss (λ s r. r.there) h);
      distinct = d;
      shown = Shows-same a m m'' ss all_same (All-map _ _ ss (λ s r. r.shown) h);
    }

active_range :
    (n : ℕ) (declared : Option ℕ)
    → 1 ≤ n
    → (1 ≤ first_active (declared_active n declared))
      × (first_active (declared_active n declared) ≤ n)
active_range n none h = (omega arith, h)
active_range n (some a) h =
    if_elim (λ o. (1 ≤ first_active o) × (first_active o ≤ n)) (leb 1 a && leb a n)
      (λ good. (ground (arith, good), ground (arith, good))) (λ _. (omega arith, h))

module _ (trunc32 trunc64 : ℕ → ℤ) (fcs : List Fc) where
  -- A device is built with at least one group from settings with different references, whose active
  -- attributes are in the model and have values, and the values that the configuration records for its
  -- first active group, which is the declared one if that is one of its groups and else 1, are those
  -- that the attributes have. Then, whatever clients write to the setting group control block and to the
  -- other attributes, in any order and with any constraints made writable, every setting's active
  -- attribute holds the value of the active group, which is one of the device's groups.
  pub run-materialise :
      (domain : List ℕ) (n resv : ℕ) (now : Value) (declared : Option ℕ)
      → (paths : List (Reference × Option Reference)) (seeds : List SettingGroup) (m : Model)
        (qs : List Request)
      → 1 ≤ n
      → DistinctPaths paths
      → All (λ p. HasValue m p.0) paths
      → All (Agrees m domain (first_active (declared_active n declared))) seeds
      → IsLive
          (run trunc32 trunc64 fcs qs
            (materialise domain n resv now declared paths seeds m).0
            (materialise domain n resv now declared paths seeds m).1).0
          (run trunc32 trunc64 fcs qs
            (materialise domain n resv now declared paths seeds m).0
            (materialise domain n resv now declared paths seeds m).1).1
  unfolding materialise
  run-materialise domain n resv now declared paths seeds m qs some_group distinct values agree =
      let active = declared_active n declared in
      let (lo, hi) = active_range n declared some_group in
      run-IsLive trunc32 trunc64 fcs qs _ _ (
        with_active-IsLive active n (seed_groups domain n seeds (snapshot m n paths)) m
          (m ++ build_sgcb n resv now) lo hi
          (seed_groups-Distinct domain n seeds _ (snapshot-Distinct n m paths distinct))
          (build_sgcb-SameActive n resv now m)
          (seed_groups-Ready domain n (first_active active) m seeds _ lo agree
            (snapshot-Ready n (first_active active) m paths lo hi values)))
