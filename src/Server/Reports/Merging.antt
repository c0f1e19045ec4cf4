-- ===== src/Server/Reports/Merging.antt =====
-- server/rcb.rs, `ReportEntry::merge`: the events of a buffer-time window in one report.
use rs_iec.Common.{
  ℕ, ◌<◌, ◌≡◌, refl, sym, ap, ◌∙◌, false, ◌==◌, ltb, ◌||◌, List, [], ◌∷◌, ◌++◌, length, zero, suc,
  arith, All, if_elim, ltb→lt, append-nil,
}
use mathlib.Core.Path.{subst}
use mathlib.Core.List.Perm
use mathlib.Core.List.{Perm, perm_middle}
use rs_iec.Server.Reports.{ReportEntry, TrgOps}
use rs_iec.Server.Reports.Entries.{
  partition_point, insert_at, contains, add_member, add_members, merge, overlaps, any_in,
}

-- Each number is below all behind it.
abbrev pub Ascending : List ℕ → Type 0
Ascending [] = Unit {0}
Ascending (x ∷ xs) = All (λ y. x < y) xs × Ascending xs

All-insert_at {ℓ κ} :
    {A : Type ℓ} (P : A → Type κ) (xs : List A) (at : ℕ) (x : A)
    → All P xs
    → P x
    → All P (insert_at xs at x)
unfolding insert_at
All-insert_at P [] at x h p = (p, tt)
All-insert_at P (y ∷ ys) zero x h p = (p, h)
All-insert_at P (y ∷ ys) (suc at) x h p = (h.0, All-insert_at P ys at x h.1 p)

above : (a b : ℕ) (xs : List ℕ) → a < b → All (λ y. b < y) xs → All (λ y. a < y) xs
above a b [] h k = tt
above a b (x ∷ xs) h k = (omega (arith, h, k.0), above a b xs h k.1)

before :
    (x : ℕ) (xs : List ℕ) (idx : ℕ) → contains (x ∷ xs) idx ≡ false → ltb x idx ≡ false → idx < x
before x xs idx n k = ground (arith, n, k)

insert_at-Ascending :
    (xs : List ℕ) (idx : ℕ)
    → Ascending xs
    → contains xs idx ≡ false
    → Ascending (insert_at xs (partition_point xs idx) idx)
unfolding insert_at partition_point
insert_at-Ascending [] idx h n = (tt, tt)
insert_at-Ascending (x ∷ xs) idx h n =
    if_elim (λ at. Ascending (insert_at (x ∷ xs) at idx)) (ltb x idx)
      (λ below. (
        All-insert_at (λ y. x < y) xs (partition_point xs idx) idx h.0 (ltb→lt x idx below),
        insert_at-Ascending xs idx h.1 (ground (arith, n)),
      ))
      (λ not_below.
        let next = before x xs idx n not_below in ((next, above idx x xs next h.0), (h.0, h.1)))

contains-insert_at :
    (xs : List ℕ) (at idx m : ℕ) → contains (insert_at xs at idx) m ≡ (idx == m || contains xs m)
unfolding insert_at
contains-insert_at [] at idx m = refl
contains-insert_at (x ∷ xs) zero idx m = refl
contains-insert_at (x ∷ xs) (suc at) idx m = ground (arith, contains-insert_at xs at idx m)

-- One row for each member, with its value and its reason.
abbrev pub rows : {V : Type 0} → List ℕ → List V → List TrgOps → List (ℕ × V × TrgOps)
rows [] vs rs = []
rows (m ∷ ms) [] rs = []
rows (m ∷ ms) (v ∷ vs) [] = []
rows (m ∷ ms) (v ∷ vs) (r ∷ rs) = (m, v, r) ∷ rows ms vs rs

length-insert_at {ℓ} :
    {A : Type ℓ} (xs : List A) (at : ℕ) (x : A) → length (insert_at xs at x) ≡ suc (length xs)
unfolding insert_at
length-insert_at [] at x = refl
length-insert_at (y ∷ ys) zero x = refl
length-insert_at (y ∷ ys) (suc at) x = ap suc (length-insert_at ys at x)

fresh_members :
    (ms members : List ℕ) → any_in ms members ≡ false → All (λ m. contains members m ≡ false) ms
fresh_members [] members h = tt
fresh_members (m ∷ ms) members h = (ground (arith, h), fresh_members ms members (ground (arith, h)))

module _ {V : Type 0} where
  -- As many values and reasons as members, and the members ascending.
  pub record IsAligned (e : ReportEntry V) : Type 0 where
    pub values : length e.values ≡ length e.members
    pub reasons : length e.reasons ≡ length e.members
    pub ascending : Ascending e.members

  rows-insert_at :
      (ms : List ℕ) (vs : List V) (rs : List TrgOps) (at m : ℕ) (v : V) (r : TrgOps)
      → length vs ≡ length ms
      → length rs ≡ length ms
      → Perm
          (rows (insert_at ms at m) (insert_at vs at v) (insert_at rs at r))
          ((m, v, r) ∷ rows ms vs rs)
  unfolding insert_at
  rows-insert_at [] [] [] at m v r h k = Perm.refl _
  rows-insert_at (x ∷ ms) (y ∷ vs) (z ∷ rs) zero m v r h k = Perm.refl _
  rows-insert_at (x ∷ ms) (y ∷ vs) (z ∷ rs) (suc at) m v r h k =
      Perm.trans
        (Perm.cons (x, y, z)
          (rows-insert_at ms vs rs at m v r (omega (arith, h)) (omega (arith, k))))
        (perm_middle ((x, y, z) ∷ []) (rows ms vs rs))
  rows-insert_at [] (y ∷ vs) rs at m v r h k = absurd (omega (arith, h))
  rows-insert_at (x ∷ ms) [] rs at m v r h k = absurd (omega (arith, h))
  rows-insert_at [] [] (z ∷ rs) at m v r h k = absurd (omega (arith, k))
  rows-insert_at (x ∷ ms) (y ∷ vs) [] at m v r h k = absurd (omega (arith, k))

  abbrev pub rows_of : ReportEntry V → List (ℕ × V × TrgOps)
  rows_of e = rows e.members e.values e.reasons

  add_member-IsAligned :
      (e : ReportEntry V) (m : ℕ) (v : V) (r : TrgOps)
      → IsAligned e
      → contains e.members m ≡ false
      → IsAligned (add_member e m v r)
  unfolding add_member
  add_member-IsAligned e m v r h n =
      let at = partition_point e.members m in
      record {
        values =
            omega
              (arith, length-insert_at e.values at v, length-insert_at e.members at m, h.values);
        reasons =
            omega
              (arith, length-insert_at e.reasons at r, length-insert_at e.members at m, h.reasons);
        ascending = insert_at-Ascending e.members m h.ascending n;
      }

  -- None of the members is in the entry.
  abbrev Fresh : List ℕ → ReportEntry V → Type 0
  Fresh ms e = All (λ m. contains e.members m ≡ false) ms

  Fresh-add_member :
      (ms : List ℕ) (e : ReportEntry V) (m : ℕ) (v : V) (r : TrgOps)
      → All (λ y. m < y) ms
      → Fresh ms e
      → Fresh ms (add_member e m v r)
  unfolding add_member
  Fresh-add_member [] e m v r h f = tt
  Fresh-add_member (y ∷ ms) e m v r h f = (
    contains-insert_at e.members (partition_point e.members m) m y ∙ ground (arith, h.0, f.0),
    Fresh-add_member ms e m v r h.1 f.1,
  )

  unchanged : (e : ReportEntry V) → Perm (rows_of e) (rows_of e ++ [])
  unchanged e =
      subst (λ l. Perm (rows_of e) l) (sym (append-nil (rows_of e))) (Perm.refl (rows_of e))

  rows-add_member :
      (e : ReportEntry V) (m : ℕ) (v : V) (r : TrgOps)
      → IsAligned e
      → Perm (rows_of (add_member e m v r)) ((m, v, r) ∷ rows_of e)
  unfolding add_member
  rows-add_member e m v r h =
      rows-insert_at e.members e.values e.reasons (partition_point e.members m) m v r h.values
        h.reasons

  add_members-IsAligned :
      (ms : List ℕ) (vs : List V) (rs : List TrgOps) (e : ReportEntry V)
      → IsAligned e
      → Ascending ms
      → Fresh ms e
      → IsAligned (add_members e ms vs rs)
        × Perm (rows_of (add_members e ms vs rs)) (rows_of e ++ rows ms vs rs)
  unfolding add_members
  add_members-IsAligned [] vs rs e h a f = (h, unchanged e)
  add_members-IsAligned (m ∷ ms) [] rs e h a f = (h, unchanged e)
  add_members-IsAligned (m ∷ ms) (v ∷ vs) [] e h a f = (h, unchanged e)
  add_members-IsAligned (m ∷ ms) (v ∷ vs) (r ∷ rs) e h a f =
      let one = add_member-IsAligned e m v r h f.0 in
      let rest =
        add_members-IsAligned ms vs rs (add_member e m v r) one a.1
          (Fresh-add_member ms e m v r a.0 f.1) in
      (
        rest.0,
        Perm.trans rest.1 (
            Perm.trans (Perm.append_right (rows ms vs rs) (rows-add_member e m v r h))
              (Perm.symm (perm_middle (rows_of e) (rows ms vs rs)))),
      )

  -- An event joins an open window whose report has none of its members, each entry with its members
  -- ascending and the window's with as many values and reasons as members. The report then has its
  -- members ascending, still with as many values and reasons, and each member of either keeps its own
  -- value and reason: the rows are those of both, in another order.
  pub merge-IsAligned :
      (e other : ReportEntry V)
      → IsAligned e
      → Ascending other.members
      → overlaps e other ≡ false
      → IsAligned (merge e other) × Perm (rows_of (merge e other)) (rows_of e ++ rows_of other)
  unfolding merge overlaps
  merge-IsAligned e other h a n =
      add_members-IsAligned other.members other.values other.reasons e h a
        (fresh_members other.members e.members n)
