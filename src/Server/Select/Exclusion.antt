-- ===== src/Server/Select/Exclusion.antt =====
-- Select-before-operate excludes: while a reservation is live, no other connection gets the object.
use rs_iec.Common.{
  ℕ, ◌+◌, ◌<◌, ◌≡◌, ◌≢◌, refl, ◌==◌, if◌then◌else◌, true, false, List, [], ◌∷◌, Option, none, some,
  arith, All, Bool-cases, inl, inr, ◌∙◌, ap,
}
use rs_iec.Common.Dictionary.{lookup, list_eq, text_key, lookup-insert}
use rs_iec.Server.Select.{
  Selections, Selection, Reference, none_given, object_not_selected, inconsistent_parameters,
  reserve, check_operate, operate_cause, AddCause,
}

-- One call of `reserve`.
pub record Request : Type 0 where
  pub reference : Reference
  pub conn : ℕ
  pub ctl_num : Option ℕ
  pub timeout : ℕ
  pub now : ℕ

-- The table after a series of calls.
unfoldable pub after : Selections → List Request → Selections
after active [] = active
after active (r ∷ rs) = after (reserve active r.reference r.conn r.ctl_num r.timeout r.now).0 rs

reserve_refused :
    (active : Selections) (sel : Selection) (r : Request)
    → lookup list_eq r.reference active ≡ some sel
    → sel.conn ≢ r.conn
    → r.now < sel.expiry
    → reserve active r.reference r.conn r.ctl_num r.timeout r.now ≡ (active, false)
unfolding reserve
reserve_refused active sel r e d h = rw e (ground arith)

reserve_other :
    (active : Selections) (reference : Reference) (r : Request)
    → list_eq r.reference reference ≡ false
    → lookup list_eq reference (reserve active r.reference r.conn r.ctl_num r.timeout r.now).0
      ≡ lookup list_eq reference active
unfolding reserve
reserve_other active reference r d = ground (
  arith,
  lookup-insert text_key r.reference reference
      (record { conn = r.conn; expiry = r.now + r.timeout; ctl_num = r.ctl_num }) active,
)

-- A request of another connection, made while the reservation is live.
abbrev pub Rival : Selection → Request → Type 0
Rival sel r = (sel.conn ≢ r.conn) × (r.now < sel.expiry)

reserve-Rival :
    (active : Selections) (reference : Reference) (sel : Selection) (r : Request)
    → lookup list_eq reference active ≡ some sel
    → Rival sel r
    → lookup list_eq reference (reserve active r.reference r.conn r.ctl_num r.timeout r.now).0
      ≡ some sel
reserve-Rival active reference sel r e h = elim (Bool-cases (list_eq r.reference reference)) [
  | inr other ↦ reserve_other active reference r other ∙ e
  | inl same ↦
      let ref : r.reference ≡ reference = (text_key.beq_iff r.reference reference).0 same in
      ap (λ p. lookup list_eq reference p.0) (reserve_refused active sel r (rw ref e) h.0 h.1) ∙ e
]

after_rivals :
    (rs : List Request) (active : Selections) (reference : Reference) (sel : Selection)
    → lookup list_eq reference active ≡ some sel
    → All (Rival sel) rs
    → lookup list_eq reference (after active rs) ≡ some sel
unfolding after
after_rivals [] active reference sel e h = e
after_rivals (r ∷ rs) active reference sel e h =
    after_rivals rs _ reference sel (reserve-Rival active reference sel r e h.0) h.1

reserve-success :
    (active active' : Selections) (reference : Reference) (conn : ℕ) (ctl_num : Option ℕ)
    → (timeout now : ℕ) → reserve active reference conn ctl_num timeout now ≡ (active', true)
    → lookup list_eq reference active'
      ≡ some (record { conn = conn; expiry = now + timeout; ctl_num = ctl_num })
unfolding reserve
reserve-success active active' reference conn ctl_num timeout now h =
    let sel : Selection = record { conn = conn; expiry = now + timeout; ctl_num = ctl_num } in
    ground (
      arith,
      lookup-insert text_key reference reference sel active,
      (text_key.beq_iff reference reference).1 refl,
    )

-- What the holder of a reservation is to be answered: its operate has to repeat the control number of
-- the select, if that had one.
abbrev pub holders_answer : Option ℕ → ℕ → AddCause
holders_answer none n = none_given
holders_answer (some k) n = if k == n then none_given else inconsistent_parameters

-- Once a connection has reserved an object, with a control number or without, then until the
-- reservation expires, and whatever other connections try to reserve meanwhile, the operate of any
-- other connection is refused as not selected, whatever control number it carries; the holder's
-- operate passes if the select had no control number or the same one, and is refused as inconsistent
-- if the select had another.
pub exclusion :
    (active active' : Selections) (reference : Reference) (conn other timeout start now : ℕ)
    → (selected : Option ℕ) (rs : List Request) (m n : ℕ)
    → reserve active reference conn selected timeout start ≡ (active', true)
    → All (Rival (record { conn = conn; expiry = start + timeout; ctl_num = selected })) rs
    → conn ≢ other
    → now < start + timeout
    → (check_operate (after active' rs) reference other m now ≡ object_not_selected)
      × (check_operate (after active' rs) reference conn n now ≡ holders_answer selected n)
unfolding check_operate
exclusion active active' reference conn other timeout start now selected rs m n h rivals d live =
    let held =
      after_rivals rs active' reference _
        (reserve-success active active' reference conn selected timeout start h) rivals in
    (rw held (ground arith), rw held (answer selected))
  where
    answer :
        (o : Option ℕ)
        → operate_cause
            (some (record { conn = conn; expiry = start + timeout; ctl_num = o }))
            conn
            n
            now
          ≡ holders_answer o n
    answer none = ground (arith, live)
    answer (some k) = ground (arith, live)
