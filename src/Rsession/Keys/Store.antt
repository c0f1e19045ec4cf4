-- ===== src/Rsession/Keys/Store.antt =====
-- rsession/keys.rs: what a key store holds and which key a sender uses.
use rs_iec.Common.{
  ℕ, ◌<◌, ◌≡◌, ◌≢◌, refl, sym, ap, ◌∙◌, false, ◌==◌, if◌then◌else◌, List, [], ◌∷◌, Option, none,
  some, arith, All, if_elim, ==_iff,
}
use mathlib.Core.Path.{subst}
use rs_iec.Common.Dictionary.{Eq, lookup, lookup-insert, lookup-remove}
use rs_iec.Rsession.Keys.{
  Key, Error, validate, KeyStore, same_id, add_checked, add, remove_key, contains_key, set_active,
  active, active_key, lookup_key, new,
}

abbrev pub id_key : Eq ℕ
id_key = record { beq = same_id; beq_iff = ==_iff }

-- Every key that is held is usable and is held under its own identifier.
pub IsSound : KeyStore → Type 0
IsSound s = (id : ℕ) (k : Key) → lookup_key s id ≡ some k → (k.id ≡ id) × (validate k ≡ none)

-- What a program does to a store.
pub data Change : Type 0 where
  added : Key → Change
  removed chosen : ℕ → Change

unfoldable pub change : Change → KeyStore → KeyStore
change (added k) s = (add s k).0
change (removed id) s = remove_key s id
change (chosen id) s = (set_active s id).0

unfoldable pub changes : List Change → KeyStore → KeyStore
changes [] s = s
changes (c ∷ more) s = changes more (change c s)

held : (k j : Key) → Path (Option Key) (some k) (some j) → k ≡ j
held k j p = ap (key_or k) p
  where
    key_or : Key → Option Key → Key
    key_or d none = d
    key_or d (some x) = x

checked-IsSound :
    (s : KeyStore) (k : Key) (o : Option Error)
    → validate k ≡ o
    → IsSound s
    → IsSound (add_checked s k o).0
unfolding IsSound lookup_key
checked-IsSound s k (some e) v h id j found = h id j found
checked-IsSound s k none v h id j found =
    if_elim (λ o. o ≡ some j → (j.id ≡ id) × (validate j ≡ none)) (same_id k.id id)
      (λ same p.
        subst (λ x. (x.id ≡ id) × (validate x ≡ none)) (held k j p) ((==_iff k.id id).0 same, v))
      (λ _ p. h id j p) (sym (lookup-insert id_key k.id id k s.keys) ∙ found)

nothing_held : (k : Key) → ¬ (Path (Option Key) none (some k))
nothing_held k e = cc

remove_key-IsSound : (s : KeyStore) (id : ℕ) → IsSound s → IsSound (remove_key s id)
unfolding remove_key IsSound lookup_key
remove_key-IsSound s id h j k found =
    if_elim (λ o. o ≡ some k → (k.id ≡ j) × (validate k ≡ none)) (same_id id j)
      (λ _ p. absurd (nothing_held k p)) (λ _ p. h j k p)
      (sym (lookup-remove id_key id j s.keys) ∙ found)

set_active-IsSound : (s : KeyStore) (id : ℕ) → IsSound s → IsSound (set_active s id).0
unfolding set_active IsSound lookup_key
set_active-IsSound s id h j k found =
    if_elim
      (λ (r : KeyStore × Option Error).
        lookup same_id j r.0.keys ≡ some k → (k.id ≡ j) × (validate k ≡ none))
      (contains_key (lookup same_id id s.keys)) (λ _ p. h j k p) (λ _ p. h j k p) found

change-IsSound : (c : Change) (s : KeyStore) → IsSound s → IsSound (change c s)
unfolding change add
change-IsSound (added k) s h = checked-IsSound s k (validate k) refl h
change-IsSound (removed id) s h = remove_key-IsSound s id h
change-IsSound (chosen id) s h = set_active-IsSound s id h

changes-IsSound : (cs : List Change) (s : KeyStore) → IsSound s → IsSound (changes cs s)
unfolding changes
changes-IsSound [] s h = h
changes-IsSound (c ∷ more) s h = changes-IsSound more (change c s) (change-IsSound c s h)

empty-IsSound : IsSound new
unfolding IsSound lookup_key lookup
empty-IsSound id k found = absurd (nothing_held k found)

valid-id : (k : Key) → validate k ≡ none → 0 < k.id
unfolding validate
valid-id k h = ground arith

at_id :
    (s : KeyStore) (id : ℕ) (k : Key)
    → IsSound s
    → lookup same_id id s.keys ≡ some k
    → (k.id ≡ id) × (validate k ≡ none)
unfolding IsSound lookup_key
at_id s id k h found = h id k found

-- Whatever keys were added, removed and made active, in any order, from an empty store on: the key
-- that a sender uses, if there is one, is usable, is the one that the store names as active, and its
-- identifier is not 0, the mark of an unsecured message.
pub changes-active_key :
    (cs : List Change) (k : Key)
    → active_key (changes cs new) ≡ some k
    → (validate k ≡ none) × (active (changes cs new) ≡ k.id) × (0 < k.id)
unfolding active_key active
changes-active_key cs k found =
    let s = changes cs new in
    let sound = at_id s s.active_id k (changes-IsSound cs new empty-IsSound) found in
    (
      sound.1,
      ap (λ o. if contains_key o then s.active_id else 0) found ∙ sym sound.0,
      valid-id k sound.1,
    )

-- A change of other keys than the given one.
abbrev pub Other : ℕ → Change → Type 0
Other a (added k) = k.id ≢ a
Other a (removed id) = id ≢ a
Other a (chosen id) = id ≡ a

not_same : (a b : ℕ) → a ≢ b → (a == b) ≡ false
not_same a b h = ground arith

-- The key a sender uses and its identifier.
abbrev Uses : KeyStore → ℕ → Key → Type 0
Uses s id k = (s.active_id ≡ id) × (lookup same_id id s.keys ≡ some k)

change-Uses :
    (c : Change) (s : KeyStore) (id : ℕ) (k : Key)
    → Other id c
    → Uses s id k
    → Uses (change c s) id k
unfolding change add remove_key set_active
change-Uses (added j) s id k d u = added_lem (validate j)
  where
    added_lem : (o : Option Error) → Uses (add_checked s j o).0 id k
    added_lem (some e) = u
    added_lem none = (
      u.0,
      lookup-insert id_key j.id id j s.keys
          ∙ ap (λ b. if b then some j else lookup same_id id s.keys) (not_same j.id id d)
          ∙ u.1,
    )
change-Uses (removed j) s id k d u = (
  ap (λ b. if b then 0 else s.active_id) (not_same s.active_id j (λ e. d (sym e ∙ u.0))) ∙ u.0,
  lookup-remove id_key j id s.keys
      ∙ ap (λ b. if b then none else lookup same_id id s.keys) (not_same j id d)
      ∙ u.1,
)
change-Uses (chosen j) s id k d u =
    if_elim (λ (r : KeyStore × Option Error). Uses r.0 id k)
      (contains_key (lookup same_id j s.keys)) (λ _. (d, u.1)) (λ _. u)

changes-Uses :
    (cs : List Change) (s : KeyStore) (id : ℕ) (k : Key)
    → All (Other id) cs
    → Uses s id k
    → Uses (changes cs s) id k
unfolding changes
changes-Uses [] s id k d u = u
changes-Uses (c ∷ more) s id k d u =
    changes-Uses more (change c s) id k d.1 (change-Uses c s id k d.0 u)

-- A sender goes on with its key while any other keys are added, replaced or removed, and a receiver
-- that looks the key up still finds it.
pub changes-keep :
    (cs : List Change) (s : KeyStore) (k : Key)
    → All (Other s.active_id) cs
    → active_key s ≡ some k
    → (active_key (changes cs s) ≡ some k) × (lookup_key (changes cs s) s.active_id ≡ some k)
unfolding active_key lookup_key
changes-keep cs s k d found =
    let u = changes-Uses cs s s.active_id k d (refl, found) in
    (ap (λ id. lookup same_id id (changes cs s).keys) u.0 ∙ u.1, u.1)
