-- ===== src/Rsession/Streams/Table.antt =====
-- rsession/session.rs: what a look-up finds after streams are dropped.
use rs_iec.Common.{
  ◌≡◌, refl, sym, ap, ◌∙◌, Bool, true, false, not, if◌then◌else◌, List, [], ◌∷◌, Option, none, some,
  arith, if_elim, Bool-cases, ◌⊎◌, inl, inr,
}
use rs_iec.Rsession.Replay.{ReplayWindow}
use rs_iec.Rsession.Streams.{StreamKey, Stream, same_key, find, keep, store}

-- A key stands in the table once at most.
unfoldable pub Single : StreamKey → List Stream → Type 0
Single k [] = Unit
Single k (s ∷ m) = (same_key s.key k ≡ true → find m k ≡ none) × Single k m

find-hit :
    (s : Stream) (m : List Stream) (k : StreamKey)
    → same_key s.key k ≡ true
    → find (s ∷ m) k ≡ some s.window
unfolding find
find-hit s m k h = ap (λ b. if b then some s.window else find m k) h

find-miss :
    (s : Stream) (m : List Stream) (k : StreamKey)
    → same_key s.key k ≡ false
    → find (s ∷ m) k ≡ find m k
unfolding find
find-miss s m k h = ap (λ b. if b then some s.window else find m k) h

keep-pass :
    (p : Stream → Bool) (s : Stream) (m : List Stream) → p s ≡ true → keep p (s ∷ m) ≡ s ∷ keep p m
unfolding keep
keep-pass p s m h = ap (λ b. if b then s ∷ keep p m else keep p m) h

keep-drop :
    (p : Stream → Bool) (s : Stream) (m : List Stream) → p s ≡ false → keep p (s ∷ m) ≡ keep p m
unfolding keep
keep-drop p s m h = ap (λ b. if b then s ∷ keep p m else keep p m) h

found_absent : (w : ReplayWindow) (o : Option ReplayWindow) → o ≡ some w → o ≡ none → ⊥
found_absent w o h k = cc

pub absent-keep :
    (p : Stream → Bool) (m : List Stream) (k : StreamKey)
    → find m k ≡ none
    → find (keep p m) k ≡ none
unfolding keep
absent-keep p [] k h = h
absent-keep p (s ∷ m) k h = elim (Bool-cases (same_key s.key k)) [
  | inl hit ↦ absurd (found_absent s.window (find (s ∷ m) k) (find-hit s m k hit) h)
  | inr miss ↦
      let rest = absent-keep p m k (sym (find-miss s m k miss) ∙ h) in
      if_elim (λ l. find l k ≡ none) (p s) (λ _. find-miss s (keep p m) k miss ∙ rest) (λ _. rest)
]

pub keep-Single :
    (p : Stream → Bool) (m : List Stream) (k : StreamKey) → Single k m → Single k (keep p m)
unfolding keep Single
keep-Single p [] k h = h
keep-Single p (s ∷ m) k h =
    if_elim (Single k) (p s) (λ _. (λ hit. absent-keep p m k (h.0 hit), keep-Single p m k h.1))
      (λ _. keep-Single p m k h.1)

-- A stream of this key that the test does not let pass, and that is not found any more.
pub record Dropped (p : Stream → Bool) (m : List Stream) (k : StreamKey) : Type 0 where
  pub stream : Stream
  pub found : find m k ≡ some stream.window
  pub same : same_key stream.key k ≡ true
  pub refused : p stream ≡ false
  pub gone : find (keep p m) k ≡ none

pub find-keep :
    (p : Stream → Bool) (m : List Stream) (k : StreamKey)
    → Single k m
    → (find (keep p m) k ≡ find m k) ⊎ Dropped p m k
unfolding Single keep
find-keep p [] k h = inl refl
find-keep p (s ∷ m) k h = elim (Bool-cases (p s)) [
  | inl pass ↦ elim (Bool-cases (same_key s.key k)) [
    | inl hit ↦ inl (find-kept pass ∙ find-hit s (keep p m) k hit ∙ sym (find-hit s m k hit))
    | inr miss ↦ later (find-kept pass ∙ find-miss s (keep p m) k miss) miss (find-keep p m k h.1)
  ]
  | inr refused ↦ elim (Bool-cases (same_key s.key k)) [
    | inl hit ↦ inr (record {
      stream = s;
      found = find-hit s m k hit;
      same = hit;
      refused = refused;
      gone = find-dropped refused ∙ absent-keep p m k (h.0 hit);
    })
    | inr miss ↦ later (find-dropped refused) miss (find-keep p m k h.1)
  ]
]
  where
    find-kept : p s ≡ true → find (keep p (s ∷ m)) k ≡ find (s ∷ keep p m) k
    find-kept pass = ap (λ l. find l k) (keep-pass p s m pass)

    find-dropped : p s ≡ false → find (keep p (s ∷ m)) k ≡ find (keep p m) k
    find-dropped refused = ap (λ l. find l k) (keep-drop p s m refused)

    later :
        find (keep p (s ∷ m)) k ≡ find (keep p m) k
        → same_key s.key k ≡ false
        → (find (keep p m) k ≡ find m k) ⊎ Dropped p m k
        → (find (keep p (s ∷ m)) k ≡ find (s ∷ m) k) ⊎ Dropped p (s ∷ m) k
    later head miss rest = elim rest [
      | inl e ↦ inl (head ∙ e ∙ sym (find-miss s m k miss))
      | inr d ↦ inr (record {
        stream = d.stream;
        found = find-miss s m k miss ∙ d.found;
        same = d.same;
        refused = d.refused;
        gone = head ∙ d.gone;
      })
    ]

match_both : (a b c : StreamKey) → same_key b c ≡ true → same_key a b ≡ same_key a c
match_both a b c h = ground (arith, h)

pub find-same_key : (m : List Stream) (k j : StreamKey) → same_key k j ≡ true → find m k ≡ find m j
unfolding find
find-same_key [] k j same = refl
find-same_key (s ∷ m) k j same =
    ap (λ b. if b then some s.window else find m k) (match_both s.key k j same)
    ∙ ap (λ o. if same_key s.key j then some s.window else o) (find-same_key m k j same)

pub find-store_same :
    (m : List Stream) (k j : StreamKey) (w : ReplayWindow)
    → same_key k j ≡ true
    → find (store m k w) j ≡ some w
find-store_same m k j w same = find-hit (record { key = k; window = w }) _ j same

different :
    (a b c : StreamKey) → same_key a c ≡ true → same_key b c ≡ false → not (same_key a b) ≡ true
different a b c h k = ground arith

pub find-store_other :
    (m : List Stream) (k j : StreamKey) (w : ReplayWindow)
    → Single j m
    → same_key k j ≡ false
    → find (store m k w) j ≡ find m j
find-store_other m k j w h other =
    let others = λ (s : Stream). not (same_key s.key k) in
    find-miss (record { key = k; window = w }) (keep others m) j other
    ∙ elim (find-keep others m j h) [
      | inl e ↦ e
      | inr d ↦
          absurd (true_false (others d.stream) (different d.stream.key k j d.same other) d.refused)
    ]
  where
    true_false : (b : Bool) → b ≡ true → b ≡ false → ⊥
    true_false b h k = cc

other_key : (a b c : StreamKey) → same_key b c ≡ true → same_key a b ≡ false → same_key a c ≡ false
other_key a b c h k = ground arith

none_left :
    (m : List Stream) (k j : StreamKey)
    → same_key k j ≡ true
    → find (keep (λ s. not (same_key s.key k)) m) j ≡ none
unfolding find keep
none_left [] k j same = refl
none_left (s ∷ m) k j same = elim (Bool-cases (same_key s.key k)) [
  | inl hit ↦ ap (λ l. find l j) (keep-drop others s m (ap not hit)) ∙ none_left m k j same
  | inr miss ↦
      ap (λ l. find l j) (keep-pass others s m (ap not miss))
      ∙ find-miss s (keep others m) j (other_key s.key k j same miss)
      ∙ none_left m k j same
]
  where
    others : Stream → Bool
    others t = not (same_key t.key k)

pub store-Single :
    (m : List Stream) (k j : StreamKey) (w : ReplayWindow) → Single j m → Single j (store m k w)
unfolding Single
store-Single m k j w h = (none_left m k j, keep-Single (λ s. not (same_key s.key k)) m j h)
