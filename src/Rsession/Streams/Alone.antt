-- ===== src/Rsession/Streams/Alone.antt =====
-- rsession/session.rs: the streams of a session do not disturb each other.
use rs_iec.Common.{
  ℕ, ◌≤◌, ◌≡◌, refl, sym, ap, ◌∙◌, Bool, true, false, leb, not, ◌&&◌, if◌then◌else◌, List, [], ◌∷◌,
  Option, none, some, length, arith, if_elim, ◌⊎◌, inl, inr, Bool-cases,
}
use mathlib.Core.Path.{subst}
use rs_iec.Rsession.Replay.{ReplayWindow, empty, accept, expired}
use rs_iec.Rsession.Replay.Window.{if_true, if_false}
use rs_iec.Rsession.Streams.{
  StreamKey, Stream, same_key, find, or_default, in_use, purge, contains, max_streams, room, store,
  fresh,
}
use rs_iec.Rsession.Streams.Table.{
  Single, keep-Single, absent-keep, find-keep, find-same_key, find-store_same, find-store_other,
  store-Single,
}

-- A call of `fresh`.
pub record Arrival : Type 0 where
  pub key : StreamKey
  pub number : ℕ
  pub now : ℕ

-- The answers of a session to the calls for one stream.
unfoldable pub answers : StreamKey → ℕ → Option ℕ → List Stream → List Arrival → List Bool
answers k size reset m [] = []
answers k size reset m (a ∷ more) =
    let r = fresh m a.key a.number a.now size reset in
    let rest = answers k size reset r.0 more in if same_key a.key k then r.1 ∷ rest else rest

-- Those of one window that sees the calls for this stream only.
unfoldable pub answers_alone : StreamKey → ℕ → Option ℕ → ReplayWindow → List Arrival → List Bool
answers_alone k size reset w [] = []
answers_alone k size reset w (a ∷ more) =
    let r = accept w a.number a.now size reset in
    let served = answers_alone k size reset r.0 more in
    let passed = answers_alone k size reset w more in
    if same_key a.key k then r.1 ∷ served else passed

-- The clock does not run back.
unfoldable pub InOrder : ℕ → List Arrival → Type 0
InOrder t [] = Unit
InOrder t (a ∷ more) = (t ≤ a.now) × InOrder a.now more

-- A window that takes any number from this instant on.
Lapsed : ℕ → Option ℕ → ReplayWindow → Type 0
Lapsed t reset w = (now : ℕ) → t ≤ now → expired w.last reset now ≡ true

-- What the table holds for a stream answers as the window does from this instant on.
Alike : ℕ → Option ℕ → Option ReplayWindow → ReplayWindow → Type 0
Alike t reset o w = (or_default o ≡ w) ⊎ ((o ≡ none) × Lapsed t reset w)

accept-expired :
    (w : ReplayWindow) (n now size : ℕ) (reset : Option ℕ)
    → expired w.last reset now ≡ true
    → accept empty n now size reset ≡ accept w n now size reset
unfolding accept
accept-expired w n now size reset h = sym (if_true _ _ (expired w.last reset now) h)

accept-Alike :
    (t : ℕ) (o : Option ReplayWindow) (w : ReplayWindow) (n now size : ℕ) (reset : Option ℕ)
    → t ≤ now
    → Alike t reset o w
    → accept (or_default o) n now size reset ≡ accept w n now size reset
unfolding Alike Lapsed
accept-Alike t o w n now size reset h (inl e) = ap (λ v. accept v n now size reset) e
accept-Alike t o w n now size reset h (inr (gone, old)) =
    ap (λ v. accept (or_default v) n now size reset) gone
    ∙ accept-expired w n now size reset (old now h)

later-Alike :
    (t now : ℕ) (o : Option ReplayWindow) (w : ReplayWindow) (reset : Option ℕ)
    → t ≤ now
    → Alike t reset o w
    → Alike now reset o w
unfolding Alike Lapsed
later-Alike t now o w reset h (inl e) = inl e
later-Alike t now o w reset h (inr (gone, old)) =
    inr (gone, λ later le. old later (omega (arith, h, le)))

unused-Lapsed :
    (last : Option ℕ) (reset now later : ℕ)
    → in_use last reset now ≡ false
    → now ≤ later
    → expired last (some reset) later ≡ true
unused-Lapsed none reset now later h le = refl
unused-Lapsed (some last) reset now later h le = ground (arith, h, le)

-- A purge drops a window only if it has lapsed.
purge-Alike :
    (m : List Stream) (k : StreamKey) (w : ReplayWindow) (now : ℕ) (reset : Option ℕ)
    → Single k m
    → Alike now reset (find m k) w
    → Alike now reset (find (purge reset now m) k) w
unfolding Alike Lapsed
purge-Alike m k w now none h a = a
purge-Alike m k w now (some limit) h (inr (gone, old)) =
    inr (absent-keep (λ s. in_use s.window.last limit now) m k gone, old)
purge-Alike m k w now (some limit) h (inl e) =
    elim (find-keep (λ s. in_use s.window.last limit now) m k h) [
      | inl same ↦ inl (ap or_default same ∙ e)
      | inr d ↦
          let held : d.stream.window ≡ w = ap or_default (sym d.found) ∙ e in
          inr (
            d.gone,
            λ later le.
                ap (λ v. expired v.last (some limit) later) (sym held)
                ∙ unused-Lapsed d.stream.window.last limit now later d.refused le,
          )
    ]

purge-Single :
    (m : List Stream) (k : StreamKey) (now : ℕ) (reset : Option ℕ)
    → Single k m
    → Single k (purge reset now m)
purge-Single m k now none h = h
purge-Single m k now (some limit) h = keep-Single (λ s. in_use s.window.last limit now) m k h

-- What is kept of one stream as calls come in.
record Serves (t : ℕ) (reset : Option ℕ) (k : StreamKey) (m : List Stream) (w : ReplayWindow)
    : Type 0 where
  single : Single k m
  alike : Alike t reset (find m k) w

room-Serves :
    (t now : ℕ) (reset : Option ℕ) (k j : StreamKey) (m : List Stream) (w : ReplayWindow)
    → t ≤ now
    → Serves t reset k m w
    → Serves now reset k (room m j now reset) w
room-Serves t now reset k j m w le h =
    let a = later-Alike t now (find m k) w reset le h.alike in
    if_elim (λ l. Serves now reset k l w) (not (contains (find m j)) && leb max_streams (length m))
      (λ _. record {
        single = purge-Single m k now reset h.single;
        alike = purge-Alike m k w now reset h.single a;
      })
      (λ _. record { single = h.single; alike = a })

store-Serves_same :
    (now : ℕ) (reset : Option ℕ) (k j : StreamKey) (m : List Stream) (w v : ReplayWindow)
    → same_key j k ≡ true
    → Single k m
    → v ≡ w
    → Serves now reset k (store m j v) w
unfolding Alike
store-Serves_same now reset k j m w v same h e = record {
  single = store-Single m j k v h;
  alike = inl (ap or_default (find-store_same m j k v same) ∙ e);
}

store-Serves_other :
    (now : ℕ) (reset : Option ℕ) (k j : StreamKey) (m : List Stream) (w v : ReplayWindow)
    → same_key j k ≡ false
    → Serves now reset k m w
    → Serves now reset k (store m j v) w
store-Serves_other now reset k j m w v other h = record {
  single = store-Single m j k v h.single;
  alike = subst (λ o. Alike now reset o w) (sym (find-store_other m j k v h.single other)) h.alike;
}

alone_from :
    (calls : List Arrival) (t : ℕ) (m : List Stream) (w : ReplayWindow) (k : StreamKey) (size : ℕ)
    (reset : Option ℕ)
    → Serves t reset k m w
    → InOrder t calls
    → answers k size reset m calls ≡ answers_alone k size reset w calls
unfolding answers answers_alone fresh InOrder
alone_from [] t m w k size reset h o = refl
alone_from (a ∷ more) t m w k size reset h o = elim (Bool-cases (same_key a.key k)) [
  | inl hit ↦
      let took : taken ≡ alone =
        ap (λ v. accept (or_default v) a.number a.now size reset) (find-same_key table a.key k hit)
        ∙ accept-Alike a.now (find table k) w a.number a.now size reset (omega arith) ready.alike in
      let kept =
        store-Serves_same a.now reset k a.key table alone.0 taken.0 hit ready.single
          (ap (λ (r : ReplayWindow × Bool). r.0) took) in
      if_true _ _ (same_key a.key k) hit
      ∙ ap
          (λ (r : ReplayWindow × Bool). r.1 ∷ answers k size reset (store table a.key taken.0) more)
          took
      ∙ ap (λ l. alone.1 ∷ l) (alone_from more a.now _ alone.0 k size reset kept o.1)
      ∙ sym (if_true _ _ (same_key a.key k) hit)
  | inr miss ↦
      let kept = store-Serves_other a.now reset k a.key table w taken.0 miss ready in
      if_false _ _ (same_key a.key k) miss
      ∙ alone_from more a.now _ w k size reset kept o.1
      ∙ sym (if_false _ _ (same_key a.key k) miss)
]
  where
    ready : Serves a.now reset k (room m a.key a.now reset) w
    ready = room-Serves t a.now reset k a.key m w o.0 h

    table : List Stream
    table = room m a.key a.now reset

    taken : ReplayWindow × Bool
    taken = accept (or_default (find table a.key)) a.number a.now size reset

    alone : ReplayWindow × Bool
    alone = accept w a.number a.now size reset

-- In a new session the answers to the calls for one stream are those of a single replay window that
-- sees the calls for this stream only, whatever other streams the calls between are for, and also when
-- the table is full and lapsed windows are dropped, as long as the clock does not run back.
pub answers-alone :
    (calls : List Arrival) (k : StreamKey) (size : ℕ) (reset : Option ℕ)
    → InOrder 0 calls
    → answers k size reset [] calls ≡ answers_alone k size reset empty calls
unfolding Alike Single find
answers-alone calls k size reset o =
    alone_from calls 0 [] empty k size reset (record { single = tt; alike = inl refl }) o
