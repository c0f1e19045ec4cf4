-- ===== src/Rsession/Streams.antt =====
-- rsession/session.rs: the replay windows of a session, one for a stream. The table is a list of
-- streams without an order that counts. A socket address is a number that stands for it.
pub mod Table
pub mod Alone
use rs_iec.Common.{
  ℕ, ◌-◌, Bool, true, false, ◌==◌, ltb, leb, not, ◌&&◌, if◌then◌else◌, List, [], ◌∷◌, Option, none,
  some, length,
}
use rs_iec.Rsession.Replay.{ReplayWindow, empty, accept}

pub record StreamKey : Type 0 where
  pub from : ℕ
  pub si : ℕ
  pub key_id : ℕ

pub record Stream : Type 0 where
  pub key : StreamKey
  pub window : ReplayWindow

abbrev pub max_streams : ℕ
max_streams = 4096

abbrev pub same_key : StreamKey → StreamKey → Bool
same_key a b = (a.from == b.from) && (a.si == b.si) && (a.key_id == b.key_id)

unfoldable pub find : List Stream → StreamKey → Option ReplayWindow
find [] k = none
find (s ∷ m) k = if same_key s.key k then some s.window else find m k

-- `or_default`
abbrev pub or_default : Option ReplayWindow → ReplayWindow
or_default none = empty
or_default (some w) = w

-- `retain`
unfoldable pub keep : (Stream → Bool) → List Stream → List Stream
keep p [] = []
keep p (s ∷ m) = if p s then s ∷ keep p m else keep p m

-- `last` is at most `reset` ago.
abbrev pub in_use : Option ℕ → ℕ → ℕ → Bool
in_use none reset now = false
in_use (some last) reset now = leb (now - last) reset

abbrev pub purge : Option ℕ → ℕ → List Stream → List Stream
purge none now m = m
purge (some reset) now m = keep (λ s. in_use s.window.last reset now) m

abbrev pub contains : Option ReplayWindow → Bool
contains none = false
contains (some w) = true

-- The table that `entry` looks into.
abbrev pub room : List Stream → StreamKey → ℕ → Option ℕ → List Stream
room m k now reset =
    if not (contains (find m k)) && leb max_streams (length m) then purge reset now m else m

-- The entry of the key, and no other.
abbrev pub store : List Stream → StreamKey → ReplayWindow → List Stream
store m k w = record { key = k; window = w } ∷ keep (λ s. not (same_key s.key k)) m

unfoldable pub fresh : List Stream → StreamKey → ℕ → ℕ → ℕ → Option ℕ → List Stream × Bool
fresh m k n now size reset =
    let table = room m k now reset in
    let taken = accept (or_default (find table k)) n now size reset in
    (store table k taken.0, taken.1)
