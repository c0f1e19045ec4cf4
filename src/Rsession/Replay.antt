-- ===== src/Rsession/Replay.antt =====
-- rsession/replay.rs: the window of the SPDU numbers accepted from one sender under one key. A number
-- is a `u32`, the bitmap of 64 bits is the list of its bits, the lowest first, and an instant is a
-- number of the clock's unit.
pub mod Window
pub mod Once
use rs_iec.Common.{
  ℕ, ◌+◌, ◌-◌, ◌%◌, ◌^◌, Bool, true, false, ◌==◌, ltb, leb, not, ◌&&◌, ◌||◌, if◌then◌else◌, List,
  [], ◌∷◌, ◌++◌, Option, none, some, get_or, set, take, replicate,
}

pub record ReplayWindow : Type 0 where
  pub top : ℕ
  pub seen : List Bool
  pub last : Option ℕ

-- `ReplayWindow::default()`
abbrev pub empty : ReplayWindow
empty = record { top = 0; seen = replicate 64 false; last = none }

-- The bitmap 1.
abbrev pub only_top : List Bool
only_top = true ∷ replicate 63 false

-- `(seen << diff) | 1` for a shift below 64
unfoldable pub shifted : List Bool → ℕ → List Bool
shifted seen diff = set (take 64 (replicate diff false ++ seen)) 0 true

unfoldable pub wrapping_sub : ℕ → ℕ → ℕ
wrapping_sub a b = (a + 2 ^ 32 - b) % 2 ^ 32

-- How far a number that is not ahead is behind the top: `-(n.wrapping_sub(top) as i32)`.
unfoldable pub behind : ℕ → ℕ
behind diff = if diff == 0 then 0 else 2 ^ 32 - diff

-- Nothing accepted yet, or more than `reset` ago.
abbrev pub expired : Option ℕ → Option ℕ → ℕ → Bool
expired none reset now = true
expired (some last) none now = false
expired (some last) (some reset) now = ltb reset (now - last)

abbrev pub accept_ahead : ReplayWindow → ℕ → ℕ → ℕ → ReplayWindow
accept_ahead w n now diff = record {
  top = n;
  seen = if leb 64 diff then only_top else shifted w.seen diff;
  last = some now;
}

abbrev pub accept_behind : ReplayWindow → ℕ → ℕ → ℕ → ReplayWindow × Bool
accept_behind w off now size =
    if leb size off || get_or w.seen off false
    then (w, false)
    else (record w { seen = set w.seen off true; last = some now }, true)

-- A difference is positive as an `i32` if it is not 0 and below 2^31.
abbrev pub accept_live : ReplayWindow → ℕ → ℕ → ℕ → ReplayWindow × Bool
accept_live w n now size =
    let diff = wrapping_sub n w.top in
    if ltb 0 diff && ltb diff (2 ^ 31)
    then (accept_ahead w n now diff, true)
    else accept_behind w (behind diff) now size

unfoldable pub accept : ReplayWindow → ℕ → ℕ → ℕ → Option ℕ → ReplayWindow × Bool
accept w n now size reset =
    if expired w.last reset now
    then (record { top = n; seen = only_top; last = some now }, true)
    else accept_live w n now size
