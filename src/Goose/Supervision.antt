-- ===== src/Goose/Supervision.antt =====
-- goose/subscriber.rs: the supervision of `timeAllowedToLive`. The mutex and the condition variable
-- are left out: each function is what happens while the lock is held, at one instant.
use rs_iec.Common.{
  ℕ, ◌+◌, ◌<◌, ◌≡◌, refl, Bool, true, false, ◌==◌, ltb, leb, not, ◌&&◌, ◌||◌, if◌then◌else◌, List,
  [], ◌∷◌, Option, none, some, arith, min,
}
use rs_iec.Common.Dictionary.{insert, list_eq}

-- By control block: when its data goes stale, and whether that has been reported.
pub record Deadlines : Type 0 where
  pub blocks : List (List ℕ × (ℕ × Bool))
  pub stopped : Bool

unfoldable pub arrived : Deadlines → List ℕ → ℕ → ℕ → Deadlines
arrived d go_cb_ref tatl now =
    if tatl == 0
    then d
    else record d { blocks = insert list_eq go_cb_ref (now + tatl, false) d.blocks }

unfoldable pub stop : Deadlines → Deadlines
stop d = record d { stopped = true }

-- The filter of one round: `!*fired && *at <= now`.
abbrev pub is_due : ℕ × Bool → ℕ → Bool
is_due (at, fired) now = not fired && leb at now

-- What a round reports.
unfoldable pub due : List (List ℕ × (ℕ × Bool)) → ℕ → List (List ℕ)
due [] now = []
due ((r, (at, fired)) ∷ bs) now =
    let rest = due bs now in if is_due (at, fired) now then r ∷ rest else rest

-- `*fired = true` for what is due.
unfoldable pub marked : List (List ℕ × (ℕ × Bool)) → ℕ → List (List ℕ × (ℕ × Bool))
marked [] now = []
marked ((r, (at, fired)) ∷ bs) now = (r, (at, fired || is_due (at, fired) now)) ∷ marked bs now

-- One turn of the loop of `run`: `none` when it is stopped.
unfoldable pub round : Deadlines → ℕ → Option (Deadlines × List (List ℕ))
round d now =
    if d.stopped then none else some (record d { blocks = marked d.blocks now }, due d.blocks now)

abbrev pub earlier : Option ℕ → ℕ → Option ℕ
earlier none at = some at
earlier (some next) at = some (min at next)

-- When the loop wakes next: the earliest deadline that has not been reported.
unfoldable pub next_deadline : List (List ℕ × (ℕ × Bool)) → Option ℕ
next_deadline [] = none
next_deadline ((r, (at, fired)) ∷ bs) =
    let rest = next_deadline bs in if fired then rest else earlier rest at

-- The blocks whose deadline lies after `from` and not after `to`, and which are not reported yet.
unfoldable pub expiring : List (List ℕ × (ℕ × Bool)) → ℕ → ℕ → List (List ℕ)
expiring [] from to = []
expiring ((r, (at, fired)) ∷ bs) from to =
    let rest = expiring bs from to in
    if not fired && (ltb from at && leb at to) then r ∷ rest else rest

-- Two rounds: the second reports exactly the blocks that the first did not and whose deadline has
-- passed since, so that no silence is reported twice.
pub due-marked :
    (bs : List (List ℕ × (ℕ × Bool))) (first second : ℕ)
    → due (marked bs first) second ≡ expiring bs first second
unfolding due marked expiring
due-marked [] first second = refl
due-marked ((r, (at, true)) ∷ bs) first second = due-marked bs first second
due-marked ((r, (at, false)) ∷ bs) first second = ground (arith, due-marked bs first second)

-- The instant comes before the deadline, if there is one.
abbrev Ahead : Option ℕ → ℕ → Type 0
Ahead none now = Unit
Ahead (some next) now = now < next

earlier-Ahead : (o : Option ℕ) (at now : ℕ) → Ahead (earlier o at) now → (now < at) × Ahead o now
earlier-Ahead none at now h = (h, tt)
earlier-Ahead (some next) at now h = (omega (arith, h), omega (arith, h))

due-Ahead :
    (bs : List (List ℕ × (ℕ × Bool))) (now : ℕ) → Ahead (next_deadline bs) now → due bs now ≡ []
unfolding due next_deadline
due-Ahead [] now h = refl
due-Ahead ((r, (at, true)) ∷ bs) now h = due-Ahead bs now h
due-Ahead ((r, (at, false)) ∷ bs) now h =
    let (a, b) = earlier-Ahead (next_deadline bs) at now h in ground (arith, a, due-Ahead bs now b)

-- The loop sleeps no longer than to the earliest deadline: before it, a round reports nothing.
pub due_before :
    (bs : List (List ℕ × (ℕ × Bool))) (next now : ℕ)
    → next_deadline bs ≡ some next
    → now < next
    → due bs now ≡ []
due_before bs next now e h = due-Ahead bs now (rw e h)
