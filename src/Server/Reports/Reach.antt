-- ===== src/Server/Reports/Reach.antt =====
-- server/reporting.rs: everything that happens to a block, as one kind of step.
use rs_iec.Common.{ℕ, ◌≡◌, ◌≢◌, Bool, true, false, List, [], ◌∷◌, Option, none, some}
use rs_iec.Server.Reports.{DsMember, IpAddr, Rcb, Env}
use rs_iec.Server.Reports.Control.{leave, integrity_tick, reservation_ends}
use rs_iec.Server.Reports.Buffer.{window_ends}
use rs_iec.Server.Reports.Access.{Write, write_attribute}
use rs_iec.Server.Reports.Changes.{Change, update_block}

-- A client's write, an update of the model, the end of a buffer-time window, of an integrity period
-- or of a reservation that was started in a generation, and the end of a connection.
pub data Action (V : Type 0) : Type 0 where
  written : Env V → Write → ℕ → Option IpAddr → Action V
  updated : Env V → (DsMember → List ℕ × ℕ) → List Change → Action V
  window_ended period_ended : Env V → ℕ → Action V
  reservation_ended : ℕ → Action V
  gone : Env V → ℕ → Action V

-- While a block is enabled its subscriber is its owner, and it has none while it is disabled.
abbrev pub Seated : Bool → Option ℕ → Option ℕ → Type 0
Seated true conn owner = (c : ℕ) × (conn ≡ some c) × (owner ≡ some c)
Seated false conn owner = conn ≡ none

module _ {V : Type 0} where
  unfoldable pub perform : Action V → Rcb V → Rcb V
  perform (written env w conn ip) s = write_attribute env w conn ip s
  perform (updated env from_mms changes) s = update_block env from_mms changes s
  perform (window_ended env generation) s = window_ends env generation s
  perform (period_ended env generation) s = (integrity_tick env generation s).0
  perform (reservation_ended generation) s = reservation_ends generation s
  perform (gone env conn) s = leave env conn s

  unfoldable pub run : List (Action V) → Rcb V → Rcb V
  run [] s = s
  run (a ∷ more) s = run more (perform a s)

  -- The action of no connection or of another one than the given.
  abbrev pub Foreign : ℕ → Action V → Type 0
  Foreign c (written env w conn ip) = c ≢ conn
  Foreign c (gone env conn) = c ≢ conn
  Foreign c (updated env from_mms changes) = Unit {0}
  Foreign c (window_ended env generation) = Unit {0}
  Foreign c (period_ended env generation) = Unit {0}
  Foreign c (reservation_ended generation) = Unit {0}

  abbrev pub IsSeated : Rcb V → Type 0
  IsSeated s = Seated s.enabled s.conn s.owner
