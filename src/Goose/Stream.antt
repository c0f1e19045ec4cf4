-- ===== src/Goose/Stream.antt =====
-- The publisher of goose/publisher.rs and the tracker of goose/subscriber.rs on one segment that
-- loses nothing: each message that is sent is observed next.
pub mod Steps
pub mod Sequence
use rs_iec.Common.{
  ℕ, ◌^◌, ◌<◌, ◌≡◌, Bool, true, false, List, [], ◌∷◌, Option, none, some, All, ◌++◌,
}
use rs_iec.Common.Dictionary.{lookup, list_eq}
use rs_iec.Goose.Messages.{Message}
use rs_iec.Goose.Tracker.{Tracker, SeqState, Anomalies, observe}
use rs_iec.Goose.Publisher.{Publisher, Task, Result, ok, err, publish, retransmit}

-- What one action makes of the publisher, its task and the subscriber's tracker. Times of arrival
-- are the subscriber's.
pub data Action (V T : Type 0) : Type 0 where
  change : List V → T → ℕ → Action V T
  repeat : ℕ → Action V T

pub record Segment (V T : Type 0) : Type 0 where
  pub publisher : Publisher T
  pub task : Task V T
  pub tracker : Tracker

-- Neither the state number nor the sequence number looks irregular.
abbrev pub InSequence : Anomalies → Type 0
InSequence a = (a.st_num_regressed ≡ false) × (a.sq_num_gap ≡ false)

-- The counters of the publisher, of its task and of the tracker agree.
pub record InStep {V T : Type 0} (s : Segment V T) : Type 0 where
  pub generation : s.task.generation ≡ s.publisher.state.generation
  pub reference : s.task.msg.go_cb_ref ≡ s.publisher.cfg.go_cb_ref
  pub state_number : s.task.msg.st_num ≡ s.publisher.state.st_num
  pub in_range : s.publisher.state.st_num < 2 ^ 32
  pub last : SeqState
  pub known : lookup list_eq s.publisher.cfg.go_cb_ref s.tracker ≡ some last
  pub last_state : last.st_num ≡ s.task.msg.st_num
  pub last_sequence : last.sq_num ≡ s.task.msg.sq_num

abbrev pub Kept : {V T : Type 0} → Segment V T × List Anomalies → Type 0
Kept r = InStep r.0 × All InSequence r.1

module _ {V T : Type 0} (size : Message V T → ℕ) where
  -- The interface sends every message.
  abbrev pub lossless : Message V T → Bool
  lossless m = true

  -- A message goes out under a task and is observed.
  abbrev pub observed : Publisher T → Task V T → Tracker → ℕ → Segment V T × List Anomalies
  observed p k tracker arrival = (
    record { publisher = p; task = k; tracker = (observe tracker k.msg arrival).0 },
    (observe tracker k.msg arrival).1 ∷ [],
  )

  abbrev pub after_publish :
      Segment V T → ℕ → Publisher T × Result (Task V T) → Segment V T × List Anomalies
  after_publish s arrival (p, ok k) = observed p k s.tracker arrival
  after_publish s arrival (p, err e) = (record s { publisher = p }, [])

  abbrev pub after_retransmit :
      Segment V T → ℕ → Publisher T × Option (Task V T) → Segment V T × List Anomalies
  after_retransmit s arrival (p, some k) = observed p k s.tracker arrival
  after_retransmit s arrival (p, none) = (record s { publisher = p }, [])

  unfoldable pub step : Segment V T → Action V T → Segment V T × List Anomalies
  step s (change values now arrival) =
      after_publish s arrival (publish size lossless s.publisher values now)
  step s (repeat arrival) = after_retransmit s arrival (retransmit size lossless s.publisher s.task)

  -- Everything that the subscriber notes during a series of actions.
  unfoldable pub run : Segment V T → List (Action V T) → List Anomalies
  run s [] = []
  run s (a ∷ more) = (step s a).1 ++ run (step s a).0 more
