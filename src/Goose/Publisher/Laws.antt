-- ===== src/Goose/Publisher/Laws.antt =====
-- What the publisher promises of its counters, its errors and its superseded tasks.
use rs_iec.Common.{ℕ, ◌^◌, ◌<◌, ◌≤◌, ◌≡◌, ◌≢◌, Bool, true, List, none, some, arith, ◌⊎◌}
use rs_iec.Goose.Messages.{Message, following}
use rs_iec.Goose.Publisher.{
  Publisher, Task, ok, announcement, announced, widest, publish_state, publish, refresh, retransmit,
  max_payload,
}

pub following-range : (n : ℕ) → (1 ≤ following n) × (following n < 2 ^ 32)
following-range n = omega arith

module _ {V T : Type 0} (size : Message V T → ℕ) (sends : Message V T → Bool) where
  -- A message that would not fit a frame at its widest, or a closed publisher, changes nothing.
  pub publish_state-refused :
      (p : Publisher T) (values : List V) (change : Bool) (now : T)
      → (p.closed ≡ true) ⊎ (max_payload < size (widest (announcement p values change now)))
      → (publish_state size sends p values change now).0 ≡ p
  unfolding publish_state
  publish_state-refused p values change now h = ground arith

  -- What a successful publish announces and leaves behind: a state number that is never 0, the
  -- sequence number 0, a new generation, and a task for exactly that message.
  pub publish-announces :
      (p : Publisher T) (values : List V) (now : T) (k : Task V T)
      → (publish size sends p values now).1 ≡ ok k
      → (k.msg.st_num ≡ following p.state.st_num)
        × (k.msg.sq_num ≡ 0)
        × (k.msg.t ≡ now)
        × (k.msg.values ≡ values)
        × ((publish size sends p values now).0.state.st_num ≡ k.msg.st_num)
        × ((publish size sends p values now).0.state.generation ≡ k.generation)
        × (p.state.generation < k.generation)
  unfolding publish announcement announced
  publish-announces p values now k h = ground arith

  -- A successful refresh of a published state repeats its number and its timestamp, from sequence
  -- number 0.
  pub refresh-repeats :
      (p : Publisher T) (values : List V) (t now : T) (k : Task V T)
      → 1 ≤ p.state.st_num
      → p.state.t ≡ some t
      → (refresh size sends p values now).1 ≡ ok k
      → (k.msg.st_num ≡ p.state.st_num) × (k.msg.sq_num ≡ 0) × (k.msg.t ≡ t)
  unfolding refresh announcement
  refresh-repeats p values t now k h e r = ground arith

  -- A task that a newer publish or refresh has superseded sends nothing, changes nothing and ends;
  -- so does any task of a closed publisher.
  pub retransmit-superseded :
      (p : Publisher T) (k : Task V T)
      → (p.state.generation ≢ k.generation) ⊎ (p.closed ≡ true)
      → retransmit size sends p k ≡ (p, none)
  unfolding retransmit
  retransmit-superseded p k h = ground arith

  -- A publish or a refresh that succeeds supersedes every task of the generation before
  -- or of an older one.
  pub publish_state-supersedes :
      (p : Publisher T) (values : List V) (change : Bool) (now : T) (new_task old : Task V T)
      → (publish_state size sends p values change now).1 ≡ ok new_task
      → old.generation ≤ p.state.generation
      → retransmit size sends (publish_state size sends p values change now).0 old
        ≡ ((publish_state size sends p values change now).0, none)
  unfolding publish_state retransmit announced
  publish_state-supersedes p values change now new_task old h g = ground arith
