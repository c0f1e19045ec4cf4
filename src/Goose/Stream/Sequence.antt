-- ===== src/Goose/Stream/Sequence.antt =====
-- The counters stay in step: what the subscriber notes of a publisher's actions.
use rs_iec.Common.{
  ℕ, ◌+◌, ◌≤◌, ◌≡◌, refl, true, false, List, [], ◌∷◌, none, arith, All, All-append, ap, sym, ◌∙◌,
  inl, inr,
}
use mathlib.Core.Path.{subst}
use rs_iec.Common.Dictionary.{lookup, list_eq}
use rs_iec.Goose.Messages.{Message, following}
use rs_iec.Goose.Tracker.{Anomalies, observe, seen, compared}
use rs_iec.Goose.Publisher.Laws.{following-range}
use rs_iec.Goose.Publisher.{
  Publisher, Task, Result, Error, ok, err, announcement, announced, publish, refresh, repetition,
}
use rs_iec.Goose.Stream.{
  Action, change, repeat, Segment, InSequence, InStep, Kept, lossless, after_publish,
  after_retransmit, step, run,
}
use rs_iec.Goose.Stream.Steps.{tracked, noted, observed-InStep, publish_outcome, retransmit_outcome}

module _ {V T : Type 0} (size : Message V T → ℕ) where
  -- A new state: the next number, from sequence number 0.
  change-InSequence :
      (s : Segment V T) (values : List V) (now : T) (arrival : ℕ) (h : InStep s)
      → InSequence (compared h.last (announcement s.publisher values true now) arrival)
  unfolding announcement
  change-InSequence s values now arrival h =
      (ground (arith, h.last_state, h.state_number), ground (arith, h.last_state, h.state_number))

  repeat-InSequence :
      (s : Segment V T) (arrival : ℕ) (h : InStep s)
      → InSequence (compared h.last (repetition size (lossless size) s.publisher s.task) arrival)
  unfolding repetition
  repeat-InSequence s arrival h =
      (ground (arith, h.last_state, h.last_sequence), ground (arith, h.last_state, h.last_sequence))

  change-InStep :
      (s : Segment V T) (values : List V) (now : T) (arrival : ℕ)
      → InStep s
      → InStep (step size s (change values now arrival)).0
        × All InSequence (step size s (change values now arrival)).1
  unfolding step announced announcement
  change-InStep s values now arrival h = elim (publish_outcome size s.publisher values now) [
    | inl (e, refused) ↦ subst (λ r. Kept (after_publish size s arrival r)) (sym refused) (h, tt)
    | inr sent ↦
        subst (λ r. Kept (after_publish size s arrival r)) (sym sent)
          (observed-InStep size (announced s.publisher (announcement s.publisher values true now))
            (record {
              msg = announcement s.publisher values true now;
              generation = s.publisher.state.generation + 1;
              i = 0;
            })
            s.tracker arrival h.last refl refl refl (following-range s.publisher.state.st_num).1
            h.known (change-InSequence s values now arrival h))
  ]

  repeat-InStep :
      (s : Segment V T) (arrival : ℕ)
      → InStep s
      → InStep (step size s (repeat arrival)).0 × All InSequence (step size s (repeat arrival)).1
  unfolding step repetition
  repeat-InStep s arrival h = elim (retransmit_outcome size s.publisher s.task) [
    | inl ended ↦ subst (λ r. Kept (after_retransmit size s arrival r)) (sym ended) (h, tt)
    | inr sent ↦
        subst (λ r. Kept (after_retransmit size s arrival r)) (sym sent)
          (observed-InStep size
            (record (s.publisher) {
              state = record (s.publisher.state) { sq_num = following s.task.msg.sq_num };
            })
            (record {
              msg = repetition size (lossless size) s.publisher s.task;
              generation = s.task.generation;
              i = s.task.i + 1;
            })
            s.tracker arrival h.last h.generation h.reference h.state_number h.in_range h.known
            (repeat-InSequence s arrival h))
  ]

  action-InStep :
      (s : Segment V T) (a : Action V T)
      → InStep s
      → InStep (step size s a).0 × All InSequence (step size s a).1
  action-InStep s (change values now arrival) h = change-InStep s values now arrival h
  action-InStep s (repeat arrival) h = repeat-InStep s arrival h

  -- A subscriber that is in step with a publisher and receives its every message never sees the state number regress or
  -- the sequence number skip, through any series of state changes and retransmissions, refused ones
  -- included, and also where a counter wraps.
  pub run-InSequence :
      (s : Segment V T) (actions : List (Action V T))
      → InStep s
      → All InSequence (run size s actions)
  unfolding run
  run-InSequence s [] h = tt
  run-InSequence s (a ∷ more) h =
      let (next, clean) = action-InStep s a h in
      All-append InSequence (step size s a).1 (run size (step size s a).0 more) clean
        (run-InSequence (step size s a).0 more next)

  err_ok : (x : Error) (k : Task V T) → ¬ (Path (Result (Task V T)) (err x) (ok k))
  err_ok x k e = cc

  -- The first message of a control block that the subscriber does not know is no irregularity, and
  -- brings publisher, task and tracker into step, when its publish succeeds.
  pub first-InStep :
      (s : Segment V T) (values : List V) (now : T) (arrival : ℕ) (k : Task V T)
      → lookup list_eq s.publisher.cfg.go_cb_ref s.tracker ≡ none
      → (publish size (lossless size) s.publisher values now).1 ≡ ok k
      → InStep (step size s (change values now arrival)).0
        × All InSequence (step size s (change values now arrival)).1
  unfolding step announced announcement observe
  first-InStep s values now arrival k h e = elim (publish_outcome size s.publisher values now) [
    | inl (x, refused) ↦ absurd (err_ok x k (sym (ap (λ r. r.1) refused) ∙ e))
    | inr sent ↦
        subst (λ r. Kept (after_publish size s arrival r)) (sym sent)
          (
            record {
              generation = refl;
              reference = refl;
              state_number = refl;
              in_range = (following-range s.publisher.state.st_num).1;
              last = seen (announcement s.publisher values true now) arrival;
              known =
                  tracked size (announced s.publisher (announcement s.publisher values true now))
                    (record {
                      msg = announcement s.publisher values true now;
                      generation = s.publisher.state.generation + 1;
                      i = 0;
                    })
                    s.tracker arrival refl;
              last_state = refl;
              last_sequence = refl;
            },
            (rw h (refl, refl), tt),
          )
  ]

  refreshed :
      (p : Publisher T) (values : List V) (now : T) (k : Task V T)
      → (refresh size (lossless size) p values now).1 ≡ ok k
      → k.msg ≡ announcement p values false now
  unfolding refresh
  refreshed p values now k e = ground arith

  refresh_gap :
      (s : Segment V T) (values : List V) (now : T) (arrival : ℕ) (h : InStep s)
      → 1 ≤ s.publisher.state.st_num
      → (compared h.last (announcement s.publisher values false now) arrival).sq_num_gap ≡ true
  unfolding announcement
  refresh_gap s values now arrival h n =
      ground (arith, h.last_state, h.state_number, (following-range h.last.sq_num).0)

  -- A refresh of a published state, which keeps the state number and begins again at sequence
  -- number 0, is reported as a gap of the sequence number by a subscriber that has missed nothing.
  pub refresh_reported :
      (s : Segment V T) (values : List V) (now : T) (arrival : ℕ) (k : Task V T)
      → InStep s
      → 1 ≤ s.publisher.state.st_num
      → (refresh size (lossless size) s.publisher values now).1 ≡ ok k
      → (observe s.tracker k.msg arrival).1.sq_num_gap ≡ true
  unfolding announcement
  refresh_reported s values now arrival k h n e =
      let m = refreshed s.publisher values now k e in
      let r =
        noted size k s.tracker arrival h.last s.publisher.cfg.go_cb_ref (ap Message.go_cb_ref m)
          h.known in
      ap Anomalies.sq_num_gap r ∙ rw m (refresh_gap s values now arrival h n)
