-- ===== src/Goose/Stream/Steps.antt =====
-- What a publish, a retransmission and an observation come to on the segment.
use rs_iec.Common.{
  ℕ, ◌+◌, ◌^◌, ◌<◌, ◌≡◌, refl, true, ◌==◌, ltb, not, ◌||◌, List, none, some, arith, All, ap, ◌∙◌,
  ◌⊎◌, inl, inr, Bool-cases,
}
use rs_iec.Common.Dictionary.{lookup, list_eq, text_key, lookup-insert}
use rs_iec.Goose.Messages.{Message, following}
use rs_iec.Goose.Tracker.{Tracker, SeqState, observe, seen, compared, verdict}
use rs_iec.Goose.Publisher.{
  Publisher, Task, Error, ok, err, closed_error, frame_too_large, max_payload, announcement,
  announced, widest, publish, repetition, retransmit,
}
use rs_iec.Goose.Stream.{InSequence, InStep, lossless, observed}

module _ {V T : Type 0} (size : Message V T → ℕ) where
  pub tracked :
      (p : Publisher T) (k : Task V T) (tracker : Tracker) (arrival : ℕ)
      → k.msg.go_cb_ref ≡ p.cfg.go_cb_ref
      → lookup list_eq p.cfg.go_cb_ref (observe tracker k.msg arrival).0 ≡ some (seen k.msg arrival)
  unfolding observe
  tracked p k tracker arrival e = ground (
    arith,
    lookup-insert text_key k.msg.go_cb_ref p.cfg.go_cb_ref (seen k.msg arrival) tracker,
    text_key.beq_iff k.msg.go_cb_ref p.cfg.go_cb_ref,
  )

  pub noted :
      (k : Task V T) (tracker : Tracker) (arrival : ℕ) (last : SeqState) (ref : List ℕ)
      → k.msg.go_cb_ref ≡ ref
      → lookup list_eq ref tracker ≡ some last
      → (observe tracker k.msg arrival).1 ≡ compared last k.msg arrival
  unfolding observe
  noted k tracker arrival last ref e h =
      ap (λ o. verdict o k.msg arrival) (ap (λ r. lookup list_eq r tracker) e ∙ h)

  pub observed-InStep :
      (p : Publisher T) (k : Task V T) (tracker : Tracker) (arrival : ℕ) (last : SeqState)
      → k.generation ≡ p.state.generation
      → k.msg.go_cb_ref ≡ p.cfg.go_cb_ref
      → k.msg.st_num ≡ p.state.st_num
      → p.state.st_num < 2 ^ 32
      → lookup list_eq p.cfg.go_cb_ref tracker ≡ some last
      → InSequence (compared last k.msg arrival)
      → InStep (observed size p k tracker arrival).0
        × All InSequence (observed size p k tracker arrival).1
  observed-InStep p k tracker arrival last g r n b h c = (
    record {
      generation = g;
      reference = r;
      state_number = n;
      in_range = b;
      last = seen k.msg arrival;
      known = tracked p k tracker arrival r;
      last_state = refl;
      last_sequence = refl;
    },
    (rw (noted k tracker arrival last p.cfg.go_cb_ref r h) c, tt),
  )

  pub publish_outcome :
      (p : Publisher T) (values : List V) (now : T)
      → ((e : Error) × (publish size (lossless size) p values now ≡ (p, err e)))
        ⊎ (publish size (lossless size) p values now ≡ (
          announced p (announcement p values true now),
          ok (record {
            msg = announcement p values true now;
            generation = p.state.generation + 1;
            i = 0;
          }),
        ))
  unfolding publish
  publish_outcome p values now = elim (Bool-cases p.closed) [
    | inl shut ↦ inl (closed_error, simp shut)
    | inr running ↦
        elim (Bool-cases (ltb max_payload (size (widest (announcement p values true now))))) [
          | inl large ↦ inl (
            frame_too_large (size (widest (announcement p values true now))),
            simp (running, large),
          )
          | inr fits ↦ inr (simp (running, fits))
        ]
  ]

  pub retransmit_outcome :
      (p : Publisher T) (k : Task V T)
      → (retransmit size (lossless size) p k ≡ (p, none))
        ⊎ (retransmit size (lossless size) p k ≡ (
          record p { state = record p.state { sq_num = following k.msg.sq_num } },
          some (record {
            msg = repetition size (lossless size) p k;
            generation = k.generation;
            i = k.i + 1;
          }),
        ))
  unfolding retransmit
  retransmit_outcome p k =
      elim (Bool-cases (p.closed || not (p.state.generation == k.generation))) [
        | inl over ↦ inl (rw over refl)
        | inr on ↦ inr (rw on refl)
      ]
