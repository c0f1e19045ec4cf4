-- ===== src/Server/Reports/Frame.antt =====
-- server/reporting.rs: what holds of a block whatever it reports, and does not speak of the
-- buffer-time window, holds after everything that makes reports.
use rs_iec.Common.{ℕ, ◌+◌, Bool, ◌==◌, not, ◌&&◌, ◌||◌, List, length, Option, none, some, if_elim}
use rs_iec.Server.Reports.{ReportEntry, TrgOps, Timer, Rcb, Env, DsMember}
use rs_iec.Server.Reports.Buffer.{
  emit, flush, flush_pending, collect_in, collect, event, window_ends, is_pending, closed,
}
use rs_iec.Server.Reports.Control.{report_all, whole_entry, integrity_tick, integrity_reason}
use rs_iec.Server.Reports.Changes.{Change, update_block, update_in, event_of}

module _ {ℓ} {V : Type 0} (P : Rcb V → Type ℓ)
    (quiet : (s : Rcb V) (pending : Option (ReportEntry V)) (timer : Option Timer) (generation : ℕ)
      → P s
      → P (record s { pending = pending; pending_timer = timer; pending_gen = generation }))
    (emit-holds : (env : Env V) (e : ReportEntry V) (s : Rcb V) → P s → P (emit env e s)) where
  pub flush_pending-holds : (env : Env V) (s : Rcb V) → P s → P (flush_pending env s)
  unfolding flush_pending
  flush_pending-holds env s h = flush_lem s.pending
    where
      flush_lem : (o : Option (ReportEntry V)) → P (flush env s o)
      flush_lem none = h
      flush_lem (some p) =
          if_elim P (length p.members == 0) (λ _. quiet s none none (s.pending_gen + 1) h)
            (λ _. emit-holds env p (closed s) (quiet s none none (s.pending_gen + 1) h))

  collect-holds : (env : Env V) (e : ReportEntry V) (s : Rcb V) → P s → P (collect env e s)
  unfolding collect
  collect-holds env e s h = collect_lem s.pending
    where
      collect_lem : (o : Option (ReportEntry V)) → P (collect_in env e s o)
      collect_lem (some p) = quiet s _ s.pending_timer s.pending_gen h
      collect_lem none =
          if_elim P (env.served && env.spawns) (λ _. quiet s _ _ s.pending_gen h)
            (λ _. emit-holds env e s h)

  pub event-holds : (env : Env V) (e : ReportEntry V) (s : Rcb V) → P s → P (event env e s)
  unfolding event
  event-holds env e s h =
      if_elim P (s.attrs.buf_tm == 0) (λ _. emit-holds env e s h)
        (λ _.
          collect-holds env e _
            (if_elim P (is_pending s.pending e) (λ _. flush_pending-holds env s h) (λ _. h)))

  pub window_ends-holds :
      (env : Env V) (generation : ℕ) (s : Rcb V) → P s → P (window_ends env generation s)
  unfolding window_ends
  window_ends-holds env generation s h =
      if_elim P (s.pending_gen == generation)
        (λ _. flush_pending-holds env _ (quiet s s.pending none s.pending_gen h)) (λ _. h)

  pub report_all-holds : (env : Env V) (why : TrgOps) (s : Rcb V) → P s → P (report_all env why s)
  unfolding report_all
  report_all-holds env why s h =
      let flushed = flush_pending env s in
      let e = whole_entry env why flushed.attrs.dat_set in
      if_elim P (length e.members == 0) (λ _. flush_pending-holds env s h)
        (λ _. emit-holds env e flushed (flush_pending-holds env s h))

  pub integrity_tick-holds :
      (env : Env V) (generation : ℕ) (s : Rcb V) → P s → P (integrity_tick env generation s).0
  unfolding integrity_tick
  integrity_tick-holds env generation s h =
      if_elim (λ (r : Rcb V × Bool). P r.0) (not (s.integrity_gen == generation) || not s.enabled)
        (λ _. h) (λ _. report_all-holds env integrity_reason s h)

  pub update_block-holds :
      (env : Env V) (from_mms : DsMember → List ℕ × ℕ) (changes : List Change) (s : Rcb V)
      → P s
      → P (update_block env from_mms changes s)
  unfolding update_block
  update_block-holds env from_mms changes s h =
      if_elim P (not s.buffered && not s.enabled) (λ _. h)
        (λ _. update_lem (env.resolve_data_set s.attrs.dat_set))
    where
      event_lem : (e : ReportEntry V) → P (event_of env e s)
      event_lem e = if_elim P (length e.members == 0) (λ _. h) (λ _. event-holds env e s h)

      update_lem : (o : Option (List DsMember)) → P (update_in env from_mms changes s o)
      update_lem none = h
      update_lem (some members) = event_lem _
