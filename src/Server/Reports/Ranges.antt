-- ===== src/Server/Reports/Ranges.antt =====
-- server/reporting.rs: the bounds hold whatever happens to a block.
use rs_iec.Common.{
  length, ◌<◌, suc, ℕ, refl, sym, ap, true, false, List, [], ◌∷◌, Option, none, some, arith,
  if_elim,
}
use mathlib.Core.Path.{subst}
use rs_iec.Common.Dictionary.{list_eq}
use rs_iec.Server.Reports.{ReportEntry, IpAddr, Rcb, Env}
use rs_iec.Server.Reports.Entries.{is_zero_entry_id, buffer_index}
use rs_iec.Server.Reports.Buffer.{set_sq_num, flush_pending}
use rs_iec.Server.Reports.Control.{
  leave, is_conn, enable, disable, release, sync_resv, take_block, stop_resv_timer, stop_integrity,
  hold_for, resume_at, resume_after, resynchronise, start_integrity,
}
use rs_iec.Server.Reports.Bounds.{
  IsBounded, width, in_width, Unmoved, emit-IsBounded, transmit_buffered-IsBounded,
}
use rs_iec.Server.Reports.Frame

abbrev InBuffer : ℕ → Option ℕ → Type 0
InBuffer n none = Unit {0}
InBuffer n (some i) = i < n

module _ {V : Type 0} where
  pub unmoved : (s t : Rcb V) → Unmoved s t → IsBounded s → IsBounded t
  unmoved s t u h = record {
    position = omega (arith, ap length u.0, u.1, h.position);
    depth = omega (arith, ap length u.0, u.2, h.depth);
    number =
        subst (λ b. t.sq_num < width b) (sym u.4)
          (subst (λ n. n < width s.buffered) (sym u.3) h.number);
  }

  buffer_index-InBuffer :
      (es : List (ReportEntry V)) (id : List ℕ) → InBuffer (length es) (buffer_index es id)
  unfolding buffer_index
  buffer_index-InBuffer [] id = tt
  buffer_index-InBuffer (e ∷ es) id =
      if_elim (InBuffer (suc (length es))) (list_eq e.id id) (λ _. omega arith)
        (λ _. behind (buffer_index es id) (buffer_index-InBuffer es id))
    where
      behind :
          (o : Option ℕ)
          → InBuffer (length es) o
          → InBuffer (suc (length es)) (elim o [ none ↦ none | some i ↦ some (suc i) ])
      behind none h = tt
      behind (some i) h = omega (arith, h)

  release-Unmoved : (env : Env V) (s : Rcb V) → Unmoved s (release env s)
  unfolding release sync_resv stop_resv_timer
  release-Unmoved env s =
      if_elim (Unmoved s) s.resv_cfg (λ _. (refl, refl, refl, refl, refl))
        (λ _. if_elim (Unmoved s) _ (λ _. held s.owner_ip) (λ _. (refl, refl, refl, refl, refl)))
    where
      held :
          (o : Option IpAddr)
          → Unmoved s (
              sync_resv (
                hold_for env o
                  (record (stop_resv_timer (record s { owner = none; owner_ip = none })) {
                    resv_ip = none;
                  })))
      held none = (refl, refl, refl, refl, refl)
      held (some ip) = (refl, refl, refl, refl, refl)

  pub take_block-Unmoved :
      (conn : ℕ) (ip : Option IpAddr) (s : Rcb V) → Unmoved s (take_block conn ip s)
  unfolding take_block sync_resv stop_resv_timer
  take_block-Unmoved conn ip s = (refl, refl, refl, refl, refl)

  pub release-IsBounded : (env : Env V) (s : Rcb V) → IsBounded s → IsBounded (release env s)
  release-IsBounded env s h = unmoved s (release env s) (release-Unmoved env s) h

  resynchronise-IsBounded : (s : Rcb V) → IsBounded s → IsBounded (resynchronise s)
  unfolding resynchronise
  resynchronise-IsBounded s h = resumed s.resync_id
    where
      after :
          (o : Option ℕ)
          → InBuffer (length s.buffer) o
          → IsBounded (resume_after (record s { resync_id = none }) o)
      after none k = record { position = omega arith; depth = h.depth; number = h.number }
      after (some i) k = record { position = omega (arith, k); depth = h.depth; number = h.number }

      resumed : (o : Option (List ℕ)) → IsBounded (resume_at s o)
      resumed none = h
      resumed (some id) =
          if_elim IsBounded (is_zero_entry_id id)
            (λ _. record { position = omega arith; depth = h.depth; number = h.number })
            (λ _. after (buffer_index s.buffer id) (buffer_index-InBuffer s.buffer id))

  started-IsBounded : (env : Env V) (s : Rcb V) → IsBounded s → IsBounded (start_integrity env s)
  unfolding start_integrity
  started-IsBounded env s h =
      unmoved s (start_integrity env s)
        (if_elim (Unmoved s) _ (λ _. (refl, refl, refl, refl, refl))
          (λ _. (refl, refl, refl, refl, refl)))
        h

  renumbered-IsBounded : (s : Rcb V) → IsBounded s → IsBounded (stop_integrity (set_sq_num s 0))
  unfolding stop_integrity set_sq_num
  renumbered-IsBounded s h = record {
    position = h.position;
    depth = h.depth;
    number = in_width s.buffered 0;
  }

  pub enable-IsBounded :
      (env : Env V) (conn : ℕ) (ip : Option IpAddr) (s : Rcb V)
      → IsBounded s
      → IsBounded (enable env conn ip s)
  unfolding enable
  enable-IsBounded env conn ip s h =
      let enabled = record s { enabled = true; conn = some conn } in
      let on = unmoved s enabled (refl, refl, refl, refl, refl) h in
      let held =
        if_elim IsBounded (is_conn s.owner conn) (λ _. on)
          (λ _.
            unmoved enabled (take_block conn ip enabled) (take_block-Unmoved conn ip enabled) on) in
      let ready = renumbered-IsBounded _ held in
      started-IsBounded env _ (
        if_elim IsBounded s.buffered
          (λ _. transmit_buffered-IsBounded env _ (resynchronise-IsBounded _ ready)) (λ _. ready))

  flushed-IsBounded : (env : Env V) (s : Rcb V) → IsBounded s → IsBounded (flush_pending env s)
  flushed-IsBounded env s h =
      Frame.flush_pending-holds IsBounded (λ t p k g. unmoved t _ (refl, refl, refl, refl, refl))
        emit-IsBounded env s h

  pub disable-IsBounded : (env : Env V) (s : Rcb V) → IsBounded s → IsBounded (disable env s)
  unfolding disable stop_integrity
  disable-IsBounded env s h =
      let flushed = flush_pending env s in
      let stopped =
        unmoved flushed (stop_integrity (record flushed { enabled = false; conn = none }))
          (refl, refl, refl, refl, refl) (flushed-IsBounded env s h) in
      if_elim IsBounded s.buffered (λ _. release-IsBounded env _ stopped) (λ _. stopped)

  pub leave-IsBounded :
      (env : Env V) (conn : ℕ) (s : Rcb V) → IsBounded s → IsBounded (leave env conn s)
  unfolding leave
  leave-IsBounded env conn s h =
      let off = if_elim IsBounded (is_conn s.conn conn) (λ _. disable-IsBounded env s h) (λ _. h) in
      if_elim IsBounded _ (λ _. release-IsBounded env _ off) (λ _. off)
