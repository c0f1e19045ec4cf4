-- ===== src/Server/Reports/Runs.antt =====
-- server/reporting.rs: the bounds of a block through any series of writes, updates, timers and ends
-- of connections.
use rs_iec.Common.{ℕ, refl, true, false, ◌==◌, not, ◌&&◌, List, [], ◌∷◌, Option, arith, if_elim}
use rs_iec.Server.Reports.{IpAddr, Rcb, Env}
use rs_iec.Server.Reports.Control.{
  reservation_ends, is_some, sync_resv, take_block, stop_resv_timer, report_all, gi_reason, purge,
}
use rs_iec.Server.Reports.Access.{
  Write, Decision, permitted, check_rcb_write, decided, write_attribute, temporarily_unavailable,
  object_access_denied, object_value_invalid, store, effect, claimed, on_rcb_write, interrogate,
  purge_written, data_set_written, is_zero, write_resv, write_rpt_ena, write_gi, write_purge_buf,
  write_resv_tms, write_entry_id, write_dat_set, write_rpt_id, write_opt_flds, write_trg_ops,
  write_buf_tm, write_intg_pd, write_read_only, write_unknown,
}
use rs_iec.Server.Reports.Reach.{
  Action, written, updated, window_ended, period_ended, reservation_ended, gone, perform, run,
}
use rs_iec.Server.Reports.Bounds.{IsBounded, emit-IsBounded}
use rs_iec.Server.Reports.Frame
use rs_iec.Server.Reports.Ranges.{
  unmoved, release-IsBounded, take_block-Unmoved, enable-IsBounded, disable-IsBounded,
  leave-IsBounded,
}

module _ {V : Type 0} where
  store-IsBounded : (w : Write) (s : Rcb V) → IsBounded s → IsBounded (store w s)
  unfolding store
  store-IsBounded (write_resv b) s h = unmoved s _ (refl, refl, refl, refl, refl) h
  store-IsBounded (write_rpt_ena b) s h = unmoved s _ (refl, refl, refl, refl, refl) h
  store-IsBounded (write_gi b) s h = unmoved s _ (refl, refl, refl, refl, refl) h
  store-IsBounded (write_purge_buf b) s h = unmoved s _ (refl, refl, refl, refl, refl) h
  store-IsBounded (write_resv_tms t) s h = unmoved s _ (refl, refl, refl, refl, refl) h
  store-IsBounded (write_entry_id id) s h = unmoved s _ (refl, refl, refl, refl, refl) h
  store-IsBounded (write_dat_set r) s h = unmoved s _ (refl, refl, refl, refl, refl) h
  store-IsBounded (write_rpt_id r) s h = unmoved s _ (refl, refl, refl, refl, refl) h
  store-IsBounded (write_opt_flds o) s h = unmoved s _ (refl, refl, refl, refl, refl) h
  store-IsBounded (write_trg_ops t) s h = unmoved s _ (refl, refl, refl, refl, refl) h
  store-IsBounded (write_buf_tm n) s h = unmoved s _ (refl, refl, refl, refl, refl) h
  store-IsBounded (write_intg_pd n) s h = unmoved s _ (refl, refl, refl, refl, refl) h
  store-IsBounded write_read_only s h = unmoved s _ (refl, refl, refl, refl, refl) h
  store-IsBounded write_unknown s h = unmoved s _ (refl, refl, refl, refl, refl) h

  interrogated-IsBounded :
      (env : Env V) (s : Rcb V) → IsBounded s → IsBounded (report_all env gi_reason s)
  interrogated-IsBounded env =
      Frame.report_all-holds IsBounded (λ t p k g. unmoved t _ (refl, refl, refl, refl, refl))
        emit-IsBounded env gi_reason

  purge-IsBounded : (s : Rcb V) → IsBounded s → IsBounded (purge s)
  unfolding purge
  purge-IsBounded s h = record { position = omega arith; depth = omega arith; number = h.number }

  effect-IsBounded :
      (env : Env V) (w : Write) (conn : ℕ) (ip : Option IpAddr) (s : Rcb V)
      → IsBounded s
      → IsBounded (effect env w conn ip s)
  unfolding purge_written purge data_set_written interrogate stop_resv_timer
  effect-IsBounded env (write_resv_tms t) conn ip s h =
      if_elim IsBounded (is_zero t) (λ _. unmoved s _ (refl, refl, refl, refl, refl) h) (λ _. h)
  effect-IsBounded env (write_rpt_ena true) conn ip s h = enable-IsBounded env conn ip s h
  effect-IsBounded env (write_rpt_ena false) conn ip s h = disable-IsBounded env s h
  effect-IsBounded env (write_gi on) conn ip s h =
      let done =
        if_elim IsBounded (on && s.attrs.trg_ops.gi) (λ _. interrogated-IsBounded env s h)
          (λ _. h) in
      unmoved _ (interrogate env on s) (refl, refl, refl, refl, refl) done
  effect-IsBounded env (write_purge_buf on) conn ip s h =
      let done = if_elim IsBounded on (λ _. purge-IsBounded s h) (λ _. h) in
      unmoved _ (purge_written on s) (refl, refl, refl, refl, refl) done
  effect-IsBounded env (write_entry_id id) conn ip s h =
      unmoved s _ (refl, refl, refl, refl, refl) h
  effect-IsBounded env (write_dat_set r) conn ip s h = record {
    position = omega arith;
    depth = omega arith;
    number = h.number;
  }
  effect-IsBounded env (write_resv on) conn ip s h = h
  effect-IsBounded env (write_rpt_id r) conn ip s h = h
  effect-IsBounded env (write_opt_flds o) conn ip s h = h
  effect-IsBounded env (write_trg_ops t) conn ip s h = h
  effect-IsBounded env (write_buf_tm n) conn ip s h = h
  effect-IsBounded env (write_intg_pd n) conn ip s h = h
  effect-IsBounded env write_read_only conn ip s h = h
  effect-IsBounded env write_unknown conn ip s h = h

  claimed-IsBounded :
      (conn : ℕ) (ip : Option IpAddr) (s : Rcb V) → IsBounded s → IsBounded (claimed conn ip s)
  claimed-IsBounded conn ip s h =
      if_elim IsBounded (is_some s.owner) (λ _. h)
        (λ _. unmoved s (take_block conn ip s) (take_block-Unmoved conn ip s) h)

  decided-IsBounded :
      (env : Env V) (w : Write) (conn : ℕ) (ip : Option IpAddr) (s : Rcb V) (d : Decision)
      → IsBounded s
      → IsBounded (on_rcb_write env w conn ip (store w s))
      → IsBounded (decided env w conn ip s d)
  decided-IsBounded env w conn ip s permitted h k = k
  decided-IsBounded env w conn ip s temporarily_unavailable h k = h
  decided-IsBounded env w conn ip s object_access_denied h k = h
  decided-IsBounded env w conn ip s object_value_invalid h k = h

  held_write :
      (env : Env V) (w : Write) (conn : ℕ) (ip : Option IpAddr) (s : Rcb V)
      → IsBounded s
      → IsBounded (effect env w conn ip (claimed conn ip (store w s)))
  held_write env w conn ip s h =
      effect-IsBounded env w conn ip (claimed conn ip (store w s))
        (claimed-IsBounded conn ip (store w s) (store-IsBounded w s h))

  attribute-IsBounded :
      (env : Env V) (w : Write) (conn : ℕ) (ip : Option IpAddr) (s : Rcb V) (d : Decision)
      → IsBounded s
      → IsBounded (decided env w conn ip s d)
  unfolding on_rcb_write
  attribute-IsBounded env (write_resv true) conn ip s d h =
      decided-IsBounded env (write_resv true) conn ip s d h (
        unmoved _ (take_block conn ip (store (write_resv true) s)) (take_block-Unmoved conn ip _)
          (store-IsBounded (write_resv true) s h))
  attribute-IsBounded env (write_resv false) conn ip s d h =
      decided-IsBounded env (write_resv false) conn ip s d h
        (release-IsBounded env _ (store-IsBounded (write_resv false) s h))
  attribute-IsBounded env w conn ip s d h =
      decided-IsBounded env w conn ip s d h (held_write env w conn ip s h)

  perform-IsBounded : (a : Action V) (s : Rcb V) → IsBounded s → IsBounded (perform a s)
  unfolding perform write_attribute reservation_ends sync_resv
  perform-IsBounded (written env w conn ip) s h =
      attribute-IsBounded env w conn ip s (check_rcb_write env s w conn ip) h
  perform-IsBounded (updated env from_mms changes) s h =
      Frame.update_block-holds IsBounded (λ t p k g. unmoved t _ (refl, refl, refl, refl, refl))
        emit-IsBounded env from_mms changes s h
  perform-IsBounded (window_ended env generation) s h =
      Frame.window_ends-holds IsBounded (λ t p k g. unmoved t _ (refl, refl, refl, refl, refl))
        emit-IsBounded env generation s h
  perform-IsBounded (period_ended env generation) s h =
      Frame.integrity_tick-holds IsBounded (λ t p k g. unmoved t _ (refl, refl, refl, refl, refl))
        emit-IsBounded env generation s h
  perform-IsBounded (reservation_ended generation) s h =
      if_elim IsBounded (s.resv_gen == generation && not (is_some s.owner))
        (λ _. unmoved s _ (refl, refl, refl, refl, refl) h) (λ _. h)
  perform-IsBounded (gone env conn) s h = leave-IsBounded env conn s h

  -- Through any series of clients' writes, updates, ends of buffer-time windows, of integrity periods
  -- and of reservations, and ends of connections, whatever the queues take: the buffer never holds
  -- more than its depth, the position never passes its end, and the sequence number stays in its
  -- width, where this holds at the start.
  pub run-IsBounded :
      (actions : List (Action V)) (s : Rcb V) → IsBounded s → IsBounded (run actions s)
  unfolding run
  run-IsBounded [] s h = h
  run-IsBounded (a ∷ more) s h = run-IsBounded more (perform a s) (perform-IsBounded a s h)
