-- ===== src/Server/Reports/Writes.antt =====
-- server/reporting.rs: a client's write leaves the subscriber the owner, and so does everything else
-- that happens to a block.
use rs_iec.Common.{ℕ, ◌≡◌, true, false, ◌==◌, not, ◌&&◌, List, [], ◌∷◌, Option, some, if_elim}
use rs_iec.Server.Reports.{IpAddr, Rcb, Env}
use rs_iec.Server.Reports.Buffer.{window_ends}
use rs_iec.Server.Reports.Changes.{update_block}
use rs_iec.Server.Reports.Control.{
  allowed, integrity_tick, reservation_ends, is_some, sync_resv, take_block, stop_resv_timer,
  report_all, gi_reason, purge,
}
use rs_iec.Server.Reports.Access.{
  Write, Decision, permitted, check_rcb_write, decided, write_attribute, attribute_decision,
  temporarily_unavailable, object_access_denied, object_value_invalid, store, effect, claimed,
  on_rcb_write, interrogate, purge_written, data_set_written, is_zero, write_resv, write_rpt_ena,
  write_gi, write_purge_buf, write_resv_tms, write_entry_id, write_dat_set, write_rpt_id,
  write_opt_flds, write_trg_ops, write_buf_tm, write_intg_pd, write_read_only, write_unknown,
}
use rs_iec.Server.Reports.Tenure.{
  tenure-window_ends, tenure-integrity_tick, tenure-update_block, tenure-report_all,
}
use rs_iec.Server.Reports.Reach.{
  Action, written, updated, window_ended, period_ended, reservation_ended, gone, perform, run,
  IsSeated,
}
use rs_iec.Server.Reports.Seats.{
  reseat, keep_seat, refused_elim, by_tenure, release-Freed, Freed-IsSeated, enable-IsSeated,
  disable-IsSeated, leave-IsSeated,
}

module _ {V : Type 0} where
  effect-IsSeated :
      (env : Env V) (w : Write) (conn : ℕ) (ip : Option IpAddr) (s : Rcb V)
      → IsSeated s
      → IsSeated (effect env w conn ip s)
  unfolding purge_written purge data_set_written interrogate stop_resv_timer
  effect-IsSeated env (write_resv_tms t) conn ip s h =
      if_elim IsSeated (is_zero t) (λ _. h) (λ _. h)
  effect-IsSeated env (write_rpt_ena true) conn ip s h = enable-IsSeated env conn ip s
  effect-IsSeated env (write_rpt_ena false) conn ip s h = disable-IsSeated env s
  effect-IsSeated env (write_gi on) conn ip s h =
      if_elim IsSeated (on && s.attrs.trg_ops.gi)
        (λ _. by_tenure s (report_all env gi_reason s) (tenure-report_all env gi_reason s) h)
        (λ _. h)
  effect-IsSeated env (write_purge_buf on) conn ip s h = if_elim IsSeated on (λ _. h) (λ _. h)
  effect-IsSeated env (write_entry_id id) conn ip s h = h
  effect-IsSeated env (write_dat_set r) conn ip s h = h
  effect-IsSeated env (write_resv on) conn ip s h = h
  effect-IsSeated env (write_rpt_id r) conn ip s h = h
  effect-IsSeated env (write_opt_flds o) conn ip s h = h
  effect-IsSeated env (write_trg_ops t) conn ip s h = h
  effect-IsSeated env (write_buf_tm n) conn ip s h = h
  effect-IsSeated env (write_intg_pd n) conn ip s h = h
  effect-IsSeated env write_read_only conn ip s h = h
  effect-IsSeated env write_unknown conn ip s h = h

  claimed-IsSeated :
      (conn : ℕ) (ip : Option IpAddr) (s : Rcb V) → IsSeated s → IsSeated (claimed conn ip s)
  unfolding take_block sync_resv stop_resv_timer
  claimed-IsSeated conn ip s h =
      if_elim IsSeated (is_some s.owner) (λ _. h)
        (λ none_yet. reseat s.enabled s.conn s.owner (some conn) none_yet h)

  store-IsSeated : (w : Write) (s : Rcb V) → IsSeated s → IsSeated (store w s)
  unfolding store
  store-IsSeated (write_resv b) s h = h
  store-IsSeated (write_rpt_ena b) s h = h
  store-IsSeated (write_gi b) s h = h
  store-IsSeated (write_purge_buf b) s h = h
  store-IsSeated (write_resv_tms t) s h = h
  store-IsSeated (write_entry_id id) s h = h
  store-IsSeated (write_dat_set r) s h = h
  store-IsSeated (write_rpt_id r) s h = h
  store-IsSeated (write_opt_flds o) s h = h
  store-IsSeated (write_trg_ops t) s h = h
  store-IsSeated (write_buf_tm n) s h = h
  store-IsSeated (write_intg_pd n) s h = h
  store-IsSeated write_read_only s h = h
  store-IsSeated write_unknown s h = h

  -- A refused write leaves everything as it is.
  decided-IsSeated :
      (env : Env V) (w : Write) (conn : ℕ) (ip : Option IpAddr) (s : Rcb V) (d : Decision)
      → IsSeated s
      → IsSeated (on_rcb_write env w conn ip (store w s))
      → IsSeated (decided env w conn ip s d)
  decided-IsSeated env w conn ip s permitted h k = k
  decided-IsSeated env w conn ip s temporarily_unavailable h k = h
  decided-IsSeated env w conn ip s object_access_denied h k = h
  decided-IsSeated env w conn ip s object_value_invalid h k = h

  held_write :
      (env : Env V) (w : Write) (conn : ℕ) (ip : Option IpAddr) (s : Rcb V)
      → IsSeated s
      → IsSeated (effect env w conn ip (claimed conn ip (store w s)))
  held_write env w conn ip s h =
      effect-IsSeated env w conn ip (claimed conn ip (store w s))
        (claimed-IsSeated conn ip (store w s) (store-IsSeated w s h))

  decision-IsSeated :
      (env : Env V) (w : Write) (conn : ℕ) (ip : Option IpAddr) (s : Rcb V)
      → allowed s.owner s.resv_ip conn ip ≡ true
      → IsSeated s
      → IsSeated (decided env w conn ip s (attribute_decision env s w))
  unfolding on_rcb_write store take_block sync_resv stop_resv_timer
  decision-IsSeated env (write_resv true) conn ip s ok h =
      keep_seat s.enabled s.conn s.owner s.resv_ip conn ip ok h
  decision-IsSeated env (write_resv false) conn ip s ok h =
      if_elim (λ d. IsSeated (decided env (write_resv false) conn ip s d)) s.resv_cfg (λ _. h)
        (λ _.
          refused_elim (λ d. IsSeated (decided env (write_resv false) conn ip s d)) s.enabled
            temporarily_unavailable
            (λ off. Freed-IsSeated (store (write_resv false) s) _ (release-Freed env _) off h) h)
  decision-IsSeated env w conn ip s ok h =
      decided-IsSeated env w conn ip s (attribute_decision env s w) h (held_write env w conn ip s h)

  write_attribute-IsSeated :
      (env : Env V) (w : Write) (conn : ℕ) (ip : Option IpAddr) (s : Rcb V)
      → IsSeated s
      → IsSeated (write_attribute env w conn ip s)
  unfolding write_attribute check_rcb_write
  write_attribute-IsSeated env w conn ip s h =
      if_elim (λ d. IsSeated (decided env w conn ip s d)) (allowed s.owner s.resv_ip conn ip)
        (λ ok. decision-IsSeated env w conn ip s ok h) (λ _. h)

  perform-IsSeated : (a : Action V) (s : Rcb V) → IsSeated s → IsSeated (perform a s)
  unfolding perform reservation_ends sync_resv
  perform-IsSeated (written env w conn ip) s h = write_attribute-IsSeated env w conn ip s h
  perform-IsSeated (updated env from_mms changes) s h =
      by_tenure s (update_block env from_mms changes s) (tenure-update_block env from_mms changes s)
        h
  perform-IsSeated (window_ended env generation) s h =
      by_tenure s (window_ends env generation s) (tenure-window_ends env generation s) h
  perform-IsSeated (period_ended env generation) s h =
      by_tenure s (integrity_tick env generation s).0 (tenure-integrity_tick env generation s) h
  perform-IsSeated (reservation_ended generation) s h =
      if_elim IsSeated (s.resv_gen == generation && not (is_some s.owner)) (λ _. h) (λ _. h)
  perform-IsSeated (gone env conn) s h = leave-IsSeated env conn s h

  -- Whatever clients write, and whatever updates, timers and ends of connections bring: a block that
  -- has no subscriber while it is disabled, and its owner as its subscriber while it is enabled, stays
  -- so.
  pub run-IsSeated : (actions : List (Action V)) (s : Rcb V) → IsSeated s → IsSeated (run actions s)
  unfolding run
  run-IsSeated [] s h = h
  run-IsSeated (a ∷ more) s h = run-IsSeated more (perform a s) (perform-IsSeated a s h)
