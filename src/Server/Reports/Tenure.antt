-- ===== src/Server/Reports/Tenure.antt =====
-- server/reporting.rs: what the sending of reports leaves alone, the holder and the configuration of
-- the block.
use rs_iec.Common.{ℕ, ◌≡◌, refl, ◌∙◌, Bool, not, List, [], ◌∷◌, Option, none, some, if_elim}
use rs_iec.Server.Reports.{ReportEntry, TrgOps, OptFlds, IpAddr, Rcb, Env, Report, DsMember}
use rs_iec.Server.Reports.Buffer.{
  subscriber, set_sq_num, send_all, transmit_to, transmit, advance, transmit_each,
  transmit_buffered, commit, emit, transmit_on, window_ends, flush_pending,
}
use rs_iec.Server.Reports.Control.{report_all, integrity_tick}
use rs_iec.Server.Reports.Changes.{Change, update_block}
use rs_iec.Server.Reports.Frame

-- Who holds the block and what is configured.
pub record Tenure : Type 0 where
  pub buffered : Bool
  pub max_buffer : ℕ
  pub enabled : Bool
  pub conn : Option ℕ
  pub owner : Option ℕ
  pub owner_ip : Option IpAddr
  pub resv_ip : Option IpAddr
  pub resv_cfg : Bool
  pub dat_set : List ℕ
  pub opt_flds : OptFlds
  pub trg_ops : TrgOps
  pub rpt_id : List ℕ
  pub conf_rev : ℕ
  pub buf_tm : ℕ
  pub intg_pd : ℕ

module _ {V : Type 0} where
  abbrev pub tenure : Rcb V → Tenure
  tenure s = record {
    buffered = s.buffered;
    max_buffer = s.max_buffer;
    enabled = s.enabled;
    conn = s.conn;
    owner = s.owner;
    owner_ip = s.owner_ip;
    resv_ip = s.resv_ip;
    resv_cfg = s.resv_cfg;
    dat_set = s.attrs.dat_set;
    opt_flds = s.attrs.opt_flds;
    trg_ops = s.attrs.trg_ops;
    rpt_id = s.attrs.rpt_id;
    conf_rev = s.attrs.conf_rev;
    buf_tm = s.attrs.buf_tm;
    intg_pd = s.attrs.intg_pd;
  }

  pub tenure-send_all :
      (env : Env V) (pdus : List (Report V)) (s : Rcb V) → tenure (send_all env pdus s) ≡ tenure s
  unfolding send_all
  tenure-send_all env [] s = refl
  tenure-send_all env (pdu ∷ rest) s =
      if_elim (λ r. tenure r ≡ tenure s) (env.accepts pdu) (λ _. tenure-send_all env rest _)
        (λ _. refl)

  pub tenure-transmit :
      (env : Env V) (e : ReportEntry V) (s : Rcb V) → tenure (transmit env e s) ≡ tenure s
  unfolding transmit transmit_to set_sq_num
  tenure-transmit env e s = transmit_on_lem (subscriber env s.conn)
    where
      transmit_on_lem : (o : Option (ℕ × ℕ)) → tenure (transmit_on env e s o) ≡ tenure s
      transmit_on_lem none = refl
      transmit_on_lem (some (c, max_pdu)) = tenure-send_all env _ _

  pub tenure-transmit_each :
      (env : Env V) (es : List (ReportEntry V)) (s : Rcb V)
      → tenure (transmit_each env es s) ≡ tenure s
  unfolding transmit_each
  tenure-transmit_each env [] s = refl
  tenure-transmit_each env (e ∷ es) s =
      tenure-transmit_each env es (advance (transmit env e s)) ∙ tenure-transmit env e s

  pub tenure-emit : (env : Env V) (e : ReportEntry V) (s : Rcb V) → tenure (emit env e s) ≡ tenure s
  unfolding emit transmit_buffered commit
  tenure-emit env e s =
      let timed : ReportEntry V = record e { time = env.now } in
      if_elim (λ r. tenure r ≡ tenure s) (not s.buffered)
        (λ _.
          if_elim (λ r. tenure r ≡ tenure s) s.enabled (λ _. tenure-transmit env timed s)
            (λ _. refl))
        (λ _.
          if_elim (λ r. tenure r ≡ tenure s) s.enabled
            (λ _. tenure-transmit_each env _ (commit s timed)) (λ _. refl))

  -- So does everything that is made of the sending of reports.
  pub tenure-flush_pending : (env : Env V) (s : Rcb V) → tenure (flush_pending env s) ≡ tenure s
  tenure-flush_pending env s =
      Frame.flush_pending-holds (λ t. tenure t ≡ tenure s) (λ t p k g h. h)
        (λ v e t h. tenure-emit v e t ∙ h) env s refl

  pub tenure-window_ends :
      (env : Env V) (generation : ℕ) (s : Rcb V) → tenure (window_ends env generation s) ≡ tenure s
  tenure-window_ends env generation s =
      Frame.window_ends-holds (λ t. tenure t ≡ tenure s) (λ t p k g h. h)
        (λ v e t h. tenure-emit v e t ∙ h) env generation s refl

  pub tenure-report_all :
      (env : Env V) (why : TrgOps) (s : Rcb V) → tenure (report_all env why s) ≡ tenure s
  tenure-report_all env why s =
      Frame.report_all-holds (λ t. tenure t ≡ tenure s) (λ t p k g h. h)
        (λ v e t h. tenure-emit v e t ∙ h) env why s refl

  pub tenure-integrity_tick :
      (env : Env V) (generation : ℕ) (s : Rcb V)
      → tenure (integrity_tick env generation s).0 ≡ tenure s
  tenure-integrity_tick env generation s =
      Frame.integrity_tick-holds (λ t. tenure t ≡ tenure s) (λ t p k g h. h)
        (λ v e t h. tenure-emit v e t ∙ h) env generation s refl

  pub tenure-update_block :
      (env : Env V) (from_mms : DsMember → List ℕ × ℕ) (changes : List Change) (s : Rcb V)
      → tenure (update_block env from_mms changes s) ≡ tenure s
  tenure-update_block env from_mms changes s =
      Frame.update_block-holds (λ t. tenure t ≡ tenure s) (λ t p k g h. h)
        (λ v e t h. tenure-emit v e t ∙ h) env from_mms changes s refl
