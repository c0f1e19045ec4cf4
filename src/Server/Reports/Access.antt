-- ===== src/Server/Reports/Access.antt =====
-- server/reporting.rs: a client's write of a control block's attribute: the decision before anything
-- is stored, and the effect of the stored write.
use rs_iec.Common.{
  ℕ, ℤ, pos, negsuc, ◌+◌, ◌%◌, ◌^◌, Bool, true, false, ◌==◌, not, ◌&&◌, ◌||◌, if◌then◌else◌, List,
  [], ◌∷◌, Option, some, length,
}
use rs_iec.Server.Reports.{TrgOps, OptFlds, IpAddr, Rcb, Env}
use rs_iec.Server.Reports.Entries.{buffer_index, is_zero_entry_id}
use rs_iec.Server.Reports.Control.{
  allowed, is_some, take_block, release, stop_resv_timer, enable, disable, report_all, gi_reason,
  purge,
}

-- An attribute with the value written to it, read as the engine reads it.
pub data Write : Type 0 where
  write_resv write_rpt_ena write_gi write_purge_buf : Bool → Write
  write_resv_tms : ℤ → Write
  write_entry_id write_dat_set write_rpt_id : List ℕ → Write
  write_opt_flds : OptFlds → Write
  write_trg_ops : TrgOps → Write
  write_buf_tm write_intg_pd : ℕ → Write
  write_read_only write_unknown : Write

pub data Decision : Type 0 where
  permitted temporarily_unavailable object_access_denied object_value_invalid : Decision

abbrev pub is_negative : ℤ → Bool
is_negative (pos n) = false
is_negative (negsuc n) = true

abbrev pub is_zero : ℤ → Bool
is_zero (pos n) = n == 0
is_zero (negsuc n) = false

abbrev pub refused_if : Bool → Decision → Decision
refused_if true d = d
refused_if false d = permitted

abbrev pub is_empty {ℓ} : {A : Type ℓ} → List A → Bool
is_empty [] = true
is_empty (x ∷ xs) = false

module _ {V : Type 0} where
  -- What a setting's own value has to satisfy.
  abbrev pub setting_decision : Env V → Rcb V → Write → Decision
  setting_decision env s (write_dat_set r) =
      refused_if (not (is_empty r) && not (is_some (env.resolve_data_set r))) object_value_invalid
  setting_decision env s (write_entry_id id) =
      refused_if
        (not (length id == 8)
          || (not (is_zero_entry_id id) && not (is_some (buffer_index s.buffer id))))
        object_value_invalid
  setting_decision env s w = permitted

  -- The attributes that a client changes only while the block is disabled.
  abbrev pub setting : Env V → Rcb V → Write → Decision
  setting env s w = if s.enabled then temporarily_unavailable else setting_decision env s w

  abbrev pub attribute_decision : Env V → Rcb V → Write → Decision
  attribute_decision env s write_read_only = object_access_denied
  attribute_decision env s (write_rpt_ena true) =
      refused_if (s.enabled || not (is_some (env.resolve_data_set s.attrs.dat_set)))
        temporarily_unavailable
  attribute_decision env s (write_rpt_ena false) = permitted
  attribute_decision env s (write_gi on) = refused_if (on && not s.enabled) temporarily_unavailable
  attribute_decision env s (write_resv true) = permitted
  attribute_decision env s (write_resv false) =
      if s.resv_cfg then object_access_denied else refused_if s.enabled temporarily_unavailable
  attribute_decision env s (write_resv_tms t) =
      if s.resv_cfg
      then object_access_denied
      else if is_negative t
      then object_value_invalid
      else setting env s (write_resv_tms t)
  attribute_decision env s write_unknown = permitted
  attribute_decision env s w = setting env s w

  unfoldable pub check_rcb_write : Env V → Rcb V → Write → ℕ → Option IpAddr → Decision
  check_rcb_write env s w conn ip =
      if allowed s.owner s.resv_ip conn ip
      then attribute_decision env s w
      else temporarily_unavailable

  -- The write itself, which the caller makes between the decision and the effect.
  unfoldable pub store : Write → Rcb V → Rcb V
  store (write_resv b) s = record s { attrs = record (s.attrs) { resv = b } }
  store (write_rpt_ena b) s = record s { attrs = record (s.attrs) { rpt_ena = b } }
  store (write_gi b) s = record s { attrs = record (s.attrs) { gi = b } }
  store (write_purge_buf b) s = record s { attrs = record (s.attrs) { purge_buf = b } }
  store (write_resv_tms t) s = record s { attrs = record (s.attrs) { resv_tms = t } }
  store (write_entry_id id) s = record s { attrs = record (s.attrs) { entry_id = id } }
  store (write_dat_set r) s = record s { attrs = record (s.attrs) { dat_set = r } }
  store (write_rpt_id r) s = record s { attrs = record (s.attrs) { rpt_id = r } }
  store (write_opt_flds o) s = record s { attrs = record (s.attrs) { opt_flds = o } }
  store (write_trg_ops t) s = record s { attrs = record (s.attrs) { trg_ops = t } }
  store (write_buf_tm n) s = record s { attrs = record (s.attrs) { buf_tm = n } }
  store (write_intg_pd n) s = record s { attrs = record (s.attrs) { intg_pd = n } }
  store write_read_only s = s
  store write_unknown s = s

  unfoldable pub interrogate : Env V → Bool → Rcb V → Rcb V
  interrogate env on s =
      let done = if on && s.attrs.trg_ops.gi then report_all env gi_reason s else s in
      record done { attrs = record (done.attrs) { gi = false } }

  unfoldable pub purge_written : Bool → Rcb V → Rcb V
  purge_written on s =
      let done = if on then purge s else s in
      record done { attrs = record (done.attrs) { purge_buf = false } }

  unfoldable pub data_set_written : Rcb V → Rcb V
  data_set_written s =
      purge (record s { attrs = record (s.attrs) { conf_rev = (s.attrs.conf_rev + 1) % 2 ^ 32 } })

  -- The effect on a block that the writer holds.
  abbrev pub effect : Env V → Write → ℕ → Option IpAddr → Rcb V → Rcb V
  effect env (write_resv_tms t) conn ip s = if is_zero t then stop_resv_timer s else s
  effect env (write_rpt_ena true) conn ip s = enable env conn ip s
  effect env (write_rpt_ena false) conn ip s = disable env s
  effect env (write_gi on) conn ip s = interrogate env on s
  effect env (write_purge_buf on) conn ip s = purge_written on s
  effect env (write_entry_id id) conn ip s = record s { resync_id = some id }
  effect env (write_dat_set r) conn ip s = data_set_written s
  effect env w conn ip s = s

  -- Writing a block reserves it for the writer.
  abbrev pub claimed : ℕ → Option IpAddr → Rcb V → Rcb V
  claimed conn ip s = if is_some s.owner then s else take_block conn ip s

  unfoldable pub on_rcb_write : Env V → Write → ℕ → Option IpAddr → Rcb V → Rcb V
  on_rcb_write env (write_resv true) conn ip s = take_block conn ip s
  on_rcb_write env (write_resv false) conn ip s = release env s
  on_rcb_write env w conn ip s = effect env w conn ip (claimed conn ip s)

  abbrev pub decided : Env V → Write → ℕ → Option IpAddr → Rcb V → Decision → Rcb V
  decided env w conn ip s permitted = on_rcb_write env w conn ip (store w s)
  decided env w conn ip s d = s

  -- A client's write, as the server carries it out.
  unfoldable pub write_attribute : Env V → Write → ℕ → Option IpAddr → Rcb V → Rcb V
  write_attribute env w conn ip s = decided env w conn ip s (check_rcb_write env s w conn ip)
