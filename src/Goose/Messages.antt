-- ===== src/Goose/Messages.antt =====
-- goose/message.rs: the fields of a message that a publisher sets and a subscriber tracks. A text
-- is the list of its octets, a time quality its octet; the data values and their timestamp are
-- parameters. `anomalies`, which is not part of the wire format, is the tracker's result instead.
use rs_iec.Common.{ℕ, ◌+◌, ◌%◌, ◌^◌, Bool, List, Option, max}

pub record Message (V T : Type 0) : Type 0 where
  pub go_cb_ref : List ℕ
  pub dat_set : List ℕ
  pub go_id : List ℕ
  pub time_allowed_to_live : ℕ
  pub t : T
  pub st_num : ℕ
  pub sq_num : ℕ
  pub conf_rev : ℕ
  pub test : Bool
  pub nds_com : Bool
  pub num_dat_set_entries : ℕ
  pub values : List V
  pub app_id : ℕ
  pub time_quality : Option ℕ

-- `n.wrapping_add(1).max(1)` on a `u32`: the counter after `n`, which never returns to 0.
abbrev pub following : ℕ → ℕ
following n = max ((n + 1) % 2 ^ 32) 1
