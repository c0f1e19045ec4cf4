-- ===== src/Server/Reports.antt =====
-- server/rcb.rs and server/reporting.rs: the state of one report control block. The runtime state of
-- the block, its identity, the attributes that the model holds for it, and of the report engine the
-- source of EntryIDs are one record, together with the PDUs that the associations' queues took.
-- Texts are their octets, a time is a number of the clock's unit, a `ConnId` is its number, and a
-- value of the data model is of the type `V`.
pub mod Entries
pub mod Messages
pub mod Buffer
pub mod Control
pub mod Access
pub mod Changes
pub mod Frame
pub mod Tenure
pub mod Segments
pub mod Inclusion
pub mod Receiver
pub mod Gathering
pub mod Merging
pub mod Identifiers
pub mod Delivery
pub mod Log
pub mod Reconnect
pub mod Returning
pub mod Reach
pub mod Exclusion
pub mod Seats
pub mod Writes
pub mod Bounds
pub mod Ranges
pub mod Runs
pub mod Departure
use rs_iec.Common.{ℕ, ℤ, Bool, true, false, List, Option, none, ◌&&◌, ◌||◌}

-- The trigger options, which are also the reasons for inclusion: the bits have the same places.
pub record TrgOps : Type 0 where
  pub data_change : Bool
  pub quality_change : Bool
  pub data_update : Bool
  pub integrity : Bool
  pub gi : Bool

abbrev pub no_trigger : TrgOps
no_trigger = record {
  data_change = false;
  quality_change = false;
  data_update = false;
  integrity = false;
  gi = false;
}

-- `|` and `&` of the masks
unfoldable pub either : TrgOps → TrgOps → TrgOps
either a b = record {
  data_change = a.data_change || b.data_change;
  quality_change = a.quality_change || b.quality_change;
  data_update = a.data_update || b.data_update;
  integrity = a.integrity || b.integrity;
  gi = a.gi || b.gi;
}

unfoldable pub both : TrgOps → TrgOps → TrgOps
both a b = record {
  data_change = a.data_change && b.data_change;
  quality_change = a.quality_change && b.quality_change;
  data_update = a.data_update && b.data_update;
  integrity = a.integrity && b.integrity;
  gi = a.gi && b.gi;
}

-- `r != 0`
unfoldable pub any_trigger : TrgOps → Bool
any_trigger r = r.data_change || r.quality_change || r.data_update || r.integrity || r.gi

-- The optional fields of a report.
pub record OptFlds : Type 0 where
  pub seq_num : Bool
  pub time_of_entry : Bool
  pub reason_code : Bool
  pub data_set_name : Bool
  pub data_ref : Bool
  pub buf_ovfl : Bool
  pub entry_id : Bool
  pub conf_rev : Bool
  pub segmentation : Bool

pub record DsMember : Type 0 where
  pub domain : List ℕ
  pub item : List ℕ

-- An address by its octets, and a test of two of them.
pub data IpAddr : Type 0 where
  v4 v6 : List ℕ → IpAddr

pub record ReportEntry (V : Type 0) : Type 0 where
  pub id : List ℕ
  pub time : ℕ
  pub members : List ℕ
  pub values : List V
  pub reasons : List TrgOps

-- A timer task by what it was started with.
pub record Timer : Type 0 where
  pub generation : ℕ
  pub period : ℕ

-- The attributes that the model holds for the block, read as the engine reads them: a missing one
-- as the default of its type.
pub record Attributes : Type 0 where
  pub rpt_id : List ℕ
  pub dat_set : List ℕ
  pub conf_rev : ℕ
  pub opt_flds : OptFlds
  pub buf_tm : ℕ
  pub sq_num : ℕ
  pub trg_ops : TrgOps
  pub intg_pd : ℕ
  pub rpt_ena : Bool
  pub gi : Bool
  pub purge_buf : Bool
  pub owner : List ℕ
  pub resv : Bool
  pub entry_id : List ℕ
  pub time_of_entry : ℕ
  pub resv_tms : ℤ

-- One field of a report's access results, by the constructor of its `Value`.
pub data Field (V : Type 0) : Type 0 where
  visible_string : List ℕ → Field V
  flags : OptFlds → Field V
  uint8 : ℕ → Field V
  uint16 : ℕ → Field V
  uint32 : ℕ → Field V
  binary_time : ℕ → Field V
  boolean : Bool → Field V
  octet_string : List ℕ → Field V
  bit_string : List Bool → Field V
  data_value : V → Field V
  reason : TrgOps → Field V

-- A report's PDU by its fields, with what it was built from: the association it is for, the entry,
-- the run `[from, until)` of the entry's members, and SubSeqNum and MoreSegmentsFollow of a segment.
pub record Report (V : Type 0) : Type 0 where
  pub conn : ℕ
  pub entry : ReportEntry V
  pub seq : ℕ
  pub overflow : Bool
  pub from : ℕ
  pub until : ℕ
  pub segment : Option (ℕ × Bool)
  pub fields : List (Field V)

-- A block with its registry entry, its attributes and the engine's source of EntryIDs.
pub record Rcb (V : Type 0) : Type 0 where
  pub domain : List ℕ
  pub item : List ℕ
  pub buffered : Bool
  pub max_buffer : ℕ
  pub attrs : Attributes
  pub enabled : Bool
  pub conn : Option ℕ
  pub owner : Option ℕ
  pub owner_ip : Option IpAddr
  pub resv_ip : Option IpAddr
  pub resv_cfg : Bool
  pub resv_timer : Option Timer
  pub resv_gen : ℕ
  pub sq_num : ℕ
  pub integrity : Option Timer
  pub integrity_gen : ℕ
  pub pending : Option (ReportEntry V)
  pub pending_timer : Option Timer
  pub pending_gen : ℕ
  pub buffer : List (ReportEntry V)
  pub next : ℕ
  pub resync_id : Option (List ℕ)
  pub buf_overflow : Bool
  pub entry_seed : ℕ
  pub entry_counter : ℕ
  pub sent : List (Report V)

-- What a call finds around the block: the connection table with the greatest PDU of each
-- association, whether an association's queue takes a PDU, the clock, whether the engine has its
-- server and a runtime to start timers on, the model's data sets and values, and the size of an encoded report.
pub record Env (V : Type 0) : Type 0 where
  pub conns : ℕ → Option ℕ
  pub accepts : Report V → Bool
  pub now : ℕ
  pub served : Bool
  pub spawns : Bool
  pub resolve_data_set : List ℕ → Option (List DsMember)
  pub item_value : DsMember → Option V
  pub size : List (Field V) → ℕ
