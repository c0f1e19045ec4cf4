-- ===== src/Tests/Reports.antt =====
-- server/reporting.rs at concrete blocks: values are numbers, and a report's size is the number of its
-- fields.
use rs_iec.Common.{
  ℕ, ◌≡◌, ◌≢◌, ◌⊎◌, refl, sym, ◌∙◌, true, false, List, [], ◌∷◌, ◌++◌, none, some, arith, pos,
  length, length-append, All, drop,
}
use mathlib.Core.List.{Perm}
use rs_iec.Server.Reports.{
  ReportEntry, TrgOps, OptFlds, no_trigger, DsMember, Attributes, Rcb, Env, boolean,
}
use rs_iec.Server.Reports.Entries.{merge, overlaps, is_zero_entry_id}
use rs_iec.Server.Reports.Messages.{report_pdus}
use rs_iec.Server.Reports.Control.{enable, leave}
use rs_iec.Server.Reports.Access.{write_rpt_ena, write_dat_set}
use rs_iec.Server.Reports.Segments.{
  BooleansAlike, Chain, Fitted, Numbered, built, report_pdus-partition,
}
use rs_iec.Server.Reports.Receiver.{Receipt}
use rs_iec.Server.Reports.Gathering.{receipts}
use rs_iec.Server.Reports.Merging.{IsAligned, rows_of, merge-IsAligned}
use rs_iec.Server.Reports.Delivery.{deliveries, pdus_for}
use rs_iec.Server.Reports.Log.{Keeps, emit_series, entries_of, emit_series-Keeps}
use rs_iec.Server.Reports.Identifiers.{Distinct, entries_of-Distinct}
use rs_iec.Server.Reports.Reconnect.{enable-resumes, enable-overflow}
use rs_iec.Server.Reports.Returning.{enable-emit_series}
use rs_iec.Server.Reports.Tenure.{tenure}
use rs_iec.Server.Reports.Reach.{Action, written, updated, window_ended, gone, run, IsSeated}
use rs_iec.Server.Reports.Exclusion.{run-Foreign}
use rs_iec.Server.Reports.Writes.{run-IsSeated}
use rs_iec.Server.Reports.Bounds.{IsBounded}
use rs_iec.Server.Reports.Runs.{run-IsBounded}
use rs_iec.Server.Reports.Departure.{stock, last_entry, leave-absent}

abbrev fields : OptFlds
fields = record {
  seq_num = true;
  time_of_entry = false;
  reason_code = false;
  data_set_name = false;
  data_ref = false;
  buf_ovfl = true;
  entry_id = true;
  conf_rev = false;
  segmentation = false;
}

abbrev changed : TrgOps
changed = record no_trigger { data_change = true }

abbrev attributes : Attributes
attributes = record {
  rpt_id = 82 ∷ [];
  dat_set = 68 ∷ [];
  conf_rev = 1;
  opt_flds = fields;
  buf_tm = 50;
  sq_num = 0;
  trg_ops = changed;
  intg_pd = 0;
  rpt_ena = false;
  gi = false;
  purge_buf = false;
  owner = [];
  resv = false;
  entry_id = [];
  time_of_entry = 0;
  resv_tms = pos 0;
}

-- A buffered block with room for two entries, which nobody holds.
abbrev block : Rcb ℕ
block = record {
  domain = 76 ∷ [];
  item = 66 ∷ [];
  buffered = true;
  max_buffer = 2;
  attrs = attributes;
  enabled = false;
  conn = none;
  owner = none;
  owner_ip = none;
  resv_ip = none;
  resv_cfg = false;
  resv_timer = none;
  resv_gen = 0;
  sq_num = 0;
  integrity = none;
  integrity_gen = 0;
  pending = none;
  pending_timer = none;
  pending_gen = 0;
  buffer = [];
  next = 0;
  resync_id = none;
  buf_overflow = false;
  entry_seed = 1;
  entry_counter = 0;
  sent = [];
}

abbrev member : DsMember
member = record { domain = 76 ∷ []; item = 77 ∷ [] }

-- Any connection is there, with room for eleven octets in a PDU, and its queue takes them all.
abbrev around : Env ℕ
around = record {
  conns = λ c. some 11;
  accepts = λ r. true;
  now = 5;
  served = true;
  spawns = true;
  resolve_data_set = λ r. some (member ∷ member ∷ member ∷ []);
  item_value = λ m. some 7;
  size = length;
}

abbrev entry : ReportEntry ℕ
entry = record {
  id = 9 ∷ [];
  time = 5;
  members = 0 ∷ 1 ∷ 2 ∷ [];
  values = 10 ∷ 11 ∷ 12 ∷ [];
  reasons = changed ∷ changed ∷ changed ∷ [];
}

abbrev at_member : ℕ → List ℕ → ReportEntry ℕ
at_member m id = record {
  id = id;
  time = 4;
  members = m ∷ [];
  values = 20 ∷ [];
  reasons = changed ∷ [];
}

length-BooleansAlike : BooleansAlike {V = ℕ} length
length-BooleansAlike fs gs =
    length-append fs (boolean true ∷ gs) ∙ sym (length-append fs (boolean false ∷ gs))

report_pdus-partition_example :
    Chain 0 3 (report_pdus around block entry 0 false 7 11)
    × All (Fitted around block entry 0 false 7 11) (report_pdus around block entry 0 false 7 11)
    × ((report_pdus around block entry 0 false 7 11
          ≡ built around block entry 0 false 7 11 0 3 none ∷ [])
        ⊎ Numbered 0 (report_pdus around block entry 0 false 7 11))
report_pdus-partition_example =
    report_pdus-partition around block entry 0 false 7 11 length-BooleansAlike (omega arith)

-- What a receiver reads of that entry's PDUs.
abbrev read_back : List (Receipt ℕ)
read_back = receipts (report_pdus around block entry 0 false 7 11)

aligned : IsAligned (at_member 2 [])
aligned = record { values = refl; reasons = refl; ascending = (tt, tt) }

merge-IsAligned_example :
    IsAligned (merge (at_member 2 []) (at_member 0 []))
    × Perm
        (rows_of (merge (at_member 2 []) (at_member 0 [])))
        (rows_of (at_member 2 []) ++ rows_of (at_member 0 []))
unfolding overlaps
merge-IsAligned_example = merge-IsAligned (at_member 2 []) (at_member 0 []) aligned (tt, tt) refl

-- Three events, one more than the buffer holds.
abbrev events : List (Env ℕ × ReportEntry ℕ)
events = (around, at_member 0 []) ∷ (around, at_member 1 []) ∷ (around, at_member 2 []) ∷ []

empty_log : Keeps [] 0 false block
empty_log = record { newest = refl; position = refl; told = refl }

emit_series-Keeps_example : Keeps (entries_of 1 0 events) 0 false (emit_series events block)
emit_series-Keeps_example =
    emit_series-Keeps events [] 0 false block refl refl (omega arith) empty_log

enable-emit_series_example :
    (enable around 7 none (emit_series events block)).sent
    ≡ deliveries
        (pdus_for around (emit_series events block) 7 11)
        true
        (drop 1 (entries_of 1 0 events))
        0
        true
enable-emit_series_example =
    enable-emit_series around 7 none 11 block events (λ r. refl) refl refl refl refl refl refl
      (omega arith)

-- The buffer holds two entries, and the client has seen the first.
abbrev two_entries : Rcb ℕ
two_entries = record block {
  buffer = at_member 0 (1 ∷ []) ∷ at_member 1 (2 ∷ []) ∷ [];
  next = 2;
  resync_id = some (1 ∷ []);
}

enable-resumes_example :
    (enable around 7 none two_entries).sent
    ≡ deliveries (pdus_for around two_entries 7 11) true (at_member 1 (2 ∷ []) ∷ []) 0 false
unfolding is_zero_entry_id
enable-resumes_example =
    enable-resumes around 7 none two_entries 11 [] (at_member 1 (2 ∷ []) ∷ [])
      (at_member 0 (1 ∷ [])) (λ r. refl) refl refl refl refl refl tt

abbrev purged : Rcb ℕ
purged = record two_entries { resync_id = some (3 ∷ []) }

enable-overflow_example :
    (enable around 7 none purged).sent
    ≡ deliveries (pdus_for around purged 7 11) true purged.buffer 0 true
unfolding is_zero_entry_id
enable-overflow_example =
    enable-overflow around 7 none purged 11 (3 ∷ []) (λ r. refl) refl refl refl refl
      (refl, (refl, tt))

-- Connection 7 holds the block and has it enabled; 8 interferes.
abbrev subscribed : Rcb ℕ
subscribed = record block { enabled = true; conn = some 7; owner = some 7 }

abbrev interference : List (Action ℕ)
interference =
    written around (write_rpt_ena false) 8 none
    ∷ updated around (λ m. (m.item, 3))
        ((record { reference = 77 ∷ []; fc = 3; triggers = changed }) ∷ [])
    ∷ written around (write_dat_set []) 8 none
    ∷ window_ended around 0
    ∷ gone around 8
    ∷ []

other : ◌≢◌ {A = ℕ} 7 8
other e = omega (arith, e)

run-Foreign_example : tenure (run interference subscribed) ≡ tenure subscribed
run-Foreign_example =
    run-Foreign interference subscribed 7 (7, refl, refl) refl
      (other, (tt, (other, (tt, (other, tt)))))

run-IsSeated_example : IsSeated (run interference subscribed)
run-IsSeated_example = run-IsSeated interference subscribed (7, refl, refl)

bounded : IsBounded subscribed
bounded = record { position = omega arith; depth = omega arith; number = omega arith }

run-IsBounded_example : IsBounded (run interference subscribed)
run-IsBounded_example = run-IsBounded interference subscribed bounded

-- An event waits in the window as the connection ends.
abbrev waiting : Rcb ℕ
waiting = record subscribed { pending = some (at_member 0 []) }

abbrev disconnected : Env ℕ
disconnected = record around { conns = λ c. none }

leave-absent_example : stock (leave disconnected 7 waiting) ≡ record {
  sent = [];
  buffer = last_entry around waiting (at_member 0 []) ∷ [];
  next = 1;
  loss = false;
}
leave-absent_example =
    leave-absent disconnected waiting 7 (at_member 0 []) refl refl refl refl refl (omega arith) refl
      refl (omega arith)

entries_of-Distinct_example : Distinct (entries_of 1 0 events)
entries_of-Distinct_example =
    entries_of-Distinct 1 events 0 (omega arith) (omega arith) (omega arith)
