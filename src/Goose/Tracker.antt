-- ===== src/Goose/Tracker.antt =====
-- goose/subscriber.rs: the filter and the sequence tracker. Instants and durations are numbers of
-- milliseconds; `duration_since` stops at zero, as `-` does.
use rs_iec.Common.{
  ℕ, ◌-◌, Bool, true, false, ◌==◌, ltb, not, ◌&&◌, ◌||◌, if◌then◌else◌, List, [], ◌∷◌, Option, none,
  some, length,
}
use rs_iec.Common.Dictionary.{lookup, insert, list_eq}
use rs_iec.Goose.Messages.{Message, following}

pub record Filter : Type 0 where
  pub app_id : ℕ
  pub go_cb_ref : List ℕ

abbrev pub is_empty : List ℕ → Bool
is_empty [] = true
is_empty (x ∷ xs) = false

pub record Anomalies : Type 0 where
  pub st_num_regressed : Bool
  pub sq_num_gap : Bool
  pub stale : Bool
  pub entries_mismatch : Bool

unfoldable pub any : Anomalies → Bool
any a = a.st_num_regressed || (a.sq_num_gap || (a.stale || a.entries_mismatch))

abbrev pub no_anomalies : Anomalies
no_anomalies = record {
  st_num_regressed = false;
  sq_num_gap = false;
  stale = false;
  entries_mismatch = false;
}

pub record SeqState : Type 0 where
  pub st_num : ℕ
  pub sq_num : ℕ
  pub tatl : ℕ
  pub arrival : ℕ

abbrev pub Tracker : Type 0
Tracker = List (List ℕ × SeqState)

module _ {V T : Type 0} where
  unfoldable pub matches : Filter → Message V T → Bool
  matches f m =
      if not (f.app_id == 0) && not (m.app_id == f.app_id)
      then false
      else if not (is_empty f.go_cb_ref) && not (list_eq m.go_cb_ref f.go_cb_ref)
      then false
      else true

  -- What a message leaves of its control block.
  abbrev pub seen : Message V T → ℕ → SeqState
  seen m now = record {
    st_num = m.st_num;
    sq_num = m.sq_num;
    tatl = m.time_allowed_to_live;
    arrival = now;
  }

  -- The comparison with the state before.
  abbrev pub compared : SeqState → Message V T → ℕ → Anomalies
  compared st m now =
      let wrapped = st.st_num == 4294967295 && m.st_num == 1 in
      record {
        st_num_regressed = ltb m.st_num st.st_num && not wrapped;
        sq_num_gap =
            if m.st_num == st.st_num
            then not (m.sq_num == following st.sq_num)
            else not (m.sq_num == 0);
        stale = not (st.tatl == 0) && ltb st.tatl (now - st.arrival);
        entries_mismatch = false;
      }

  abbrev pub verdict : Option SeqState → Message V T → ℕ → Anomalies
  verdict none m now = no_anomalies
  verdict (some st) m now = compared st m now

  unfoldable pub observe : Tracker → Message V T → ℕ → Tracker × Anomalies
  observe states m now = (
    insert list_eq m.go_cb_ref (seen m now) states,
    verdict (lookup list_eq m.go_cb_ref states) m now,
  )

  -- What the receive loop delivers for a frame that parsed and matched.
  unfoldable pub deliver : Tracker → Message V T → ℕ → Tracker × Anomalies
  deliver states m now =
      let (states', a) = observe states m now in
      (states', record a { entries_mismatch = not (m.num_dat_set_entries == length m.values) })
