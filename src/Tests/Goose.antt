-- ===== src/Tests/Goose.antt =====
-- goose/ at a concrete publisher and a concrete subscriber.
use rs_iec.Common.{ℕ, suc, ◌≡◌, refl, Bool, true, false, List, [], ◌∷◌, none, some, arith, All}
use rs_iec.Common.Dictionary.{lookup}
use rs_iec.Goose.Messages.{Message}
use rs_iec.Goose.Tracker.{observe}
use rs_iec.Goose.Publisher.{
  Publisher, PublisherConfig, Task, announcement, publish_state, refresh, widest,
}
use rs_iec.Goose.Stream.{Segment, InStep, InSequence, change, repeat, run}
use rs_iec.Goose.Stream.Sequence.{run-InSequence, refresh_reported}

abbrev Msg : Type 0
Msg = Message ℕ ℕ

-- Thirty octets and one for each value.
abbrev counted : List ℕ → ℕ
counted [] = 30
counted (v ∷ vs) = suc (counted vs)

abbrev size : Msg → ℕ
size m = counted m.values

abbrev sends : Msg → Bool
sends m = true

abbrev config : PublisherConfig
config = record {
  app_id = 1;
  go_cb_ref = 5 ∷ [];
  dat_set = 6 ∷ [];
  go_id = 5 ∷ [];
  conf_rev = 1;
  time_quality = none;
  retrans = 4 ∷ 8 ∷ [];
  test = false;
  nds_com = false;
}

-- A publisher of four states, the last one of time 90.
abbrev running : Publisher ℕ
running = record {
  cfg = config;
  retrans = 4 ∷ 8 ∷ [];
  state = record {
    st_num = 4;
    sq_num = 0;
    test = false;
    nds_com = false;
    t = some 90;
    generation = 4;
  };
  closed = false;
}

abbrev last_message : Msg
last_message = record {
  go_cb_ref = 5 ∷ [];
  dat_set = 6 ∷ [];
  go_id = 5 ∷ [];
  time_allowed_to_live = 8;
  t = 90;
  st_num = 4;
  sq_num = 0;
  conf_rev = 1;
  test = false;
  nds_com = false;
  num_dat_set_entries = 1;
  values = 1 ∷ [];
  app_id = 1;
  time_quality = none;
}

abbrev last_task : Task ℕ ℕ
last_task = record { msg = last_message; generation = 4; i = 0 }

abbrev segment : Segment ℕ ℕ
segment = record {
  publisher = running;
  task = last_task;
  tracker = (5 ∷ [], record { st_num = 4; sq_num = 0; tatl = 8; arrival = 90 }) ∷ [];
}

segment-InStep : InStep segment
unfolding lookup
segment-InStep = record {
  generation = refl;
  reference = refl;
  state_number = refl;
  in_range = omega arith;
  last = record { st_num = 4; sq_num = 0; tatl = 8; arrival = 90 };
  known = refl;
  last_state = refl;
  last_sequence = refl;
}

run-InSequence_example :
    All InSequence (run size segment (repeat 94 ∷ change (2 ∷ []) 100 101 ∷ repeat 105 ∷ []))
run-InSequence_example =
    run-InSequence size segment (repeat 94 ∷ change (2 ∷ []) 100 101 ∷ repeat 105 ∷ [])
      segment-InStep

-- A subscriber that has heard nothing.
abbrev unheard : Segment ℕ ℕ
unheard = record segment { tracker = [] }

abbrev next_task : Task ℕ ℕ
next_task = record { msg = announcement running (2 ∷ []) true 100; generation = 5; i = 0 }

abbrev refresh_task : Task ℕ ℕ
refresh_task = record { msg = announcement running (2 ∷ []) false 100; generation = 5; i = 0 }

refresh_reported_example : (observe segment.tracker refresh_task.msg 101).1.sq_num_gap ≡ true
unfolding refresh publish_state widest announcement
refresh_reported_example =
    refresh_reported size segment (2 ∷ []) 100 101 refresh_task segment-InStep (omega arith) refl
