-- ===== src/Tests/Keys.antt =====
-- rsession/keys.rs, rsession/replay.rs, rsession/spdu.rs and rsession/session.rs at concrete keys and numbers.
use rs_iec.Common.{
  ℕ, ◌<◌, ◌≡◌, ◌≢◌, refl, true, false, List, [], ◌∷◌, none, some, arith, replicate, pos,
}
use rs_iec.Common.Dictionary.{lookup, insert, remove}
use rs_iec.Rsession.Keys.{
  Key, validate, KeyStore, new, active, active_key, lookup_key, add, set_active, remove_key,
  mac_len,
}
use rs_iec.Rsession.Keys.Store.{
  Change, added, removed, chosen, changes, change, changes-active_key, changes-keep,
}
use rs_iec.Rsession.Payloads.{Payload, payloads, user_data, too_long, elements}
use rs_iec.Rsession.Payloads.RoundTrip.{IsWritable, elements-user_data}
use rs_iec.Rsession.Replay.{empty, accept, wrapping_sub, behind, shifted}
use rs_iec.Rsession.Replay.Once.{Call, after, Recent, accept_once}
use rs_iec.Rsession.Replay.Window.{age}
use rs_iec.Rsession.Streams.{StreamKey, fresh, find, keep}
use rs_iec.Rsession.Streams.Alone.{Arrival, answers, answers_alone, InOrder, answers-alone}

abbrev key : ℕ → Key
key id = record {
  id = id;
  material = replicate 16 7;
  sec = 0;
  sig = 2;
  time_of_current_key = 0;
  time_to_next_key = pos 0;
}

-- Key 5 becomes active, then key 6 comes and goes.
abbrev history : List Change
history = added (key 5) ∷ chosen 5 ∷ added (key 6) ∷ removed 6 ∷ []

changes-active_key_example :
    (validate (key 5) ≡ none) × (active (changes history new) ≡ 5) × (0 < 5)
unfolding changes change add set_active remove_key active_key validate lookup insert remove mac_len
changes-active_key_example = changes-active_key history (key 5) refl

abbrev store : KeyStore
store = record { keys = (5, key 5) ∷ []; active_id = 5 }

differs : ◌≢◌ {A = ℕ} 6 5
differs e = omega (arith, e)

changes-keep_example :
    (active_key (changes (added (key 6) ∷ removed 6 ∷ []) store) ≡ some (key 5))
    × (lookup_key (changes (added (key 6) ∷ removed 6 ∷ []) store) 5 ≡ some (key 5))
unfolding active_key lookup
changes-keep_example =
    changes-keep (added (key 6) ∷ removed 6 ∷ []) store (key 5) (differs, (differs, tt)) refl

-- Numbers 8 and 6 come between, as the counter wraps.
abbrev calls : List Call
calls = record { number = 2; now = 11 } ∷ record { number = 0; now = 12 } ∷ []

accept_once_example :
    (accept (after (accept empty 4294967295 10 64 none).0 64 none calls) 4294967295 13 64 none).1
    ≡ false
unfolding accept Recent age wrapping_sub behind shifted
accept_once_example =
    accept_once empty 4294967295 10 64 none calls 13 (omega arith) (omega arith) refl (omega arith)
      refl (omega arith, omega arith, refl, (omega arith, omega arith, refl, (omega arith, refl)))

abbrev stream : ℕ → StreamKey
stream address = record { from = address; si = 161; key_id = 5 }

-- A number that comes twice, and the same one from another address between.
abbrev arrivals : List Arrival
arrivals =
    record { key = stream 1; number = 7; now = 20 }
    ∷ record { key = stream 2; number = 7; now = 21 }
    ∷ record { key = stream 1; number = 7; now = 22 }
    ∷ []

answers_run : answers (stream 1) 64 (some 100) [] arrivals ≡ true ∷ false ∷ []
unfolding answers fresh find keep accept wrapping_sub behind
answers_run = refl

answers-alone_example :
    answers (stream 1) 64 (some 100) [] arrivals
    ≡ answers_alone (stream 1) 64 (some 100) empty arrivals
unfolding InOrder
answers-alone_example =
    answers-alone arrivals (stream 1) 64 (some 100) (omega arith, (omega arith, (omega arith, tt)))

abbrev two_payloads : List Payload
two_payloads =
    record { kind = 129; simulation = true; app_id = 4097; apdu = 97 ∷ 0 ∷ [] }
    ∷ record { kind = 130; simulation = false; app_id = 16384; apdu = replicate 300 5 }
    ∷ []

elements-user_data_example : elements 2 (user_data two_payloads) ≡ payloads two_payloads
unfolding IsWritable too_long
elements-user_data_example =
    elements-user_data two_payloads 2 (omega arith, (omega arith, tt)) refl (omega arith)
