-- ===== src/Sv/Subscribers.antt =====
-- sv/subscriber.rs: the filter, and the ASDUs that the reader thread hands over for the frames that
-- it reads before it is stopped.
pub mod Deliveries
use rs_iec.Common.{ℕ, Bool, true, false, ◌==◌, not, ◌&&◌, if◌then◌else◌, List, [], ◌∷◌, ◌++◌}
use rs_iec.Common.Dictionary.{list_eq}
use rs_iec.Goose.Codec.{Result, ok, err, exhausted}
use rs_iec.Goose.Tracker.{is_empty}
use rs_iec.Sv.Pdus.{Asdu, Pdu, parse}

pub record Filter : Type 0 where
  pub app_id : ℕ
  pub sv_id : List ℕ

unfoldable pub matches : Filter → ℕ → Asdu → Bool
matches f app_id a =
    if not (f.app_id == 0) && not (app_id == f.app_id)
    then false
    else if not (is_empty f.sv_id) && not (list_eq a.sv_id f.sv_id)
    then false
    else true

-- The part of a frame that is read.
pub record Frame : Type 0 where
  pub ether_type : ℕ
  pub payload : List ℕ

abbrev pub ether_type_sv : ℕ
ether_type_sv = 0x88ba

-- The ASDUs of one APDU that are handed over.
unfoldable pub selected : Filter → ℕ → List Asdu → List Asdu
selected f app_id [] = []
selected f app_id (a ∷ asdus) =
    let rest = selected f app_id asdus in if matches f app_id a then a ∷ rest else rest

module _ (lossy : List ℕ → List ℕ) where
  unfoldable pub handled : Filter → Result Pdu → List Asdu
  handled f (ok p) = selected f p.app_id p.asdus
  handled f err = []
  handled f exhausted = []

  unfoldable pub delivered : Filter → Frame → List Asdu
  unfolding handled
  delivered f frame =
      if not (frame.ether_type == ether_type_sv) then [] else handled f (parse lossy frame.payload)

  unfoldable pub run : Filter → List Frame → List Asdu
  run f [] = []
  run f (frame ∷ frames) = delivered f frame ++ run f frames
