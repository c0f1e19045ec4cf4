-- ===== src/Sv/Subscribers/Deliveries.antt =====
-- sv/subscriber.rs and sv/pdu.rs: what a subscriber hands over of what publishers send.
use rs_iec.Common.{
  Bool-cases, not, ◌&&◌, true, ◌⊎◌, inl, inr, ℕ, ◌≡◌, ◌≢◌, refl, false, ◌==◌, List, [], ◌∷◌, ◌++◌,
  arith, All,
}
use rs_iec.Common.Dictionary.{list_eq, list_eq_iff}
use rs_iec.Goose.Tracker.{is_empty}
use rs_iec.Sv.Pdus.{Asdu, Pdu, marshal}
use rs_iec.Sv.Pdus.RoundTrip.{IsSendable, received, parse-marshal_sav}
use rs_iec.Sv.Subscribers.{Filter, Frame, ether_type_sv, matches, selected, handled, delivered, run}

-- What stands on the segment: an APDU that was sent, with the padding of its frame, or a frame of
-- another protocol.
pub data Traffic : Type 0 where
  sent : Pdu → List ℕ → Traffic
  foreign : Frame → Traffic

abbrev pub frame_of : Traffic → Frame
frame_of (sent p pad) = record { ether_type = ether_type_sv; payload = marshal p ++ pad }
frame_of (foreign frame) = frame

unfoldable pub frames_of : List Traffic → List Frame
frames_of [] = []
frames_of (t ∷ ts) = frame_of t ∷ frames_of ts

-- The ASDUs of an APDU, each with the APPID that it came under.
unfoldable pub tagged : ℕ → List Asdu → List (ℕ × Asdu)
tagged app_id [] = []
tagged app_id (a ∷ asdus) = (app_id, a) ∷ tagged app_id asdus

-- Every ASDU that was sent, as its octets tell it, in the order of sending.
unfoldable pub published : List Traffic → List (ℕ × Asdu)
published [] = []
published (sent p pad ∷ ts) = tagged p.app_id (received p).asdus ++ published ts
published (foreign frame ∷ ts) = published ts

-- The subscriber wants an ASDU if its filter names the APPID or none, and the stream or none.
abbrev pub Wanted : Filter → ℕ → Asdu → Type 0
Wanted f app_id a = ((f.app_id ≡ 0) ⊎ (app_id ≡ f.app_id)) × ((f.sv_id ≡ []) ⊎ (a.sv_id ≡ f.sv_id))

-- The second list has exactly the wanted ASDUs of the first, in their order.
pub data Picked (f : Filter) : List (ℕ × Asdu) → List Asdu → Type 0 where
  nothing : Picked f [] []
  kept :
      {app_id : ℕ} {a : Asdu} {xs : List (ℕ × Asdu)} {ys : List Asdu}
      → Wanted f app_id a
      → Picked f xs ys
      → Picked f ((app_id, a) ∷ xs) (a ∷ ys)
  passed :
      {app_id : ℕ} {a : Asdu} {xs : List (ℕ × Asdu)} {ys : List Asdu}
      → ¬ Wanted f app_id a
      → Picked f xs ys
      → Picked f ((app_id, a) ∷ xs) ys

app_id_cases :
    (f n : ℕ)
    → (((not (f == 0) && not (n == f)) ≡ false) × ((f ≡ 0) ⊎ (n ≡ f)))
      ⊎ (((not (f == 0) && not (n == f)) ≡ true) × (¬ ((f ≡ 0) ⊎ (n ≡ f))))
app_id_cases f n = ground arith

sv_id_cases :
    (f n : List ℕ)
    → (((not (is_empty f) && not (list_eq n f)) ≡ false) × ((f ≡ []) ⊎ (n ≡ f)))
      ⊎ (((not (is_empty f) && not (list_eq n f)) ≡ true) × (¬ ((f ≡ []) ⊎ (n ≡ f))))
sv_id_cases [] n = inl (refl, inl refl)
sv_id_cases (x ∷ xs) n = elim (Bool-cases (list_eq n (x ∷ xs))) [
  | inl same ↦ inl (rw same refl, inr ((list_eq_iff n (x ∷ xs)).0 same))
  | inr other ↦ inr (
    rw other refl,
    λ w. elim w [ inl q ↦ cc | inr q ↦ ground (arith, other, (list_eq_iff n (x ∷ xs)).1 q) ],
  )
]

-- The code's test decides what is wanted.
matches-Wanted :
    (f : Filter) (app_id : ℕ) (a : Asdu)
    → ((matches f app_id a ≡ true) × Wanted f app_id a)
      ⊎ ((matches f app_id a ≡ false) × (¬ Wanted f app_id a))
unfolding matches
matches-Wanted f app_id a = elim (app_id_cases f.app_id app_id) [
  | inr bad ↦ inr (rw bad.0 refl, λ w. bad.1 w.0)
  | inl good ↦ elim (sv_id_cases f.sv_id a.sv_id) [
    | inr bad ↦ inr (rw (good.0, bad.0) refl, λ w. bad.1 w.1)
    | inl fine ↦ inl (rw (good.0, fine.0) refl, (good.1, fine.1))
  ]
]

selected-Picked :
    (f : Filter) (app_id : ℕ) (asdus : List Asdu) {xs : List (ℕ × Asdu)} {ys : List Asdu}
    → Picked f xs ys
    → Picked f (tagged app_id asdus ++ xs) (selected f app_id asdus ++ ys)
unfolding tagged selected
selected-Picked f app_id [] h = h
selected-Picked f app_id (a ∷ asdus) h =
    let rest = selected-Picked f app_id asdus h in
    elim (matches-Wanted f app_id a) [
      | inl got ↦ rw got.0 (kept got.1 rest)
      | inr left ↦ rw left.0 (passed left.1 rest)
    ]

module _ (lossy : List ℕ → List ℕ) where
  abbrev pub IsTraffic : Traffic → Type 0
  IsTraffic (sent p pad) = IsSendable lossy p
  IsTraffic (foreign frame) = frame.ether_type ≢ ether_type_sv

  other_type : (n : ℕ) → n ≢ ether_type_sv → (n == ether_type_sv) ≡ false
  other_type n h = ground arith

  -- Whatever sendable APDUs publishers send, in the sense of `parse-marshal_sav`, and whatever frames of
  -- other protocols stand between them: of all the ASDUs that were sent, as that theorem says that they
  -- are read, the subscriber hands over exactly those whose APPID and stream its filter names, where it
  -- names one, all of them and in their order.
  pub run-Picked :
      (f : Filter) (ts : List Traffic)
      → All IsTraffic ts
      → Picked f (published ts) (run lossy f (frames_of ts))
  unfolding run delivered frames_of published handled received
  run-Picked f [] h = nothing
  run-Picked f (sent p pad ∷ ts) h =
      rw (parse-marshal_sav lossy p pad h.0)
        (selected-Picked f p.app_id (received p).asdus (run-Picked f ts h.1))
  run-Picked f (foreign frame ∷ ts) h = rw (other_type frame.ether_type h.0) (run-Picked f ts h.1)
