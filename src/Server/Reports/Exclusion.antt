-- ===== src/Server/Reports/Exclusion.antt =====
-- server/reporting.rs: a block that a client holds is out of the others' reach.
use rs_iec.Common.{
  ℕ, ◌≡◌, ◌≢◌, refl, sym, ap, ◌∙◌, Bool, true, false, ◌==◌, not, ◌&&◌, if◌then◌else◌, List, [], ◌∷◌,
  Option, none, some, arith, All,
}
use mathlib.Core.Path.{subst}
use rs_iec.Server.Reports.{IpAddr, Rcb, Env}
use rs_iec.Server.Reports.Control.{
  allowed, leave, reservation_ends, is_conn, is_some, disable, release, sync_resv,
}
use rs_iec.Server.Reports.Access.{
  Write, check_rcb_write, decided, write_attribute, attribute_decision, temporarily_unavailable,
}
use rs_iec.Server.Reports.Tenure.{
  Tenure, tenure, tenure-window_ends, tenure-integrity_tick, tenure-update_block,
}
use rs_iec.Server.Reports.Reach.{
  Action, written, updated, window_ended, period_ended, reservation_ended, gone, perform, run,
  Foreign, Seated, IsSeated,
}

another : (c conn : ℕ) → c ≢ conn → (c == conn) ≡ false
another c conn d = ground arith

never : (b : Bool) → (b && false) ≡ false
never true = refl
never false = refl

-- The subscriber of a block that a client holds is no other client.
other_subscriber :
    (enabled : Bool) (subscriber owner : Option ℕ) (c conn : ℕ)
    → Seated enabled subscriber owner
    → owner ≡ some c
    → c ≢ conn
    → is_conn subscriber conn ≡ false
other_subscriber true subscriber owner c conn (o, h, k) e d =
    ap (λ x. is_conn x conn) (h ∙ sym k ∙ e) ∙ another c conn d
other_subscriber false subscriber owner c conn h e d = ap (λ x. is_conn x conn) h

module _ {V : Type 0} where
  check-another :
      (env : Env V) (s : Rcb V) (w : Write) (c conn : ℕ) (ip : Option IpAddr)
      → s.owner ≡ some c
      → c ≢ conn
      → check_rcb_write env s w conn ip ≡ temporarily_unavailable
  unfolding check_rcb_write allowed
  check-another env s w c conn ip h d =
      ap (λ b. if b then attribute_decision env s w else temporarily_unavailable)
        (ap (λ o. allowed o s.resv_ip conn ip) h ∙ another c conn d)

  leave-another :
      (env : Env V) (s : Rcb V) (c conn : ℕ)
      → IsSeated s
      → s.owner ≡ some c
      → c ≢ conn
      → leave env conn s ≡ s
  unfolding leave
  leave-another env s c conn seat h d =
      ap
        (λ b.
          let off = if b then disable env s else s in
          if is_conn off.owner conn then release env off else off)
        (other_subscriber s.enabled s.conn s.owner c conn seat h d)
      ∙ ap (λ b. if b then release env s else s) (ap (λ o. is_conn o conn) h ∙ another c conn d)

  reservation_ends-held :
      (generation : ℕ) (s : Rcb V) (c : ℕ) → s.owner ≡ some c → reservation_ends generation s ≡ s
  unfolding reservation_ends
  reservation_ends-held generation s c h =
      ap (λ b. if b then sync_resv (record s { resv_timer = none; resv_ip = none }) else s)
        (ap (λ o. s.resv_gen == generation && not (is_some o)) h ∙ never (s.resv_gen == generation))

  perform-Foreign :
      (a : Action V) (s : Rcb V) (c : ℕ)
      → IsSeated s
      → s.owner ≡ some c
      → Foreign c a
      → tenure (perform a s) ≡ tenure s
  unfolding perform write_attribute
  perform-Foreign (written env w conn ip) s c seat h d =
      ap (λ r. tenure (decided env w conn ip s r)) (check-another env s w c conn ip h d)
  perform-Foreign (updated env from_mms changes) s c seat h d =
      tenure-update_block env from_mms changes s
  perform-Foreign (window_ended env generation) s c seat h d = tenure-window_ends env generation s
  perform-Foreign (period_ended env generation) s c seat h d =
      tenure-integrity_tick env generation s
  perform-Foreign (reservation_ended generation) s c seat h d =
      ap tenure (reservation_ends-held generation s c h)
  perform-Foreign (gone env conn) s c seat h d = ap tenure (leave-another env s c conn seat h d)

  -- A client that holds a block keeps it, with its subscription and its configuration, whatever other
  -- clients write to it or whichever of them leave, and whatever updates, buffer-time windows,
  -- integrity periods and reservation timers bring, where the block's subscriber is its owner if it is
  -- enabled, and nobody if it is not.
  pub run-Foreign :
      (actions : List (Action V)) (s : Rcb V) (c : ℕ)
      → IsSeated s
      → s.owner ≡ some c
      → All (Foreign c) actions
      → tenure (run actions s) ≡ tenure s
  unfolding run
  run-Foreign [] s c seat h d = refl
  run-Foreign (a ∷ more) s c seat h d =
      let same = perform-Foreign a s c seat h d.0 in
      run-Foreign more (perform a s) c
        (subst (λ (t : Tenure). Seated t.enabled t.conn t.owner) (sym same) seat)
        (ap (λ t. t.owner) same ∙ h) d.1
      ∙ same
