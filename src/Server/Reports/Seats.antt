-- ===== src/Server/Reports/Seats.antt =====
-- server/reporting.rs: whatever happens to a block, its subscriber is its owner.
use rs_iec.Common.{
  ℕ, ◌≡◌, refl, sym, ap, ◌∙◌, Bool, true, false, if◌then◌else◌, List, Option, none, some, if_elim,
  ==_iff,
}
use mathlib.Core.Path.{subst}
use rs_iec.Server.Reports.{IpAddr, Rcb, Env}
use rs_iec.Server.Reports.Entries.{is_zero_entry_id, buffer_index}
use rs_iec.Server.Reports.Buffer.{set_sq_num, transmit_buffered}
use rs_iec.Server.Reports.Control.{
  allowed, leave, is_conn, is_some, enable, disable, release, sync_resv, take_block,
  stop_resv_timer, stop_integrity, hold_for, resume_at, resume_after, resynchronise,
  start_integrity,
}
use rs_iec.Server.Reports.Access.{Decision, permitted, refused_if}
use rs_iec.Server.Reports.Tenure.{Tenure, tenure, tenure-transmit_each}
use rs_iec.Server.Reports.Reach.{Seated, IsSeated}

pub reseat :
    (enabled : Bool) (conn owner next : Option ℕ)
    → is_some owner ≡ false
    → Seated enabled conn owner
    → Seated enabled conn next
reseat true conn owner next h (c, e, k) = absurd (some_is c (sym (ap is_some k) ∙ h))
  where
    some_is : (c : ℕ) → true ≡ false → ⊥
    some_is c e = cc
reseat false conn owner next h s = s

pub stand :
    (enabled : Bool) (conn owner next : Option ℕ)
    → enabled ≡ false
    → Seated enabled conn owner
    → Seated enabled conn next
stand true conn owner next h s = absurd (cc)
stand false conn owner next h s = s

pub keep_seat :
    (enabled : Bool) (subscriber owner : Option ℕ) (reserved : Option IpAddr) (conn : ℕ)
    → (ip : Option IpAddr) → allowed owner reserved conn ip ≡ true
    → Seated enabled subscriber owner
    → Seated enabled subscriber (some conn)
unfolding allowed
keep_seat true subscriber owner reserved conn ip h (c, e, k) =
    let same : c ≡ conn = (==_iff c conn).0 (sym (ap (λ o. allowed o reserved conn ip) k) ∙ h) in
    (conn, e ∙ ap some same, refl)
keep_seat false subscriber owner reserved conn ip h s = s

pub refused_elim {ℓ} :
    (P : Decision → Type ℓ) (b : Bool) (d : Decision)
    → (b ≡ false → P permitted)
    → P d
    → P (refused_if b d)
refused_elim P true d h k = k
refused_elim P false d h k = h refl

is_conn-some : (o : Option ℕ) (conn : ℕ) → is_conn o conn ≡ true → o ≡ some conn
is_conn-some none conn h = cc
is_conn-some (some c) conn h = ap some ((==_iff c conn).0 h)

-- An owner who is not the subscriber has a block that is not enabled.
vacant :
    (enabled : Bool) (subscriber owner : Option ℕ) (conn : ℕ)
    → Seated enabled subscriber owner
    → is_conn subscriber conn ≡ false
    → is_conn owner conn ≡ true
    → enabled ≡ false
vacant true subscriber owner conn (c, h, k) e o = sym o ∙ ap (λ x. is_conn x conn) (k ∙ sym h) ∙ e
vacant false subscriber owner conn h e o = refl

module _ {V : Type 0} where
  pub by_tenure : (s t : Rcb V) → tenure t ≡ tenure s → IsSeated s → IsSeated t
  by_tenure s t h = subst (λ (u : Tenure). Seated u.enabled u.conn u.owner) (sym h)

  -- What `release` leaves of the seat: the owner is gone.
  pub Freed : Rcb V → Rcb V → Type 0
  Freed s t = (t.enabled ≡ s.enabled) × (t.conn ≡ s.conn) × (t.owner ≡ none)

  pub release-Freed : (env : Env V) (s : Rcb V) → Freed s (release env s)
  unfolding Freed release sync_resv stop_resv_timer
  release-Freed env s =
      if_elim (Freed s) s.resv_cfg (λ _. (refl, refl, refl))
        (λ _. if_elim (Freed s) _ (λ _. held s.owner_ip) (λ _. (refl, refl, refl)))
    where
      held :
          (o : Option IpAddr)
          → Freed s (
              sync_resv (
                hold_for env o
                  (record (stop_resv_timer (record s { owner = none; owner_ip = none })) {
                    resv_ip = none;
                  })))
      held none = (refl, refl, refl)
      held (some ip) = (refl, refl, refl)

  pub Freed-IsSeated : (s t : Rcb V) → Freed s t → s.enabled ≡ false → IsSeated s → IsSeated t
  unfolding Freed
  Freed-IsSeated s t (e, c, o) h seat =
      subst (λ b. Seated b t.conn t.owner) (sym (e ∙ h))
        (c ∙ subst (λ b. Seated b s.conn s.owner) h seat)

  Taken : ℕ → Rcb V → Type 0
  Taken conn t = (t.enabled ≡ true) × (t.conn ≡ some conn) × (t.owner ≡ some conn)

  Taken-by_tenure : (conn : ℕ) (s t : Rcb V) → tenure t ≡ tenure s → Taken conn s → Taken conn t
  unfolding Taken
  Taken-by_tenure conn s t h =
      subst (λ (u : Tenure). (u.enabled ≡ true) × (u.conn ≡ some conn) × (u.owner ≡ some conn))
        (sym h)

  prepared-Taken :
      (conn : ℕ) (ip : Option IpAddr) (s : Rcb V) (held : Bool)
      → is_conn s.owner conn ≡ held
      → let enabled = record s { enabled = true; conn = some conn } in
        Taken conn
          (stop_integrity (set_sq_num (if held then enabled else take_block conn ip enabled) 0))
  unfolding Taken stop_integrity set_sq_num take_block sync_resv stop_resv_timer
  prepared-Taken conn ip s true h = (refl, refl, is_conn-some s.owner conn h)
  prepared-Taken conn ip s false h = (refl, refl, refl)

  Taken-IsSeated : (conn : ℕ) (t : Rcb V) → Taken conn t → IsSeated t
  unfolding Taken
  Taken-IsSeated conn t h = subst (λ b. Seated b t.conn t.owner) (sym h.0) (conn, h.1, h.2)

  resynchronise-Taken : (conn : ℕ) (t : Rcb V) → Taken conn t → Taken conn (resynchronise t)
  unfolding resynchronise Taken
  resynchronise-Taken conn t h = resumed t.resync_id
    where
      after : (o : Option ℕ) → Taken conn (resume_after (record t { resync_id = none }) o)
      after none = h
      after (some i) = h

      resumed : (o : Option (List ℕ)) → Taken conn (resume_at t o)
      resumed none = h
      resumed (some id) =
          if_elim (Taken conn) (is_zero_entry_id id) (λ _. h)
            (λ _. after (buffer_index t.buffer id))

  pub enable-IsSeated :
      (env : Env V) (conn : ℕ) (ip : Option IpAddr) (s : Rcb V) → IsSeated (enable env conn ip s)
  unfolding enable transmit_buffered start_integrity
  enable-IsSeated env conn ip s =
      let ready = prepared-Taken conn ip s (is_conn s.owner conn) refl in
      started _ (
        if_elim (Taken conn) s.buffered
          (λ _.
            Taken-by_tenure conn _ _ (tenure-transmit_each env _ _)
              (resynchronise-Taken conn _ ready))
          (λ _. ready))
    where
      started : (t : Rcb V) → Taken conn t → IsSeated (start_integrity env t)
      started t h = if_elim IsSeated _ (λ _. Taken-IsSeated conn t h) (λ _. Taken-IsSeated conn t h)

  pub disable-IsSeated : (env : Env V) (s : Rcb V) → IsSeated (disable env s)
  unfolding disable stop_integrity
  disable-IsSeated env s =
      if_elim IsSeated s.buffered (λ _. Freed-IsSeated _ _ (release-Freed env _) refl refl)
        (λ _. refl)

  enabled-disable : (env : Env V) (s : Rcb V) → (disable env s).enabled ≡ false
  unfolding disable stop_integrity Freed
  enabled-disable env s =
      if_elim (λ (t : Rcb V). t.enabled ≡ false) s.buffered (λ _. (release-Freed env _).0)
        (λ _. refl)

  pub leave-IsSeated :
      (env : Env V) (conn : ℕ) (s : Rcb V) → IsSeated s → IsSeated (leave env conn s)
  unfolding leave
  leave-IsSeated env conn s h = leave_lem (is_conn s.conn conn) refl
    where
      leave_lem :
          (b : Bool)
          → is_conn s.conn conn ≡ b
          → IsSeated (
              let off = if b then disable env s else s in
              if is_conn off.owner conn then release env off else off)
      leave_lem true e =
          let off = disable env s in
          if_elim IsSeated (is_conn off.owner conn)
            (λ _.
              Freed-IsSeated off (release env off) (release-Freed env off) (enabled-disable env s)
                (disable-IsSeated env s))
            (λ _. disable-IsSeated env s)
      leave_lem false e =
          if_elim IsSeated (is_conn s.owner conn)
            (λ o.
              Freed-IsSeated s (release env s) (release-Freed env s)
                (vacant s.enabled s.conn s.owner conn h e o) h)
            (λ _. h)
