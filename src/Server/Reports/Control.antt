-- ===== src/Server/Reports/Control.antt =====
-- server/reporting.rs and server/rcb.rs: who holds a block, and what enabling, disabling, the end of
-- a connection, the timers and the shutdown do to it.
use rs_iec.Common.{
  ℕ, ℤ, pos, negsuc, ◌+◌, Bool, true, false, ◌==◌, ltb, not, ◌&&◌, ◌||◌, if◌then◌else◌, List, [],
  ◌∷◌, ◌++◌, Option, none, some, length,
}
use rs_iec.Server.Reports.{ReportEntry, TrgOps, no_trigger, DsMember, IpAddr, Rcb, Env}
use rs_iec.Server.Reports.Entries.{empty_entry, ip_octets, is_ip, buffer_index, is_zero_entry_id}
use rs_iec.Server.Reports.Messages.{or_empty}
use rs_iec.Server.Reports.Buffer.{set_sq_num, transmit_buffered, emit, flush_pending}

abbrev pub is_some {ℓ} : {A : Type ℓ} → Option A → Bool
is_some none = false
is_some (some a) = true

abbrev pub is_conn : Option ℕ → ℕ → Bool
is_conn none c = false
is_conn (some o) c = o == c

-- Whether a client on a connection from an address may use a block with this owner and this
-- reservation.
unfoldable pub allowed : Option ℕ → Option IpAddr → ℕ → Option IpAddr → Bool
allowed (some o) reserved conn ip = o == conn
allowed none (some r) conn ip = is_ip ip r
allowed none none conn ip = true

-- A reservation time in seconds, if it is above 0.
abbrev pub seconds : ℤ → ℕ
seconds (pos n) = n
seconds (negsuc n) = 0

abbrev pub integrity_reason : TrgOps
integrity_reason = record no_trigger { integrity = true }

abbrev pub gi_reason : TrgOps
gi_reason = record no_trigger { gi = true }

module _ {V : Type 0} where
  unfoldable pub stop_resv_timer : Rcb V → Rcb V
  stop_resv_timer s = record s { resv_timer = none; resv_gen = s.resv_gen + 1 }

  unfoldable pub stop_integrity : Rcb V → Rcb V
  stop_integrity s = record s { integrity = none; integrity_gen = s.integrity_gen + 1 }

  unfoldable pub purge : Rcb V → Rcb V
  purge s = record s { buffer = []; next = 0; buf_overflow = false; resync_id = none }

  -- The holder into a buffered block's Owner, the reservation into an unbuffered block's Resv.
  abbrev pub holder_ip : Rcb V → Option IpAddr
  holder_ip s = if is_some s.owner then s.owner_ip else s.resv_ip

  unfoldable pub sync_resv : Rcb V → Rcb V
  sync_resv s = record s {
    attrs = record (s.attrs) {
      owner = if s.buffered then ip_octets (holder_ip s) else s.attrs.owner;
      resv = if s.buffered then s.attrs.resv else is_some s.owner || is_some s.resv_ip;
    };
  }

  -- `take` of the source.
  unfoldable pub take_block : ℕ → Option IpAddr → Rcb V → Rcb V
  take_block conn ip s =
      let held = stop_resv_timer (record s { owner = some conn; owner_ip = ip }) in
      sync_resv (record held { resv_ip = if s.resv_cfg then s.resv_ip else none })

  -- The reservation that outlives the holder's association, with the timer that ends it.
  abbrev pub hold_for : Env V → Option IpAddr → Rcb V → Rcb V
  hold_for env none s = s
  hold_for env (some ip) s = record s {
    resv_ip = some ip;
    resv_timer =
        if env.spawns
        then some (record { generation = s.resv_gen; period = seconds s.attrs.resv_tms })
        else none;
  }

  unfoldable pub release : Env V → Rcb V → Rcb V
  release env s =
      let given_up = record s { owner = none; owner_ip = none } in
      let free = record (stop_resv_timer given_up) { resv_ip = none } in
      if s.resv_cfg
      then sync_resv given_up
      else if s.buffered && ltb 0 (seconds s.attrs.resv_tms) && is_some s.owner && env.served
      then sync_resv (hold_for env s.owner_ip free)
      else sync_resv free

  -- The end of a reservation's time that was started in the given generation.
  unfoldable pub reservation_ends : ℕ → Rcb V → Rcb V
  reservation_ends generation s =
      if s.resv_gen == generation && not (is_some s.owner)
      then sync_resv (record s { resv_timer = none; resv_ip = none })
      else s

  -- Every member of the data set that has a value, from index `i` on.
  abbrev pub add_all : Env V → TrgOps → ℕ → List DsMember → ReportEntry V → ReportEntry V
  add_all env why i [] e = e
  add_all env why i (m ∷ ms) e = add_all env why (i + 1) ms (elim (env.item_value m) [
    | none ↦ e
    | some v ↦ record e {
      members = e.members ++ (i ∷ []);
      values = e.values ++ (v ∷ []);
      reasons = e.reasons ++ (why ∷ []);
    }
  ])

  -- What a report of every member carries.
  unfoldable pub whole_entry : Env V → TrgOps → List ℕ → ReportEntry V
  whole_entry env why dat_set =
      add_all env why 0 (or_empty (env.resolve_data_set dat_set)) (empty_entry env.now)

  abbrev pub emit_members : Env V → ReportEntry V → Rcb V → Rcb V
  emit_members env e s = if length e.members == 0 then s else emit env e s

  unfoldable pub report_all : Env V → TrgOps → Rcb V → Rcb V
  report_all env why s =
      let flushed = flush_pending env s in
      emit_members env (whole_entry env why flushed.attrs.dat_set) flushed

  -- After the entry of that index, or from the oldest with a loss to tell.
  abbrev pub resume_after : Rcb V → Option ℕ → Rcb V
  resume_after s (some i) = record s { next = i + 1 }
  resume_after s none = record s { next = 0; buf_overflow = true }

  -- Where delivery resumes after a client's EntryID.
  abbrev pub resume_at : Rcb V → Option (List ℕ) → Rcb V
  resume_at s none = s
  resume_at s (some id) =
      let taken = record s { resync_id = none } in
      if is_zero_entry_id id
      then record taken { next = 0 }
      else resume_after taken (buffer_index s.buffer id)

  unfoldable pub resynchronise : Rcb V → Rcb V
  resynchronise s = resume_at s s.resync_id

  unfoldable pub start_integrity : Env V → Rcb V → Rcb V
  start_integrity env s =
      if not (s.attrs.intg_pd == 0) && s.attrs.trg_ops.integrity && env.served && env.spawns
      then record s {
        integrity = some (record { generation = s.integrity_gen; period = s.attrs.intg_pd });
      }
      else s

  unfoldable pub enable : Env V → ℕ → Option IpAddr → Rcb V → Rcb V
  enable env conn ip s =
      let enabled = record s { enabled = true; conn = some conn } in
      let held = if is_conn s.owner conn then enabled else take_block conn ip enabled in
      let ready = stop_integrity (set_sq_num held 0) in
      start_integrity env
        (if s.buffered then transmit_buffered env (resynchronise ready) else ready)

  unfoldable pub disable : Env V → Rcb V → Rcb V
  disable env s =
      let stopped =
        stop_integrity (record (flush_pending env s) { enabled = false; conn = none }) in
      if s.buffered then release env stopped else stopped

  -- `disable_conn`, for one block.
  unfoldable pub leave : Env V → ℕ → Rcb V → Rcb V
  leave env conn s =
      let off = if is_conn s.conn conn then disable env s else s in
      if is_conn off.owner conn then release env off else off

  -- `shutdown`, for one block.
  unfoldable pub shut_down : Rcb V → Rcb V
  shut_down s =
      let stopped = stop_resv_timer (stop_integrity (record s { enabled = false; conn = none })) in
      record stopped { pending_timer = none; pending_gen = s.pending_gen + 1 }

  -- A tick of the integrity period that was started in the given generation; whether the task
  -- goes on.
  unfoldable pub integrity_tick : Env V → ℕ → Rcb V → Rcb V × Bool
  integrity_tick env generation s =
      if not (s.integrity_gen == generation) || not s.enabled
      then (s, false)
      else (report_all env integrity_reason s, true)
