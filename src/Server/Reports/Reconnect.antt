-- ===== src/Server/Reports/Reconnect.antt =====
-- server/reporting.rs: what a client is sent that enables a buffered block.
use rs_iec.Common.{
  ℕ, ◌+◌, ◌%◌, ◌≡◌, refl, ap, ◌∙◌, Bool, true, false, List, [], ◌∷◌, ◌++◌, Option, none, some,
  length, drop, zero, suc, arith, if_elim, if◌then◌else◌, All,
}
use rs_iec.Common.Dictionary.{list_eq, list_eq_iff}
use rs_iec.Server.Reports.{ReportEntry, Report, Rcb, Env, IpAddr}
use rs_iec.Server.Reports.Entries.{buffer_index, is_zero_entry_id}
use rs_iec.Server.Reports.Messages.{report_pdus, report_of, report_fields}
use rs_iec.Server.Reports.Buffer.{subscriber, subscriber_of, set_sq_num, transmit_buffered}
use rs_iec.Server.Reports.Control.{
  enable, resynchronise, resume_at, resume_after, take_block, stop_integrity, stop_resv_timer,
  start_integrity, sync_resv, is_conn,
}
use rs_iec.Server.Reports.Delivery.{deliveries, pdus_for, TakesAll, transmit_each-Delivered}

from_zero : (b : Bool) → (if b then 0 % 65536 else 0 % 256) ≡ 0
from_zero true = refl
from_zero false = refl

not_both : (b : Bool) → b ≡ true → b ≡ false → ⊥
not_both b h k = cc

module _ {V : Type 0} where
  -- The block at the moment its delivery starts.
  abbrev prepared : Bool → ℕ → Option IpAddr → Rcb V → Rcb V
  prepared held conn ip s =
      let enabled = record s { enabled = true; conn = some conn } in
      stop_integrity (set_sq_num (if held then enabled else take_block conn ip enabled) 0)

  sent-start_integrity : (env : Env V) (s : Rcb V) → (start_integrity env s).sent ≡ s.sent
  unfolding start_integrity
  sent-start_integrity env s = if_elim (λ (r : Rcb V). r.sent ≡ s.sent) _ (λ _. refl) (λ _. refl)

  -- The position and the loss that a resynchronisation of a block like this one leaves.
  abbrev pub Resumes : Rcb V → ℕ → Bool → Type 0
  Resumes s next loss =
      (p : Rcb V)
      → p.buffer ≡ s.buffer
      → p.resync_id ≡ s.resync_id
      → p.next ≡ s.next
      → p.buf_overflow ≡ s.buf_overflow
      → resynchronise p ≡ record p { next = next; buf_overflow = loss; resync_id = none }

  deliver-sent :
      (env : Env V) (p : Rcb V) (c max_pdu next : ℕ) (loss : Bool)
      → TakesAll env
      → subscriber env p.conn ≡ some (c, max_pdu)
      → resynchronise p ≡ record p { next = next; buf_overflow = loss; resync_id = none }
      → (transmit_buffered env (resynchronise p)).sent
        ≡ p.sent
          ++ deliveries (pdus_for env p c max_pdu) p.buffered (drop next p.buffer) p.sq_num loss
  unfolding transmit_buffered report_pdus report_of report_fields
  deliver-sent env p c max_pdu next loss takes found e =
      ap (λ q. (transmit_buffered env q).sent) e
      ∙ (transmit_each-Delivered env (drop next p.buffer)
          (record p { next = next; buf_overflow = loss; resync_id = none }) c max_pdu takes found).0

  pub enable-sent :
      (env : Env V) (conn : ℕ) (ip : Option IpAddr) (s : Rcb V) (max_pdu next : ℕ) (loss : Bool)
      → TakesAll env
      → env.conns conn ≡ some max_pdu
      → s.buffered ≡ true
      → Resumes s next loss
      → (enable env conn ip s).sent
        ≡ s.sent ++ deliveries (pdus_for env s conn max_pdu) s.buffered (drop next s.buffer) 0 loss
  unfolding enable subscriber set_sq_num stop_integrity take_block stop_resv_timer sync_resv
      report_pdus report_of report_fields
  enable-sent env conn ip s max_pdu next loss takes found b resumes =
      sent-start_integrity env _
      ∙ if_elim (λ (r : Rcb V). r.sent ≡ s.sent ++ wanted 0) s.buffered
          (λ _. from_ready (is_conn s.owner conn)) (λ no. absurd (not_both s.buffered b no))
    where
      wanted : ℕ → List (Report V)
      wanted seq = deliveries (pdus_for env s conn max_pdu) s.buffered (drop next s.buffer) seq loss

      from_ready :
          (held : Bool)
          → (transmit_buffered env (resynchronise (prepared held conn ip s))).sent
            ≡ s.sent ++ wanted 0
      from_ready true =
          deliver-sent env (prepared true conn ip s) conn max_pdu next loss takes
            (ap (subscriber_of conn) found) (resumes _ refl refl refl refl)
          ∙ ap (λ q. s.sent ++ wanted q) (from_zero s.buffered)
      from_ready false =
          deliver-sent env (prepared false conn ip s) conn max_pdu next loss takes
            (ap (subscriber_of conn) found) (resumes _ refl refl refl refl)
          ∙ ap (λ q. s.sent ++ wanted q) (from_zero s.buffered)

  index_after :
      (before later : List (ReportEntry V)) (e : ReportEntry V)
      → All (λ x. list_eq x.id e.id ≡ false) before
      → buffer_index (before ++ (e ∷ later)) e.id ≡ some (length before)
  unfolding buffer_index
  index_after [] later e h = ground (arith, (list_eq_iff e.id e.id).1 refl)
  index_after (x ∷ before) later e h = ground (arith, h.0, index_after before later e h.1)

  index_none :
      (es : List (ReportEntry V)) (id : List ℕ)
      → All (λ x. list_eq x.id id ≡ false) es
      → buffer_index es id ≡ none
  unfolding buffer_index
  index_none [] id h = refl
  index_none (x ∷ es) id h = ground (arith, h.0, index_none es id h.1)

  drop_past :
      (before later : List (ReportEntry V)) (e : ReportEntry V) (m : ℕ)
      → m ≡ length before + 1
      → drop m (before ++ (e ∷ later)) ≡ later
  drop_past [] later e m h = ap (λ n. drop n (e ∷ later)) (h ∙ one)
    where
      one : 0 + 1 ≡ suc zero
      one = omega arith
  drop_past (x ∷ before) later e zero h = absurd (omega (arith, h))
  drop_past (x ∷ before) later e (suc m) h = drop_past before later e m (omega (arith, h))

  resume_at_index :
      (s p : Rcb V) (id : List ℕ) (o : Option ℕ)
      → s.resync_id ≡ some id
      → is_zero_entry_id id ≡ false
      → buffer_index s.buffer id ≡ o
      → p.buffer ≡ s.buffer
      → p.resync_id ≡ s.resync_id
      → resynchronise p ≡ resume_after (record p { resync_id = none }) o
  unfolding resynchronise
  resume_at_index s p id o wanted nonzero place hb hr =
      let taken = record p { resync_id = none } in
      ap (resume_at p) (hr ∙ wanted)
      ∙ ap
          (λ z.
            if z then record taken { next = 0 } else resume_after taken (buffer_index p.buffer id))
          nonzero
      ∙ ap (resume_after taken) (ap (λ l. buffer_index l id) hb ∙ place)

  -- A client that writes an EntryID which the buffer of the block still holds and then enables the
  -- block is sent exactly the entries behind that one, in order, from sequence number 0, the first
  -- with the loss that was to be told, where the EntryID is not all zeros, no earlier entry has it,
  -- the connection table has the client, and its queue takes every PDU.
  pub enable-resumes :
      (env : Env V) (conn : ℕ) (ip : Option IpAddr) (s : Rcb V) (max_pdu : ℕ)
      → (before later : List (ReportEntry V)) (e : ReportEntry V) → TakesAll env
      → env.conns conn ≡ some max_pdu
      → s.buffered ≡ true
      → s.resync_id ≡ some e.id
      → is_zero_entry_id e.id ≡ false
      → s.buffer ≡ before ++ (e ∷ later)
      → All (λ x. list_eq x.id e.id ≡ false) before
      → (enable env conn ip s).sent
        ≡ s.sent ++ deliveries (pdus_for env s conn max_pdu) s.buffered later 0 s.buf_overflow
  enable-resumes env conn ip s max_pdu before later e takes found b wanted nonzero held fresh =
      enable-sent env conn ip s max_pdu (length before + 1) s.buf_overflow takes found b
        (λ p hb hr hn ho.
          resume_at_index s p e.id (some (length before)) wanted nonzero
            (ap (λ l. buffer_index l e.id) held ∙ index_after before later e fresh) hb hr
          ∙ ap (λ o. record p { next = length before + 1; buf_overflow = o; resync_id = none }) ho)
      ∙ ap (λ l. s.sent ++ deliveries (pdus_for env s conn max_pdu) s.buffered l 0 s.buf_overflow)
          (ap (drop (length before + 1)) held ∙ drop_past before later e _ refl)

  -- A client that writes an EntryID which is not all zeros and which the block's buffer no longer
  -- holds when the client enables the block is sent every entry of the buffer, the first with the
  -- overflow set, where the connection table has the client, and its queue takes every PDU.
  pub enable-overflow :
      (env : Env V) (conn : ℕ) (ip : Option IpAddr) (s : Rcb V) (max_pdu : ℕ) (id : List ℕ)
      → TakesAll env
      → env.conns conn ≡ some max_pdu
      → s.buffered ≡ true
      → s.resync_id ≡ some id
      → is_zero_entry_id id ≡ false
      → All (λ x. list_eq x.id id ≡ false) s.buffer
      → (enable env conn ip s).sent
        ≡ s.sent ++ deliveries (pdus_for env s conn max_pdu) s.buffered s.buffer 0 true
  enable-overflow env conn ip s max_pdu id takes found b wanted nonzero gone =
      enable-sent env conn ip s max_pdu 0 true takes found b (λ p hb hr hn ho.
        resume_at_index s p id none wanted nonzero (index_none s.buffer id gone) hb hr)
