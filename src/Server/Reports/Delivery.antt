-- ===== src/Server/Reports/Delivery.antt =====
-- server/reporting.rs: what a subscriber whose queue takes every PDU is sent, and what is lost when
-- the connection table no longer has the subscriber.
use rs_iec.Common.{
  ℕ, ◌+◌, ◌%◌, ◌^◌, ◌≡◌, refl, sym, ap, ◌∙◌, Bool, true, false, List, [], ◌∷◌, ◌++◌, some, length,
  arith, if_elim, if◌then◌else◌, append-nil, append_assoc,
}
use mathlib.Core.Path.{subst}
use rs_iec.Server.Reports.{ReportEntry, Report, Rcb, Env}
use rs_iec.Server.Reports.Messages.{report_pdus, report_of, report_fields}
use rs_iec.Server.Reports.Buffer.{
  subscriber, set_sq_num, send_all, transmit_to, transmit_on, transmit, advance, transmit_each,
}

-- The sequence number after the given one.
abbrev pub following_seq : Bool → ℕ → ℕ
following_seq buffered seq = if buffered then (seq + 1) % 2 ^ 16 else (seq + 1) % 2 ^ 8

not_both : (b : Bool) → b ≡ true → b ≡ false → ⊥
not_both b h k = cc

module _ {V : Type 0} where
  -- What a series of entries is to be sent as: each with the next sequence number, and the loss that
  -- is still to be told with the first.
  unfoldable pub deliveries :
      (ReportEntry V → ℕ → Bool → List (Report V))
      → Bool
      → List (ReportEntry V)
      → ℕ
      → Bool
      → List (Report V)
  deliveries pdus buffered [] seq loss = []
  deliveries pdus buffered (e ∷ es) seq loss =
      pdus e seq loss ++ deliveries pdus buffered es (following_seq buffered seq) false

  -- The PDUs for a subscriber with a greatest PDU.
  abbrev pub pdus_for : Env V → Rcb V → ℕ → ℕ → ReportEntry V → ℕ → Bool → List (Report V)
  pdus_for env s c max_pdu e seq loss = report_pdus env s e seq loss c max_pdu

  -- The queue takes every PDU.
  abbrev pub TakesAll : Env V → Type 0
  TakesAll env = (r : Report V) → env.accepts r ≡ true

  send_all-TakesAll :
      (env : Env V) (pdus : List (Report V)) (s : Rcb V)
      → TakesAll env
      → send_all env pdus s ≡ record s { sent = s.sent ++ pdus }
  unfolding send_all
  send_all-TakesAll env [] s h = ap (λ l. record s { sent = l }) (sym (append-nil s.sent))
  send_all-TakesAll env (pdu ∷ rest) s h =
      if_elim (λ r. r ≡ record s { sent = s.sent ++ (pdu ∷ rest) }) (env.accepts pdu)
        (λ _.
          send_all-TakesAll env rest _ h
          ∙ ap (λ l. record s { sent = l }) (append_assoc s.sent (pdu ∷ []) rest))
        (λ refused. absurd (not_both (env.accepts pdu) (h pdu) refused))

  -- The block after a report was sent.
  abbrev numbered : Rcb V → Rcb V
  numbered s = record (set_sq_num s (s.sq_num + 1)) { buf_overflow = false }

  transmit-TakesAll :
      (env : Env V) (e : ReportEntry V) (s : Rcb V) (c max_pdu : ℕ)
      → TakesAll env
      → subscriber env s.conn ≡ some (c, max_pdu)
      → transmit env e s ≡ record (numbered s) {
        sent = s.sent ++ report_pdus env s e s.sq_num s.buf_overflow c max_pdu;
      }
  unfolding transmit transmit_to report_pdus report_of report_fields set_sq_num
  transmit-TakesAll env e s c max_pdu h found =
      ap (transmit_on env e s) found ∙ send_all-TakesAll env _ _ h

  -- What sending entries to a subscriber leaves: the PDUs in its queue, and the position.
  abbrev pub Delivered : Env V → Rcb V → ℕ → ℕ → List (ReportEntry V) → Rcb V → Type 0
  Delivered env s c max_pdu es after =
      (after.sent
        ≡ s.sent ++ deliveries (pdus_for env s c max_pdu) s.buffered es s.sq_num s.buf_overflow)
      × (after.next ≡ s.next + length es)
      × (after.buffer ≡ s.buffer)

  pub transmit_each-Delivered :
      (env : Env V) (es : List (ReportEntry V)) (s : Rcb V) (c max_pdu : ℕ)
      → TakesAll env
      → subscriber env s.conn ≡ some (c, max_pdu)
      → Delivered env s c max_pdu es (transmit_each env es s)
  unfolding transmit_each deliveries report_pdus report_of report_fields set_sq_num
  transmit_each-Delivered env [] s c max_pdu h found = (sym (append-nil s.sent), omega arith, refl)
  transmit_each-Delivered env (e ∷ es) s c max_pdu h found =
      let sent = s.sent ++ report_pdus env s e s.sq_num s.buf_overflow c max_pdu in
      let t = advance (record (numbered s) { sent = sent }) in
      let rest = transmit_each-Delivered env es t c max_pdu h found in
      subst (λ u. Delivered env s c max_pdu (e ∷ es) (transmit_each env es (advance u)))
        (sym (transmit-TakesAll env e s c max_pdu h found))
        (rest.0 ∙ append_assoc s.sent _ _, omega (arith, rest.1), rest.2)
