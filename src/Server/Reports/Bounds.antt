-- ===== src/Server/Reports/Bounds.antt =====
-- server/reporting.rs: the bounds of a block's buffer, of its position in it and of its sequence
-- number.
use rs_iec.Common.{
  ℕ, ◌+◌, ◌-◌, ◌%◌, ◌^◌, ◌≤◌, ◌<◌, ◌≡◌, refl, sym, ap, ◌∙◌, Bool, true, false, not, if◌then◌else◌,
  List, [], ◌∷◌, ◌++◌, Option, none, some, length, drop, arith, if_elim, length-append, length-drop,
}
use mathlib.Core.Path.{subst}
use rs_iec.Server.Reports.{ReportEntry, Report, Rcb, Env}
use rs_iec.Server.Reports.Entries.{next_entry_id}
use rs_iec.Server.Reports.Messages.{report_pdus}
use rs_iec.Server.Reports.Buffer.{
  subscriber, set_sq_num, send_all, transmit_to, transmit_on, transmit, advance, transmit_each,
  transmit_buffered, discard, commit, emit,
}
use rs_iec.Server.Reports.Log.{discard-cut}

-- The width of a SqNum: sixteen bits in a buffered block, eight in an unbuffered one.
abbrev pub width : Bool → ℕ
width buffered = if buffered then 2 ^ 16 else 2 ^ 8

pub in_width : (b : Bool) (n : ℕ) → (if b then n % 2 ^ 16 else n % 2 ^ 8) < width b
in_width true n = omega arith
in_width false n = omega arith

module _ {V : Type 0} where
  -- The buffer holds no more than its depth, the position is in it or behind its last entry, and the
  -- sequence number is in its width.
  pub record IsBounded (s : Rcb V) : Type 0 where
    pub position : s.next ≤ length s.buffer
    pub depth : length s.buffer ≤ s.max_buffer
    pub number : s.sq_num < width s.buffered

  -- Sending moves no entry and no position.
  abbrev pub Unmoved : Rcb V → Rcb V → Type 0
  Unmoved s t =
      (t.buffer ≡ s.buffer)
      × (t.next ≡ s.next)
      × (t.max_buffer ≡ s.max_buffer)
      × (t.sq_num ≡ s.sq_num)
      × (t.buffered ≡ s.buffered)

  send_all-Unmoved :
      (env : Env V) (pdus : List (Report V)) (s : Rcb V) → Unmoved s (send_all env pdus s)
  unfolding send_all
  send_all-Unmoved env [] s = (refl, refl, refl, refl, refl)
  send_all-Unmoved env (pdu ∷ rest) s =
      if_elim (Unmoved s) (env.accepts pdu) (λ _. send_all-Unmoved env rest _)
        (λ _. (refl, refl, refl, refl, refl))

  -- After one report the position and the buffer are as before, and the number is in its width.
  Sent : Rcb V → Rcb V → Type 0
  Sent s t =
      (t.buffer ≡ s.buffer)
      × (t.next ≡ s.next)
      × (t.max_buffer ≡ s.max_buffer)
      × (s.sq_num < width s.buffered → t.sq_num < width t.buffered)

  numbered-Sent :
      (env : Env V) (s : Rcb V) (pdus : List (Report V))
      → Sent s (send_all env pdus (record (set_sq_num s (s.sq_num + 1)) { buf_overflow = false }))
  unfolding set_sq_num Sent
  numbered-Sent env s pdus =
      let t = record (set_sq_num s (s.sq_num + 1)) { buf_overflow = false } in
      let u = send_all-Unmoved env pdus t in
      (
        u.0,
        u.1,
        u.2,
        λ _.
            subst (λ b. (send_all env pdus t).sq_num < width b) (sym u.4)
              (subst (λ n. n < width s.buffered) (sym u.3) (in_width s.buffered (s.sq_num + 1))),
      )

  transmit-Sent : (env : Env V) (e : ReportEntry V) (s : Rcb V) → Sent s (transmit env e s)
  unfolding transmit transmit_to Sent
  transmit-Sent env e s = sent_on (subscriber env s.conn)
    where
      sent_on : (o : Option (ℕ × ℕ)) → Sent s (transmit_on env e s o)
      sent_on none = (refl, refl, refl, λ h. h)
      sent_on (some (c, max_pdu)) = numbered-Sent env s (
          report_pdus env (record (set_sq_num s (s.sq_num + 1)) { buf_overflow = false }) e s.sq_num
            s.buf_overflow c max_pdu)

  transmit_each-IsBounded :
      (env : Env V) (es : List (ReportEntry V)) (s : Rcb V)
      → IsBounded s
      → s.next + length es ≤ length s.buffer
      → IsBounded (transmit_each env es s)
  unfolding transmit_each Sent
  transmit_each-IsBounded env [] s h k = h
  transmit_each-IsBounded env (e ∷ es) s h k =
      let t = transmit-Sent env e s in
      let size = ap length t.0 in
      transmit_each-IsBounded env es (advance (transmit env e s))
        (record {
          position = omega (arith, size, t.1, k);
          depth = omega (arith, size, t.2, h.depth);
          number = t.3 h.number;
        })
        (omega (arith, size, t.1, k))

  commit-IsBounded : (s : Rcb V) (e : ReportEntry V) → IsBounded s → IsBounded (commit s e)
  unfolding commit
  commit-IsBounded s e h =
      let m = s.max_buffer in
      let grown = s.buffer ++ (record e { id = next_entry_id s.entry_seed s.entry_counter } ∷ []) in
      let k = length grown - m in
      let longer : length grown ≡ length s.buffer + 1 = length-append s.buffer _ in
      let left = discard-cut m grown s.next s.buf_overflow k refl in
      let kept : length (discard m grown s.next s.buf_overflow).kept ≡ length grown - k =
        ap (λ c. length c.kept) left ∙ length-drop k grown in
      let moved : (discard m grown s.next s.buf_overflow).position ≡ s.next - k =
        ap (λ c. c.position) left in
      record {
        position = omega (arith, kept, moved, longer, h.position);
        depth = omega (arith, kept);
        number = h.number;
      }

  pub transmit_buffered-IsBounded :
      (env : Env V) (s : Rcb V) → IsBounded s → IsBounded (transmit_buffered env s)
  unfolding transmit_buffered
  transmit_buffered-IsBounded env s h =
      transmit_each-IsBounded env (drop s.next s.buffer) s h
        (omega (arith, length-drop s.next s.buffer, h.position))

  transmit-IsBounded :
      (env : Env V) (e : ReportEntry V) (s : Rcb V) → IsBounded s → IsBounded (transmit env e s)
  unfolding Sent
  transmit-IsBounded env e s h =
      let t = transmit-Sent env e s in
      record {
        position = omega (arith, ap length t.0, t.1, h.position);
        depth = omega (arith, ap length t.0, t.2, h.depth);
        number = t.3 h.number;
      }

  pub emit-IsBounded :
      (env : Env V) (e : ReportEntry V) (s : Rcb V) → IsBounded s → IsBounded (emit env e s)
  unfolding emit
  emit-IsBounded env e s h =
      let timed = record e { time = env.now } in
      if_elim IsBounded (not s.buffered)
        (λ _. if_elim IsBounded s.enabled (λ _. transmit-IsBounded env timed s h) (λ _. h))
        (λ _.
          if_elim IsBounded s.enabled
            (λ _. transmit_buffered-IsBounded env (commit s timed) (commit-IsBounded s timed h))
            (λ _. commit-IsBounded s timed h))
