-- ===== src/Server/Reports/Departure.antt =====
-- server/reporting.rs and server/server.rs: the end of a subscriber's connection, which the server
-- takes out of the connection table before it disables the blocks.
use rs_iec.Common.{
  ℕ, ◌+◌, ◌-◌, ◌<◌, ◌≡◌, refl, ap, ◌∙◌, Bool, true, false, ◌==◌, List, [], ◌∷◌, ◌++◌, Option, none,
  some, length, drop, suc, arith, if_elim, ==_iff, if◌then◌else◌, length-append, length-drop, ltb,
  ◌||◌, le→ltb-false,
}
use rs_iec.Server.Reports.{ReportEntry, Report, Rcb, Env, IpAddr}
use rs_iec.Server.Reports.Entries.{next_entry_id}
use rs_iec.Server.Reports.Log.{cut, discard-cut}
use rs_iec.Server.Reports.Control.{
  leave, disable, release, sync_resv, stop_resv_timer, stop_integrity, hold_for, is_conn,
}
use rs_iec.Server.Reports.Buffer.{
  subscriber, subscriber_of, transmit, transmit_on, transmit_each, transmit_buffered, advance,
  commit, emit, closed, flush, flush_pending, discard,
}

-- What was sent, what the buffer holds, how far its position is, and whether a loss is to be told.
pub record Stock (V : Type 0) : Type 0 where
  pub sent : List (Report V)
  pub buffer : List (ReportEntry V)
  pub next : ℕ
  pub loss : Bool

not_zero : (n : ℕ) → 0 < n → (n == 0) ≡ false
not_zero n h = ground arith

module _ {V : Type 0} where
  -- A subscriber that the table no longer has is sent nothing, and yet the position moves on.
  transmit_each-absent :
      (env : Env V) (es : List (ReportEntry V)) (s : Rcb V)
      → subscriber env s.conn ≡ none
      → transmit_each env es s ≡ record s { next = s.next + length es }
  unfolding transmit_each transmit
  transmit_each-absent env [] s h = λ i. record s { next = unchanged i }
    where
      unchanged : s.next ≡ s.next + 0
      unchanged = omega arith
  transmit_each-absent env (e ∷ es) s h =
      ap (λ t. transmit_each env es (advance t)) (ap (transmit_on env e s) h)
      ∙ transmit_each-absent env es (advance s) h
      ∙ λ i. record s { next = more i }
    where
      more : s.next + 1 + length es ≡ s.next + suc (length es)
      more = omega arith

  abbrev pub stock : Rcb V → Stock V
  stock t = record { sent = t.sent; buffer = t.buffer; next = t.next; loss = t.buf_overflow }

  stock-release : (env : Env V) (s : Rcb V) → stock (release env s) ≡ stock s
  unfolding release sync_resv stop_resv_timer
  stock-release env s =
      if_elim (λ t. stock t ≡ stock s) s.resv_cfg (λ _. refl)
        (λ _. if_elim (λ t. stock t ≡ stock s) _ (λ _. held s.owner_ip) (λ _. refl))
    where
      held :
          (o : Option IpAddr)
          → stock (
              sync_resv (
                hold_for env o
                  (record (stop_resv_timer (record s { owner = none; owner_ip = none })) {
                    resv_ip = none;
                  })))
            ≡ stock s
      held none = refl
      held (some ip) = refl

  stock-disable : (env : Env V) (s : Rcb V) → stock (disable env s) ≡ stock (flush_pending env s)
  unfolding disable stop_integrity
  stock-disable env s =
      if_elim (λ t. stock t ≡ stock (flush_pending env s)) s.buffered (λ _. stock-release env _)
        (λ _. refl)

  stock-leave :
      (env : Env V) (s : Rcb V) (conn : ℕ)
      → s.conn ≡ some conn
      → stock (leave env conn s) ≡ stock (flush_pending env s)
  unfolding leave
  stock-leave env s conn h =
      ap
        (λ o. stock (
          let off = if is_conn o conn then disable env s else s in
          if is_conn off.owner conn then release env off else off))
        h
      ∙ ap
          (λ b. stock (
            let off = if b then disable env s else s in
            if is_conn off.owner conn then release env off else off))
          ((==_iff conn conn).1 refl)
      ∙ if_elim (λ t. stock t ≡ stock (flush_pending env s)) (is_conn (disable env s).owner conn)
          (λ _. stock-release env (disable env s) ∙ stock-disable env s) (λ _. stock-disable env s)

  -- The entry of a window that closes, as the block commits it.
  abbrev pub last_entry : Env V → Rcb V → ReportEntry V → ReportEntry V
  last_entry env s p = record p { time = env.now; id = next_entry_id s.entry_seed s.entry_counter }

  emit-buffered :
      (env : Env V) (e : ReportEntry V) (s : Rcb V)
      → s.buffered ≡ true
      → s.enabled ≡ true
      → emit env e s ≡ transmit_buffered env (commit s (record e { time = env.now }))
  unfolding emit
  emit-buffered env e s b d = rw (b, d) refl

  emit-absent :
      (env : Env V) (s : Rcb V) (p : ReportEntry V)
      → subscriber env s.conn ≡ none
      → s.buffered ≡ true
      → s.enabled ≡ true
      → s.next ≡ length s.buffer
      → s.buf_overflow ≡ false
      → length s.buffer < s.max_buffer
      → stock (emit env p s) ≡ record {
        sent = s.sent;
        buffer = s.buffer ++ (last_entry env s p ∷ []);
        next = length s.buffer + 1;
        loss = false;
      }
  unfolding commit transmit_buffered
  emit-absent env s p away b en all_sent calm room =
      let grown = s.buffer ++ (last_entry env s p ∷ []) in
      let longer : length grown ≡ length s.buffer + 1 = length-append s.buffer _ in
      let kept : discard s.max_buffer grown s.next s.buf_overflow
          ≡ cut 0 grown s.next s.buf_overflow =
        discard-cut s.max_buffer grown s.next s.buf_overflow 0 (omega (arith, longer, room)) in
      let position : s.next - 0 + length (drop (s.next - 0) grown) ≡ length s.buffer + 1 =
        omega (arith, length-drop (s.next - 0) grown, longer, all_sent) in
      let untold : (s.buf_overflow || ltb s.next 0) ≡ false =
        ap (λ o. o || ltb s.next 0) calm ∙ le→ltb-false s.next 0 (omega arith) in
      ap stock (emit-buffered env p s b en ∙ transmit_each-absent env _ _ away)
      ∙ ap
          (λ r. record {
            sent = s.sent;
            buffer = r.kept;
            next = r.position + length (drop r.position r.kept);
            loss = r.overflow;
          })
          kept
      ∙ λ i. record { sent = s.sent; buffer = grown; next = position i; loss = untold i }

  -- A subscriber's connection ends, and the server has already taken it out of the connection table.
  -- Its buffered block, enabled, with room in the buffer, all of it sent and no loss to tell, that has
  -- events in an open buffer-time window then puts them into the buffer as its last entry and its
  -- position behind that entry, as if it had been sent, though nothing was sent and no loss is told.
  pub leave-absent :
      (env : Env V) (s : Rcb V) (conn : ℕ) (p : ReportEntry V)
      → env.conns conn ≡ none
      → s.conn ≡ some conn
      → s.buffered ≡ true
      → s.enabled ≡ true
      → s.pending ≡ some p
      → 0 < length p.members
      → s.next ≡ length s.buffer
      → s.buf_overflow ≡ false
      → length s.buffer < s.max_buffer
      → stock (leave env conn s) ≡ record {
        sent = s.sent;
        buffer = s.buffer ++ (last_entry env s p ∷ []);
        next = length s.buffer + 1;
        loss = false;
      }
  unfolding flush_pending subscriber
  leave-absent env s conn p away there b en window some_member all_sent calm room =
      let absent : subscriber env s.conn ≡ none =
        ap (subscriber env) there ∙ ap (subscriber_of conn) away in
      stock-leave env s conn there
      ∙ ap (λ o. stock (flush env s o)) window
      ∙ ap (λ z. stock (if z then closed s else emit env p (closed s)))
          (not_zero (length p.members) some_member)
      ∙ emit-absent env (closed s) p absent b en all_sent calm room
