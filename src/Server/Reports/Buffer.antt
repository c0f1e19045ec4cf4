-- ===== src/Server/Reports/Buffer.antt =====
-- server/reporting.rs: from an event to the association's queue: the buffer-time window, the buffer
-- of a buffered block, and the sending of one report and of what the buffer holds.
use rs_iec.Common.{
  ℕ, ◌+◌, ◌-◌, ◌%◌, ◌^◌, Bool, false, ◌==◌, ltb, not, ◌&&◌, ◌||◌, if◌then◌else◌, List, [], ◌∷◌,
  ◌++◌, Option, none, some, length, drop,
}
use rs_iec.Server.Reports.{ReportEntry, Report, Rcb, Env}
use rs_iec.Server.Reports.Entries.{empty_entry, merge, overlaps, next_entry_id}
use rs_iec.Server.Reports.Messages.{report_pdus}

-- What is left of the buffer, of `next` and of the flag.
pub record Retained (V : Type 0) : Type 0 where
  pub kept : List (ReportEntry V)
  pub position : ℕ
  pub overflow : Bool

abbrev pub subscriber_of : ℕ → Option ℕ → Option (ℕ × ℕ)
subscriber_of c none = none
subscriber_of c (some max_pdu) = some (c, max_pdu)

module _ {V : Type 0} where
  -- SqNum wraps at sixteen bits in a buffered block and at eight in an unbuffered one.
  unfoldable pub set_sq_num : Rcb V → ℕ → Rcb V
  set_sq_num s n =
      let wrapped = if s.buffered then n % 2 ^ 16 else n % 2 ^ 8 in
      record s { sq_num = wrapped; attrs = record (s.attrs) { sq_num = wrapped } }

  -- The subscriber's association, if the table has it, with its greatest PDU.
  unfoldable pub subscriber : Env V → Option ℕ → Option (ℕ × ℕ)
  subscriber env none = none
  subscriber env (some c) = subscriber_of c (env.conns c)

  -- The PDUs of one report, up to the first that the queue refuses.
  unfoldable pub send_all : Env V → List (Report V) → Rcb V → Rcb V
  send_all env [] s = s
  send_all env (pdu ∷ rest) s =
      let rest_sent = send_all env rest (record s { sent = s.sent ++ (pdu ∷ []) }) in
      if env.accepts pdu
      then rest_sent
      else record s { buf_overflow = s.buf_overflow || s.buffered }

  -- `std::mem::take` clears the overflow that the report carries.
  unfoldable pub transmit_to : Env V → ReportEntry V → Rcb V → ℕ → ℕ → Rcb V
  transmit_to env e s c max_pdu =
      let numbered = set_sq_num s (s.sq_num + 1) in
      let cleared = record numbered { buf_overflow = false } in
      send_all env (report_pdus env cleared e s.sq_num s.buf_overflow c max_pdu) cleared

  abbrev pub transmit_on : Env V → ReportEntry V → Rcb V → Option (ℕ × ℕ) → Rcb V
  transmit_on env e s none = s
  transmit_on env e s (some (c, max_pdu)) = transmit_to env e s c max_pdu

  unfoldable pub transmit : Env V → ReportEntry V → Rcb V → Rcb V
  transmit env e s = transmit_on env e s (subscriber env s.conn)

  abbrev pub advance : Rcb V → Rcb V
  advance s = record s { next = s.next + 1 }

  -- One turn of `transmit_buffered` for each entry from `next` on: sending changes no buffer.
  unfoldable pub transmit_each : Env V → List (ReportEntry V) → Rcb V → Rcb V
  transmit_each env [] s = s
  transmit_each env (e ∷ es) s = transmit_each env es (advance (transmit env e s))

  unfoldable pub transmit_buffered : Env V → Rcb V → Rcb V
  transmit_buffered env s = transmit_each env (drop s.next s.buffer) s

  -- `while st.buffer.len() > rs.max_buffer { remove(0) .. }`
  unfoldable pub discard : ℕ → List (ReportEntry V) → ℕ → Bool → Retained V
  discard max_buffer [] next overflow = record { kept = []; position = next; overflow = overflow }
  discard max_buffer (e ∷ es) next overflow =
      let rest = discard max_buffer es (next - 1) (overflow || next == 0) in
      if ltb max_buffer (length (e ∷ es))
      then rest
      else record { kept = e ∷ es; position = next; overflow = overflow }

  abbrev pub with_retained : Rcb V → Retained V → Rcb V
  with_retained s r = record s { buffer = r.kept; next = r.position; buf_overflow = r.overflow }

  -- A buffered block's entry gets its EntryID and goes to the end of the buffer.
  unfoldable pub commit : Rcb V → ReportEntry V → Rcb V
  commit s e =
      let id = next_entry_id s.entry_seed s.entry_counter in
      let numbered = record s {
        entry_counter = (s.entry_counter + 1) % 2 ^ 64;
        attrs = record (s.attrs) { entry_id = id; time_of_entry = e.time };
      } in
      with_retained numbered
        (discard s.max_buffer (s.buffer ++ (record e { id = id } ∷ [])) s.next s.buf_overflow)

  unfoldable pub emit : Env V → ReportEntry V → Rcb V → Rcb V
  emit env e s =
      let timed = record e { time = env.now } in
      if not s.buffered
      then if s.enabled then transmit env timed s else s
      else if s.enabled
      then transmit_buffered env (commit s timed)
      else commit s timed

  -- A handle that is dropped or aborted is gone from the state.
  abbrev pub closed : Rcb V → Rcb V
  closed s = record s { pending = none; pending_gen = s.pending_gen + 1; pending_timer = none }

  abbrev pub flush : Env V → Rcb V → Option (ReportEntry V) → Rcb V
  flush env s none = s
  flush env s (some p) = if length p.members == 0 then closed s else emit env p (closed s)

  unfoldable pub flush_pending : Env V → Rcb V → Rcb V
  flush_pending env s = flush env s s.pending

  abbrev pub is_pending : Option (ReportEntry V) → ReportEntry V → Bool
  is_pending none e = false
  is_pending (some p) e = overlaps p e

  abbrev pub opened : Env V → ReportEntry V → Rcb V → Rcb V
  opened env e s = record s {
    pending = some (merge (empty_entry env.now) e);
    pending_timer = some (record { generation = s.pending_gen; period = s.attrs.buf_tm });
  }

  -- The event joins the open window, or opens one, which takes a timer.
  abbrev pub collect_in : Env V → ReportEntry V → Rcb V → Option (ReportEntry V) → Rcb V
  collect_in env e s (some p) = record s { pending = some (merge p e) }
  collect_in env e s none = if env.served && env.spawns then opened env e s else emit env e s

  unfoldable pub collect : Env V → ReportEntry V → Rcb V → Rcb V
  collect env e s = collect_in env e s s.pending

  unfoldable pub event : Env V → ReportEntry V → Rcb V → Rcb V
  event env e s =
      if s.attrs.buf_tm == 0
      then emit env e s
      else collect env e (if is_pending s.pending e then flush_pending env s else s)

  -- The end of a window that was opened in the given generation.
  unfoldable pub window_ends : Env V → ℕ → Rcb V → Rcb V
  window_ends env generation s =
      if s.pending_gen == generation
      then flush_pending env (record s { pending_timer = none })
      else s
