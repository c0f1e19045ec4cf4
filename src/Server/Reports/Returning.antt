-- ===== src/Server/Reports/Returning.antt =====
-- server/reporting.rs: what a client misses of a buffered block while nobody has it enabled.
use rs_iec.Common.{
  ℕ, ◌+◌, ◌-◌, ◌≤◌, ◌≡◌, refl, sym, ap, ◌∙◌, true, false, ltb, ◌<◌, le→ltb-false, List, [], ◌∷◌,
  ◌++◌, Option, none, some, length, drop, suc, arith, length-append, drop_all,
}
use mathlib.Core.Path.{subst}
use rs_iec.Server.Reports.{ReportEntry, Rcb, Env, IpAddr}
use rs_iec.Server.Reports.Buffer.{commit}
use rs_iec.Server.Reports.Control.{enable, resynchronise, resume_at}
use rs_iec.Server.Reports.Segments.{drop-drop}
use rs_iec.Server.Reports.Delivery.{deliveries, pdus_for, TakesAll}
use rs_iec.Server.Reports.Reconnect.{Resumes, enable-sent}
use rs_iec.Server.Reports.Log.{emit_series, entries_of, emit_series-Keeps, emit-commit}

-- Dropping past a first part drops from the second.
drop_past_first {ℓ} :
    {A : Type ℓ} (xs ys : List A) (m k : ℕ) → m ≡ length xs + k → drop m (xs ++ ys) ≡ drop k ys
drop_past_first xs ys m k h =
    sym (drop-drop (xs ++ ys) (length xs) k m (sym h)) ∙ ap (drop k) (drop_all xs ys)

ltb_same : {a b c d : ℕ} → (a < b → c < d) → (c < d → a < b) → ltb a b ≡ ltb c d
ltb_same {a} {b} {c} {d} h k = ground (arith, h, k)

module _ {V : Type 0} where
  length-entries_of :
      (seed : ℕ) (events : List (Env V × ReportEntry V)) (counter : ℕ)
      → length (entries_of seed counter events) ≡ length events
  unfolding entries_of
  length-entries_of seed [] counter = refl
  length-entries_of seed ((env, e) ∷ more) counter = ap suc (length-entries_of seed more _)

  -- The fields of a block that its disabled buffering leaves alone.
  abbrev Calm : Rcb V → Rcb V → Type 0
  Calm s t =
      (t.sent ≡ s.sent)
      × (t.buffered ≡ s.buffered)
      × (t.resync_id ≡ s.resync_id)
      × (t.max_buffer ≡ s.max_buffer)

  emit_series-Calm :
      (events : List (Env V × ReportEntry V)) (s : Rcb V)
      → s.buffered ≡ true
      → s.enabled ≡ false
      → Calm s (emit_series events s)
  unfolding emit_series commit
  emit_series-Calm [] s b d = (refl, refl, refl, refl)
  emit_series-Calm ((env, e) ∷ more) s b d =
      subst (λ u. Calm s (emit_series more u)) (sym (emit-commit env e s b d))
        (emit_series-Calm more (commit s (record e { time = env.now })) b d)

  in_place-Resumes : (s : Rcb V) → s.resync_id ≡ none → Resumes s s.next s.buf_overflow
  unfolding resynchronise
  in_place-Resumes s idle p hb hr hn ho = ap (resume_at p) (hr ∙ idle) ∙ λ t. record p {
    next = hn t;
    buf_overflow = ho t;
    resync_id = (hr ∙ idle) t;
  }

  -- What the reader of the log at its old end has not been sent of the buffer after the events.
  untold :
      (env : Env V) (conn max_pdu : ℕ) (s : Rcb V) (events : List (Env V × ReportEntry V))
      → s.buffered ≡ true
      → s.enabled ≡ false
      → s.buf_overflow ≡ false
      → s.next ≡ length s.buffer
      → length s.buffer ≤ s.max_buffer
      → (drop (emit_series events s).next (emit_series events s).buffer
          ≡ drop (length events - s.max_buffer) (entries_of s.entry_seed s.entry_counter events))
        × ((emit_series events s).buf_overflow ≡ ltb s.max_buffer (length events))
  untold env conn max_pdu s events b d calm all_sent small =
      let new = entries_of s.entry_seed s.entry_counter events in
      let count : length new ≡ length events =
        length-entries_of s.entry_seed events s.entry_counter in
      let whole : length (s.buffer ++ new) ≡ length s.buffer + length events =
        length-append s.buffer new ∙ ap (λ n. length s.buffer + n) count in
      let none_gone : 0 ≡ length s.buffer - s.max_buffer = omega (arith, small) in
      let width = (emit_series-Calm events s b d).3 in
      let kept =
        emit_series-Keeps events s.buffer (length s.buffer) false s b d (omega arith) (record {
          newest = ap (λ n. drop n s.buffer) none_gone;
          position = all_sent ∙ omega (arith, small);
          told = calm ∙ sym (le→ltb-false (length s.buffer) _ (omega arith));
        }) in
      let t = emit_series events s in
      let gone = length (s.buffer ++ new) - t.max_buffer in
      let reach : length s.buffer + (length events - s.max_buffer) ≡ gone + t.next =
        omega (arith, kept.position, whole, width, small) in
      (
        ap (drop t.next) kept.newest
            ∙ drop-drop (s.buffer ++ new) gone t.next _ refl
            ∙ drop_past_first s.buffer new (gone + t.next) _ (sym reach),
        kept.told
            ∙ ltb_same (λ h. omega (arith, h, whole, width, small))
                (λ h. omega (arith, h, whole, width, small)),
      )

  -- A buffered block that was enabled no more had sent all of its buffer and had no loss to tell.
  -- Whatever events come while nobody has it enabled: the client that enables it next, without an
  -- EntryID, in the connection table and with a queue that takes every PDU, is sent the newest of
  -- them, as many as the buffer holds, in order and from sequence number 0, and the first carries
  -- the overflow exactly if there were more.
  pub enable-emit_series :
      (env : Env V) (conn : ℕ) (ip : Option IpAddr) (max_pdu : ℕ) (s : Rcb V)
      → (events : List (Env V × ReportEntry V)) → TakesAll env
      → env.conns conn ≡ some max_pdu
      → s.buffered ≡ true
      → s.enabled ≡ false
      → s.resync_id ≡ none
      → s.buf_overflow ≡ false
      → s.next ≡ length s.buffer
      → length s.buffer ≤ s.max_buffer
      → (enable env conn ip (emit_series events s)).sent
        ≡ s.sent
          ++ deliveries
              (pdus_for env (emit_series events s) conn max_pdu)
              true
              (drop (length events - s.max_buffer) (entries_of s.entry_seed s.entry_counter events))
              0
              (ltb s.max_buffer (length events))
  enable-emit_series env conn ip max_pdu s events takes found b d idle calm all_sent small =
      let t = emit_series events s in
      let same = emit_series-Calm events s b d in
      let tb : t.buffered ≡ true = same.1 ∙ b in
      let rest = untold env conn max_pdu s events b d calm all_sent small in
      enable-sent env conn ip t max_pdu t.next t.buf_overflow takes found tb
        (in_place-Resumes t (same.2 ∙ idle))
      ∙ λ i. same.0 i ++ deliveries (pdus_for env t conn max_pdu) (tb i) (rest.0 i) 0 (rest.1 i)
