-- ===== src/Server/Reports/Log.antt =====
-- server/reporting.rs: the buffer of a block is the end of the log of all its reports, and its
-- position is a reader's position in that log.
use rs_iec.Common.{
  ℕ, ◌+◌, ◌-◌, ◌%◌, ◌^◌, ◌≤◌, ◌≡◌, refl, sym, ap, ◌∙◌, Bool, true, false, ◌==◌, ltb, ◌||◌, List, [],
  ◌∷◌, ◌++◌, length, drop, zero, suc, arith, if_elim, append-nil, append_assoc, length-append,
  length-drop, ltb→lt, ltb-false-le,
}
use mathlib.Core.Path.{subst}
use rs_iec.Server.Reports.{ReportEntry, Rcb, Env}
use rs_iec.Server.Reports.Entries.{next_entry_id}
use rs_iec.Server.Reports.Segments.{drop-drop}
use rs_iec.Server.Reports.Buffer.{Retained, discard, commit, emit}

told_at_none : (next : ℕ) (loss : Bool) → loss ≡ (loss || ltb next 0)
told_at_none next true = refl
told_at_none next false = ground arith

told_later :
    (next k : ℕ) (loss : Bool)
    → ((loss || next == 0) || ltb (next - 1) k) ≡ (loss || ltb next (suc k))
told_later next k true = refl
told_later next k false = ground arith

told_twice :
    (reader gone k : ℕ) (lost : Bool)
    → ((lost || ltb reader gone) || ltb (reader - gone) k) ≡ (lost || ltb reader (gone + k))
told_twice reader gone k true = refl
told_twice reader gone k false = ground arith

pub drop-append {ℓ} :
    {A : Type ℓ} (i : ℕ) (xs ys : List A) → i ≤ length xs → drop i xs ++ ys ≡ drop i (xs ++ ys)
drop-append zero xs ys h = refl
drop-append (suc i) [] ys h = absurd (omega (arith, h))
drop-append (suc i) (x ∷ xs) ys h = drop-append i xs ys (omega (arith, h))

module _ {V : Type 0} where
  -- What is left after the removal of a number of entries from the front: a loss is told if one of
  -- them was not yet sent.
  abbrev pub cut : ℕ → List (ReportEntry V) → ℕ → Bool → Retained V
  cut k es next loss = record {
    kept = drop k es;
    position = next - k;
    overflow = loss || ltb next k;
  }

  pub retained :
      (es : List (ReportEntry V)) {i j : ℕ} {a b : Bool}
      → i ≡ j
      → a ≡ b
      → Path
          (Retained V)
          (record { kept = es; position = i; overflow = a })
          (record { kept = es; position = j; overflow = b })
  retained es h k = λ t. record { kept = es; position = h t; overflow = k t }

  pub discard-cut :
      (m : ℕ) (es : List (ReportEntry V)) (next : ℕ) (loss : Bool) (k : ℕ)
      → k ≡ length es - m
      → discard m es next loss ≡ cut k es next loss
  unfolding discard
  discard-cut m [] next loss zero h = retained [] (omega arith) (told_at_none next loss)
  discard-cut m [] next loss (suc k) h = absurd (omega (arith, h))
  discard-cut m (e ∷ es) next loss zero h =
      if_elim (λ r. r ≡ cut 0 (e ∷ es) next loss) (ltb m (length (e ∷ es)))
        (λ over. absurd (omega (arith, h, ltb→lt m (suc (length es)) over)))
        (λ _. retained (e ∷ es) (omega arith) (told_at_none next loss))
  discard-cut m (e ∷ es) next loss (suc k) h =
      if_elim (λ r. r ≡ cut (suc k) (e ∷ es) next loss) (ltb m (length (e ∷ es)))
        (λ _.
          discard-cut m es (next - 1) (loss || next == 0) k (omega (arith, h))
          ∙ retained (drop k es) (omega arith) (told_later next k loss))
        (λ under. absurd (omega (arith, h, ltb-false-le m (suc (length es)) under)))

  -- The state of a buffered block's buffer by a log: of all entries since the last purge it keeps the
  -- newest, as many as fit; its position is the reader's, and it tells a loss if an entry that the
  -- reader was not sent is gone, or if one was gone before.
  pub record Keeps (log : List (ReportEntry V)) (reader : ℕ) (lost : Bool) (s : Rcb V)
      : Type 0 where
    pub newest : s.buffer ≡ drop (length log - s.max_buffer) log
    pub position : s.next ≡ reader - (length log - s.max_buffer)
    pub told : s.buf_overflow ≡ (lost || ltb reader (length log - s.max_buffer))

  -- The entry as it is put into the log.
  abbrev pub entered : Rcb V → ReportEntry V → ReportEntry V
  entered s e = record e { id = next_entry_id s.entry_seed s.entry_counter }

  pub commit-Keeps :
      (log : List (ReportEntry V)) (reader : ℕ) (lost : Bool) (s : Rcb V) (e : ReportEntry V)
      → reader ≤ length log
      → Keeps log reader lost s
      → Keeps (log ++ (entered s e ∷ [])) reader lost (commit s e)
  unfolding commit
  commit-Keeps log reader lost s e r h =
      let m = s.max_buffer in
      let grown = s.buffer ++ (entered s e ∷ []) in
      let gone = length log - m in
      let k = length grown - m in
      let size : length grown ≡ length log - gone + 1 =
        ap (λ l. length (l ++ (entered s e ∷ []))) h.newest
        ∙ length-append (drop gone log) (entered s e ∷ [])
        ∙ ap (λ n. n + 1) (length-drop gone log) in
      let longer : length (log ++ (entered s e ∷ [])) ≡ length log + 1 = length-append log _ in
      let now_gone : gone + k ≡ length (log ++ (entered s e ∷ [])) - m =
        omega (arith, size, longer) in
      let left : discard m grown s.next s.buf_overflow ≡ cut k grown s.next s.buf_overflow =
        discard-cut m grown s.next s.buf_overflow k refl in
      record {
        newest =
            ap (λ c. c.kept) left
            ∙ ap (λ l. drop k (l ++ (entered s e ∷ []))) h.newest
            ∙ ap (drop k) (drop-append gone log (entered s e ∷ []) (omega arith))
            ∙ drop-drop (log ++ (entered s e ∷ [])) gone k _ now_gone;
        position = ap (λ c. c.position) left ∙ omega (arith, h.position, now_gone);
        told =
            ap (λ c. c.overflow) left
            ∙ ap (λ b. b || ltb s.next k) h.told
            ∙ ap (λ n. (lost || ltb reader gone) || ltb n k) h.position
            ∙ told_twice reader gone k lost
            ∙ ap (λ n. lost || ltb reader n) now_gone;
      }

  -- A series of events of a block that nobody has enabled, each with what it finds around it.
  unfoldable pub emit_series : List (Env V × ReportEntry V) → Rcb V → Rcb V
  emit_series [] s = s
  emit_series ((env, e) ∷ more) s = emit_series more (emit env e s)

  -- The log's entries: the events at their times, each under the next EntryID.
  unfoldable pub entries_of : ℕ → ℕ → List (Env V × ReportEntry V) → List (ReportEntry V)
  entries_of seed counter [] = []
  entries_of seed counter ((env, e) ∷ more) =
      record e { time = env.now; id = next_entry_id seed counter }
      ∷ entries_of seed ((counter + 1) % 2 ^ 64) more

  pub emit-commit :
      (env : Env V) (e : ReportEntry V) (s : Rcb V)
      → s.buffered ≡ true
      → s.enabled ≡ false
      → emit env e s ≡ commit s (record e { time = env.now })
  unfolding emit
  emit-commit env e s b d = rw (b, d) refl

  -- Whatever a buffered block that is not enabled is told of, its buffer stays the newest part of the
  -- log that a reader with a position in the log would have to be sent from, and a loss is told
  -- exactly if the reader misses an entry or one was lost before.
  pub emit_series-Keeps :
      (events : List (Env V × ReportEntry V)) (log : List (ReportEntry V)) (reader : ℕ)
      → (lost : Bool) (s : Rcb V) → s.buffered ≡ true
      → s.enabled ≡ false
      → reader ≤ length log
      → Keeps log reader lost s
      → Keeps
          (log ++ entries_of s.entry_seed s.entry_counter events)
          reader
          lost
          (emit_series events s)
  unfolding emit_series entries_of commit
  emit_series-Keeps [] log reader lost s b d r h =
      subst (λ l. Keeps l reader lost s) (sym (append-nil log)) h
  emit_series-Keeps ((env, e) ∷ more) log reader lost s b d r h =
      let timed = record e { time = env.now } in
      let counter = (s.entry_counter + 1) % 2 ^ 64 in
      let whole = log ++ (entered s timed ∷ entries_of s.entry_seed counter more) in
      let rest =
        emit_series-Keeps more (log ++ (entered s timed ∷ [])) reader lost (commit s timed) b d
          (omega (arith, r, length-append log (entered s timed ∷ [])))
          (commit-Keeps log reader lost s timed r h) in
      subst (λ u. Keeps whole reader lost (emit_series more u)) (sym (emit-commit env e s b d))
        (subst (λ l. Keeps l reader lost (emit_series more (commit s timed)))
          (append_assoc log (entered s timed ∷ []) _) rest)
