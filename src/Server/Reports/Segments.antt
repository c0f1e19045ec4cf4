-- ===== src/Server/Reports/Segments.antt =====
-- server/reporting.rs, `report_pdus`: the segments of a report carry every included member once and
-- in order.
use rs_iec.Common.{
  ℕ, ◌+◌, ◌-◌, ◌%◌, ◌≤◌, ◌<◌, ◌≡◌, refl, sym, ap, ◌∙◌, Bool, true, false, not, ltb, List, [], ◌∷◌,
  ◌++◌, Option, none, some, length, zero, suc, take, drop, All, arith, ◌⊎◌, inl, inr, if_elim,
  lt→ltb, ltb→lt, ◌==◌, ◌||◌, leb, ltb-false-le,
}
use mathlib.Core.Path.{subst}
use rs_iec.Server.Reports.{
  ReportEntry, Report, Rcb, Env, DsMember, Field, boolean, uint16, visible_string, flags,
}
use rs_iec.Server.Reports.Messages.{
  report_element, optional_fields, member_fields, ReportFields, or_empty, report_fields, report_of,
  fits, grow, segments, split, range, report_pdus,
}
use rs_iec.Server.Reports.Access.{is_empty}

take-take {ℓ} :
    {A : Type ℓ} (ys : List A) (i j m : ℕ) → i + j ≡ m → take i ys ++ take j (drop i ys) ≡ take m ys
take-take ys zero j m h = ap (λ n. take n ys) (omega (arith, h))
take-take [] (suc i) zero (suc m) h = refl
take-take [] (suc i) (suc j) (suc m) h = refl
take-take (y ∷ ys) (suc i) j (suc m) h = ap (λ t. y ∷ t) (take-take ys i j m (omega (arith, h)))
take-take ys (suc i) j zero h = absurd (omega (arith, h))

pub drop-drop {ℓ} :
    {A : Type ℓ} (xs : List A) (a i m : ℕ) → a + i ≡ m → drop i (drop a xs) ≡ drop m xs
drop-drop xs zero i m h = ap (λ n. drop n xs) (omega (arith, h))
drop-drop [] (suc a) zero (suc m) h = refl
drop-drop [] (suc a) (suc i) (suc m) h = refl
drop-drop (x ∷ xs) (suc a) i (suc m) h = drop-drop xs a i m (omega (arith, h))
drop-drop xs (suc a) i zero h = absurd (omega (arith, h))

range-range {ℓ} :
    {A : Type ℓ} (xs : List A) (a b n : ℕ)
    → a ≤ b
    → b ≤ n
    → range xs a b ++ range xs b n ≡ range xs a n
range-range xs a b n h k =
    ap (λ d. range xs a b ++ take (n - b) d) (sym (drop-drop xs a (b - a) b (omega (arith, h))))
    ∙ take-take (drop a xs) (b - a) (n - b) (n - a) (omega (arith, h, k))

module _ {V : Type 0} where
  -- The runs of the reports follow one another from the first index to the second, none empty.
  abbrev pub Chain : ℕ → ℕ → List (Report V) → Type 0
  Chain a n [] = a ≡ n
  Chain a n (r ∷ rs) = (r.from ≡ a) × (r.from < r.until) × (r.until ≤ n) × Chain r.until n rs

  -- SubSeqNum counts from the number on, and MoreSegmentsFollow is set on all but the last.
  abbrev pub Numbered : ℕ → List (Report V) → Type 0
  Numbered k [] = Unit {0}
  Numbered k (r ∷ rs) = (r.segment ≡ some (k % 65536, not (is_empty rs))) × Numbered (k + 1) rs

  grow-range :
      (build : ℕ → ℕ → Option (ℕ × Bool) → Report V) (ok : Report V → Bool)
      → (room from until sub_seq : ℕ)
      → (until ≤ grow build ok room from until sub_seq)
        × (grow build ok room from until sub_seq ≤ until + room)
  unfolding grow
  grow-range build ok zero from until sub_seq = omega arith
  grow-range build ok (suc room) from until sub_seq =
      let more = grow-range build ok room from (until + 1) sub_seq in ground (arith, more)

  -- Where the segment grew, it was seen to fit.
  grow-fits :
      (build : ℕ → ℕ → Option (ℕ × Bool) → Report V) (ok : Report V → Bool)
      → (room from until sub_seq : ℕ)
      → (grow build ok room from until sub_seq ≡ until)
        ⊎ (ok (build from (grow build ok room from until sub_seq) (some (sub_seq, true))) ≡ true)
  unfolding grow
  grow-fits build ok zero from until sub_seq = inl refl
  grow-fits build ok (suc room) from until sub_seq =
      if_elim (λ g. (g ≡ until) ⊎ (ok (build from g (some (sub_seq, true))) ≡ true))
        (ok (build from (until + 1) (some (sub_seq, true))))
        (λ fit. grown fit (grow-fits build ok room from (until + 1) sub_seq)) (λ _. inl refl)
    where
      grown :
          {g : ℕ}
          → ok (build from (until + 1) (some (sub_seq, true))) ≡ true
          → (g ≡ until + 1) ⊎ (ok (build from g (some (sub_seq, true))) ≡ true)
          → (g ≡ until) ⊎ (ok (build from g (some (sub_seq, true))) ≡ true)
      grown fit (inl e) =
          inr (subst (λ g. ok (build from g (some (sub_seq, true))) ≡ true) (sym e) fit)
      grown fit (inr h) = inr h

  -- Two lists of fields that differ in one boolean.
  abbrev Flip : List (Field V) → List (Field V) → Type 0
  Flip xs ys =
      (fs : List (Field V)) × (gs : List (Field V)) × (xs ≡ fs ++ (boolean true ∷ gs))
      × (ys ≡ fs ++ (boolean false ∷ gs))

  Flip-cons : (f : Field V) {xs ys : List (Field V)} → Flip xs ys → Flip (f ∷ xs) (f ∷ ys)
  Flip-cons f (fs, gs, h, k) = (f ∷ fs, gs, ap (λ t. f ∷ t) h, ap (λ t. f ∷ t) k)

  Flip-append :
      (ws : List (Field V)) {xs ys : List (Field V)} → Flip xs ys → Flip (ws ++ xs) (ws ++ ys)
  Flip-append [] h = h
  Flip-append (w ∷ ws) h = Flip-cons w (Flip-append ws h)

  -- What the encoder promises: a boolean takes as many octets, be it true or false.
  abbrev pub BooleansAlike : (List (Field V) → ℕ) → Type 0
  BooleansAlike size =
      (fs gs : List (Field V))
      → size (fs ++ (boolean true ∷ gs)) ≡ size (fs ++ (boolean false ∷ gs))

  report_element-Flip :
      (f : ReportFields) (e : ReportEntry V) (ms : List DsMember) (from until k : ℕ)
      → Flip
          (report_element f e ms from until (some (k, true)))
          (report_element f e ms from until (some (k, false)))
  unfolding report_element
  report_element-Flip f e ms from until k =
      let opt = record (f.opt) { segmentation = f.opt.segmentation || true } in
      Flip-cons (visible_string f.rpt_id) (
        Flip-cons (flags opt) (
          Flip-append (optional_fields f opt e)
            (uint16 k ∷ [], member_fields opt e ms from until, refl, refl)))

  module _ (env : Env V) (s : Rcb V) (e : ReportEntry V) (seq : ℕ) (overflow : Bool)
      (c max_pdu : ℕ) where
    abbrev pub built : ℕ → ℕ → Option (ℕ × Bool) → Report V
    built = report_of env s e seq overflow c

    -- A report fits, or has a single member.
    abbrev pub Fitted : Report V → Type 0
    Fitted r = (fits env max_pdu r ≡ true) ⊎ (r.until ≡ r.from + 1)

    fits_alike :
        (from until k : ℕ) (more : Bool)
        → BooleansAlike env.size
        → fits env max_pdu (built from until (some (k, true))) ≡ true
        → fits env max_pdu (built from until (some (k, more))) ≡ true
    unfolding fits report_of
    fits_alike from until k true alike h = h
    fits_alike from until k false alike h =
        let (fs, gs, whole, last) =
          report_element-Flip (report_fields s seq overflow) e
            (or_empty (env.resolve_data_set s.attrs.dat_set)) from until k in
        let same = ap env.size whole ∙ alike fs gs ∙ sym (ap env.size last) in
        subst (λ z. (max_pdu == 0 || leb (z + 4) max_pdu) ≡ true) same h

    -- What the segments of the members from an index on are.
    abbrev pub Parts : ℕ → ℕ → ℕ → List (Report V) → Type 0
    Parts from n k out =
        Chain from n out × Numbered k out × (not (is_empty out) ≡ ltb from n) × All Fitted out

    Parts-cons :
        (from until n k : ℕ) (rest : List (Report V))
        → from < until
        → until ≤ n
        → Fitted (built from until (some (k % 65536, ltb until n)))
        → Parts until n (k + 1) rest
        → Parts from n k (built from until (some (k % 65536, ltb until n)) ∷ rest)
    unfolding report_of
    Parts-cons from until n k rest h b fit p = (
      (refl, h, b, p.0),
      (ap (λ m. some (k % 65536, m)) (sym p.2), p.1),
      sym (lt→ltb from n (omega arith)),
      (fit, p.3),
    )

    Fitted-grow :
        (n from k : ℕ) (more : Bool)
        → BooleansAlike env.size
        → Fitted (
            built from
              (grow built (fits env max_pdu) (n - (from + 1)) from (from + 1) k)
              (some (k, more)))
    unfolding report_of
    Fitted-grow n from k more alike =
        elim (grow-fits built (fits env max_pdu) (n - (from + 1)) from (from + 1) k) [
          | inl one ↦ inr one
          | inr fit ↦ inl (fits_alike from _ k more alike fit)
        ]

    -- `n - from` turns are enough, and leave no member out.
    segments-Parts :
        (fuel n from k : ℕ)
        → BooleansAlike env.size
        → from ≤ n
        → n - from ≤ fuel
        → Parts from n k (segments built (fits env max_pdu) fuel n from (k % 65536))
    unfolding segments
    segments-Parts zero n from k alike h room = (omega arith, tt, ground arith, tt)
    segments-Parts (suc fuel) n from k alike h room =
        let until = grow built (fits env max_pdu) (n - (from + 1)) from (from + 1) (k % 65536) in
        let range =
          grow-range built (fits env max_pdu) (n - (from + 1)) from (from + 1) (k % 65536) in
        let wrap : (k % 65536 + 1) % 65536 ≡ (k + 1) % 65536 = omega arith in
        if_elim (Parts from n k) (ltb from n)
          (λ more.
            let ahead = ltb→lt from n more in
            Parts-cons from until n k _ (omega (arith, range)) (omega (arith, range, ahead))
              (Fitted-grow n from (k % 65536) (ltb until n) alike)
              (subst (λ q. Parts until n (k + 1) (segments built (fits env max_pdu) fuel n until q))
                (sym wrap)
                (segments-Parts fuel n until (k + 1) alike (omega (arith, range, ahead))
                  (omega (arith, range, ahead, room)))))
          (λ done. (omega (arith, ltb-false-le from n done), tt, sym done, tt))

    -- However the report of an entry with a member is segmented, the PDUs carry the members once and
    -- in order, from the first to the last; each fits the association's greatest PDU or has a single
    -- member; and it is one PDU without a segment number, or the numbers count from 0 modulo 2^16,
    -- and all but the last announce more. It is assumed that a boolean's encoding has one length.
    pub report_pdus-partition :
        BooleansAlike env.size
        → 0 < length e.members
        → Chain 0 (length e.members) (report_pdus env s e seq overflow c max_pdu)
          × All Fitted (report_pdus env s e seq overflow c max_pdu)
          × ((report_pdus env s e seq overflow c max_pdu ≡ built 0 (length e.members) none ∷ [])
              ⊎ Numbered 0 (report_pdus env s e seq overflow c max_pdu))
    unfolding report_pdus split report_of
    report_pdus-partition alike some_member =
        let n = length e.members in
        if_elim
          (λ out. Chain 0 n out × All Fitted out × ((out ≡ built 0 n none ∷ []) ⊎ Numbered 0 out))
          (fits env max_pdu (built 0 n none))
          (λ fit. ((refl, some_member, omega arith, refl), (inl fit, tt), inl refl))
          (λ _.
            let p = segments-Parts n n 0 0 alike (omega arith) (omega arith) in (p.0, p.3, inr p.1))

  -- What the runs of the reports cut out of a list, put together again.
  abbrev pub gathered {ℓ} : {A : Type ℓ} → List A → List (Report V) → List A
  gathered xs [] = []
  gathered xs (r ∷ rs) = range xs r.from r.until ++ gathered xs rs

  pub gathered-Chain {ℓ} :
      {A : Type ℓ} (xs : List A) (a n : ℕ) (rs : List (Report V))
      → Chain a n rs
      → (a ≤ n) × (gathered xs rs ≡ range xs a n)
  gathered-Chain xs a n [] h =
      let none_left : zero ≡ n - a = omega (arith, h) in
      (omega (arith, h), ap (λ m. take m (drop a xs)) none_left)
  gathered-Chain xs a n (r ∷ rs) (e, lt, le, h) =
      let rest = gathered-Chain xs r.until n rs h in
      (
        omega (arith, e, lt, le),
        ap (λ t. range xs r.from r.until ++ t) rest.1
            ∙ range-range xs r.from r.until n (omega (arith, lt)) le
            ∙ ap (λ m. range xs m n) e,
      )
