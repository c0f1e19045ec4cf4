-- ===== src/Server/Reports/Receiver.antt =====
-- server/reporting.rs, `report_pdus`, seen from the other end: what a receiver reads out of the fields
-- of a report's PDUs, without knowing what they were built from.
use rs_iec.Common.{
  ℕ, ◌%◌, ◌^◌, ◌<◌, ◌≡◌, refl, sym, ap, ◌∙◌, Bool, true, false, List, [], ◌∷◌, ◌++◌, Option, none,
  some, length, zero, suc, take, drop, map, All, arith, if◌then◌else◌, get_elem?, length-map,
  take_all, drop_all, take_short,
}
use rs_iec.Server.Reports.{
  ReportEntry, OptFlds, TrgOps, DsMember, Field, visible_string, flags, uint8, uint16, uint32,
  binary_time, boolean, octet_string, bit_string, data_value, reason,
}
use rs_iec.Server.Reports.Messages.{optional_fields, ReportFields, inclusion, references, when}
use rs_iec.Server.Reports.Merging.{Ascending}
use rs_iec.Server.Reports.Inclusion.{positions, positions-inclusion}

-- What one PDU tells: its number and whether more follow, and the members by their place in the data
-- set, with their values and, if they are sent, their reasons.
pub record Receipt (V : Type 0) : Type 0 where
  pub segment : Option (ℕ × Bool)
  pub members : List ℕ
  pub values : List V
  pub reasons : List TrgOps

present : {A : Type 0} (xs : List A) (i : ℕ) → i < length xs → (x : A) × (get_elem? xs i ≡ some x)
present [] i h = absurd (omega (arith, h))
present (x ∷ xs) zero h = (x, refl)
present (x ∷ xs) (suc i) h = present xs i (omega (arith, h))

module _ {V : Type 0} where
  unfoldable pub values_in : List (Field V) → List V
  values_in [] = []
  values_in (data_value v ∷ fs) = v ∷ values_in fs
  values_in (_ ∷ fs) = values_in fs

  unfoldable pub reasons_in : List (Field V) → List TrgOps
  reasons_in [] = []
  reasons_in (reason r ∷ fs) = r ∷ reasons_in fs
  reasons_in (_ ∷ fs) = reasons_in fs

  abbrev pub number_in : Field V → Field V → Option (ℕ × Bool)
  number_in (uint16 k) (boolean more) = some (k, more)
  number_in _ _ = none

  -- Behind the inclusion bits: a reference for each of them if the flags say so, as many values, and as
  -- many reasons if the flags say so.
  unfoldable pub read_members :
      Bool → Bool → Option (ℕ × Bool) → List Bool → List (Field V) → Receipt V
  read_members refs told segment bits fs =
      let n = length (positions 0 bits) in
      let after_refs = if refs then drop n fs else fs in
      record {
        segment = segment;
        members = positions 0 bits;
        values = values_in (take n after_refs);
        reasons = if told then reasons_in (take n (drop n after_refs)) else [];
      }

  abbrev unreadable : Receipt V
  unreadable = record { segment = none; members = []; values = []; reasons = [] }

  -- The two fields before the inclusion bits are the segment's if the flags say so.
  unfoldable pub read_fields : OptFlds → Field V → Field V → List (Field V) → Receipt V
  read_fields opt p q [] = unreadable
  read_fields opt p q (bit_string bits ∷ fs) =
      read_members opt.data_ref opt.reason_code (if opt.segmentation then number_in p q else none)
        bits fs
  read_fields opt p q (f ∷ fs) = read_fields opt q f fs

  unfoldable pub read : List (Field V) → Receipt V
  read (id ∷ flags opt ∷ fs) = read_fields opt id (flags opt) fs
  read _ = unreadable

  values_in-map : (vs : List V) → values_in (map data_value vs) ≡ vs
  unfolding values_in
  values_in-map [] = refl
  values_in-map (v ∷ vs) = ap (λ t. v ∷ t) (values_in-map vs)

  abbrev pub Plain : Field V → Type 0
  Plain (bit_string bits) = ⊥
  Plain _ = Unit {0}

  passed_over :
      (opt : OptFlds) (p q f : Field V) (fs : List (Field V))
      → Plain f
      → read_fields opt p q (f ∷ fs) ≡ read_fields opt q f fs
  unfolding read_fields
  passed_over opt p q (bit_string bits) fs h = absurd h
  passed_over opt p q f fs h = refl

  -- The fields before the inclusion bits are passed over, but for the last two.
  pub read_fields-Plain :
      (opt : OptFlds) (p q : Field V) (fs rest : List (Field V))
      → All Plain fs
      → (p' : Field V) × (q' : Field V) × (read_fields opt p q (fs ++ rest)
          ≡ read_fields opt p' q' rest)
  read_fields-Plain opt p q [] rest h = (p, q, refl)
  read_fields-Plain opt p q (f ∷ fs) rest h =
      let (p', q', e) = read_fields-Plain opt q f fs rest h.1 in
      (p', q', passed_over opt p q f (fs ++ rest) h.0 ∙ e)

  before-Plain :
      (b : Bool) (f : Field V) (fs : List (Field V))
      → Plain f
      → All Plain fs
      → All Plain (when b f ++ fs)
  before-Plain true f fs h k = (h, k)
  before-Plain false f fs h k = k

  pub optional_fields-Plain :
      (f : ReportFields) (opt : OptFlds) (e : ReportEntry V) → All Plain (optional_fields f opt e)
  unfolding optional_fields
  optional_fields-Plain f opt e =
      let id_on : List (Field V) =
        when opt.entry_id (octet_string e.id) ++ when opt.conf_rev (uint32 f.conf_rev) in
      let overflow_on = when opt.buf_ovfl (boolean f.buf_ovfl) ++ id_on in
      let name_on = when opt.data_set_name (visible_string f.dat_set) ++ overflow_on in
      let time_on = when opt.time_of_entry (binary_time e.time) ++ name_on in
      before-Plain opt.seq_num _ time_on (first f.buffered) (
        before-Plain opt.time_of_entry (binary_time e.time) name_on tt (
          before-Plain opt.data_set_name (visible_string f.dat_set) overflow_on tt (
            before-Plain opt.buf_ovfl (boolean f.buf_ovfl) id_on tt
              (before-Plain opt.entry_id (octet_string e.id) _ tt (last opt.conf_rev)))))
    where
      first : (b : Bool) → Plain (if b then uint16 (f.seq % 2 ^ 16) else uint8 (f.seq % 2 ^ 8))
      first true = tt
      first false = tt

      last : (b : Bool) → All Plain (when b (uint32 f.conf_rev))
      last true = (tt, tt)
      last false = tt

-- What the fields of a run of the members are read as.
module _ (V : Type 0) where
  reasons_in-map : (rs : List TrgOps) → reasons_in {V = V} (map reason rs) ≡ rs
  unfolding reasons_in
  reasons_in-map [] = refl
  reasons_in-map (r ∷ rs) = ap (λ t. r ∷ t) (reasons_in-map rs)

  length-references :
      (members : List DsMember) (ms : List ℕ)
      → All (λ m. m < length members) ms
      → length (references {V = V} members ms) ≡ length ms
  length-references members [] h = refl
  length-references members (m ∷ ms) h =
      let (x, e) = present members m h.0 in
      ap (λ o. length (reference_of (references {V = V} members ms) o)) e
      ∙ ap suc (length-references members ms h.1)
    where
      reference_of : List (Field V) → Option DsMember → List (Field V)
      reference_of fs none = fs
      reference_of fs (some m) = visible_string (m.domain ++ (47 ∷ m.item)) ∷ fs

taken {ℓ} : {A : Type ℓ} (n : ℕ) (xs ys : List A) → length xs ≡ n → take n (xs ++ ys) ≡ xs
taken n xs ys e = ap (λ m. take m (xs ++ ys)) (sym e) ∙ take_all xs ys

dropped {ℓ} : {A : Type ℓ} (n : ℕ) (xs ys : List A) → length xs ≡ n → drop n (xs ++ ys) ≡ ys
dropped n xs ys e = ap (λ m. drop m (xs ++ ys)) (sym e) ∙ drop_all xs ys

module _ {V : Type 0} where
  -- What stands behind the references.
  abbrev pub written : Bool → List V → List TrgOps → List (Field V)
  written told vs rs = map data_value vs ++ (if told then map reason rs else [])

  values_back :
      (told : Bool) (n : ℕ) (vs : List V) (rs : List TrgOps)
      → length vs ≡ n
      → values_in (take n (written told vs rs)) ≡ vs
  values_back told n vs rs e =
      ap values_in (taken n (map data_value vs) _ (length-map vs data_value ∙ e)) ∙ values_in-map vs

  reasons_back :
      (told : Bool) (n : ℕ) (vs : List V) (rs : List TrgOps)
      → length vs ≡ n
      → length rs ≡ n
      → (if told then reasons_in (take n (drop n (written told vs rs))) else [])
        ≡ (if told then rs else [])
  reasons_back false n vs rs v r = refl
  reasons_back true n vs rs v r =
      ap (λ fs. reasons_in (take n fs))
        (dropped n (map data_value vs) (map reason rs) (length-map vs data_value ∙ v))
      ∙ ap reasons_in
          (take_short n (map reason rs) (omega (arith, length-map {B = Field V} rs reason, r)))
      ∙ reasons_in-map V rs

  without_references :
      (refs : Bool) (members : List DsMember) (ms : List ℕ) (fs : List (Field V))
      → All (λ m. m < length members) ms
      → (if refs
          then drop (length ms) ((if refs then references members ms else []) ++ fs)
          else (if refs then references members ms else []) ++ fs)
        ≡ fs
  without_references true members ms fs bound =
      dropped (length ms) (references members ms) fs (length-references V members ms bound)
  without_references false members ms fs bound = refl

  -- The fields behind the inclusion bits.
  pub read_members-written :
      (refs told : Bool) (segment : Option (ℕ × Bool)) (members : List DsMember) (ms : List ℕ)
      (vs : List V) (rs : List TrgOps)
      → Ascending ms
      → All (λ m. m < length members) ms
      → length vs ≡ length ms
      → length rs ≡ length ms
      → read_members refs told segment
          (inclusion (length members) ms)
          ((if refs then references members ms else []) ++ written told vs rs)
        ≡ record { segment = segment; members = ms; values = vs; reasons = if told then rs else [] }
  unfolding read_members
  read_members-written refs told segment members ms vs rs asc bound v r =
      rw
        (
          positions-inclusion (length members) ms asc bound,
          without_references refs members ms (written told vs rs) bound,
          values_back told (length ms) vs rs v,
          reasons_back told (length ms) vs rs v r,
        )
        refl
