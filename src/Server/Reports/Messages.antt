-- ===== src/Server/Reports/Messages.antt =====
-- server/reporting.rs: the reports that an entry becomes, one or as many segments as it needs.
use rs_iec.Common.{
  ℕ, ◌+◌, ◌-◌, ◌%◌, ◌^◌, Bool, true, false, ◌==◌, ltb, leb, ◌&&◌, ◌||◌, if◌then◌else◌, List, [],
  ◌∷◌, ◌++◌, Option, none, some, length, zero, suc, take, drop, map, replicate, set, get_elem?,
}
use rs_iec.Server.Reports.{
  ReportEntry, OptFlds, DsMember, Field, visible_string, flags, uint8, uint16, uint32, binary_time,
  boolean, octet_string, bit_string, data_value, reason, Report, Rcb, Env,
}

-- What the report as built carries of the fields a client asked for: the segmentation bit is the
-- server's to set, and two of the fields are for buffered reports only.
unfoldable pub effective_opt_flds : OptFlds → Bool → OptFlds
effective_opt_flds opt buffered = record opt {
  buf_ovfl = opt.buf_ovfl && buffered;
  entry_id = opt.entry_id && buffered;
  segmentation = false;
}

-- An empty RptID is the reference of the block, `domain/item`.
unfoldable pub rpt_id_of : List ℕ → List ℕ → List ℕ → List ℕ
rpt_id_of [] domain item = domain ++ (47 ∷ item)
rpt_id_of (c ∷ cs) domain item = c ∷ cs

-- What every segment of one report carries.
pub record ReportFields : Type 0 where
  pub rpt_id : List ℕ
  pub dat_set : List ℕ
  pub conf_rev : ℕ
  pub opt : OptFlds
  pub seq : ℕ
  pub buf_ovfl : Bool
  pub buffered : Bool

-- `xs[from..to]`
abbrev pub range {ℓ} : {A : Type ℓ} → List A → ℕ → ℕ → List A
range xs from until = take (until - from) (drop from xs)

-- One bit for each member of the data set, set for the included ones.
abbrev pub set_bits : List Bool → List ℕ → List Bool
set_bits bits [] = bits
set_bits bits (idx ∷ more) = set_bits (set bits idx true) more

unfoldable pub inclusion : ℕ → List ℕ → List Bool
inclusion count included = set_bits (replicate count false) included

abbrev pub is_segment : Option (ℕ × Bool) → Bool
is_segment none = false
is_segment (some s) = true

abbrev pub or_empty : Option (List DsMember) → List DsMember
or_empty none = []
or_empty (some ms) = ms

-- The segments of `report_pdus`, over any way to build and to measure one. `room` counts the
-- members that are left behind `until`, so the inner loop is recursion on it.
module _ {R : Type 0} (build : ℕ → ℕ → Option (ℕ × Bool) → R) (fits : R → Bool) where
  -- `while to < n && fits(..) { to += 1 }`: the end of the segment.
  unfoldable pub grow : ℕ → ℕ → ℕ → ℕ → ℕ
  grow zero from until sub_seq = until
  grow (suc room) from until sub_seq =
      let rest = grow room from (until + 1) sub_seq in
      if fits (build from (until + 1) (some (sub_seq, true))) then rest else until

  -- `while from < n`: each segment has a member, so `n` turns are enough.
  unfoldable pub segments : ℕ → ℕ → ℕ → ℕ → List R
  segments zero n from sub_seq = []
  segments (suc fuel) n from sub_seq =
      let until = grow (n - (from + 1)) from (from + 1) sub_seq in
      let rest = segments fuel n until ((sub_seq + 1) % 2 ^ 16) in
      if ltb from n then build from until (some (sub_seq, ltb until n)) ∷ rest else []

  unfoldable pub split : ℕ → List R
  split n = if fits (build 0 n none) then build 0 n none ∷ [] else segments n n 0 0

module _ {V : Type 0} where
  abbrev pub when : Bool → Field V → List (Field V)
  when true f = f ∷ []
  when false f = []

  abbrev pub segment_fields : Option (ℕ × Bool) → List (Field V)
  segment_fields none = []
  segment_fields (some (sub_seq, more)) = uint16 sub_seq ∷ boolean more ∷ []

  -- The text `domain/item` of each included member that the data set has.
  abbrev pub references : List DsMember → List ℕ → List (Field V)
  references members [] = []
  references members (idx ∷ more) = elim (get_elem? members idx) [
    | none ↦ references members more
    | some m ↦ visible_string (m.domain ++ (47 ∷ m.item)) ∷ references members more
  ]

  -- The fields that the flags announce before the segment's own.
  unfoldable pub optional_fields : ReportFields → OptFlds → ReportEntry V → List (Field V)
  optional_fields f opt e =
      when opt.seq_num (if f.buffered then uint16 (f.seq % 2 ^ 16) else uint8 (f.seq % 2 ^ 8))
      ++ (when opt.time_of_entry (binary_time e.time)
          ++ (when opt.data_set_name (visible_string f.dat_set)
              ++ (when opt.buf_ovfl (boolean f.buf_ovfl)
                  ++ (when opt.entry_id (octet_string e.id)
                      ++ when opt.conf_rev (uint32 f.conf_rev)))))

  -- The inclusion, and behind it references, values and reasons.
  unfoldable pub member_fields : OptFlds → ReportEntry V → List DsMember → ℕ → ℕ → List (Field V)
  member_fields opt e members from until =
      let included = range e.members from until in
      bit_string (inclusion (length members) included)
      ∷ ((if opt.data_ref then references members included else [])
          ++ (map data_value (range e.values from until)
              ++ (if opt.reason_code then map reason (range e.reasons from until) else [])))

  unfoldable pub report_element :
      ReportFields → ReportEntry V → List DsMember → ℕ → ℕ → Option (ℕ × Bool) → List (Field V)
  report_element f e members from until segment =
      let opt = record (f.opt) { segmentation = f.opt.segmentation || is_segment segment } in
      visible_string f.rpt_id
      ∷ flags opt
      ∷ (optional_fields f opt e
          ++ (segment_fields segment ++ member_fields opt e members from until))

  unfoldable pub report_fields : Rcb V → ℕ → Bool → ReportFields
  report_fields s seq overflow = record {
    rpt_id = rpt_id_of s.attrs.rpt_id s.domain s.item;
    dat_set = s.attrs.dat_set;
    conf_rev = s.attrs.conf_rev;
    opt = effective_opt_flds s.attrs.opt_flds s.buffered;
    seq = seq;
    buf_ovfl = overflow;
    buffered = s.buffered;
  }

  unfoldable pub report_of :
      Env V → Rcb V → ReportEntry V → ℕ → Bool → ℕ → ℕ → ℕ → Option (ℕ × Bool) → Report V
  report_of env s e seq overflow c from until segment = record {
    conn = c;
    entry = e;
    seq = seq;
    overflow = overflow;
    from = from;
    until = until;
    segment = segment;
    fields =
        report_element (report_fields s seq overflow) e
          (or_empty (env.resolve_data_set s.attrs.dat_set)) from until segment;
  }

  -- The unconfirmed PDU adds four octets; a greatest PDU of 0 is no limit.
  unfoldable pub fits : Env V → ℕ → Report V → Bool
  fits env max_pdu r = max_pdu == 0 || leb (env.size r.fields + 4) max_pdu

  unfoldable pub report_pdus : Env V → Rcb V → ReportEntry V → ℕ → Bool → ℕ → ℕ → List (Report V)
  report_pdus env s e seq overflow c max_pdu =
      split (report_of env s e seq overflow c) (fits env max_pdu) (length e.members)
