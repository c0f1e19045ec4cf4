-- ===== src/Server/Reports/Gathering.antt =====
-- server/reporting.rs, `report_pdus`: a receiver that reads the fields of the PDUs gets the whole entry.
use rs_iec.Common.{ℕ, ◌+◌, ◌%◌, ◌≡◌, Bool, not, List, [], ◌∷◌, ◌++◌, Option, some, if◌then◌else◌}
use rs_iec.Server.Reports.{ReportEntry, TrgOps, Report, Rcb, Env}
use rs_iec.Server.Reports.Messages.{range}
use rs_iec.Server.Reports.Access.{is_empty}
use rs_iec.Server.Reports.Segments.{built}
use rs_iec.Server.Reports.Receiver.{Receipt, read}

module _ {V : Type 0} where
  -- What is to be read of a run of an entry's members.
  abbrev receipt : Bool → ReportEntry V → ℕ → ℕ → Option (ℕ × Bool) → Receipt V
  receipt told e from until segment = record {
    segment = segment;
    members = range e.members from until;
    values = range e.values from until;
    reasons = if told then range e.reasons from until else [];
  }

  -- Every report of an entry is built for some run.
  module _ (env : Env V) (s : Rcb V) (e : ReportEntry V) (seq : ℕ) (overflow : Bool)
      (c max_pdu : ℕ) where
    abbrev build : ℕ → ℕ → Option (ℕ × Bool) → Report V
    build = built env s e seq overflow c max_pdu

  -- What a receiver puts together of the PDUs.
  unfoldable pub receipts : List (Report V) → List (Receipt V)
  receipts [] = []
  receipts (r ∷ rs) = read r.fields ∷ receipts rs

  abbrev pub all_members : List (Receipt V) → List ℕ
  all_members [] = []
  all_members (g ∷ gs) = g.members ++ all_members gs

  abbrev pub all_values : List (Receipt V) → List V
  all_values [] = []
  all_values (g ∷ gs) = g.values ++ all_values gs

  abbrev pub all_reasons : List (Receipt V) → List TrgOps
  all_reasons [] = []
  all_reasons (g ∷ gs) = g.reasons ++ all_reasons gs

  -- The numbers that the PDUs carry count on, and all but the last announce more.
  abbrev pub Counted : ℕ → List (Receipt V) → Type 0
  Counted k [] = Unit {0}
  Counted k (g ∷ gs) = (g.segment ≡ some (k % 65536, not (is_empty gs))) × Counted (k + 1) gs

  -- The PDU is read as what it was built from.
  abbrev Legible : Bool → ReportEntry V → Report V → Type 0
  Legible told e r = read r.fields ≡ receipt told e r.from r.until r.segment
