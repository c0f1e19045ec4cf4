-- ===== src/Server/Reports/Identifiers.antt =====
-- server/rcb.rs and server/reporting.rs: an EntryID tells entries apart.
use rs_iec.Common.{
  ℕ, ◌+◌, ◌*◌, ◌%◌, ◌^◌, ◌<◌, ◌≤◌, ◌≡◌, ◌≢◌, ◌∙◌, sym, ap, List, [], ◌∷◌, get_or, arith, All,
  length,
}
use rs_iec.Server.Reports.{ReportEntry, Env}
use rs_iec.Server.Reports.Log.{entries_of}
use rs_iec.Server.Reports.Entries.{be_octets, make_entry_id, next_entry_id}

-- The number of eight octets.
abbrev from_octets : List ℕ → ℕ
from_octets bs =
    get_or bs 0 0 * 2 ^ 56
    + get_or bs 1 0 * 2 ^ 48
    + get_or bs 2 0 * 2 ^ 40
    + get_or bs 3 0 * 2 ^ 32
    + get_or bs 4 0 * 2 ^ 24
    + get_or bs 5 0 * 2 ^ 16
    + get_or bs 6 0 * 2 ^ 8
    + get_or bs 7 0

from_octets-make_entry_id : (n : ℕ) → n < 2 ^ 64 → from_octets (make_entry_id n) ≡ n
unfolding make_entry_id be_octets
from_octets-make_entry_id n h = omega arith

next_entry_id-distinct :
    (seed i j : ℕ)
    → seed < 2 ^ 32
    → i < j
    → j < i + 2 ^ 32
    → j + 1 < 2 ^ 64
    → next_entry_id seed i ≢ next_entry_id seed j
unfolding next_entry_id
next_entry_id-distinct seed i j s h k w e =
    let a = seed * 2 ^ 32 + (i + 1) % 2 ^ 64 % 2 ^ 32 in
    let b = seed * 2 ^ 32 + (j + 1) % 2 ^ 64 % 2 ^ 32 in
    let same : a ≡ b =
      sym (from_octets-make_entry_id a (omega arith))
      ∙ ap from_octets e
      ∙ from_octets-make_entry_id b (omega arith) in
    omega arith

module _ {V : Type 0} where
  -- No two of the entries have the same EntryID.
  abbrev pub Distinct : List (ReportEntry V) → Type 0
  Distinct [] = Unit {0}
  Distinct (e ∷ es) = All (λ x. x.id ≢ e.id) es × Distinct es

  later_entries :
      (seed i : ℕ) (events : List (Env V × ReportEntry V)) (counter : ℕ)
      → seed < 2 ^ 32
      → i < counter
      → counter + length events ≤ i + 2 ^ 32
      → counter + length events < 2 ^ 64
      → All (λ x. x.id ≢ next_entry_id seed i) (entries_of seed counter events)
  unfolding entries_of
  later_entries seed i [] counter s h k w = tt
  later_entries seed i ((env, e) ∷ more) counter s h k w = (
    λ same.
        next_entry_id-distinct seed i counter s h (omega (arith, k)) (omega (arith, w)) (sym same),
    later_entries seed i more ((counter + 1) % 2 ^ 64) s (omega (arith, h, w)) (omega (arith, k, w))
        (omega (arith, w)),
  )

  -- The entries of a series of up to 2^32 events all have different EntryIDs, with a seed of 32 bits and
  -- a counter that does not reach its end of 64 bits.
  pub entries_of-Distinct :
      (seed : ℕ) (events : List (Env V × ReportEntry V)) (counter : ℕ)
      → seed < 2 ^ 32
      → length events ≤ 2 ^ 32
      → counter + length events < 2 ^ 64
      → Distinct (entries_of seed counter events)
  unfolding entries_of
  entries_of-Distinct seed [] counter s k w = tt
  entries_of-Distinct seed ((env, e) ∷ more) counter s k w = (
    later_entries seed counter more ((counter + 1) % 2 ^ 64) s (omega (arith, w))
        (omega (arith, k, w)) (omega (arith, w)),
    entries_of-Distinct seed more ((counter + 1) % 2 ^ 64) s (omega (arith, k)) (omega (arith, w)),
  )
