-- ===== src/Server/Reports/Entries.antt =====
-- server/rcb.rs: the entries of a report, and the identifiers of buffered ones.
use rs_iec.Common.{
  ℕ, ◌+◌, ◌*◌, ◌/◌, ◌%◌, ◌^◌, Bool, true, false, ◌==◌, ltb, ◌&&◌, ◌||◌, if◌then◌else◌, List, [],
  ◌∷◌, Option, none, some, length, zero, suc,
}
use rs_iec.Common.Dictionary.{list_eq}
use rs_iec.Server.Reports.{ReportEntry, TrgOps, IpAddr, v4, v6}

-- `partition_point(|&m| m < idx)` of an ascending list
unfoldable pub partition_point : List ℕ → ℕ → ℕ
partition_point [] idx = 0
partition_point (m ∷ ms) idx =
    let rest = partition_point ms idx in if ltb m idx then suc rest else 0

-- `Vec::insert`; past the end, where the source panics, it appends.
unfoldable pub insert_at {ℓ} : {A : Type ℓ} → List A → ℕ → A → List A
insert_at [] at x = x ∷ []
insert_at (y ∷ ys) zero x = x ∷ y ∷ ys
insert_at (y ∷ ys) (suc at) x = y ∷ insert_at ys at x

abbrev pub contains : List ℕ → ℕ → Bool
contains [] m = false
contains (x ∷ xs) m = x == m || contains xs m

abbrev pub any_in : List ℕ → List ℕ → Bool
any_in [] members = false
any_in (m ∷ ms) members = contains members m || any_in ms members

module _ {V : Type 0} where
  -- `ReportEntry::new`, with the clock's time
  abbrev pub empty_entry : ℕ → ReportEntry V
  empty_entry now = record { id = []; time = now; members = []; values = []; reasons = [] }

  unfoldable pub add_member : ReportEntry V → ℕ → V → TrgOps → ReportEntry V
  add_member e idx v r =
      let at = partition_point e.members idx in
      record e {
        members = insert_at e.members at idx;
        values = insert_at e.values at v;
        reasons = insert_at e.reasons at r;
      }

  -- The three lists in step, up to the end of the shortest.
  unfoldable pub add_members : ReportEntry V → List ℕ → List V → List TrgOps → ReportEntry V
  add_members e [] vs rs = e
  add_members e (idx ∷ ms) [] rs = e
  add_members e (idx ∷ ms) (v ∷ vs) [] = e
  add_members e (idx ∷ ms) (v ∷ vs) (r ∷ rs) = add_members (add_member e idx v r) ms vs rs

  unfoldable pub merge : ReportEntry V → ReportEntry V → ReportEntry V
  merge e other = add_members e other.members other.values other.reasons

  unfoldable pub overlaps : ReportEntry V → ReportEntry V → Bool
  overlaps e other = any_in other.members e.members

  -- `buffer.iter().position(|e| e.id == id)`
  unfoldable pub buffer_index : List (ReportEntry V) → List ℕ → Option ℕ
  buffer_index [] id = none
  buffer_index (e ∷ es) id =
      let rest = buffer_index es id in
      if list_eq e.id id then some 0 else elim rest [ none ↦ none | some i ↦ some (suc i) ]

-- The `count` low octets of a number, the highest first.
unfoldable pub be_octets : ℕ → ℕ → List ℕ
be_octets zero n = []
be_octets (suc count) n = n / 256 ^ count % 256 ∷ be_octets count n

-- The octets of a `u64`.
unfoldable pub make_entry_id : ℕ → List ℕ
make_entry_id n = be_octets 8 n

-- `self.entry_seed << 32 | (n & 0xffff_ffff)` for the number `n` after the counter's; the seed is
-- below 2^32, and the counter a `u64`.
unfoldable pub next_entry_id : ℕ → ℕ → List ℕ
next_entry_id seed counter = make_entry_id (seed * 2 ^ 32 + (counter + 1) % 2 ^ 64 % 2 ^ 32)

abbrev pub all_zero : List ℕ → Bool
all_zero [] = true
all_zero (b ∷ bs) = b == 0 && all_zero bs

unfoldable pub is_zero_entry_id : List ℕ → Bool
is_zero_entry_id id = length id == 8 && all_zero id

-- The last four octets of an IPv4-mapped address, `::ffff:a.b.c.d`: behind ten zeros and two 255s.
abbrev pub mapped : ℕ → List ℕ → Option (List ℕ)
mapped (suc n) [] = none
mapped (suc n) (b ∷ bs) = if b == 0 then mapped n bs else none
mapped zero (a ∷ b ∷ rest) = if a == 255 && b == 255 then some rest else none
mapped zero (a ∷ []) = none
mapped zero [] = none

unfoldable pub ip_octets : Option IpAddr → List ℕ
ip_octets none = []
ip_octets (some (v4 a)) = a
ip_octets (some (v6 a)) = elim (mapped 10 a) [ some four ↦ four | none ↦ a ]

-- `ip == Some(r)`
abbrev pub is_ip : Option IpAddr → IpAddr → Bool
is_ip none r = false
is_ip (some (v4 a)) (v4 b) = list_eq a b
is_ip (some (v4 a)) (v6 b) = false
is_ip (some (v6 a)) (v4 b) = false
is_ip (some (v6 a)) (v6 b) = list_eq a b

-- How many reports a block retains: its own size, else the server's default, else 256.
unfoldable pub buffer_depth : ℕ → ℕ → ℕ
buffer_depth max_queue_size server_default =
    if ltb 0 max_queue_size
    then max_queue_size
    else if ltb 0 server_default
    then server_default
    else 256
