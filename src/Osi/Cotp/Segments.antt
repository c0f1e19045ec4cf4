-- ===== src/Osi/Cotp/Segments.antt =====
-- The DT TPDUs of one service data unit, and what `receive` makes of each.
use rs_iec.Common.{
  ℕ, zero, suc, ◌+◌, ◌-◌, ◌≤◌, ◌≡◌, Bool, true, false, leb, List, [], ◌∷◌, ◌++◌, if◌then◌else◌,
  length, take, drop, max, All, arith, length-take, if_elim,
}
use rs_iec.Osi.Stream.{ok}
use rs_iec.Osi.Tpkt.Laws.{header}
use rs_iec.Osi.Cotp.{Conn, parse_header, max_data, data_tpdu}
use rs_iec.Osi.Cotp.Connection.{receive_tpdu}

-- The TPDUs that carry `rest`, `n` octets in each but the last.
unfoldable pub segments : ℕ → ℕ → List ℕ → List (List ℕ)
segments zero n rest = []
segments (suc fuel) n rest =
    let more = data_tpdu false (take n rest) ∷ segments fuel n (drop n rest) in
    if leb (length rest) n then data_tpdu true (take n rest) ∷ [] else more

-- Their frames, one after the other.
unfoldable pub frames : List (List ℕ) → List ℕ
frames [] = []
frames (p ∷ ps) = (header p ++ p) ++ frames ps

-- The octets that `send` writes for a service data unit.
abbrev pub octets : Conn → List ℕ → List ℕ
octets c tsdu = frames (segments (length tsdu + 1) (max_data c.max_tpdu) tsdu)

pub length-data_tpdu :
    (last : Bool) (payload : List ℕ) → length (data_tpdu last payload) ≡ length payload + 3
unfolding data_tpdu
length-data_tpdu last payload = omega arith

-- The payload of a DT TPDU joins the data, and the end mark is read as such.
pub receive_tpdu-data_tpdu :
    (last : Bool) (payload buf : List ℕ)
    → receive_tpdu buf (data_tpdu last payload) ≡ ok (buf ++ payload, last)
unfolding receive_tpdu parse_header data_tpdu
receive_tpdu-data_tpdu true payload buf = ground arith
receive_tpdu-data_tpdu false payload buf = ground arith

segments-fit : (fuel n : ℕ) (rest : List ℕ) → All (λ p. length p ≤ n + 3) (segments fuel n rest)
unfolding segments
segments-fit zero n rest = tt
segments-fit (suc fuel) n rest =
    if_elim (All (λ p. length p ≤ n + 3)) (leb (length rest) n) (λ _. (fits true, tt))
      (λ _. (fits false, segments-fit fuel n (drop n rest)))
  where
    fits : (last : Bool) → length (data_tpdu last (take n rest)) ≤ n + 3
    fits last = omega (arith, length-data_tpdu last (take n rest), length-take n rest)

-- No TPDU of a service data unit is larger than the negotiated size, for any negotiated size of
-- four octets or more.
pub segments-le-max_tpdu :
    (c : Conn) (tsdu : List ℕ)
    → 4 ≤ c.max_tpdu
    → All (λ p. length p ≤ c.max_tpdu) (segments (length tsdu + 1) (max_data c.max_tpdu) tsdu)
unfolding max_data
segments-le-max_tpdu c tsdu h =
    let e : max (c.max_tpdu - 3) 1 + 3 ≡ c.max_tpdu = omega arith in
    rw e at (segments-fit (length tsdu + 1) (max (c.max_tpdu - 3) 1) tsdu)
