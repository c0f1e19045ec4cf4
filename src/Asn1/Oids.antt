-- ===== src/Asn1/Oids.antt =====
-- asn1/oid.rs: object identifiers as lists of arcs.
pub mod Laws
use rs_iec.Common.{
  ℕ, ◌+◌, ◌-◌, ◌*◌, ◌/◌, ◌%◌, ◌^◌, ◌==◌, leb, List, [], ◌∷◌, ◌++◌, not, if◌then◌else◌, min,
}
use rs_iec.Asn1.Types.{Result, ok, err, bad_value, empty_oid, oid_arc_too_large, truncated_oid_arc}
use rs_iec.Asn1.Encode.{append_base128}

-- `for &arc in &o.0[2..]`
unfoldable pub append_arcs : List ℕ → List ℕ → List ℕ
append_arcs dst [] = dst
append_arcs dst (arc ∷ arcs) = append_arcs (append_base128 dst arc) arcs

-- The product and the sum are `u32`; a build with overflow checks stops where this wraps.
unfoldable pub append_oid : List ℕ → List ℕ → List ℕ
append_oid dst [] = dst
append_oid dst (a ∷ []) = dst
append_oid dst (a ∷ b ∷ arcs) = append_arcs (append_base128 dst ((a * 40 + b) % 2 ^ 32)) arcs

-- `arcs.push(...)`: the first number is split into two arcs.
unfoldable pub push_arc : List ℕ → ℕ → List ℕ
push_arc [] v = let first = min (v / 40) 2 in first ∷ (v - first * 40) ∷ []
push_arc (a ∷ arcs) v = (a ∷ arcs) ++ (v ∷ [])

-- The loop over the content: the arcs found, the arc being read and its octets so far.
unfoldable pub decode_arcs : List ℕ → List ℕ → ℕ → ℕ → Result (List ℕ)
decode_arcs [] arcs v n = if not (n == 0) then err (bad_value truncated_oid_arc) else ok arcs
decode_arcs (b ∷ bs) arcs v n =
    let v' = v * 128 % 2 ^ 32 + b % 128 in
    let ended = decode_arcs bs (push_arc arcs v') 0 0 in
    let further = decode_arcs bs arcs v' (n + 1) in
    if leb 5 n then err (bad_value oid_arc_too_large) else if b / 128 == 0 then ended else further

unfoldable pub decode_oid : List ℕ → Result (List ℕ)
decode_oid [] = err (bad_value empty_oid)
decode_oid (b ∷ bs) = decode_arcs (b ∷ bs) [] 0 0
