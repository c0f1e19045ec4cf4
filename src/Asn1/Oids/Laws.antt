-- ===== src/Asn1/Oids/Laws.antt =====
-- `decode_oid` reads back what `append_oid` writes.
use rs_iec.Common.{
  ℕ, zero, suc, ◌+◌, ◌*◌, ◌^◌, ◌≤◌, ◌<◌, ◌≡◌, refl, sym, ap, ◌∙◌, List, [], ◌∷◌, ◌++◌, length, All,
  arith, append_assoc, append-nil, IsU32,
}
use native.Mathlib.Nat.{mod-eq_of_lt}
use rs_iec.Asn1.Types.{ok}
use rs_iec.Asn1.Encode.{append_base128, mark_continuation}
use rs_iec.Asn1.Base128.{
  value, value-le, value-groups, groups, groups-All, length-groups, length-mark_continuation,
  IsGroup,
}
use rs_iec.Asn1.Oids.{append_arcs, append_oid, push_arc, decode_arcs, decode_oid}

-- One arc: its groups are read and pushed.
decode_arcs-mark :
    (d : ℕ) (ds r arcs : List ℕ) (n v : ℕ)
    → All IsGroup (d ∷ ds)
    → n + length ds < 5
    → value v (d ∷ ds) < 2 ^ 32
    → decode_arcs (mark_continuation (d ∷ ds) ++ r) arcs v n
      ≡ decode_arcs r (push_arc arcs (value v (d ∷ ds))) 0 0
unfolding decode_arcs mark_continuation
decode_arcs-mark d [] r arcs n v g h b = ground arith
decode_arcs-mark d (e ∷ ds) r arcs n v g h b =
    ground
      (arith, value-le (v * 128 + d) (e ∷ ds), decode_arcs-mark e ds r arcs (n + 1) (v * 128 + d))

-- The octets of one arc.
abbrev octets : ℕ → List ℕ
octets v = mark_continuation (groups v)

decode_arcs-octets :
    (v : ℕ) (r arcs : List ℕ)
    → IsU32 v
    → decode_arcs (octets v ++ r) arcs 0 0 ≡ decode_arcs r (push_arc arcs v) 0 0
decode_arcs-octets v r arcs h = go (groups v) (groups-All v) (length-groups v) (value-groups v h)
  where
    go :
        (ds : List ℕ)
        → All IsGroup ds
        → (0 < length ds) × (length ds ≤ 5)
        → value 0 ds ≡ v
        → decode_arcs (mark_continuation ds ++ r) arcs 0 0 ≡ decode_arcs r (push_arc arcs v) 0 0
    go [] g l e = absurd (omega arith)
    go (d ∷ ds) g l e =
        decode_arcs-mark d ds r arcs 0 0 g (omega arith) (omega arith)
        ∙ ap (λ x. decode_arcs r (push_arc arcs x) 0 0) e

append_arcs-append : (dst arcs : List ℕ) → append_arcs dst arcs ≡ dst ++ append_arcs [] arcs
unfolding append_arcs append_base128
append_arcs-append dst [] = sym (append-nil dst)
append_arcs-append dst (a ∷ arcs) =
    append_arcs-append (dst ++ octets a) arcs
    ∙ append_assoc dst (octets a) (append_arcs [] arcs)
    ∙ ap (λ x. dst ++ x) (sym (append_arcs-append (octets a) arcs))

append_arcs-cons :
    (x : ℕ) (arcs : List ℕ) → append_arcs [] (x ∷ arcs) ≡ octets x ++ append_arcs [] arcs
append_arcs-cons x arcs = first ∙ append_arcs-append (octets x) arcs
  where
    first : append_arcs [] (x ∷ arcs) ≡ append_arcs (octets x) arcs
    first = unfold append_arcs append_base128 in refl

push_arc-after {ℓ} :
    {A : Type ℓ} (x a : ℕ) (before : List ℕ) (f : List ℕ → A)
    → f (push_arc (a ∷ before) x) ≡ f (a ∷ (before ++ (x ∷ [])))
unfolding push_arc
push_arc-after x a before f = refl

-- The octets of an arc are not empty.
decode_oid-octets :
    (v : ℕ) (r : List ℕ) → decode_oid (octets v ++ r) ≡ decode_arcs (octets v ++ r) [] 0 0
unfolding decode_oid
decode_oid-octets v r = go (octets v) (rw length-mark_continuation (length-groups v).0)
  where
    go : (xs : List ℕ) → 0 < length xs → decode_oid (xs ++ r) ≡ decode_arcs (xs ++ r) [] 0 0
    go [] h = absurd (omega arith)
    go (x ∷ xs) h = refl

-- The arcs behind the first two.
decode_arcs-append_arcs :
    (arcs : List ℕ) (a : ℕ) (before : List ℕ)
    → All IsU32 arcs
    → decode_arcs (append_arcs [] arcs) (a ∷ before) 0 0 ≡ ok (a ∷ before ++ arcs)
decode_arcs-append_arcs [] a before h = rw append-nil (unfold append_arcs decode_arcs in refl)
decode_arcs-append_arcs (x ∷ arcs) a before h = rw (append_arcs-cons x arcs) (
    decode_arcs-octets x (append_arcs [] arcs) (a ∷ before) h.0
    ∙ push_arc-after x a before (λ xs. decode_arcs (append_arcs [] arcs) xs 0 0)
    ∙ decode_arcs-append_arcs arcs a (before ++ (x ∷ [])) h.1
    ∙ ap (λ xs. ok (a ∷ xs)) (append_assoc before (x ∷ []) arcs))

-- The first two arcs that an identifier can have: 0 or 1 and a number below 40, or 2 and any.
pub record IsOid (a b : ℕ) : Type 0 where
  pub first : a ≤ 2
  pub second : a < 2 → b < 40
  pub fits : a * 40 + b < 2 ^ 32

push_arc-first : (a b : ℕ) → IsOid a b → push_arc [] (a * 40 + b) ≡ a ∷ b ∷ []
unfolding push_arc
push_arc-first zero b h = ground arith
push_arc-first (suc zero) b h = ground arith
push_arc-first (suc (suc zero)) b h = ground arith
push_arc-first (suc (suc (suc a))) b h = absurd (omega (arith, h.first))

append_oid-octets :
    (a b : ℕ) (arcs : List ℕ)
    → IsOid a b
    → append_oid [] (a ∷ b ∷ arcs) ≡ octets (a * 40 + b) ++ append_arcs [] arcs
unfolding append_oid append_base128
append_oid-octets a b arcs h =
    rw (mod-eq_of_lt h.fits) (append_arcs-append (octets (a * 40 + b)) arcs)

-- `decode_oid` reads back the identifier that `append_oid` wrote, when its first two arcs can be
-- combined and every further arc is a `u32`.
pub decode_oid-append_oid :
    (a b : ℕ) (arcs : List ℕ)
    → IsOid a b
    → All IsU32 arcs
    → decode_oid (append_oid [] (a ∷ b ∷ arcs)) ≡ ok (a ∷ b ∷ arcs)
decode_oid-append_oid a b arcs h k = rw (append_oid-octets a b arcs h) (
    decode_oid-octets (a * 40 + b) _
    ∙ decode_arcs-octets (a * 40 + b) (append_arcs [] arcs) [] h.fits
    ∙ ap (λ xs. decode_arcs (append_arcs [] arcs) xs 0 0) (push_arc-first a b h)
    ∙ decode_arcs-append_arcs arcs a (b ∷ []) k)
