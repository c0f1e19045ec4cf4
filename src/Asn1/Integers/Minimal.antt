-- ===== src/Asn1/Integers/Minimal.antt =====
-- No content of a signed integer is shorter than the encoder's.
use rs_iec.Common.{
  ℕ, zero, suc, ◌+◌, ◌-◌, ◌*◌, ◌^◌, ◌≤◌, ◌<◌, ◌≡◌, refl, List, [], ◌∷◌, length, ℤ, pos, negsuc,
  arith, IsBytes, dec_lt,
}
use native.Mathlib.Nat.{le_trans, pow-le-pow_right, pow-suc}
use rs_iec.Asn1.Types.{ok}
use rs_iec.Asn1.Integers.{int_size, append_int, sign_extend, push_octet, push_octets, decode_int}
use rs_iec.Asn1.Integers.Laws.{magnitude, IsI64, Least, length-int_octets, int_size-Least}

scaled : (n b p : ℕ) → b < 256 → (n * 256 + b + 1) * p ≤ (n + 1) * (p * 256)
scaled n b p h = grind arith

magnitude-push_octets :
    (v : ℤ) (bs : List ℕ)
    → IsBytes bs
    → magnitude (push_octets v bs) < (magnitude v + 1) * 256 ^ length bs
unfolding push_octets push_octet
magnitude-push_octets v [] h = omega arith
magnitude-push_octets (pos n) (b ∷ bs) h =
    rw (pow-suc 256 (length bs)) (
      le_trans (magnitude-push_octets (pos (n * 256 + b)) bs h.1)
        (scaled n b (256 ^ length bs) h.0))
magnitude-push_octets (negsuc n) (b ∷ bs) h = rw (pow-suc 256 (length bs)) (
    le_trans (magnitude-push_octets (negsuc (n * 256 + (255 - b))) bs h.1)
      (scaled n (255 - b) (256 ^ length bs) (omega arith)))

sign_extend-magnitude : (b : ℕ) → b < 256 → magnitude (sign_extend b) < 128
unfolding sign_extend
sign_extend-magnitude b h = ground arith

magnitude-decode_int :
    (v : ℤ) (x : ℕ) (bs : List ℕ)
    → IsBytes (x ∷ bs)
    → decode_int (x ∷ bs) ≡ ok v
    → magnitude v < 128 * 256 ^ length bs
unfolding decode_int
magnitude-decode_int v x bs h e =
    rw (← decoded)
      (grind (arith, magnitude-push_octets (sign_extend x) bs h.1, sign_extend-magnitude x h.0))
  where
    decoded : push_octets (sign_extend x) bs ≡ v
    decoded = ground arith

Least-length : (m i l : ℕ) → Least m 7 i → m < 128 * 256 ^ l → i ≤ l
Least-length m zero l h k = omega arith
Least-length m (suc j) l h k = elim (dec_lt j l) [
  | yes short ↦ short
  | no long ↦ absurd (
      omega (
        arith,
        h.least j refl,
        pow-le-pow_right {n = 256} (omega arith) {i = l} {j = j} (omega arith),
      ))
]

-- No shorter content decodes to the `i64` `v`: `append_int` writes the fewest octets.
pub append_int-minimal :
    (v : ℤ) (content : List ℕ)
    → IsI64 v
    → IsBytes content
    → decode_int content ≡ ok v
    → length (append_int [] v) ≤ length content
unfolding append_int decode_int
append_int-minimal v [] h b e = cc
append_int-minimal v (x ∷ bs) h b e =
    let (i, s, l) = int_size-Least v h in
    omega (
      arith,
      length-int_octets (int_size v) v,
      s,
      Least-length (magnitude v) i (length bs) l (magnitude-decode_int v x bs b e),
    )
