-- ===== src/Asn1/Integers/Laws.antt =====
-- Signed integer contents: what the encoder writes is decoded to the same number.
use rs_iec.Common.{
  ℕ, zero, suc, ◌+◌, ◌*◌, ◌/◌, ◌^◌, ◌≤◌, ◌<◌, ◌≡◌, refl, ap, ◌∙◌, true, ltb, [], length, ℤ, pos,
  negsuc, arith, Bool-cases, inl, inr, le→ltb-false,
}
use native.Mathlib.Nat.{div-lt_iff_lt-mul, pow-suc, div-div-eq-div-mul}
use rs_iec.Asn1.Types.{ok}
use rs_iec.Asn1.Integers.{
  shr8, in_octet, octet, int_size_loop, int_size, int_octets, append_int, sign_extend, push_octet,
  push_octets, decode_int, uint_size_loop,
}

-- The number that the octets of an integer are taken from.
abbrev pub magnitude : ℤ → ℕ
magnitude (pos n) = n
magnitude (negsuc n) = n

-- The values of an `i64`.
abbrev pub IsI64 : ℤ → Type 0
IsI64 v = magnitude v < 2 ^ 63

-- `v >> (8 * i)`
abbrev pub shift : ℤ → ℕ → ℤ
shift (pos n) i = pos (n / 256 ^ i)
shift (negsuc n) i = negsuc (n / 256 ^ i)

pub div_suc : (n i : ℕ) → n / 256 ^ suc i ≡ n / 256 ^ i / 256
div_suc n i = rw (pow-suc, ← div-div-eq-div-mul n (256 ^ i) 256) refl

push_octet-shift : (v : ℤ) (i : ℕ) → push_octet (shift v (suc i)) (octet v i) ≡ shift v i
unfolding push_octet octet
push_octet-shift (pos n) i = ap pos (omega (arith, div_suc n i))
push_octet-shift (negsuc n) i = ap negsuc (omega (arith, div_suc n i))

push_octets-int_octets : (i : ℕ) (v : ℤ) → push_octets (shift v i) (int_octets i v) ≡ shift v 0
unfolding push_octets int_octets
push_octets-int_octets zero v = refl
push_octets-int_octets (suc i) v =
    ap (λ a. push_octets a (int_octets i v)) (push_octet-shift v i) ∙ push_octets-int_octets i v

shift-zero : (v : ℤ) → shift v 0 ≡ v
shift-zero (pos n) = ap pos (omega arith)
shift-zero (negsuc n) = ap negsuc (omega arith)

int_size_loop-uint :
    (fuel n : ℕ) (v : ℤ) → int_size_loop fuel n v ≡ uint_size_loop fuel n (magnitude v)
unfolding int_size_loop uint_size_loop in_octet shr8
int_size_loop-uint zero n v = refl
int_size_loop-uint (suc fuel) n (pos m) =
    ground (arith, int_size_loop-uint fuel (n + 1) (pos (m / 256)))
int_size_loop-uint (suc fuel) n (negsuc m) =
    ground (arith, int_size_loop-uint fuel (n + 1) (negsuc (m / 256)))

lower_bound :
    (i m : ℕ) → 128 ≤ m → ((j : ℕ) → i ≡ suc j → 128 * 256 ^ j ≤ m / 256) → 128 * 256 ^ i ≤ m
lower_bound zero m h k = omega arith
lower_bound (suc j) m h k = omega (arith, k j refl, pow-suc 256 j)

-- What the loops of `int_size` and `uint_size` find beyond the first octet: the least `i` such
-- that `m` is below 128 * 256 ^ i.
pub record Least (m fuel i : ℕ) : Type 0 where
  pub within : i ≤ fuel
  pub holds : m < 128 * 256 ^ i
  pub least : (j : ℕ) → i ≡ suc j → 128 * 256 ^ j ≤ m

pub uint_size_loop-Least :
    (fuel n m : ℕ)
    → m < 128 * 256 ^ fuel
    → (i : ℕ) × (uint_size_loop (suc fuel) n m ≡ n + i) × Least m fuel i
unfolding uint_size_loop
uint_size_loop-Least zero n m h =
    (0, ground arith, record { within = omega arith; holds = h; least = λ j e. omega arith })
uint_size_loop-Least (suc fuel) n m h = elim (Bool-cases (ltb 0x7f m)) [
  | inr small ↦ (
    0,
    ground arith,
    record { within = omega arith; holds = ground arith; least = λ j e. omega arith },
  )
  | inl large ↦
      step large (uint_size_loop-Least fuel (n + 1) (m / 256) (omega (arith, pow-suc 256 fuel)))
]
  where
    step :
        ltb 0x7f m ≡ true
        → (i : ℕ) × (uint_size_loop (suc fuel) (n + 1) (m / 256) ≡ n + 1 + i)
          × Least (m / 256) fuel i
        → (i : ℕ) × (uint_size_loop (suc (suc fuel)) n m ≡ n + i) × Least m (suc fuel) i
    step large (i, e, l) = (
      suc i,
      ground arith,
      record {
        within = omega arith;
        holds = omega (arith, pow-suc 256 i);
        least = λ j k. let e : j ≡ i = omega arith in rw e (lower_bound i m (ground arith) l.least);
      },
    )

pub pow_pos : (i : ℕ) → 0 < 256 ^ i
pow_pos zero = omega arith
pow_pos (suc i) = omega (arith, pow-suc 256 i, pow_pos i)

pub quotient_small : (m i : ℕ) → m < 128 * 256 ^ i → m / 256 ^ i < 128
quotient_small m i h = (div-lt_iff_lt-mul (pow_pos i)).1 h

sign_extend-octet :
    (v : ℤ) (i : ℕ) → magnitude v < 128 * 256 ^ i → sign_extend (octet v i) ≡ shift v i
unfolding sign_extend octet
sign_extend-octet (pos n) i h = ground (arith, quotient_small n i h)
sign_extend-octet (negsuc n) i h = ground (arith, quotient_small n i h)

pub length-int_octets : (i : ℕ) (v : ℤ) → length (int_octets i v) ≡ i
unfolding int_octets
length-int_octets zero v = refl
length-int_octets (suc i) v = ap suc (length-int_octets i v)

decode_int-int_octets :
    (i : ℕ) (v : ℤ) → i ≤ 7 → magnitude v < 128 * 256 ^ i → decode_int (int_octets (suc i) v) ≡ ok v
unfolding decode_int int_octets
decode_int-int_octets i v h b = rw (
  le→ltb-false 8 (suc (length (int_octets i v))) (omega (arith, length-int_octets i v)),
  sign_extend-octet v i b,
  push_octets-int_octets i v,
  shift-zero,
)

pub int_size-Least : (v : ℤ) → IsI64 v → (i : ℕ) × (int_size v ≡ suc i) × Least (magnitude v) 7 i
unfolding int_size
int_size-Least v h =
    let (i, e, l) = uint_size_loop-Least 7 1 (magnitude v) (omega arith) in
    (i, int_size_loop-uint 8 1 v ∙ e ∙ omega arith, l)

-- `decode_int` reads back the `i64` whose octets `append_int` wrote.
pub decode_int-append_int : (v : ℤ) → IsI64 v → decode_int (append_int [] v) ≡ ok v
unfolding append_int
decode_int-append_int v h =
    let (i, e, l) = int_size-Least v h in rw e (decode_int-int_octets i v l.within l.holds)
