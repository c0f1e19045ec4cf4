-- ===== src/Asn1/Floats.antt =====
-- asn1/primitives.rs: MMS floating point contents. A number is its bit pattern, so that `to_bits` and
-- `from_bits` are the identity; the conversion of an `f32` into an `f64` is a parameter.
use rs_iec.Common.{ℕ, ◌*◌, ◌/◌, ◌%◌, ◌^◌, ◌+◌, ◌<◌, ◌≡◌, ap, List, [], ◌∷◌, ◌++◌, length, arith}
use rs_iec.Asn1.Integers.{push_uint}
use rs_iec.Asn1.Types.{Result, ok, err, bad_value, float_octets}

-- `to_be_bytes` of a `u32` and of a `u64`.
abbrev pub be_octets32 : ℕ → List ℕ
be_octets32 n = (n / 2 ^ 24 % 256) ∷ (n / 2 ^ 16 % 256) ∷ (n / 2 ^ 8 % 256) ∷ (n % 256) ∷ []

abbrev pub be_octets64 : ℕ → List ℕ
be_octets64 n = be_octets32 (n / 2 ^ 32) ++ be_octets32 n

unfoldable pub append_float32 : List ℕ → ℕ → List ℕ
append_float32 dst v = dst ++ (8 ∷ be_octets32 v)

unfoldable pub append_float64 : List ℕ → ℕ → List ℕ
append_float64 dst v = dst ++ (11 ∷ be_octets64 v)

-- `u32::from_be_bytes`
abbrev pub from_be : ℕ → ℕ → ℕ → ℕ → ℕ
from_be a b c d = a * 2 ^ 24 + b * 2 ^ 16 + c * 2 ^ 8 + d

unfoldable pub decode_float : (ℕ → ℕ) → List ℕ → Result ℕ
decode_float widen (x ∷ a ∷ b ∷ c ∷ d ∷ []) = ok (widen (from_be a b c d))
decode_float widen (x ∷ a ∷ b ∷ c ∷ d ∷ e ∷ f ∷ g ∷ h ∷ []) =
    ok (push_uint 0 (a ∷ b ∷ c ∷ d ∷ e ∷ f ∷ g ∷ h ∷ []))
decode_float widen content = err (bad_value (float_octets (length content)))

pub decode_float-append_float32 :
    (widen : ℕ → ℕ) (v : ℕ) → v < 2 ^ 32 → decode_float widen (append_float32 [] v) ≡ ok (widen v)
unfolding decode_float append_float32
decode_float-append_float32 widen v h =
    let e : from_be (v / 2 ^ 24 % 256) (v / 2 ^ 16 % 256) (v / 2 ^ 8 % 256) (v % 256) ≡ v =
      omega (arith, h) in
    ap (λ n. ok (widen n)) e

pub decode_float-append_float64 :
    (widen : ℕ → ℕ) (v : ℕ) → v < 2 ^ 64 → decode_float widen (append_float64 [] v) ≡ ok v
unfolding decode_float append_float64 push_uint
decode_float-append_float64 widen v h = ap ok (omega (arith, h))
