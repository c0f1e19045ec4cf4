-- ===== src/Asn1/Types.antt =====
-- asn1/mod.rs: tags and errors of the BER runtime.
use rs_iec.Common.{
  ℕ, ◌%◌, Bool, true, false, ◌==◌, if◌then◌else◌, String, ◌&&◌, ◌≡◌, ◌↔◌, arith, IsU32,
}

pub data Class : Type 0 where
  universal application context_specific private : Class

-- `t.class as u8`
abbrev pub class_bits : Class → ℕ
class_bits universal = 0
class_bits application = 1
class_bits context_specific = 2
class_bits private = 3

-- `b & 3` is `b % 4`.
abbrev pub from_bits : ℕ → Class
from_bits b =
    if b % 4 == 0
    then universal
    else if b % 4 == 1
    then application
    else if b % 4 == 2
    then context_specific
    else private

pub record Tag : Type 0 where
  pub class : Class
  pub constructed : Bool
  pub number : ℕ  -- u32

abbrev pub context_primitive : ℕ → Tag
context_primitive n = record { class = context_specific; constructed = false; number = n }

abbrev pub context_constructed : ℕ → Tag
context_constructed n = record { class = context_specific; constructed = true; number = n }

abbrev pub application_constructed : ℕ → Tag
application_constructed n = record { class = application; constructed = true; number = n }

abbrev pub tag_sequence : Tag
tag_sequence = record { class = universal; constructed = true; number = 16 }

-- The derived equality of Rust's `Tag`.
abbrev pub Bool_eq : Bool → Bool → Bool
Bool_eq true b = b
Bool_eq false true = false
Bool_eq false false = true

abbrev pub tag_eq : Tag → Tag → Bool
tag_eq s t =
    (class_bits s.class == class_bits t.class)
    && (Bool_eq s.constructed t.constructed && (s.number == t.number))

pub tag_eq_iff : (s t : Tag) → (tag_eq s t ≡ true) ↔ (s ≡ t)
tag_eq_iff s t = (λ h. ground arith, λ h. ground arith)

-- The number of a tag is a `u32`.
abbrev pub IsTag : Tag → Type 0
IsTag t = IsU32 t.number

abbrev pub max_depth : ℕ
max_depth = 64

-- The texts that `Error::bad_value` is given, with the number that is formatted into them.
pub data BadValue : Type 0 where
  integer_octets unsigned_octets boolean_octets bit_string_padding : ℕ → BadValue
  empty_unsigned empty_bit_string empty_oid oid_arc_too_large truncated_oid_arc : BadValue
  float_octets : ℕ → BadValue

pub data Error : Type 0 where
  truncated bad_tag bad_length : String → ℕ → Error
  too_deep : ℕ → Error
  unexpected : Tag → Tag → ℕ → Error
  bad_value : BadValue → Error

-- Rust's `Result` over this error.
pub data Result {ℓ} (A : Type ℓ) : Type ℓ where
  ok : A → Result A
  err : Error → Result A
