-- ===== src/Asn1/Decoder.antt =====
-- asn1/decoder.rs: the bounds-checked cursor. `data[off..]` is kept as the list `rest` beside the
-- offset, so a test of `off` against `data.len()` is a test of `rest`. A method that takes
-- `&mut self` returns the cursor that it leaves behind, on errors too.
pub mod Fuel
pub mod Contents
use rs_iec.Common.{
  ℕ, zero, suc, ◌+◌, ◌-◌, ◌*◌, ◌/◌, ◌%◌, ◌^◌, Bool, true, false, ◌==◌, ltb, leb, List, [], ◌∷◌,
  ◌&&◌, not, if◌then◌else◌, length, take, drop, Option, none, some,
}
use rs_iec.Asn1.Types.{Tag, from_bits, tag_eq, max_depth, Error}
use rs_iec.Asn1.Types.Error.{truncated, bad_tag, bad_length, too_deep, unexpected}

pub record Decoder : Type 0 where
  pub rest : List ℕ
  pub off : ℕ

-- What a method returns and the cursor that it leaves. `stuck` is no Rust value: the fuel of
-- `read_tlv_at` ran out.
pub data Out {ℓ} (A : Type ℓ) : Type ℓ where
  done : A → Decoder → Out A
  fail : Error → Decoder → Out A
  stuck : Out A

-- `?` on a result, and what follows.
abbrev pub and_then {ℓ κ} : {A : Type ℓ} {B : Type κ} → Out A → (A → Decoder → Out B) → Out B
and_then (done a d) f = f a d
and_then (fail e d) f = fail e d
and_then stuck f = stuck

unfoldable pub new : List ℕ → Decoder
new bytes = record { rest = bytes; off = 0 }

unfoldable pub more : Decoder → Bool
more d = elim d.rest [ [] ↦ false | x ∷ r ↦ true ]

-- The loop of the high tag number form; `i` counts the octets read before.
unfoldable pub high_tag_number : List ℕ → ℕ → ℕ → ℕ → Out ℕ
high_tag_number [] off i number =
    fail (truncated "reading tag" off) (record { rest = []; off = off })
high_tag_number (c ∷ r) off i number =
    let number' = number * 128 % 2 ^ 32 + c % 128 in
    let further = high_tag_number r (off + 1) (i + 1) number' in
    if leb 5 i
    then fail (bad_tag "tag number too large" off) (record { rest = c ∷ r; off = off })
    else if c / 128 == 0
    then done number' (record { rest = r; off = off + 1 })
    else further

-- `b >> 6`, `b & 0x20 != 0` and `b & 0x1f`
abbrev pub first_octet : ℕ → Tag
first_octet b = record {
  class = from_bits (b / 64);
  constructed = b / 32 % 2 == 1;
  number = b % 32;
}

-- What follows the first octet, whose fields are `t`.
unfoldable pub tag_number : Tag → List ℕ → ℕ → Out Tag
tag_number t r off =
    if not (t.number == 0x1f)
    then done t (record { rest = r; off = off })
    else and_then (high_tag_number r off 0 0) (λ n d. done (record t { number = n }) d)

unfoldable pub tag_from : List ℕ → ℕ → Out Tag
tag_from [] off = fail (truncated "reading tag" off) (record { rest = []; off = off })
tag_from (b ∷ r) off = tag_number (first_octet b) r (off + 1)

unfoldable pub read_tag : Decoder → Out Tag
unfolding tag_from tag_number
read_tag d = tag_from d.rest d.off

-- `for _ in 0..num_octets`, run once the octets are known to be there.
unfoldable pub length_octets : ℕ → List ℕ → ℕ → ℕ → Out ℕ
length_octets zero r off n = done n (record { rest = r; off = off })
length_octets (suc k) [] off n =
    fail (truncated "reading length" off) (record { rest = []; off = off })
length_octets (suc k) (b ∷ r) off n = length_octets k r (off + 1) (n * 256 + b)

length_from : List ℕ → ℕ → Out (ℕ × Bool)
length_from [] off = fail (truncated "reading length" off) (record { rest = []; off = off })
length_from (b ∷ r) off =
    let d : Decoder = record { rest = r; off = off + 1 } in
    if ltb b 0x80
    then done (b, false) d
    else if b == 0x80
    then done (0, true) d
    else if ltb 4 (b % 128)
    then fail (bad_length "length overflows" (off + 1)) d
    else if ltb (length r) (b % 128)
    then fail (truncated "reading length" (off + 1)) d
    else and_then (length_octets (b % 128) r (off + 1) 0) (λ n c. done (n, false) c)

-- The Boolean is true for the indefinite form.
unfoldable pub read_length : Decoder → Out (ℕ × Bool)
unfolding length_from
read_length d = length_from d.rest d.off

unfoldable pub peek : Decoder → Out Tag
peek d = elim (read_tag d) [ done t _ ↦ done t d | fail e _ ↦ fail e d | stuck ↦ stuck ]

unfoldable pub peek_is : Decoder → Tag → Bool
peek_is d t = elim (peek d) [ done got _ ↦ tag_eq got t | _ ↦ false ]

-- `data[off] == 0 && data[off + 1] == 0`, in bounds.
abbrev pub at_end_of_contents : List ℕ → Bool
at_end_of_contents [] = false
at_end_of_contents (x ∷ []) = false
at_end_of_contents (x ∷ y ∷ r) = x == 0 && y == 0

-- The definite form: the content has to be there.
unfoldable pub definite_content : Tag → ℕ → Decoder → Out (Tag × List ℕ)
definite_content t n d =
    if ltb (length d.rest) n
    then fail (truncated "reading content" d.off) d
    else done (t, take n d.rest) (record { rest = drop n d.rest; off = d.off + n })

-- The body of `read_tlv_at`, over the loop `scan` that it enters for the indefinite form.
unfoldable pub read_element :
    ℕ → (Tag → Decoder → Out (Tag × List ℕ)) → Decoder → Out (Tag × List ℕ)
read_element depth scan d =
    if ltb max_depth depth
    then fail (too_deep d.off) d
    else and_then (read_tag d) λ t c. and_then (read_length c) λ p c'.
      if not p.1
      then definite_content t p.0 c'
      else if not t.constructed
      then fail (bad_length "indefinite length on primitive" c'.off) c'
      else scan t c'

-- One round of the loop that scans the children of an indefinite element from `start` on:
-- `child` reads one, `again` is the next round.
unfoldable pub scan_round :
    Tag
    → Decoder
    → (Decoder → Out (Tag × List ℕ))
    → (Decoder → Out (Tag × List ℕ))
    → Decoder
    → Out (Tag × List ℕ)
scan_round t start child again d =
    if at_end_of_contents d.rest
    then done (t, take (d.off - start.off) start.rest)
        (record { rest = drop 2 d.rest; off = d.off + 2 })
    else and_then (child d) (λ _ d'. again d')

-- Each call and each round takes one unit of fuel.
unfoldable mutual
  pub read_tlv_at : ℕ → ℕ → Decoder → Out (Tag × List ℕ)
  read_tlv_at zero depth d = stuck
  read_tlv_at (suc fuel) depth d = read_element depth (λ t c. scan_children fuel depth t c c) d

  pub scan_children : ℕ → ℕ → Tag → Decoder → Decoder → Out (Tag × List ℕ)
  scan_children zero depth t start d = stuck
  scan_children (suc fuel) depth t start d =
      scan_round t start (λ c. read_tlv_at fuel (depth + 1) c)
        (λ c. scan_children fuel depth t start c) d

-- Every element takes two octets at least, so this fuel is enough.
unfoldable pub read_tlv : Decoder → Out (Tag × List ℕ)
read_tlv d = read_tlv_at (length d.rest + 1) 0 d

unfoldable pub expect : Tag → Decoder → Out (List ℕ)
expect t d =
    and_then (read_tlv d)
      λ p d'. if tag_eq p.0 t then done p.1 d' else fail (unexpected t p.0 d.off) d'

unfoldable pub optional : Tag → Decoder → Out (Option (List ℕ))
optional t d =
    if not (more d)
    then done none d
    else and_then (peek d) λ got _.
      if tag_eq got t then and_then (read_tlv d) (λ p d'. done (some p.1) d') else done none d

unfoldable pub skip : Decoder → Out (Unit {0})
skip d = and_then (read_tlv d) (λ _ d'. done tt d')
