-- ===== src/Asn1/Encode.antt =====
-- asn1/mod.rs: `append_tag`, `append_length`, `append_tlv` and their sizes. An octet buffer is a
-- `List ℕ`; `dst` comes first, as in the source. `x >> k` is `x / 2 ^ k`, `x as u8` is `x % 256`,
-- and `|` of disjoint bits is `+`.
use rs_iec.Common.{
  ℕ, zero, suc, ◌+◌, ◌*◌, ◌/◌, ◌%◌, ◌^◌, ◌==◌, ltb, leb, List, [], ◌∷◌, ◌++◌, if◌then◌else◌, length,
}
use rs_iec.Asn1.Types.{Tag, class_bits}

-- The loop that fills `tmp` from the back: the groups of seven bits of `n`, highest first. The
-- first argument counts the slots left of the five; for a `u32` it does not run out.
unfoldable pub base128_groups : ℕ → ℕ → List ℕ → List ℕ
base128_groups zero n tmp = tmp
base128_groups (suc i) n tmp =
    let rest = base128_groups i (n / 128) (n % 128 ∷ tmp) in
    if n / 128 == 0 then n % 128 ∷ tmp else rest

-- `*slot |= 0x80` on every slot but the last.
unfoldable pub mark_continuation : List ℕ → List ℕ
mark_continuation [] = []
mark_continuation (x ∷ []) = x ∷ []
mark_continuation (x ∷ y ∷ r) = (x + 128) ∷ mark_continuation (y ∷ r)

unfoldable pub append_base128 : List ℕ → ℕ → List ℕ
append_base128 dst n = dst ++ mark_continuation (base128_groups 5 n [])

unfoldable pub append_tag : List ℕ → Tag → List ℕ
append_tag dst t =
    let b = class_bits t.class * 64 + (if t.constructed then 32 else 0) in
    if ltb t.number 31
    then dst ++ ((b + t.number) ∷ [])
    else append_base128 (dst ++ ((b + 31) ∷ [])) t.number

unfoldable pub append_length : List ℕ → ℕ → List ℕ
append_length dst n =
    if ltb n 0x80
    then dst ++ (n ∷ [])
    else if leb n 0xff
    then dst ++ (0x81 ∷ (n % 256) ∷ [])
    else if leb n 0xffff
    then dst ++ (0x82 ∷ (n / 2 ^ 8 % 256) ∷ (n % 256) ∷ [])
    else if leb n 0xffffff
    then dst ++ (0x83 ∷ (n / 2 ^ 16 % 256) ∷ (n / 2 ^ 8 % 256) ∷ (n % 256) ∷ [])
    else dst
      ++ (0x84 ∷ (n / 2 ^ 24 % 256) ∷ (n / 2 ^ 16 % 256) ∷ (n / 2 ^ 8 % 256) ∷ (n % 256) ∷ [])

unfoldable pub tag_size : Tag → ℕ
tag_size t =
    if leb t.number 30
    then 1
    else if ltb t.number (2 ^ 7)
    then 2
    else if ltb t.number (2 ^ 14)
    then 3
    else if ltb t.number (2 ^ 21)
    then 4
    else 5

unfoldable pub length_size : ℕ → ℕ
length_size n =
    if leb n 0x7f
    then 1
    else if leb n 0xff
    then 2
    else if leb n 0xffff
    then 3
    else if leb n 0xffffff
    then 4
    else 5

unfoldable pub tlv_size : Tag → ℕ → ℕ
tlv_size t n = tag_size t + length_size n + n

unfoldable pub append_tlv : List ℕ → Tag → List ℕ → List ℕ
append_tlv dst t content = append_length (append_tag dst t) (length content) ++ content
