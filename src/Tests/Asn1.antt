-- ===== src/Tests/Asn1.antt =====
-- asn1/ at concrete octets.
use rs_iec.Common.{◌+◌, ◌≡◌, refl, true, false, [], ◌∷◌, ◌++◌, length, arith}
use rs_iec.Asn1.Types.{Tag, context_specific, universal}
use rs_iec.Asn1.Encode.{append_tag, append_length, append_tlv, tag_size}
use rs_iec.Asn1.Decoder.{done, read_tlv}
use rs_iec.Asn1.Decoder.Fuel.{Moves, read_tlv-Moves}
use rs_iec.Asn1.RoundTrip.Tags.{length-append_tag}
use rs_iec.Asn1.RoundTrip.Elements.{read_tlv-append_tlv}
use rs_iec.Asn1.Elements.{Element, primitive, constructed, nil, child, tag, append, size, encode}
use rs_iec.Asn1.Elements.Laws.{content, length-encode, read_tlv-encode}
use rs_iec.Asn1.BitStrings.{BitString}
use rs_iec.Asn1.BitStrings.Laws.{IsPacked}

abbrev integer_tag : Tag
integer_tag = record { class = universal; constructed = false; number = 2 }

abbrev outer_tag : Tag
outer_tag = record { class = context_specific; constructed = true; number = 1 }

-- A number that takes six octets.
abbrev wide_tag : Tag
wide_tag = record { class = context_specific; constructed = false; number = 300000000 }

abbrev tree : Element
tree =
    constructed outer_tag
      (child (primitive integer_tag (5 ∷ [])) (child (primitive integer_tag (1 ∷ 0 ∷ [])) nil))

read_tlv-encode_example :
    read_tlv (record { rest = encode tree ++ (7 ∷ []); off = 3 })
    ≡ done (outer_tag, content tree) (record { rest = 7 ∷ []; off = 3 + size tree })
unfolding encode tag append append_length append_tag
read_tlv-encode_example =
    read_tlv-encode tree outer_tag (7 ∷ []) 3 refl (omega arith, (omega arith, (omega arith, tt)))
      (omega arith)

length-encode_example : length (encode tree) ≡ size tree
length-encode_example = length-encode tree (omega arith, (omega arith, (omega arith, tt)))

read_tlv-append_tlv_example :
    read_tlv (record { rest = append_tlv [] wide_tag (5 ∷ []) ++ (7 ∷ []); off = 0 })
    ≡ done
        (wide_tag, 5 ∷ [])
        (record { rest = 7 ∷ []; off = 0 + length (append_tlv [] wide_tag (5 ∷ [])) })
read_tlv-append_tlv_example =
    read_tlv-append_tlv wide_tag (5 ∷ []) (7 ∷ []) 0 (omega arith) (omega arith)

read_tlv-Moves_example :
    Moves 2
      (record { rest = 0x30 ∷ 0x80 ∷ 1 ∷ []; off = 0 })
      (read_tlv (record { rest = 0x30 ∷ 0x80 ∷ 1 ∷ []; off = 0 }))
read_tlv-Moves_example = read_tlv-Moves (record { rest = 0x30 ∷ 0x80 ∷ 1 ∷ []; off = 0 })

length-append_tag_example : length (append_tag [] wide_tag) ≡ tag_size wide_tag + 1
length-append_tag_example = length-append_tag wide_tag (omega arith)

abbrev ten_bits : BitString
ten_bits = record { bits = 0x84 ∷ 0x40 ∷ []; length = 10 }

ten_bits-IsPacked : IsPacked ten_bits
ten_bits-IsPacked = record { room = omega arith; octets = (omega arith, (omega arith, tt)) }
