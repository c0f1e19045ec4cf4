-- ===== src/Asn1/Elements.antt =====
-- asn1/element.rs: the build-time tree of BER elements.
pub mod Laws
use rs_iec.Common.{ℕ, ◌+◌, true, List, [], ◌∷◌, ◌++◌, length, Option, none, some}
use rs_iec.Asn1.Types.{Tag}
use rs_iec.Asn1.Encode.{append_tag, append_length, tag_size, length_size}

mutual
  pub data Element : Type 0 where
    primitive : Tag → List ℕ → Element
    constructed : Tag → Elements → Element
    raw : Tag → List ℕ → Element
    verbatim : List ℕ → Element

  pub data Elements : Type 0 where
    nil : Elements
    child : Element → Elements → Elements

unfoldable pub prim : Tag → List ℕ → Element
prim t value = primitive t value

unfoldable pub cons : Tag → Elements → Element
cons t children = constructed (record t { constructed = true }) children

unfoldable pub raw_content : Tag → List ℕ → Element
raw_content t content = raw (record t { constructed = true }) content

unfoldable pub seq : Tag → Element
unfolding cons
seq t = cons t nil

-- `children.push(child)`
unfoldable pub snoc : Elements → Element → Elements
snoc nil e = child e nil
snoc (child c cs) e = child c (snoc cs e)

-- `push`, and `add`, which returns the element.
unfoldable pub add : Element → Element → Element
unfolding snoc
add (constructed t children) e = constructed t (snoc children e)
add (primitive t value) e = primitive t value
add (raw t content) e = raw t content
add (verbatim v) e = verbatim v

unfoldable pub add_opt : Element → Option Element → Element
add_opt self none = self
add_opt self (some e) = add self e

unfoldable pub add_all : Element → List Element → Element
add_all self [] = self
add_all self (c ∷ cs) = add_all (add self c) cs

unfoldable pub tag : Element → Option Tag
tag (primitive t value) = some t
tag (constructed t children) = some t
tag (raw t content) = some t
tag (verbatim v) = none

unfoldable mutual
  pub size : Element → ℕ
  size (verbatim v) = length v
  size (primitive t value) = tag_size t + length_size (length value) + length value
  size (raw t content) = tag_size t + length_size (length content) + length content
  size (constructed t children) = tag_size t + length_size (sizes children) + sizes children

  -- `children.iter().map(Element::size).sum()`
  pub sizes : Elements → ℕ
  sizes nil = 0
  sizes (child c cs) = size c + sizes cs

unfoldable pub content_size : Element → ℕ
content_size (primitive t value) = length value
content_size (constructed t children) = sizes children
content_size (raw t content) = length content
content_size (verbatim v) = length v

unfoldable mutual
  pub append : Element → List ℕ → List ℕ
  append (verbatim v) dst = dst ++ v
  append (primitive t value) dst = append_length (append_tag dst t) (length value) ++ value
  append (raw t content) dst = append_length (append_tag dst t) (length content) ++ content
  append (constructed t children) dst =
      append_all children (append_length (append_tag dst t) (sizes children))

  -- `for c in children { c.append(dst); }`
  pub append_all : Elements → List ℕ → List ℕ
  append_all nil dst = dst
  append_all (child c cs) dst = append_all cs (append c dst)

unfoldable pub encode : Element → List ℕ
encode e = append e []
