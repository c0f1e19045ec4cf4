-- ===== src/Osi/Cotp.antt =====
-- osi/cotp.rs: the class-0 transport. The functions that only compute are here; `Cotp.Connection`
-- has those that use the stream.
pub mod Connection
pub mod Segments
pub mod Transfer
pub mod Negotiation
pub mod Handshake
use rs_iec.Common.{
  ℕ, zero, suc, ◌+◌, ◌-◌, ◌*◌, ◌/◌, ◌%◌, ◌^◌, Bool, ◌==◌, ltb, List, [], ◌∷◌, ◌++◌, ◌&&◌, ◌||◌,
  if◌then◌else◌, length, Option, none, some, take, drop, get_or, min, max,
}
use rs_iec.Osi.Stream.{Result, ok, err, cotp, truncated_tpdu, bad_li}
use rs_iec.Osi.Tpkt.{to_be_bytes}

abbrev pub tpdu_cr : ℕ
tpdu_cr = 0xe0

abbrev pub tpdu_cc : ℕ
tpdu_cc = 0xd0

abbrev pub tpdu_dr : ℕ
tpdu_dr = 0x80

abbrev pub tpdu_dt : ℕ
tpdu_dt = 0xf0

abbrev pub tpdu_er : ℕ
tpdu_er = 0x70

abbrev pub param_tpdu_size : ℕ
param_tpdu_size = 0xc0

abbrev pub param_src_tsap : ℕ
param_src_tsap = 0xc1

abbrev pub param_dst_tsap : ℕ
param_dst_tsap = 0xc2

abbrev pub eot : ℕ
eot = 0x80

pub record Options : Type 0 where
  pub src_tsap : List ℕ
  pub dst_tsap : List ℕ
  pub tpdu_size_code : ℕ

-- The protocol state of `Conn`; its stream is passed beside it.
pub record Conn : Type 0 where
  pub max_tpdu : ℕ
  pub src_ref : ℕ
  pub dst_ref : ℕ
  pub src_tsap : List ℕ
  pub dst_tsap : List ℕ

pub record Header : Type 0 where
  pub li : ℕ
  pub typ : ℕ
  pub body : List ℕ

-- `tpdu[1] & 0xf0` keeps the high nibble.
unfoldable pub parse_header : List ℕ → Result Header
parse_header tpdu =
    let li = get_or tpdu 0 0 in
    if ltb (length tpdu) 2
    then err (cotp (truncated_tpdu (length tpdu)))
    else if li == 0 || ltb (length tpdu) (1 + li)
    then err (cotp (bad_li li (length tpdu)))
    else ok
        (record { li = li; typ = get_or tpdu 1 0 / 16 * 16; body = take (li - 1) (drop 2 tpdu) })

unfoldable pub write_param : List ℕ → ℕ → List ℕ → List ℕ
write_param b code val = b ++ (code ∷ (length val % 256) ∷ val)

-- `b[0] = (b.len() - 1) as u8`
abbrev pub with_li : List ℕ → List ℕ
with_li [] = []
with_li (x ∷ b) = (length b % 256) ∷ b

unfoldable pub connection_request : Conn → ℕ → List ℕ
unfolding write_param
connection_request c size_code =
    let b = (0 ∷ tpdu_cr ∷ []) ++ to_be_bytes 0 ++ to_be_bytes c.src_ref ++ (0 ∷ []) in
    with_li (
      write_param
        (write_param (write_param b param_tpdu_size (size_code ∷ [])) param_src_tsap c.src_tsap)
        param_dst_tsap c.dst_tsap)

-- A selector is only echoed when there is one.
unfoldable pub write_selector : List ℕ → ℕ → List ℕ → List ℕ
write_selector b code [] = b
write_selector b code (x ∷ xs) = write_param b code (x ∷ xs)

unfoldable pub connection_confirm : Conn → ℕ → List ℕ
unfolding write_param write_selector
connection_confirm c size_code =
    let b = (0 ∷ tpdu_cc ∷ []) ++ to_be_bytes c.dst_ref ++ to_be_bytes c.src_ref ++ (0 ∷ []) in
    with_li (
      write_selector
        (write_selector (write_param b param_tpdu_size (size_code ∷ [])) param_src_tsap c.src_tsap)
        param_dst_tsap c.dst_tsap)

-- What the two parameter loops read at the front: the code, the value and what follows. `none`
-- ends the loop.
unfoldable pub next_param : List ℕ → Option (ℕ × List ℕ × List ℕ)
next_param [] = none
next_param (code ∷ []) = none
next_param (code ∷ plen ∷ r) =
    if ltb (length r) plen then none else some (code, take plen r, drop plen r)

-- The body of the loop of `accept`: the connection and the size code found so far.
unfoldable pub accept_param : ℕ → List ℕ → Conn × ℕ → Conn × ℕ
accept_param code val (c, size_code) =
    if code == param_tpdu_size && length val == 1
    then (record c { max_tpdu = 2 ^ min (get_or val 0 0) 24 }, get_or val 0 0)
    else if code == param_src_tsap
    then (record c { dst_tsap = val }, size_code)
    else if code == param_dst_tsap
    then (record c { src_tsap = val }, size_code)
    else (c, size_code)

-- Every round takes two octets at least, so the number of octets is fuel enough.
unfoldable pub accept_params : ℕ → List ℕ → Conn × ℕ → Conn × ℕ
accept_params zero params acc = acc
accept_params (suc fuel) params acc = elim (next_param params) [
  | none ↦ acc
  | some (code, val, rest) ↦ accept_params fuel rest (accept_param code val acc)
]

-- The body of the loop of `parse_params`, which only ever negotiates downwards.
unfoldable pub confirm_param : ℕ → List ℕ → Conn → Conn
confirm_param code val c =
    let sz = 2 ^ min (get_or val 0 0) 24 in
    if code == param_tpdu_size && length val == 1
    then if ltb 0 sz && ltb sz c.max_tpdu then record c { max_tpdu = sz } else c
    else c

unfoldable pub parse_params : ℕ → List ℕ → Conn → Conn
parse_params zero params c = c
parse_params (suc fuel) params c = elim (next_param params) [
  | none ↦ c
  | some (code, val, rest) ↦ parse_params fuel rest (confirm_param code val c)
]

-- `self.max_tpdu.saturating_sub(3).max(1)`
unfoldable pub max_data : ℕ → ℕ
max_data max_tpdu = max (max_tpdu - 3) 1

-- One DT TPDU.
unfoldable pub data_tpdu : Bool → List ℕ → List ℕ
data_tpdu last payload = 2 ∷ tpdu_dt ∷ (if last then eot else 0) ∷ payload
