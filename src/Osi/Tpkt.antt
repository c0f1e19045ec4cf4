-- ===== src/Osi/Tpkt.antt =====
-- osi/tpkt.rs: the framing of RFC 1006.
pub mod Laws
use rs_iec.Common.{
  ℕ, ◌+◌, ◌-◌, ◌*◌, ◌/◌, ◌%◌, ◌^◌, ◌==◌, ltb, List, [], ◌∷◌, ◌++◌, not, ◌||◌, if◌then◌else◌, length,
  Option, none, some, get_or,
}
use rs_iec.Osi.Stream.{
  Stream, Result, ok, err, io, tpkt, exceeds_max, bad_version, bad_length, ◌>>=◌,
}

abbrev pub header_len : ℕ
header_len = 4

abbrev pub version : ℕ
version = 3

abbrev pub max_packet : ℕ
max_packet = 2 ^ 20

-- The octets of `u16::to_be_bytes` and `u16::from_be_bytes`.
abbrev pub to_be_bytes : ℕ → List ℕ
to_be_bytes n = (n / 256 % 256) ∷ (n % 256) ∷ []

abbrev pub from_be_bytes : ℕ → ℕ → ℕ
from_be_bytes hi lo = hi * 256 + lo

-- The frame that `write_packet` builds; `total as u16` keeps the low sixteen bits.
unfoldable pub frame : List ℕ → Result (List ℕ)
frame payload =
    let total = header_len + length payload in
    if ltb max_packet total
    then err (tpkt (exceeds_max total))
    else ok ((version ∷ 0 ∷ to_be_bytes (total % 65536)) ++ payload)

-- The checks of `read_packet` on the header: the length of the payload.
unfoldable pub payload_length : List ℕ → Result ℕ
payload_length hdr =
    let total = from_be_bytes (get_or hdr 2 0) (get_or hdr 3 0) in
    if not (get_or hdr 0 0 == version)
    then err (tpkt (bad_version (get_or hdr 0 0)))
    else if ltb total header_len || ltb max_packet total
    then err (tpkt (bad_length total))
    else ok (total - header_len)

module _ (stream : Stream) where
  open stream use {State, read_exact, write_all}

  abbrev pub from_io {ℓ} : {A : Type ℓ} → Option A → Result A
  from_io none = err io
  from_io (some a) = ok a

  -- The two calls of the runtime, an octet list written and flushed.
  unfoldable pub write_packet : List ℕ → State → Result State
  write_packet payload s = frame payload >>= λ octets. from_io (write_all octets s)

  unfoldable pub read_packet : State → Result (List ℕ × State)
  read_packet s = from_io (read_exact header_len s) >>= λ h.
      payload_length h.0 >>= λ n. from_io (read_exact n h.1)
