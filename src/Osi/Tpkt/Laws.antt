-- ===== src/Osi/Tpkt/Laws.antt =====
-- TPKT: what is written is read back, and where the 16-bit length field breaks that.
use rs_iec.Common.{
  ℕ, ◌+◌, ◌%◌, ◌^◌, ◌≤◌, ◌<◌, ◌≡◌, ◌≢◌, refl, List, ◌∷◌, ◌++◌, length, Option, none, some, arith,
}
use native.Mathlib.Nat.{mod-eq_of_lt}
use rs_iec.Osi.Stream.{Stream, ok, ◌>>=◌}
use rs_iec.Osi.Tpkt.{frame, payload_length, write_packet, read_packet, from_io, to_be_bytes}

-- The header of a payload that fits the length field.
abbrev pub header : List ℕ → List ℕ
header payload = 3 ∷ 0 ∷ to_be_bytes (4 + length payload)

pub frame_fits :
    (payload : List ℕ) → length payload ≤ 65531 → frame payload ≡ ok (header payload ++ payload)
unfolding frame
frame_fits payload h =
    ground (arith, mod-eq_of_lt {n = 4 + length payload} {m = 65536} (omega arith))

payload_length-header :
    (payload : List ℕ)
    → length payload ≤ 65531
    → payload_length (header payload) ≡ ok (length payload)
unfolding payload_length
payload_length-header payload h = ground arith

-- A payload that brings the packet past sixteen bits of length, and not past `MAX_PACKET`, is
-- framed with no error, and the header that a reader then sees announces another length, or none
-- that it accepts.
pub frame_wraps :
    (payload : List ℕ)
    → 65531 < length payload
    → length payload + 4 ≤ 2 ^ 20
    → (hdr : List ℕ) × (frame payload ≡ ok (hdr ++ payload))
      × (length hdr ≡ 4)
      × (payload_length hdr ≢ ok (length payload))
unfolding frame payload_length
frame_wraps payload h k =
    (3 ∷ 0 ∷ to_be_bytes ((4 + length payload) % 65536), ground arith, refl, λ e. ground arith)

module _ (stream : Stream) where
  open stream use {
    State, Unread, read_exact, read_exact_arrived, Written, write_all, write_all_appends,
  }

  -- `read_packet` reads back the payload, of at most 65531 octets, of a frame that has arrived, whatever follows it, and
  -- leaves what follows unread.
  pub read_packet_arrived :
      (s : State) (payload ys : List ℕ)
      → length payload ≤ 65531
      → Unread s ((header payload ++ payload) ++ ys)
      → (s' : State) × (read_packet stream s ≡ ok (payload, s')) × Unread s' ys
  unfolding read_packet
  read_packet_arrived s payload ys h u =
      let (t, e, v) = read_exact_arrived s (header payload) (payload ++ ys) u in
      let (t', e', v') = read_exact_arrived t payload ys v in
      (t', rw (e, payload_length-header payload h, e'), v')

  -- A successful `write_packet` appends the frame to what was written.
  pub write_packet_written :
      (s s' : State) (payload before : List ℕ)
      → length payload ≤ 65531
      → Written s before
      → write_packet stream payload s ≡ ok s'
      → Written s' (before ++ (header payload ++ payload))
  unfolding write_packet
  write_packet_written s s' payload before h w e =
      write_all_appends s s' before (header payload ++ payload) w
        (written (write_all (header payload ++ payload) s) (rw (frame_fits payload h, ◌>>=◌) at e))
    where
      written : (o : Option State) → from_io stream o ≡ ok s' → o ≡ some s'
      written none e = cc
      written (some t) e = cc
