-- ===== src/Tests/Osi.antt =====
-- osi/ at concrete octets, over a stream of two octet lists: what waits to be read and what was
-- written.
use rs_iec.Common.{
  ℕ, ◌≡◌, ◌≢◌, refl, ap, ◌∙◌, List, [], ◌∷◌, ◌++◌, length, length-append, length-replicate, Option,
  none, some, take, drop, replicate, arith, leb, if◌then◌else◌,
}
use rs_iec.Osi.Stream.{Stream, ok, ◌>>=◌}
use rs_iec.Osi.Tpkt.{frame, payload_length, write_packet}
use rs_iec.Osi.Tpkt.Laws.{frame_wraps}
use rs_iec.Osi.Cotp.{
  Conn, Options, max_data, parse_header, connection_request, connection_confirm, data_tpdu,
}
use rs_iec.Osi.Cotp.Connection.{initial, accept_request, confirm, send, send_loop, receive}
use rs_iec.Osi.Cotp.Segments.{segments, frames, octets}
use rs_iec.Osi.Cotp.Transfer.{receive-send}
use rs_iec.Osi.Cotp.Handshake.{Agree, handshake}

abbrev Buffers : Type 0
Buffers = List ℕ × List ℕ

abbrev read_buffer : ℕ → Buffers → Option (List ℕ × Buffers)
read_buffer n (unread, written) =
    if leb n (length unread) then some (take n unread, (drop n unread, written)) else none

abbrev write_buffer : List ℕ → Buffers → Option Buffers
write_buffer xs (unread, written) = some (unread, written ++ xs)

take_front : (xs ys : List ℕ) → take (length xs) (xs ++ ys) ≡ xs
take_front [] ys = refl
take_front (x ∷ xs) ys = ap (λ r. x ∷ r) (take_front xs ys)

drop_front : (xs ys : List ℕ) → drop (length xs) (xs ++ ys) ≡ ys
drop_front [] ys = refl
drop_front (x ∷ xs) ys = drop_front xs ys

read_front :
    (xs ys written : List ℕ)
    → read_buffer (length xs) (xs ++ ys, written) ≡ some (xs, (ys, written))
read_front xs ys written = ground (arith, length-append xs ys, take_front xs ys, drop_front xs ys)

write_back :
    (s s' : Buffers) (before xs : List ℕ)
    → s.1 ≡ before
    → write_buffer xs s ≡ some s'
    → s'.1 ≡ before ++ xs
write_back s s' before xs w e = ground (arith, w, e)

abbrev buffers : Stream
buffers = record {
  State = Buffers;
  Unread = λ s xs. s.0 ≡ xs;
  Written = λ s xs. s.1 ≡ xs;
  read_exact = read_buffer;
  write_all = write_buffer;
  read_exact_arrived = λ s xs ys u.
      ((ys, s.1), ap (λ r. read_buffer (length xs) (r, s.1)) u ∙ read_front xs ys s.1, refl);
  write_all_appends = write_back;
}

abbrev small_conn : Conn
small_conn = record { max_tpdu = 5; src_ref = 1; dst_ref = 1; src_tsap = []; dst_tsap = [] }

abbrev unit : List ℕ
unit = 10 ∷ 11 ∷ 12 ∷ []

abbrev sent : Buffers
sent = ([], 99 ∷ octets small_conn unit)

receive-send_example :
    (sent.1 ≡ 99 ∷ octets small_conn unit)
    × (r' : Buffers) × (receive buffers 4 (octets small_conn unit ++ (7 ∷ []), []) ≡ ok (unit, r'))
    × (r'.0 ≡ 7 ∷ [])
unfolding send send_loop write_packet frame data_tpdu max_data segments frames
receive-send_example =
    receive-send buffers buffers small_conn unit (99 ∷ []) (7 ∷ []) ([], 99 ∷ []) sent
      (octets small_conn unit ++ (7 ∷ []), []) (omega arith) refl refl refl

abbrev options : Options
options = record { src_tsap = 0 ∷ 1 ∷ []; dst_tsap = 0 ∷ 2 ∷ []; tpdu_size_code = 10 }

handshake_example :
    (client : Conn) × (server : Conn) × ((parse_header
          (connection_request (initial options).0 (initial options).1)
        >>= accept_request)
      ≡ ok (server, (initial options).1))
    × ((parse_header (connection_confirm server (initial options).1)
          >>= confirm (initial options).0)
        ≡ ok client)
    × Agree client server
handshake_example =
    handshake options 0 0 (1 ∷ []) (2 ∷ []) refl refl (omega arith) (omega arith) (omega arith)

abbrev long_payload : List ℕ
long_payload = replicate 65532 7

frame_wraps_example :
    (hdr : List ℕ) × (frame long_payload ≡ ok (hdr ++ long_payload))
    × (length hdr ≡ 4)
    × (payload_length hdr ≢ ok (length long_payload))
frame_wraps_example =
    frame_wraps long_payload (omega (arith, length-replicate 65532 (let z : ℕ = 7 in z)))
      (omega (arith, length-replicate 65532 (let z : ℕ = 7 in z)))
