-- ===== src/Osi/Cotp/Connection.antt =====
-- osi/cotp.rs: the handshake, `send` and `receive`, over a stream.
use rs_iec.Common.{
  ℕ, zero, suc, ◌+◌, ◌/◌, ◌%◌, ◌^◌, Bool, true, false, ◌==◌, ltb, leb, List, [], ◌++◌, not,
  if◌then◌else◌, length, take, drop, get_or,
}
use rs_iec.Osi.Stream.{
  Stream, Result, ok, err, cotp, closed, exhausted, expected_cr, expected_cc, refused, short_cc,
  short_dt, er_tpdu, unexpected_type, ◌>>=◌,
}
use rs_iec.Osi.Tpkt.{write_packet, read_packet, from_be_bytes}
use rs_iec.Osi.Cotp.{
  Options, Conn, Header, parse_header, connection_request, connection_confirm, accept_params,
  parse_params, max_data, data_tpdu, tpdu_cr, tpdu_cc, tpdu_dr, tpdu_dt, tpdu_er,
}

-- What `accept` makes of a CR: the connection and the size code that it echoes.
unfoldable pub accept_request : Header → Result (Conn × ℕ)
accept_request h =
    let c : Conn = record {
      max_tpdu = 1024;
      src_ref = 1;
      dst_ref = 0;
      src_tsap = [];
      dst_tsap = [];
    } in
    let c' : Conn =
      if ltb (length h.body) 4
      then c
      else record c { dst_ref = from_be_bytes (get_or h.body 2 0) (get_or h.body 3 0) } in
    if not (h.typ == tpdu_cr)
    then err (cotp (expected_cr h.typ))
    else if ltb 5 (length h.body)
    then ok (accept_params (length h.body) (drop 5 h.body) (c', 10))
    else ok (c', 10)

-- What `recv_cc` makes of a CC.
unfoldable pub confirm : Conn → Header → Result Conn
confirm c h =
    let c' : Conn = record c { dst_ref = from_be_bytes (get_or h.body 2 0) (get_or h.body 3 0) } in
    if not (h.typ == tpdu_cc)
    then if h.typ == tpdu_dr then err (cotp refused) else err (cotp (expected_cc h.typ))
    else if ltb (length h.body) 5
    then err (cotp short_cc)
    else if ltb 5 (length h.body)
    then ok (parse_params (length h.body) (drop 5 h.body) c')
    else ok c'

-- The connection that `connect` begins with. A release build takes the shift distance modulo the
-- width of a `usize`.
unfoldable pub initial : Options → Conn × ℕ
initial opts =
    let size_code = if opts.tpdu_size_code == 0 then 10 else opts.tpdu_size_code in
    (
      record {
        max_tpdu = 2 ^ (size_code % 64);
        src_ref = 1;
        dst_ref = 0;
        src_tsap = opts.src_tsap;
        dst_tsap = opts.dst_tsap;
      },
      size_code,
    )

-- What a TPDU means to `receive`: the data gathered so far, and whether it is complete.
unfoldable pub receive_tpdu : List ℕ → List ℕ → Result (List ℕ × Bool)
receive_tpdu buf tpdu = parse_header tpdu >>= λ h.
    if h.typ == tpdu_dt
    then if length h.body == 0
      then err (cotp short_dt)
      else ok (buf ++ drop (1 + h.li) tpdu, not (get_or h.body 0 0 / 128 % 2 == 0))
    else if h.typ == tpdu_dr
    then err closed
    else if h.typ == tpdu_er
    then err (cotp er_tpdu)
    else err (cotp (unexpected_type h.typ))

module _ (stream : Stream) where
  open stream use {State}

  unfoldable pub connect : Options → State → Result (Conn × State)
  connect opts s =
      let c = (initial opts).0 in
      write_packet stream (connection_request c (initial opts).1) s >>= λ s'.
      read_packet stream s' >>= λ p. parse_header p.0 >>= λ h. confirm c h >>= λ c'. ok (c', p.1)

  unfoldable pub accept : State → Result (Conn × State)
  accept s = read_packet stream s >>= λ p. parse_header p.0 >>= λ h. accept_request h >>= λ r.
      write_packet stream (connection_confirm r.0 r.1) p.1 >>= λ s'. ok (r.0, s')

  -- The loop of `send` over `tsdu[off..]`; each round but the last sends an octet at least.
  unfoldable pub send_loop : ℕ → ℕ → List ℕ → State → Result State
  send_loop zero n rest s = err exhausted
  send_loop (suc fuel) n rest s =
      let last = leb (length rest) n in
      write_packet stream (data_tpdu last (take n rest)) s >>= λ s'. elim last [
        | true ↦ ok s'
        | false ↦ send_loop fuel n (drop n rest) s'
      ]

  unfoldable pub send : Conn → List ℕ → State → Result State
  send c tsdu s = send_loop (length tsdu + 1) (max_data c.max_tpdu) tsdu s

  -- The loop of `receive`, over at most `fuel` packets.
  unfoldable pub receive_loop : ℕ → List ℕ → State → Result (List ℕ × State)
  receive_loop zero buf s = err exhausted
  receive_loop (suc fuel) buf s = read_packet stream s >>= λ p. receive_tpdu buf p.0 >>= λ r.
      elim r.1 [ true ↦ ok (r.0, p.1) | false ↦ receive_loop fuel r.0 p.1 ]

  unfoldable pub receive : ℕ → State → Result (List ℕ × State)
  receive fuel s = receive_loop fuel [] s
