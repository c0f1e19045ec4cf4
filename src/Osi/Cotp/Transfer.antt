-- ===== src/Osi/Cotp/Transfer.antt =====
-- `send` and `receive` over TPKT: what one side sends the other receives.
use rs_iec.Common.{
  ℕ, zero, suc, ◌+◌, ◌-◌, ◌≤◌, ◌<◌, ◌≡◌, ◌≢◌, refl, sym, ap, ◌∙◌, Bool, true, false, leb, List, [],
  ◌++◌, length, take, drop, max, arith, length-take, length-drop, Bool-cases, inl, inr,
  append_assoc, append-nil, take-append-drop, leb→le, take_short, Option, none, some,
}
use rs_iec.Osi.Stream.{Stream, Result, ok, err, exhausted, ◌>>=◌, >>=-eq-ok}
use rs_iec.Osi.Tpkt.{write_packet, read_packet, frame, from_io}
use rs_iec.Osi.Tpkt.Laws.{header, read_packet_arrived, write_packet_written}
use rs_iec.Osi.Cotp.{Conn, max_data, data_tpdu}
use rs_iec.Osi.Cotp.Connection.{send_loop, send, receive_loop, receive}
use rs_iec.Osi.Cotp.Segments.{segments, frames, octets, length-data_tpdu, receive_tpdu-data_tpdu}

data_tpdu-fits :
    (last : Bool) (n : ℕ) (rest : List ℕ)
    → n ≤ 65528
    → length (data_tpdu last (take n rest)) ≤ 65531
data_tpdu-fits last n rest h =
    omega (arith, length-data_tpdu last (take n rest), length-take n rest)

frames_last :
    (fuel n : ℕ) (rest : List ℕ)
    → leb (length rest) n ≡ true
    → frames (segments (suc fuel) n rest) ≡ header (data_tpdu true rest) ++ data_tpdu true rest
unfolding segments frames
frames_last fuel n rest h = rw (h, take_short n rest (leb→le _ _ h), append-nil)

frames_more :
    (fuel n : ℕ) (rest : List ℕ)
    → leb (length rest) n ≡ false
    → frames (segments (suc fuel) n rest)
      ≡ (header (data_tpdu false (take n rest)) ++ data_tpdu false (take n rest))
        ++ frames (segments fuel n (drop n rest))
unfolding segments frames
frames_more fuel n rest h = rw h

leb-false-lt : (a b : ℕ) → leb a b ≡ false → b < a
leb-false-lt a b h = ground arith

module _ (stream : Stream) where
  open stream use {State, Unread, Written}

  -- One packet of `receive`, by the mark that it carries.
  receive_last :
      (fuel : ℕ) (payload buf : List ℕ) (s : State) {s' : State}
      → read_packet stream s ≡ ok (data_tpdu true payload, s')
      → receive_loop stream (suc fuel) buf s ≡ ok (buf ++ payload, s')
  unfolding receive_loop
  receive_last fuel payload buf s e = rw (e, receive_tpdu-data_tpdu true payload buf)

  receive_more :
      (fuel : ℕ) (payload buf : List ℕ) (s : State) {s' : State}
      → read_packet stream s ≡ ok (data_tpdu false payload, s')
      → receive_loop stream (suc fuel) buf s ≡ receive_loop stream fuel (buf ++ payload) s'
  unfolding receive_loop
  receive_more fuel payload buf s e = rw (e, receive_tpdu-data_tpdu false payload buf)

  receive_loop-frames :
      (fuel n : ℕ) (rest buf tail : List ℕ) (s : State)
      → length rest < fuel
      → 1 ≤ n
      → n ≤ 65528
      → Unread s (frames (segments fuel n rest) ++ tail)
      → (s' : State) × (receive_loop stream fuel buf s ≡ ok (buf ++ rest, s')) × Unread s' tail
  receive_loop-frames zero n rest buf tail s h p q u = elim h [ ]
  receive_loop-frames (suc fuel) n rest buf tail s h p q u =
      elim (Bool-cases (leb (length rest) n)) [
        | inl last ↦
            let (s', e, v) =
              read_packet_arrived stream s (data_tpdu true rest) tail
                (omega (arith, length-data_tpdu true rest, leb→le _ _ last))
                (rw (frames_last fuel n rest last) at u) in
            (s', receive_last fuel rest buf s e, v)
        | inr further ↦
            let (t, e, v) =
              read_packet_arrived stream s (data_tpdu false (take n rest))
                (frames (segments fuel n (drop n rest)) ++ tail) (data_tpdu-fits false n rest q)
                (rw (frames_more fuel n rest further, append_assoc) at u) in
            let (s', e', v') =
              receive_loop-frames fuel n (drop n rest) (buf ++ take n rest) tail t
                (omega (arith, length-drop n rest, leb-false-lt _ _ further)) p q v in
            (
              s',
              receive_more fuel (take n rest) buf s e
                  ∙ e'
                  ∙ ap (λ xs. ok (xs, s'))
                      (append_assoc buf (take n rest) (drop n rest)
                        ∙ ap (λ xs. buf ++ xs) (take-append-drop n rest)),
              v',
            )
      ]

  send_last :
      (fuel n : ℕ) (rest : List ℕ) (s : State)
      → leb (length rest) n ≡ true
      → send_loop stream (suc fuel) n rest s
        ≡ (write_packet stream (data_tpdu true rest) s >>= λ s'. ok s')
  unfolding send_loop
  send_last fuel n rest s h = rw (h, take_short n rest (leb→le _ _ h))

  send_more :
      (fuel n : ℕ) (rest : List ℕ) (s : State)
      → leb (length rest) n ≡ false
      → send_loop stream (suc fuel) n rest s ≡ (
          write_packet stream (data_tpdu false (take n rest)) s >>= λ s'.
          send_loop stream fuel n (drop n rest) s')
  unfolding send_loop
  send_more fuel n rest s h = rw h

  send_none : (n : ℕ) (rest : List ℕ) (s : State) → send_loop stream zero n rest s ≡ err exhausted
  unfolding send_loop
  send_none n rest s = refl

  send_loop-frames :
      (fuel n : ℕ) (rest before : List ℕ) (s s' : State)
      → n ≤ 65528
      → Written s before
      → send_loop stream fuel n rest s ≡ ok s'
      → Written s' (before ++ frames (segments fuel n rest))
  send_loop-frames zero n rest before s s' q w e = cc (send_none n rest s)
  send_loop-frames (suc fuel) n rest before s s' q w e = elim (Bool-cases (leb (length rest) n)) [
    | inl last ↦
        let (t, f, g) =
          >>=-eq-ok (write_packet stream (data_tpdu true rest) s) _
            (sym (send_last fuel n rest s last) ∙ e) in
        rw (frames_last fuel n rest last) (
          write_packet_written stream s s' (data_tpdu true rest) before
            (omega (arith, length-data_tpdu true rest, leb→le _ _ last)) w (f ∙ g))
    | inr further ↦
        let (t, f, g) =
          >>=-eq-ok (write_packet stream (data_tpdu false (take n rest)) s) _
            (sym (send_more fuel n rest s further) ∙ e) in
        rw (frames_more fuel n rest further, ← append_assoc)
          (send_loop-frames fuel n (drop n rest) _ t s' q
            (write_packet_written stream s t (data_tpdu false (take n rest)) before
              (data_tpdu-fits false n rest q) w f)
            g)
  ]

-- What one connection sends another receives. If `send` succeeds, it has appended the frames of
-- the unit's TPDUs to the stream; and a connection whose stream has these octets at its front
-- receives the whole unit, and leaves what follows unread. The negotiated size is at most 65531,
-- so that a TPDU fits a TPKT.
pub receive-send :
    (sender receiver : Stream) (c : Conn) (tsdu before tail : List ℕ)
    → (s s' : sender.State) (r : receiver.State) → c.max_tpdu ≤ 65531
    → sender.Written s before
    → send sender c tsdu s ≡ ok s'
    → receiver.Unread r (octets c tsdu ++ tail)
    → sender.Written s' (before ++ octets c tsdu)
      × (r' : receiver.State) × (receive receiver (length tsdu + 1) r ≡ ok (tsdu, r'))
      × receiver.Unread r' tail
unfolding send receive max_data
receive-send sender receiver c tsdu before tail s s' r h w e u =
    let n : ℕ = max (c.max_tpdu - 3) 1 in
    let (r', f, v) =
      receive_loop-frames receiver (length tsdu + 1) n tsdu [] tail r (omega arith) (omega arith)
        (omega arith) u in
    (send_loop-frames sender (length tsdu + 1) n tsdu before s s' (omega arith) w e, r', f, v)

frame-ends : (payload : List ℕ) → frame payload ≢ err exhausted
unfolding frame
frame-ends payload e = ground arith

from_io-ends {ℓ} : (stream : Stream) {A : Type ℓ} (o : Option A) → from_io stream o ≢ err exhausted
from_io-ends stream none e = cc
from_io-ends stream (some a) e = cc

>>=-ends {ℓ κ} :
    {A : Type ℓ} {B : Type κ} (m : Result A) (f : A → Result B)
    → m ≢ err exhausted
    → ((a : A) → f a ≢ err exhausted)
    → (m >>= f) ≢ err exhausted
>>=-ends (ok a) f h k = k a
>>=-ends (err x) f h k = λ e. h (cc)

write_packet-ends :
    (stream : Stream) (payload : List ℕ) (s : stream.State)
    (next : stream.State → Result stream.State)
    → ((t : stream.State) → next t ≢ err exhausted)
    → (write_packet stream payload s >>= next) ≢ err exhausted
unfolding write_packet
write_packet-ends stream payload s next h =
    >>=-ends _ next
      (>>=-ends (frame payload) _ (frame-ends payload)
        (λ t. from_io-ends stream (stream.write_all t s)))
      h

send_loop-ends :
    (stream : Stream) (fuel n : ℕ) (rest : List ℕ) (s : stream.State)
    → 1 ≤ n
    → length rest < fuel
    → send_loop stream fuel n rest s ≢ err exhausted
send_loop-ends stream zero n rest s p h e = elim h [ ]
send_loop-ends stream (suc fuel) n rest s p h e = elim (Bool-cases (leb (length rest) n)) [
  | inl last ↦
      write_packet-ends stream _ s _ (λ t g. cc) (sym (send_last stream fuel n rest s last) ∙ e)
  | inr further ↦
      write_packet-ends stream _ s _
        (λ t.
          send_loop-ends stream fuel n (drop n rest) t p
            (omega (arith, length-drop n rest, leb-false-lt _ _ further)))
        (sym (send_more stream fuel n rest s further) ∙ e)
]

-- `send` ends on every input: its loop never runs out of fuel.
pub send-ends :
    (stream : Stream) (c : Conn) (tsdu : List ℕ) (s : stream.State)
    → send stream c tsdu s ≢ err exhausted
unfolding send max_data
send-ends stream c tsdu s =
    send_loop-ends stream (length tsdu + 1) (max (c.max_tpdu - 3) 1) tsdu s (omega arith)
      (omega arith)
