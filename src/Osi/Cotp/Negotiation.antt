-- ===== src/Osi/Cotp/Negotiation.antt =====
-- The parameter loops of the handshake: they end, and the client never negotiates upwards.
use rs_iec.Common.{
  ℕ, zero, suc, ◌+◌, ◌≤◌, ◌≡◌, refl, sym, ◌∙◌, List, [], ◌∷◌, ◌++◌, length, drop, arith, Option,
  none, some, length-drop, length-append, take_all, append-nil, get_or, drop_all, le→ltb-false,
  Option-cases, inl, inr,
}
use rs_iec.Osi.Stream.{ok}
use rs_iec.Osi.Tpkt.{from_be_bytes}
use rs_iec.Osi.Cotp.{
  Conn, Header, next_param, accept_param, accept_params, confirm_param, parse_params,
}
use rs_iec.Osi.Cotp.Connection.{confirm}

-- A parameter is read with its value, and what follows is left.
pub next_param_front :
    (code : ℕ) (val rest : List ℕ)
    → next_param (code ∷ length val ∷ (val ++ rest)) ≡ some (code, val, rest)
unfolding next_param
next_param_front code val rest = rw (
  le→ltb-false (length (val ++ rest)) (length val) (omega (arith, length-append val rest)),
  take_all,
  drop_all,
)

-- The last parameter.
pub next_param_last :
    (code : ℕ) (val : List ℕ) → next_param (code ∷ length val ∷ val) ≡ some (code, val, [])
next_param_last code val = rw append-nil at (next_param_front code val [])

next_param_shorter :
    (params rest val : List ℕ) (code : ℕ)
    → next_param params ≡ some (code, val, rest)
    → length rest + 2 ≤ length params
unfolding next_param
next_param_shorter [] rest val code h = cc
next_param_shorter (c ∷ []) rest val code h = cc
next_param_shorter (c ∷ plen ∷ r) rest val code h = ground (arith, length-drop plen r)

pub parse_params_stop :
    (fuel : ℕ) (params : List ℕ) (c : Conn)
    → next_param params ≡ none
    → parse_params fuel params c ≡ c
unfolding parse_params
parse_params_stop zero params c h = refl
parse_params_stop (suc fuel) params c h = rw (h, parse_params)

pub parse_params_next :
    (fuel : ℕ) (params val rest : List ℕ) (code : ℕ) (c : Conn)
    → next_param params ≡ some (code, val, rest)
    → parse_params (suc fuel) params c ≡ parse_params fuel rest (confirm_param code val c)
unfolding parse_params
parse_params_next fuel params val rest code c h = rw (h, parse_params)

pub accept_params_next :
    (fuel : ℕ) (params val rest : List ℕ) (code : ℕ) (acc : Conn × ℕ)
    → next_param params ≡ some (code, val, rest)
    → accept_params (suc fuel) params acc ≡ accept_params fuel rest (accept_param code val acc)
unfolding accept_params
accept_params_next fuel params val rest code acc h = rw (h, accept_params)

pub accept_params_stop :
    (fuel : ℕ) (params : List ℕ) (acc : Conn × ℕ)
    → next_param params ≡ none
    → accept_params fuel params acc ≡ acc
unfolding accept_params
accept_params_stop zero params acc h = refl
accept_params_stop (suc fuel) params acc h = rw (h, accept_params)

pub next_param_short : (params : List ℕ) → length params ≤ 1 → next_param params ≡ none
unfolding next_param
next_param_short [] h = refl
next_param_short (x ∷ []) h = refl
next_param_short (x ∷ y ∷ r) h = absurd (omega arith)

-- The loop of `parse_params` ends by its own test: all fuel from the number of octets on gives the
-- same connection.
pub parse_params-ends :
    (fuel more : ℕ) (params : List ℕ) (c : Conn)
    → length params ≤ fuel
    → length params ≤ more
    → parse_params fuel params c ≡ parse_params more params c
parse_params-ends zero more params c h k =
    let stop = next_param_short params (omega arith) in
    parse_params_stop zero params c stop ∙ sym (parse_params_stop more params c stop)
parse_params-ends (suc fuel) zero params c h k =
    let stop = next_param_short params (omega arith) in
    parse_params_stop (suc fuel) params c stop ∙ sym (parse_params_stop zero params c stop)
parse_params-ends (suc fuel) (suc more) params c h k = elim (Option-cases (next_param params)) [
  | inl stop ↦
      parse_params_stop (suc fuel) params c stop ∙ sym (parse_params_stop (suc more) params c stop)
  | inr ((code, val, rest), e) ↦
      parse_params_next fuel params val rest code c e
      ∙ parse_params-ends fuel more rest (confirm_param code val c)
          (omega (arith, next_param_shorter params rest val code e))
          (omega (arith, next_param_shorter params rest val code e))
      ∙ sym (parse_params_next more params val rest code c e)
]

confirm_param-le :
    (code : ℕ) (val : List ℕ) (c : Conn) → (confirm_param code val c).max_tpdu ≤ c.max_tpdu
unfolding confirm_param
confirm_param-le code val c = ground arith

parse_params-le :
    (fuel : ℕ) (params : List ℕ) (c : Conn) → (parse_params fuel params c).max_tpdu ≤ c.max_tpdu
unfolding parse_params
parse_params-le zero params c = omega arith
parse_params-le (suc fuel) params c =
    go (next_param params) (λ rest c'. parse_params-le fuel rest c')
  where
    go :
        (o : Option (ℕ × List ℕ × List ℕ))
        → ((rest : List ℕ) (c' : Conn) → (parse_params fuel rest c').max_tpdu ≤ c'.max_tpdu)
        → (elim o as (λ _. Conn) [
          | none ↦ c
          | some (code, val, rest) ↦ parse_params fuel rest (confirm_param code val c)
        ]).max_tpdu
          ≤ c.max_tpdu
    go none ih = omega arith
    go (some (code, val, rest)) ih =
        omega (arith, ih rest (confirm_param code val c), confirm_param-le code val c)

-- The confirm of the peer never raises the TPDU size that the client proposed.
pub confirm-max_tpdu-le :
    (c c' : Conn) (h : Header) → confirm c h ≡ ok c' → c'.max_tpdu ≤ c.max_tpdu
unfolding confirm
confirm-max_tpdu-le c c' h e = ground (
  arith,
  parse_params-le (length h.body) (drop 5 h.body)
      (record c { dst_ref = from_be_bytes (get_or h.body 2 0) (get_or h.body 3 0) }),
)
