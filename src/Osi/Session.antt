-- ===== src/Osi/Session.antt =====
-- osi/session.rs: the SPDUs. The functions that only compute octets are here; what the asynchronous
-- ones do between a `send_tsdu` and a `recv_tsdu` is a function of the octets received.
pub mod Fields
pub mod Search
pub mod Connect
pub mod Messages
use rs_iec.Common.{
  ℕ, zero, suc, ◌+◌, ◌*◌, ◌/◌, ◌%◌, ◌==◌, ltb, not, List, [], ◌∷◌, ◌++◌, if◌then◌else◌, length,
  take, drop, Option, none, some,
}
use rs_iec.Osi.Stream.{
  Result, ok, err, session, session_refused, session_aborted, short_spdu, short_long_form,
  short_parameter, spdu_exceeds, parameter_overflows, bad_spdu_li, expected_accept,
  expected_connect, ◌>>=◌,
}

abbrev pub si_give_tokens : ℕ
si_give_tokens = 0x01

abbrev pub si_data_transfer : ℕ
si_data_transfer = 0x01

abbrev pub si_connect : ℕ
si_connect = 0x0d

abbrev pub si_accept : ℕ
si_accept = 0x0e

abbrev pub si_refuse : ℕ
si_refuse = 0x0c

abbrev pub si_abort : ℕ
si_abort = 0x19

abbrev pub pgi_connect_accept : ℕ
pgi_connect_accept = 0x05

abbrev pub pi_protocol_opts : ℕ
pi_protocol_opts = 0x13

abbrev pub pi_version_number : ℕ
pi_version_number = 0x16

abbrev pub pi_session_user_req : ℕ
pi_session_user_req = 0x14

abbrev pub pi_calling_ssel : ℕ
pi_calling_ssel = 0x33

abbrev pub pi_called_ssel : ℕ
pi_called_ssel = 0x34

abbrev pub pgi_user_data : ℕ
pgi_user_data = 0xc1

abbrev pub pi_transport_disc : ℕ
pi_transport_disc = 0x11

abbrev pub pi_reason_code : ℕ
pi_reason_code = 0x32

abbrev pub reason_user_data : ℕ
reason_user_data = 2

-- One octet up to 254, else 0xff and two octets.
unfoldable pub append_len : List ℕ → ℕ → List ℕ
append_len b n =
    if ltb n 255 then b ++ ((n % 256) ∷ []) else b ++ (0xff ∷ (n / 256 % 256) ∷ (n % 256) ∷ [])

-- `[0xff, hi, lo, ..]` and `[0xff, ..]`
abbrev pub read_long_len : List ℕ → Option (ℕ × ℕ)
read_long_len (hi ∷ lo ∷ r) = some (hi * 256 + lo, 3)
read_long_len (hi ∷ []) = none
read_long_len [] = none

unfoldable pub read_len : List ℕ → Option (ℕ × ℕ)
read_len [] = none
read_len (n ∷ r) = if n == 0xff then read_long_len r else some (n, 1)

unfoldable pub write_pi : List ℕ → ℕ → List ℕ → List ℕ
write_pi b code val = append_len (b ++ (code ∷ [])) (length val) ++ val

unfoldable pub spdu : ℕ → List ℕ → List ℕ
spdu si params = append_len (si ∷ []) (length params) ++ params

-- A selector is only named when there is one.
unfoldable pub write_ssel : List ℕ → ℕ → List ℕ → List ℕ
write_ssel b code [] = b
write_ssel b code (x ∷ xs) = write_pi b code (x ∷ xs)

-- The parameters that `build_connect` writes.
unfoldable pub connect_params : List ℕ → List ℕ → List ℕ → List ℕ
connect_params calling_ssel called_ssel user_data =
    let cai = write_pi (write_pi [] pi_protocol_opts (0 ∷ [])) pi_version_number (2 ∷ []) in
    let params = write_pi (write_pi [] pgi_connect_accept cai) pi_session_user_req (0 ∷ 2 ∷ []) in
    write_pi
      (write_ssel (write_ssel params pi_calling_ssel calling_ssel) pi_called_ssel called_ssel)
      pgi_user_data user_data

unfoldable pub build_connect : ℕ → List ℕ → List ℕ → List ℕ → List ℕ
build_connect si calling_ssel called_ssel user_data =
    spdu si (connect_params calling_ssel called_ssel user_data)

-- The SPDUs that `refuse`, `abort` and `send_data` send.
unfoldable pub refuse : List ℕ → List ℕ
refuse user_data = spdu si_refuse (
    write_pi (write_pi [] pi_transport_disc (1 ∷ [])) pi_reason_code (reason_user_data ∷ user_data))

unfoldable pub abort : List ℕ → List ℕ
abort user_data =
    spdu si_abort (write_pi (write_pi [] pi_transport_disc (0x0b ∷ [])) pgi_user_data user_data)

unfoldable pub send_data : List ℕ → List ℕ
send_data user_data = (si_give_tokens ∷ 0 ∷ si_data_transfer ∷ 0 ∷ []) ++ user_data

-- What follows the first octet, with its length.
abbrev params_from : List ℕ → Option (ℕ × ℕ) → Result (List ℕ)
params_from r none = err (session short_long_form)
params_from r (some (li, n)) =
    if ltb (length r) (n + li) then err (session (spdu_exceeds li)) else ok (take li (drop n r))

unfoldable pub spdu_params : List ℕ → Result (List ℕ)
spdu_params [] = err (session short_spdu)
spdu_params (si ∷ []) = err (session short_spdu)
spdu_params (si ∷ x ∷ r) = params_from (x ∷ r) (read_len (x ∷ r))

-- What the two parameter loops find at the front.
pub data Field : Type 0 where
  ended short : Field
  overflows : ℕ → Field
  field : ℕ → List ℕ → List ℕ → Field

abbrev pub field_from : ℕ → List ℕ → Option (ℕ × ℕ) → Field
field_from code r none = short
field_from code r (some (plen, n)) =
    if ltb (length r) (n + plen)
    then overflows plen
    else field code (take plen (drop n r)) (drop (n + plen) r)

unfoldable pub next_field : List ℕ → Field
next_field [] = ended
next_field (code ∷ []) = ended
next_field (code ∷ x ∷ r) = field_from code (x ∷ r) (read_len (x ∷ r))

-- Every round takes two octets at least, so the number of octets is fuel enough.
unfoldable pub find_param_loop : ℕ → List ℕ → ℕ → Option (List ℕ)
find_param_loop zero params wanted = none
find_param_loop (suc fuel) params wanted = elim (next_field params) [
  | ended ↦ none
  | short ↦ none
  | overflows n ↦ none
  | field code val rest ↦
      let further = find_param_loop fuel rest wanted in if code == wanted then some val else further
]

unfoldable pub find_param : List ℕ → ℕ → Option (List ℕ)
find_param params code = find_param_loop (length params) params code

unfoldable pub find_user_data_loop : ℕ → List ℕ → Result (Option (List ℕ))
find_user_data_loop zero params = ok none
find_user_data_loop (suc fuel) params = elim (next_field params) [
  | ended ↦ ok none
  | short ↦ err (session short_parameter)
  | overflows n ↦ err (session (parameter_overflows n))
  | field code val rest ↦
      let further = find_user_data_loop fuel rest in
      if code == pgi_user_data then ok (some val) else further
]

unfoldable pub find_user_data : List ℕ → Result (Option (List ℕ))
find_user_data params = find_user_data_loop (length params) params

pub record ConnectLike : Type 0 where
  pub si : ℕ
  pub params : List ℕ
  pub user_data : List ℕ

-- `unwrap_or_default`
abbrev pub or_empty : Option (List ℕ) → List ℕ
or_empty none = []
or_empty (some xs) = xs

-- `spdu[0]`; `spdu_params` has refused an empty SPDU.
abbrev pub first_octet : List ℕ → ℕ
first_octet [] = 0
first_octet (x ∷ xs) = x

unfoldable pub parse_connect_like : List ℕ → Result ConnectLike
parse_connect_like octets = spdu_params octets >>= λ params. find_user_data params >>= λ found.
    ok (record { si = first_octet octets; params = params; user_data = or_empty found })

pub record AcceptResult : Type 0 where
  pub user_data : List ℕ
  pub calling_ssel : Option (List ℕ)
  pub called_ssel : Option (List ℕ)

-- What `accept_server` makes of the SPDU received.
unfoldable pub accept_server : List ℕ → Result AcceptResult
accept_server octets = parse_connect_like octets >>= λ parsed.
    if not (parsed.si == si_connect)
    then err (session (expected_connect parsed.si))
    else ok (record {
      user_data = parsed.user_data;
      calling_ssel = find_param parsed.params pi_calling_ssel;
      called_ssel = find_param parsed.params pi_called_ssel;
    })

-- The reason of a REFUSE.
abbrev pub refusal : Option (List ℕ) → Result (List ℕ)
refusal (some (reason ∷ user_data)) = err (session_refused reason user_data)
refusal (some []) = err (session_refused 0 [])
refusal none = err (session_refused 0 [])

-- What `connect_client` makes of the peer's answer.
unfoldable pub connect_answer : List ℕ → Result (List ℕ)
connect_answer resp =
    if first_octet resp == si_refuse
    then (spdu_params resp >>= λ params. refusal (find_param params pi_reason_code))
    else (parse_connect_like resp >>= λ parsed.
        if not (parsed.si == si_accept)
        then err (session (expected_accept parsed.si))
        else ok parsed.user_data)

-- The loop of `strip_data_prefix`, for `n` more SPDUs.
unfoldable pub strip_loop : ℕ → List ℕ → Result (List ℕ)
strip_loop zero rest = ok rest
strip_loop (suc n) [] = ok []
strip_loop (suc n) (x ∷ []) = ok (x ∷ [])
strip_loop (suc n) (x ∷ li ∷ r) =
    let stripped = strip_loop n (drop li r) in
    if not (x == si_data_transfer)
    then ok (x ∷ li ∷ r)
    else if ltb (length r) li
    then err (session (bad_spdu_li li))
    else stripped

unfoldable pub strip_data_prefix : List ℕ → Result (List ℕ)
strip_data_prefix tsdu = strip_loop 2 tsdu

-- `.ok().and_then(...).unwrap_or_default()`
abbrev pub aborted_data : Result (Option (List ℕ)) → List ℕ
aborted_data (ok found) = or_empty found
aborted_data (err e) = []

-- What `receive_data` makes of the TSDU received.
unfoldable pub receive_data : List ℕ → Result (List ℕ)
receive_data tsdu =
    if first_octet tsdu == si_abort
    then err (session_aborted (aborted_data (spdu_params tsdu >>= find_user_data)))
    else strip_data_prefix tsdu
