-- ===== src/Osi/Session/Messages.antt =====
-- The other SPDUs: what their receiver takes out of them.
use rs_iec.Common.{
  ℕ, ◌+◌, ◌<◌, ◌≤◌, ◌≡◌, refl, List, [], ◌∷◌, ◌++◌, length, arith, length-append, append-nil,
}
use rs_iec.Osi.Stream.{ok, err, session_refused, session_aborted}
use rs_iec.Osi.Session.{
  first_octet, refuse, abort, append_len, write_pi, spdu, find_param, find_user_data,
  connect_answer, send_data, strip_loop, strip_data_prefix, receive_data,
}
use rs_iec.Osi.Session.Fields.{octets, write_pi-octets, length-octets_le, spdu_params-spdu}
use rs_iec.Osi.Session.Search.{
  differs, Finds-hit, Finds-miss, FindsUserData-field, FindsUserData-hit,
}

first_octet-spdu : (si : ℕ) (params : List ℕ) → first_octet (spdu si params) ≡ si
unfolding spdu append_len
first_octet-spdu si params = ground arith

-- The two parameters of a REFUSE or an ABORT.
abbrev pair : ℕ → List ℕ → ℕ → List ℕ → List ℕ
pair c v d w = octets c v ++ (octets d w ++ [])

pair_written : (c d : ℕ) (v w : List ℕ) → write_pi (write_pi [] c v) d w ≡ pair c v d w
unfolding octets append_len
pair_written c d v w = simp (write_pi-octets, append-nil)

length-pair : (c d : ℕ) (v w : List ℕ) → length v + length w ≤ 65502 → length (pair c v d w) < 65536
length-pair c d v w h = omega (
  arith,
  length-append (octets c v) (octets d w ++ []),
  length-append (octets d w) [],
  length-octets_le c v,
  length-octets_le d w,
)

-- A client that is answered with a REFUSE reports its reason and its user data, which has 65500
-- octets at most.
pub connect_answer-refuse :
    (user_data : List ℕ)
    → length user_data ≤ 65500
    → connect_answer (refuse user_data) ≡ err (session_refused 2 user_data)
unfolding connect_answer refuse find_param
connect_answer-refuse user_data h =
    rw
      (
        first_octet-spdu 12 (write_pi (write_pi [] 17 (1 ∷ [])) 50 (2 ∷ user_data)),
        pair_written 17 50 (1 ∷ []) (2 ∷ user_data),
        spdu_params-spdu 12 (pair 17 (1 ∷ []) 50 (2 ∷ user_data))
            (length-pair 17 50 (1 ∷ []) (2 ∷ user_data) (omega (arith, h))),
        Finds-miss 50 17 (1 ∷ []) (octets 50 (2 ∷ user_data) ++ []) (omega arith)
            (differs 17 50 refl) (Finds-hit 50 (2 ∷ user_data) [] (omega (arith, h)))
            (length (pair 17 (1 ∷ []) 50 (2 ∷ user_data))) (omega arith),
      )
      refl

-- A peer that receives an ABORT reports its user data, which has 65500 octets at most.
pub receive_data-abort :
    (user_data : List ℕ)
    → length user_data ≤ 65500
    → receive_data (abort user_data) ≡ err (session_aborted user_data)
unfolding receive_data abort find_user_data
receive_data-abort user_data h =
    rw
      (
        first_octet-spdu 25 (write_pi (write_pi [] 17 (11 ∷ [])) 193 user_data),
        pair_written 17 193 (11 ∷ []) user_data,
        spdu_params-spdu 25 (pair 17 (11 ∷ []) 193 user_data)
            (length-pair 17 193 (11 ∷ []) user_data (omega (arith, h))),
        FindsUserData-field 17 (11 ∷ []) (octets 193 user_data ++ []) (omega arith)
            (differs 17 193 refl) (FindsUserData-hit user_data [] (omega (arith, h)))
            (length (pair 17 (11 ∷ []) 193 user_data)) (omega arith),
      )
      refl

-- Whatever `send_data` wraps `receive_data` unwraps, whatever octets it holds.
pub receive_data-send_data :
    (user_data : List ℕ) → receive_data (send_data user_data) ≡ ok user_data
unfolding receive_data send_data strip_data_prefix strip_loop
receive_data-send_data user_data = ground arith
