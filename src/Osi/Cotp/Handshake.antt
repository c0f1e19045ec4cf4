-- ===== src/Osi/Cotp/Handshake.antt =====
-- The CR/CC handshake: both sides end with the same TPDU size and with each other's selectors.
use rs_iec.Common.{
  ℕ, suc, ◌+◌, ◌-◌, ◌*◌, ◌/◌, ◌%◌, ◌^◌, ◌≤◌, ◌≡◌, refl, sym, ap, ◌∙◌, List, [], ◌∷◌, ◌++◌, length,
  take, drop, min, arith, length-append, take_short,
}
use native.Mathlib.Nat.{mod-eq_of_lt}
use rs_iec.Osi.Stream.{ok, ◌>>=◌}
use rs_iec.Osi.Tpkt.{from_be_bytes}
use rs_iec.Osi.Cotp.{
  Options, Conn, parse_header, connection_request, connection_confirm, write_selector, write_param,
  accept_param, accept_params, confirm_param, parse_params, param_tpdu_size, param_src_tsap,
  param_dst_tsap,
}
use rs_iec.Osi.Cotp.Connection.{accept_request, confirm, initial}
use rs_iec.Osi.Cotp.Negotiation.{
  next_param_front, next_param_last, next_param_short, accept_params_next, accept_params_stop,
  parse_params_next, parse_params_stop,
}

-- The three parameters of a CR, and of a CC whose two selectors are not empty.
abbrev params : ℕ → List ℕ → List ℕ → List ℕ
params code src dst =
    param_tpdu_size
    ∷ 1
    ∷ code
    ∷ param_src_tsap
    ∷ length src
    ∷ (src ++ (param_dst_tsap ∷ length dst ∷ dst))

-- The octets behind the length indicator.
abbrev tpdu : ℕ → ℕ → ℕ → List ℕ → List ℕ
tpdu typ dst_ref src_ref ps =
    typ ∷ (dst_ref / 256 % 256) ∷ (dst_ref % 256) ∷ (src_ref / 256 % 256) ∷ (src_ref % 256) ∷ 0 ∷ ps

connection_request-octets :
    (c : Conn) (code : ℕ)
    → length c.src_tsap + length c.dst_tsap ≤ 240
    → connection_request c code
      ≡ length (tpdu 0xe0 0 c.src_ref (params code c.src_tsap c.dst_tsap))
        ∷ tpdu 0xe0 0 c.src_ref (params code c.src_tsap c.dst_tsap)
unfolding connection_request
connection_request-octets c code h =
    rw
      (
        mod-eq_of_lt {n = length c.src_tsap} {m = 256} (omega arith),
        mod-eq_of_lt {n = length c.dst_tsap} {m = 256} (omega arith),
        small,
      )
      refl
  where
    ps : List ℕ
    ps = params code c.src_tsap c.dst_tsap

    small : length (tpdu 0xe0 0 c.src_ref ps) % 256 ≡ length (tpdu 0xe0 0 c.src_ref ps)
    small =
        mod-eq_of_lt (
          omega (arith, length-append c.src_tsap (param_dst_tsap ∷ length c.dst_tsap ∷ c.dst_tsap)))

parse_header-tpdu :
    (typ a b : ℕ) (ps : List ℕ)
    → length ps ≤ 240
    → parse_header (length (tpdu typ a b ps) ∷ tpdu typ a b ps)
      ≡ ok (record {
        li = length (tpdu typ a b ps);
        typ = typ / 16 * 16;
        body = drop 1 (tpdu typ a b ps);
      })
unfolding parse_header
parse_header-tpdu typ a b ps h =
    let rest = drop 1 (tpdu typ a b ps) in
    let whole : take (length (tpdu typ a b ps) - 1) rest ≡ rest = take_short _ rest (omega arith) in
    ground (arith, whole)

-- Both parameter loops on the three parameters of the other side.
accept_params-params :
    (fuel code : ℕ) (src dst : List ℕ) (c : Conn) (size_code : ℕ)
    → accept_params (suc (suc (suc fuel))) (params code src dst) (c, size_code)
      ≡ (record c { max_tpdu = 2 ^ min code 24; dst_tsap = src; src_tsap = dst }, code)
unfolding accept_param
accept_params-params fuel code src dst c size_code =
    accept_params_next (suc (suc fuel)) (params code src dst) (code ∷ []) _ param_tpdu_size
      (c, size_code) (next_param_front param_tpdu_size (code ∷ []) _)
    ∙ accept_params_next (suc fuel) _ src (param_dst_tsap ∷ length dst ∷ dst) param_src_tsap _
        (next_param_front param_src_tsap src (param_dst_tsap ∷ length dst ∷ dst))
    ∙ accept_params_next fuel (param_dst_tsap ∷ length dst ∷ dst) dst [] param_dst_tsap _
        (next_param_last param_dst_tsap dst)
    ∙ accept_params_stop fuel [] _ (next_param_short [] (omega arith))

-- What the peer makes of a CR: it takes the TPDU size, capped at 2 ^ 24, and the two selectors, its
-- own being the one that the caller calls.
accept-connection_request :
    (c : Conn) (code : ℕ)
    → length c.src_tsap + length c.dst_tsap ≤ 220
    → (parse_header (connection_request c code) >>= accept_request)
      ≡ ok (
        record {
          max_tpdu = 2 ^ min code 24;
          src_ref = 1;
          dst_ref = c.src_ref % 65536;
          src_tsap = c.dst_tsap;
          dst_tsap = c.src_tsap;
        },
        code,
      )
unfolding accept_request
accept-connection_request c code h =
    rw
      (
        connection_request-octets c code (omega arith),
        parse_header-tpdu 0xe0 0 c.src_ref (params code c.src_tsap c.dst_tsap) (
            omega
              (arith, length-append c.src_tsap (param_dst_tsap ∷ length c.dst_tsap ∷ c.dst_tsap))),
        accept_params-params,
      )
      (ground arith)

write_selector-cons :
    (b : List ℕ) (code : ℕ) (val : List ℕ) (x : ℕ) (xs : List ℕ)
    → val ≡ x ∷ xs
    → write_selector b code val ≡ write_param b code val
unfolding write_selector
write_selector-cons b code val x xs e = rw e

connection_confirm-octets :
    (c : Conn) (code x y : ℕ) (xs ys : List ℕ)
    → c.src_tsap ≡ x ∷ xs
    → c.dst_tsap ≡ y ∷ ys
    → length c.src_tsap + length c.dst_tsap ≤ 220
    → connection_confirm c code
      ≡ length (tpdu 0xd0 c.dst_ref c.src_ref (params code c.src_tsap c.dst_tsap))
        ∷ tpdu 0xd0 c.dst_ref c.src_ref (params code c.src_tsap c.dst_tsap)
unfolding connection_confirm
connection_confirm-octets c code x y xs ys e f h =
    rw
      (
        write_selector-cons _ param_src_tsap c.src_tsap x xs e,
        write_selector-cons _ param_dst_tsap c.dst_tsap y ys f,
        mod-eq_of_lt {n = length c.src_tsap} {m = 256} (omega arith),
        mod-eq_of_lt {n = length c.dst_tsap} {m = 256} (omega arith),
        small,
      )
      refl
  where
    ps : List ℕ
    ps = params code c.src_tsap c.dst_tsap

    small :
        length (tpdu 0xd0 c.dst_ref c.src_ref ps) % 256 ≡ length (tpdu 0xd0 c.dst_ref c.src_ref ps)
    small =
        mod-eq_of_lt (
          omega (arith, length-append c.src_tsap (param_dst_tsap ∷ length c.dst_tsap ∷ c.dst_tsap)))

parse_params-params :
    (fuel code : ℕ) (src dst : List ℕ) (c : Conn)
    → parse_params (suc (suc (suc fuel))) (params code src dst) c
      ≡ confirm_param param_tpdu_size (code ∷ []) c
unfolding confirm_param
parse_params-params fuel code src dst c =
    parse_params_next (suc (suc fuel)) (params code src dst) (code ∷ []) _ param_tpdu_size c
      (next_param_front param_tpdu_size (code ∷ []) _)
    ∙ parse_params_next (suc fuel) _ src (param_dst_tsap ∷ length dst ∷ dst) param_src_tsap _
        (next_param_front param_src_tsap src (param_dst_tsap ∷ length dst ∷ dst))
    ∙ parse_params_next fuel (param_dst_tsap ∷ length dst ∷ dst) dst [] param_dst_tsap _
        (next_param_last param_dst_tsap dst)
    ∙ parse_params_stop fuel [] _ (next_param_short [] (omega arith))

be_bytes : (n : ℕ) → from_be_bytes (n / 256 % 256) (n % 256) ≡ n % 65536
be_bytes n = omega arith

confirm-connection_confirm :
    (c s : Conn) (code x y : ℕ) (xs ys : List ℕ)
    → s.src_tsap ≡ x ∷ xs
    → s.dst_tsap ≡ y ∷ ys
    → length s.src_tsap + length s.dst_tsap ≤ 220
    → (parse_header (connection_confirm s code) >>= confirm c)
      ≡ ok (confirm_param param_tpdu_size (code ∷ []) (record c { dst_ref = s.src_ref % 65536 }))
unfolding confirm
confirm-connection_confirm c s code x y xs ys e f h =
    rw
      (
        connection_confirm-octets s code x y xs ys e f h,
        parse_header-tpdu 0xd0 s.dst_ref s.src_ref (params code s.src_tsap s.dst_tsap) (
            omega
              (arith, length-append s.src_tsap (param_dst_tsap ∷ length s.dst_tsap ∷ s.dst_tsap))),
        parse_params-params,
      )
      (ground (arith, be_bytes s.src_ref))

-- What the two sides of a connection agree on.
pub record Agree (client server : Conn) : Type 0 where
  pub size : client.max_tpdu ≡ server.max_tpdu
  pub client_ref : server.dst_ref ≡ client.src_ref
  pub server_ref : client.dst_ref ≡ server.src_ref
  pub calling : server.dst_tsap ≡ client.src_tsap
  pub called : server.src_tsap ≡ client.dst_tsap

initial-size :
    (o : Options) → 1 ≤ o.tpdu_size_code → o.tpdu_size_code ≤ 24 → (initial o).1 ≡ o.tpdu_size_code
unfolding initial
initial-size o h k = ground arith

initial-conn :
    (o : Options)
    → 1 ≤ o.tpdu_size_code
    → o.tpdu_size_code ≤ 24
    → (initial o).0 ≡ record {
      max_tpdu = 2 ^ o.tpdu_size_code;
      src_ref = 1;
      dst_ref = 0;
      src_tsap = o.src_tsap;
      dst_tsap = o.dst_tsap;
    }
unfolding initial
initial-conn o h k = ground (arith, mod-eq_of_lt {n = o.tpdu_size_code} {m = 64})

confirm_param_same :
    (code : ℕ) (c : Conn)
    → c.max_tpdu ≡ 2 ^ min code 24
    → confirm_param param_tpdu_size (code ∷ []) c ≡ c
unfolding confirm_param
confirm_param_same code c h = ground arith

-- The connection that both sides have after the handshake.
abbrev established : Options → Conn
established o = record {
  max_tpdu = 2 ^ o.tpdu_size_code;
  src_ref = 1;
  dst_ref = 1;
  src_tsap = o.src_tsap;
  dst_tsap = o.dst_tsap;
}

abbrev answering : Options → Conn
answering o = record {
  max_tpdu = 2 ^ o.tpdu_size_code;
  src_ref = 1;
  dst_ref = 1;
  src_tsap = o.dst_tsap;
  dst_tsap = o.src_tsap;
}

-- The request of `connect` is accepted, the confirm of `accept` is accepted, and both sides then
-- agree on the TPDU size, on the references and on the selectors, for a size code from 1 to 24 and
-- two selectors that are not empty and have 220 octets together at most.
pub handshake :
    (o : Options) (x y : ℕ) (xs ys : List ℕ)
    → o.src_tsap ≡ x ∷ xs
    → o.dst_tsap ≡ y ∷ ys
    → length o.src_tsap + length o.dst_tsap ≤ 220
    → 1 ≤ o.tpdu_size_code
    → o.tpdu_size_code ≤ 24
    → (client : Conn) × (server : Conn) × ((parse_header
            (connection_request (initial o).0 (initial o).1)
          >>= accept_request)
        ≡ ok (server, (initial o).1))
      × ((parse_header (connection_confirm server (initial o).1) >>= confirm (initial o).0)
          ≡ ok client)
      × Agree client server
handshake o x y xs ys e f h k l =
    let n : min o.tpdu_size_code 24 ≡ o.tpdu_size_code = omega arith in
    (
      established o,
      answering o,
      rw (initial-size o k l, initial-conn o k l)
          (accept-connection_request _ o.tpdu_size_code h ∙ rw n refl),
      rw (initial-size o k l, initial-conn o k l)
          (confirm-connection_confirm _ (answering o) o.tpdu_size_code y x ys xs f e (omega arith)
            ∙ ap ok
                (confirm_param_same o.tpdu_size_code (established o) (sym (ap (λ m. 2 ^ m) n)))),
      record { size = refl; client_ref = refl; server_ref = refl; calling = refl; called = refl },
    )
