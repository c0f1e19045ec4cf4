-- ===== src/Osi/Session/Connect.antt =====
-- A CONNECT or ACCEPT that was built is parsed back.
use rs_iec.Common.{
  ℕ, ◌+◌, ◌<◌, ◌≤◌, ◌≡◌, refl, sym, List, [], ◌∷◌, ◌++◌, length, some, arith, length-append,
  append_assoc, append-nil,
}
use rs_iec.Osi.Stream.{ok}
use rs_iec.Osi.Session.{
  first_octet, append_len, write_ssel, spdu, connect_params, build_connect, find_param,
  find_user_data, parse_connect_like, si_connect, si_accept, accept_server, connect_answer,
}
use rs_iec.Osi.Session.Fields.{octets, write_pi-octets, length-octets_le, spdu_params-spdu}
use rs_iec.Osi.Session.Search.{
  ssel_octets, ssel_found, differs, Finds-nil, Finds-miss, Finds-ssel_hit, Finds-ssel_miss,
  FindsUserData-field, FindsUserData-ssel, FindsUserData-hit,
}

-- The Connect/Accept item group and the session user requirements.
abbrev cai : List ℕ
cai = 0x13 ∷ 1 ∷ 0 ∷ 0x16 ∷ 1 ∷ 2 ∷ []

abbrev duplex : List ℕ
duplex = 0 ∷ 2 ∷ []

write_ssel-octets :
    (b : List ℕ) (code : ℕ) (val : List ℕ) → write_ssel b code val ≡ b ++ ssel_octets code val
unfolding write_ssel
write_ssel-octets b code [] = sym (append-nil b)
write_ssel-octets b code (x ∷ xs) = write_pi-octets b code (x ∷ xs)

connect_params-octets :
    (calling called user_data : List ℕ)
    → connect_params calling called user_data
      ≡ octets 5 cai
        ++ (octets 0x14 duplex
            ++ (ssel_octets 0x33 calling
                ++ (ssel_octets 0x34 called ++ (octets 0xc1 user_data ++ []))))
unfolding connect_params octets append_len
connect_params-octets calling called user_data =
    simp (write_pi-octets, write_ssel-octets, append_assoc, append-nil)

find_user_data-connect_params :
    (calling called user_data : List ℕ)
    → length calling + length called + length user_data ≤ 65500
    → find_user_data (connect_params calling called user_data) ≡ ok (some user_data)
unfolding find_user_data
find_user_data-connect_params calling called user_data h =
    rw (connect_params-octets calling called user_data) (
      FindsUserData-field 5 cai _ (omega arith) (differs _ _ refl)
        (FindsUserData-field 0x14 duplex _ (omega arith) (differs _ _ refl) (
          FindsUserData-ssel 0x33 calling _ (omega arith) (differs _ _ refl) (
            FindsUserData-ssel 0x34 called _ (omega arith) (differs _ _ refl)
              (FindsUserData-hit user_data [] (omega arith)))))
        _ (omega arith))

find_calling-connect_params :
    (calling called user_data : List ℕ)
    → length calling + length called + length user_data ≤ 65500
    → find_param (connect_params calling called user_data) 0x33 ≡ ssel_found calling
unfolding find_param
find_calling-connect_params calling called user_data h =
    rw (connect_params-octets calling called user_data) (
      Finds-miss 0x33 5 cai _ (omega arith) (differs _ _ refl)
        (Finds-miss 0x33 0x14 duplex _ (omega arith) (differs _ _ refl) (
          Finds-ssel_hit 0x33 calling _ (omega arith) (
            Finds-ssel_miss 0x33 0x34 called _ (omega arith) (differs _ _ refl) (
              Finds-miss 0x33 0xc1 user_data [] (omega arith) (differs _ _ refl)
                (Finds-nil 0x33)))))
        _ (omega arith))

find_called-connect_params :
    (calling called user_data : List ℕ)
    → length calling + length called + length user_data ≤ 65500
    → find_param (connect_params calling called user_data) 0x34 ≡ ssel_found called
unfolding find_param
find_called-connect_params calling called user_data h =
    rw (connect_params-octets calling called user_data) (
      Finds-miss 0x34 5 cai _ (omega arith) (differs _ _ refl)
        (Finds-miss 0x34 0x14 duplex _ (omega arith) (differs _ _ refl) (
          Finds-ssel_miss 0x34 0x33 calling _ (omega arith) (differs _ _ refl) (
            Finds-ssel_hit 0x34 called _ (omega arith) (
              Finds-miss 0x34 0xc1 user_data [] (omega arith) (differs _ _ refl)
                (Finds-nil 0x34)))))
        _ (omega arith))

length-ssel_octets_le : (code : ℕ) (val : List ℕ) → length (ssel_octets code val) ≤ length val + 4
length-ssel_octets_le code [] = omega arith
length-ssel_octets_le code (x ∷ xs) = length-octets_le code (x ∷ xs)

length-connect_params :
    (calling called user_data : List ℕ)
    → length calling + length called + length user_data ≤ 65500
    → length (connect_params calling called user_data) < 65536
length-connect_params calling called user_data h =
    let a : List ℕ = ssel_octets 0x33 calling in
    let b : List ℕ = ssel_octets 0x34 called in
    let u : List ℕ = octets 0xc1 user_data in
    rw (connect_params-octets calling called user_data) (
      omega (
        arith,
        length-append (octets 5 cai) (octets 0x14 duplex ++ (a ++ (b ++ (u ++ [])))),
        length-append (octets 0x14 duplex) (a ++ (b ++ (u ++ []))),
        length-append a (b ++ (u ++ [])),
        length-append b (u ++ []),
        length-append u [],
        length-octets_le 5 cai,
        length-octets_le 0x14 duplex,
        length-ssel_octets_le 0x33 calling,
        length-ssel_octets_le 0x34 called,
        length-octets_le 0xc1 user_data,
      ))

first_octet-build_connect :
    (si : ℕ) (calling called user_data : List ℕ)
    → first_octet (build_connect si calling called user_data) ≡ si
unfolding build_connect spdu append_len
first_octet-build_connect si calling called user_data = ground arith

parse_connect_like-build_connect :
    (si : ℕ) (calling called user_data : List ℕ)
    → length calling + length called + length user_data ≤ 65500
    → parse_connect_like (build_connect si calling called user_data)
      ≡ ok (record {
        si = si;
        params = connect_params calling called user_data;
        user_data = user_data;
      })
unfolding parse_connect_like build_connect
parse_connect_like-build_connect si calling called user_data h =
    rw
      (
        spdu_params-spdu si _ (length-connect_params calling called user_data h),
        find_user_data-connect_params calling called user_data h,
      )
      (rw (first_octet-build_connect si calling called user_data) refl)

-- What `accept_server` makes of the CONNECT that a client builds: its user data, and the two
-- selectors, each `None` if it is empty. The three have 65500 octets together at most.
pub accept_server-build_connect :
    (calling called user_data : List ℕ)
    → length calling + length called + length user_data ≤ 65500
    → accept_server (build_connect si_connect calling called user_data)
      ≡ ok (record {
        user_data = user_data;
        calling_ssel = ssel_found calling;
        called_ssel = ssel_found called;
      })
unfolding accept_server
accept_server-build_connect calling called user_data h =
    rw
      (
        parse_connect_like-build_connect si_connect calling called user_data h,
        find_calling-connect_params calling called user_data h,
        find_called-connect_params calling called user_data h,
      )
      refl

-- The client takes the user data out of the ACCEPT that a server builds, whose selector and user
-- data have 65500 octets together at most.
pub connect_answer-build_connect :
    (called user_data : List ℕ)
    → length called + length user_data ≤ 65500
    → connect_answer (build_connect si_accept [] called user_data) ≡ ok user_data
unfolding connect_answer
connect_answer-build_connect called user_data h =
    rw
      (
        first_octet-build_connect si_accept [] called user_data,
        parse_connect_like-build_connect si_accept [] called user_data (omega (arith, h)),
      )
      refl
