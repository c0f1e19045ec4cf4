-- ===== src/Tests/Session.antt =====
-- osi/session.rs at concrete selectors and user data.
use rs_iec.Common.{ℕ, ◌≡◌, List, [], ◌∷◌, none, some, arith}
use rs_iec.Osi.Stream.{ok}
use rs_iec.Osi.Session.{si_connect, build_connect, accept_server}
use rs_iec.Osi.Session.Connect.{accept_server-build_connect}

abbrev presentation : List ℕ
presentation = 0x31 ∷ 0xc1 ∷ 0 ∷ []

accept_server-build_connect_example :
    accept_server (build_connect si_connect [] (0 ∷ 1 ∷ []) presentation)
    ≡ ok (record { user_data = presentation; calling_ssel = none; called_ssel = some (0 ∷ 1 ∷ []) })
accept_server-build_connect_example =
    accept_server-build_connect [] (0 ∷ 1 ∷ []) presentation (omega arith)
