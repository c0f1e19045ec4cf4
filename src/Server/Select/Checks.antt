-- ===== src/Server/Select/Checks.antt =====
-- What `check_operate`, `check_cancel`, `clear` and `release_conn` answer and leave.
use rs_iec.Common.{
  ℕ, ◌<◌, ◌≡◌, ◌≢◌, ◌↔◌, ◌⊎◌, refl, ◌==◌, not, if◌then◌else◌, Option, none, some, arith,
}
use rs_iec.Common.Dictionary.{lookup, list_eq, text_key, lookup-remove, retain-holds, retain_keeps}
use rs_iec.Server.Select.{
  Selections, Selection, Reference, none_given, check_operate, check_cancel, clear, release_conn,
  operate_cause,
}

-- An operate passes exactly when the object is reserved, by this connection, with time left, and
-- under this control number or under none.
pub check_operate-passes_iff :
    (active : Selections) (reference : Reference) (conn ctl_num now : ℕ)
    → (check_operate active reference conn ctl_num now ≡ none_given) ↔ (
        (sel : Selection) × (lookup list_eq reference active ≡ some sel)
        × (sel.conn ≡ conn)
        × (now < sel.expiry)
        × ((sel.ctl_num ≡ none) ⊎ (sel.ctl_num ≡ some ctl_num)))
unfolding check_operate
check_operate-passes_iff active reference conn ctl_num now =
    (go (lookup list_eq reference active), λ h. back h)
  where
    go :
        (o : Option Selection)
        → operate_cause o conn ctl_num now ≡ none_given
        → (sel : Selection) × (o ≡ some sel)
          × (sel.conn ≡ conn)
          × (now < sel.expiry)
          × ((sel.ctl_num ≡ none) ⊎ (sel.ctl_num ≡ some ctl_num))
    go none h = cc
    go (some sel) h = (sel, refl, ground arith, ground arith, ground arith)

    back :
        ((sel : Selection) × (lookup list_eq reference active ≡ some sel)
          × (sel.conn ≡ conn)
          × (now < sel.expiry)
          × ((sel.ctl_num ≡ none) ⊎ (sel.ctl_num ≡ some ctl_num)))
        → operate_cause (lookup list_eq reference active) conn ctl_num now ≡ none_given
    back (sel, e, a, b, c) = rw e (ground arith)

-- Whatever passes as an operate passes as a cancel.
pub cancel_of_operate :
    (active : Selections) (reference : Reference) (conn ctl_num now : ℕ)
    → check_operate active reference conn ctl_num now ≡ none_given
    → check_cancel active reference conn ctl_num now ≡ none_given
unfolding check_operate check_cancel
cancel_of_operate active reference conn ctl_num now h = ground arith

-- After `clear` the object is not selected by anyone, and every other object is as before.
pub lookup-clear :
    (active : Selections) (reference other : Reference)
    → lookup list_eq other (clear active reference)
      ≡ (if list_eq reference other then none else lookup list_eq other active)
unfolding clear
lookup-clear active reference other = lookup-remove text_key reference other active

-- After `release_conn` no object is reserved by the connection.
pub release_conn-drops :
    (active : Selections) (conn : ℕ) (reference : Reference) (sel : Selection)
    → lookup list_eq reference (release_conn active conn) ≡ some sel
    → sel.conn ≢ conn
unfolding release_conn
release_conn-drops active conn reference sel h e =
    ground (arith, retain-holds text_key (λ _ s. not (s.conn == conn)) reference sel active h)

-- `release_conn` keeps the reservations of all other connections.
pub release_conn-keeps :
    (active : Selections) (conn : ℕ) (reference : Reference) (sel : Selection)
    → lookup list_eq reference active ≡ some sel
    → sel.conn ≢ conn
    → lookup list_eq reference (release_conn active conn) ≡ some sel
unfolding release_conn
release_conn-keeps active conn reference sel h d =
    retain_keeps text_key (λ _ s. not (s.conn == conn)) reference sel active h (ground arith)
