-- ===== src/Rsession/Payloads.antt =====
-- rsession/spdu.rs: the payload elements of a session's message, as `marshal_with_iv` writes them and
-- `unmarshal` reads them, apart from the header and the cryptography around them.
pub mod RoundTrip
use rs_iec.Common.{
  ℕ, ◌+◌, ◌*◌, ◌/◌, ◌%◌, ◌^◌, Bool, true, false, ◌==◌, ltb, not, ◌||◌, if◌then◌else◌, List, [], ◌∷◌,
  ◌++◌, length, take, drop, get_or, zero, suc,
}

pub record Payload : Type 0 where
  pub kind : ℕ
  pub simulation : Bool
  pub app_id : ℕ
  pub apdu : List ℕ

pub data Parsed : Type 0 where
  payloads : List Payload → Parsed
  truncated_element apdu_too_long out_of_fuel : Parsed

abbrev pub element_header : ℕ
element_header = 6

abbrev pub from_bool : Bool → ℕ
from_bool true = 1
from_bool false = 0

-- `to_be_bytes` of a `u16`
abbrev pub be16 : ℕ → List ℕ
be16 n = (n / 256 % 256) ∷ (n % 256) ∷ []

-- One element of the user data.
abbrev pub element : Payload → List ℕ
element p =
    p.kind ∷ from_bool p.simulation ∷ (be16 p.app_id ++ (be16 (length p.apdu % 2 ^ 16) ++ p.apdu))

unfoldable pub user_data : List Payload → List ℕ
user_data [] = []
user_data (p ∷ ps) = element p ++ user_data ps

-- `p.apdu.len() > 0xffff`, for any of them.
unfoldable pub too_long : List Payload → Bool
too_long [] = false
too_long (p ∷ ps) = ltb 65535 (length p.apdu) || too_long ps

-- The element at the start of the user data, with `n` octets.
abbrev pub payload : List ℕ → ℕ → Payload
payload user n = record {
  kind = get_or user 0 0;
  simulation = not (get_or user 1 0 == 0);
  app_id = get_or user 2 0 * 256 + get_or user 3 0;
  apdu = take n (drop element_header user);
}

abbrev pub push : Payload → Parsed → Parsed
push p (payloads ps) = payloads (p ∷ ps)
push p truncated_element = truncated_element
push p apdu_too_long = apdu_too_long
push p out_of_fuel = out_of_fuel

-- The length that the element's header gives.
abbrev pub announced : List ℕ → ℕ
announced user = get_or user 4 0 * 256 + get_or user 5 0

unfoldable pub elements : ℕ → List ℕ → Parsed
elements fuel [] = payloads []
elements zero (x ∷ xs) = out_of_fuel
elements (suc fuel) (x ∷ xs) =
    let user = x ∷ xs in
    let left = drop element_header user in
    let n = announced user in
    let rest = elements fuel (drop n left) in
    if ltb (length user) element_header
    then truncated_element
    else if ltb (length left) n
    then if n == length left + 2 then push (payload user (length left)) rest else apdu_too_long
    else push (payload user n) rest
