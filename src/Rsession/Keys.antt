-- ===== src/Rsession/Keys.antt =====
-- rsession/keys.rs: a key, the check of its use, and the store of the keys that a session accepts. An
-- algorithm is its number, a key's material its octets, and a `HashMap` an association list.
pub mod Store
use rs_iec.Common.{
  ℕ, ℤ, Bool, true, false, ◌==◌, ltb, not, ◌&&◌, ◌||◌, if◌then◌else◌, List, [], ◌∷◌, Option, none,
  some, length,
}
use rs_iec.Common.Dictionary.{lookup, insert, remove}

-- The key length that an encryption algorithm requires, 0 for none or an unknown one.
unfoldable pub key_len : ℕ → ℕ
key_len sec = if sec == 1 then 16 else if sec == 2 then 32 else 0

-- The length of the truncated MAC, 0 for none or an unsupported algorithm.
unfoldable pub mac_len : ℕ → ℕ
mac_len sig =
    if sig == 1 || sig == 6
    then 10
    else if sig == 2 || sig == 7
    then 16
    else if sig == 3 || sig == 8
    then 32
    else 0

abbrev pub min_hmac_key : ℕ
min_hmac_key = 16

pub record Key : Type 0 where
  pub id : ℕ
  pub material : List ℕ
  pub sec : ℕ
  pub sig : ℕ
  pub time_of_current_key : ℕ
  pub time_to_next_key : ℤ

pub data Error : Type 0 where
  key_id key_algorithm key_combination key_unsupported key_length : Error
  no_such_key : ℕ → Error

-- `Ok(())` is `none`.
unfoldable pub validate : Key → Option Error
validate k =
    if k.id == 0
    then some key_id
    else if k.sec == 0 && k.sig == 0
    then some key_algorithm
    else if not (k.sec == 0) && not (k.sig == 0)
    then some key_combination
    else if not (k.sec == 0)
    then if key_len k.sec == 0
      then some key_unsupported
      else if not (length k.material == key_len k.sec)
      then some key_length
      else none
    else if mac_len k.sig == 0
    then some key_unsupported
    else if ltb (length k.material) min_hmac_key
    then some key_length
    else none

pub record KeyStore : Type 0 where
  pub keys : List (ℕ × Key)
  pub active_id : ℕ

abbrev pub new : KeyStore
new = record { keys = []; active_id = 0 }

abbrev pub same_id : ℕ → ℕ → Bool
same_id a b = a == b

abbrev pub add_checked : KeyStore → Key → Option Error → KeyStore × Option Error
add_checked s k none = (record s { keys = insert same_id k.id k s.keys }, none)
add_checked s k (some e) = (s, some e)

unfoldable pub add : KeyStore → Key → KeyStore × Option Error
add s k = add_checked s k (validate k)

-- Named `remove_key` beside the dictionary's `remove`.
unfoldable pub remove_key : KeyStore → ℕ → KeyStore
remove_key s id = record {
  keys = remove same_id id s.keys;
  active_id = if s.active_id == id then 0 else s.active_id;
}

abbrev pub contains_key : Option Key → Bool
contains_key none = false
contains_key (some k) = true

unfoldable pub set_active : KeyStore → ℕ → KeyStore × Option Error
set_active s id =
    if contains_key (lookup same_id id s.keys)
    then (record s { active_id = id }, none)
    else (s, some (no_such_key id))

unfoldable pub active : KeyStore → ℕ
active s = if contains_key (lookup same_id s.active_id s.keys) then s.active_id else 0

unfoldable pub active_key : KeyStore → Option Key
active_key s = lookup same_id s.active_id s.keys

unfoldable pub lookup_key : KeyStore → ℕ → Option Key
lookup_key s id = lookup same_id id s.keys

-- The loop of `with_keys`: the first key becomes the active one, and an error ends it.
unfoldable pub add_each : Bool → KeyStore → List Key → KeyStore × Option Error
add_each first s [] = (s, none)
add_each first s (k ∷ ks) = elim (validate k) [
  | some e ↦ (s, some e)
  | none ↦
      let added = (add s k).0 in
      add_each false (if first then record added { active_id = k.id } else added) ks
]

-- The store that is built, none on an error.
abbrev pub built_store : KeyStore × Option Error → Option KeyStore
built_store (s, none) = some s
built_store (s, some e) = none

unfoldable pub with_keys : List Key → Option KeyStore
with_keys ks = built_store (add_each true new ks)
