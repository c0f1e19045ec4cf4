-- ===== src/Server/Settings/Table.antt =====
-- model/fc.rs and the attributes of a model, as server/settinggroup.rs reads and writes them: a
-- table of the values under the reference and the constraint that `Model::attribute` resolves. An
-- attribute of the device's SGCB has a constructor of its own, any other the octets of its path.
use rs_iec.Common.{
  ℕ, Bool, true, false, ◌==◌, ◌&&◌, ◌≡◌, ◌↔◌, refl, ap, ◌∙◌, Bool-cases, inl, inr, List, Option,
  if◌then◌else◌, arith,
}
use rs_iec.Common.Dictionary.{Eq, lookup, insert, lookup-insert, list_eq, list_eq_iff}
use rs_iec.Mms.Values.{Value}

pub data Fc : Type 0 where
  none st mx co sp sg se sv cf dc ex or bl rp br lg go gs ms us all sr unknown : Fc

-- The discriminant, which the derived equality compares.
abbrev pub fc_number : Fc → ℕ
fc_number none = 0
fc_number st = 1
fc_number mx = 2
fc_number co = 3
fc_number sp = 4
fc_number sg = 5
fc_number se = 6
fc_number sv = 7
fc_number cf = 8
fc_number dc = 9
fc_number ex = 10
fc_number or = 11
fc_number bl = 12
fc_number rp = 13
fc_number br = 14
fc_number lg = 15
fc_number go = 16
fc_number gs = 17
fc_number ms = 18
fc_number us = 19
fc_number all = 20
fc_number sr = 21
fc_number unknown = 22

abbrev pub fc_eq : Fc → Fc → Bool
fc_eq a b = fc_number a == fc_number b

pub data SgcbAttr : Type 0 where
  num_of_sg act_sg edit_sg cnf_edit l_act_tm resv_tms : SgcbAttr

abbrev pub attr_number : SgcbAttr → ℕ
attr_number num_of_sg = 0
attr_number act_sg = 1
attr_number edit_sg = 2
attr_number cnf_edit = 3
attr_number l_act_tm = 4
attr_number resv_tms = 5

pub data Reference : Type 0 where
  leaf : List ℕ → Reference
  sgcb : SgcbAttr → Reference

abbrev pub reference_eq : Reference → Reference → Bool
reference_eq (leaf a) (leaf b) = list_eq a b
reference_eq (leaf a) (sgcb b) = false
reference_eq (sgcb a) (leaf b) = false
reference_eq (sgcb a) (sgcb b) = attr_number a == attr_number b

abbrev pub Key : Type 0
Key = Reference × Fc

abbrev pub key_eq : Key → Key → Bool
key_eq a b = reference_eq a.0 b.0 && fc_eq a.1 b.1

-- The value is `none` where the attribute has none.
abbrev pub Model : Type 0
Model = List (Key × Option Value)

abbrev pub value_of : Option (Option Value) → Option Value
value_of Option.none = Option.none
value_of (Option.some v) = v

unfoldable pub read_attr : Model → Reference → Fc → Option Value
read_attr m r fc = value_of (lookup key_eq (r, fc) m)

abbrev pub write_found : Option (Option Value) → Key → Value → Model → Model
write_found Option.none k v m = m
write_found (Option.some old) k v m = insert key_eq k (Option.some v) m

unfoldable pub write_attr : Model → Reference → Fc → Value → Model
write_attr m r fc v = write_found (lookup key_eq (r, fc) m) (r, fc) v m

pub fc_eq_iff : (a b : Fc) → (fc_eq a b ≡ true) ↔ (a ≡ b)
fc_eq_iff a b = (λ h. ground arith, λ h. ground arith)

pub reference_eq_iff : (a b : Reference) → (reference_eq a b ≡ true) ↔ (a ≡ b)
reference_eq_iff (leaf a) (leaf b) =
    (λ h. ap leaf ((list_eq_iff a b).0 h), λ h. (list_eq_iff a b).1 (ground arith))
reference_eq_iff (leaf a) (sgcb b) = (λ h. cc, λ h. cc)
reference_eq_iff (sgcb a) (leaf b) = (λ h. cc, λ h. cc)
reference_eq_iff (sgcb a) (sgcb b) = (λ h. ground arith, λ h. ground arith)

pub key_eq_iff : (a b : Key) → (key_eq a b ≡ true) ↔ (a ≡ b)
key_eq_iff a b = (
  λ h. ground (arith, reference_eq_iff a.0 b.0, fc_eq_iff a.1 b.1),
  λ h. ground (arith, reference_eq_iff a.0 b.0, fc_eq_iff a.1 b.1),
)

abbrev pub key : Eq Key
key = record { beq = key_eq; beq_iff = key_eq_iff }

abbrev is_found : Option (Option Value) → Bool
is_found Option.none = false
is_found (Option.some v) = true

-- The model has the attribute.
unfoldable pub has : Model → Reference → Fc → Bool
has m r fc = is_found (lookup key_eq (r, fc) m)

found_after :
    (m : Model) (k j : Key) (v : Value) (o : Option (Option Value))
    → lookup key_eq k m ≡ o
    → lookup key_eq j (write_found o k v m)
      ≡ (if key_eq k j && is_found o then Option.some (Option.some v) else lookup key_eq j m)
found_after m k j v Option.none h = ground arith
found_after m k j v (Option.some old) h = lookup-insert key k j (Option.some v) m ∙ ground arith

pub read_attr-write_attr :
    (m : Model) (r r' : Reference) (fc fc' : Fc) (v : Value)
    → read_attr (write_attr m r fc v) r' fc'
      ≡ (if key_eq (r, fc) (r', fc') && has m r fc then Option.some v else read_attr m r' fc')
unfolding read_attr write_attr has
read_attr-write_attr m r r' fc fc' v =
    ap value_of (found_after m (r, fc) (r', fc') v (lookup key_eq (r, fc) m) refl) ∙ ground arith

same_entry :
    (m : Model) (k j : Key) (v : Option Value)
    → is_found
        (if key_eq k j && is_found (lookup key_eq k m) then Option.some v else lookup key_eq j m)
      ≡ is_found (lookup key_eq j m)
same_entry m k j v = elim (Bool-cases (key_eq k j)) [
  | inl e ↦ ground (arith, ap (λ x. is_found (lookup key_eq x m)) ((key.beq_iff k j).0 e))
  | inr e ↦ ground arith
]

pub has-write_attr :
    (m : Model) (r r' : Reference) (fc fc' : Fc) (v : Value)
    → has (write_attr m r fc v) r' fc' ≡ has m r' fc'
unfolding write_attr has
has-write_attr m r r' fc fc' v =
    ap is_found (found_after m (r, fc) (r', fc') v (lookup key_eq (r, fc) m) refl)
    ∙ same_entry m (r, fc) (r', fc') (Option.some v)
