-- ===== src/Mms/Values.antt =====
-- mms/value.rs and mms/errors.rs: the data values. A float is its bit pattern.
use rs_iec.Common.{ℕ, ℤ, ◌==◌, Bool, if◌then◌else◌, List}
use rs_iec.Asn1.BitStrings.{BitString}

pub data DataAccessError : Type 0 where
  object_invalidated hardware_fault temporarily_unavailable object_access_denied : DataAccessError
  object_undefined invalid_address type_unsupported type_inconsistent : DataAccessError
  object_attribute_inconsistent object_access_unsupported object_non_existent : DataAccessError
  object_value_invalid : DataAccessError
  other : ℕ → DataAccessError

unfoldable pub code : DataAccessError → ℕ
code object_invalidated = 0
code hardware_fault = 1
code temporarily_unavailable = 2
code object_access_denied = 3
code object_undefined = 4
code invalid_address = 5
code type_unsupported = 6
code type_inconsistent = 7
code object_attribute_inconsistent = 8
code object_access_unsupported = 9
code object_non_existent = 10
code object_value_invalid = 11
code (other n) = n

unfoldable pub from_code : ℕ → DataAccessError
from_code c =
    if c == 0
    then object_invalidated
    else if c == 1
    then hardware_fault
    else if c == 2
    then temporarily_unavailable
    else if c == 3
    then object_access_denied
    else if c == 4
    then object_undefined
    else if c == 5
    then invalid_address
    else if c == 6
    then type_unsupported
    else if c == 7
    then type_inconsistent
    else if c == 8
    then object_attribute_inconsistent
    else if c == 9
    then object_access_unsupported
    else if c == 10
    then object_non_existent
    else if c == 11
    then object_value_invalid
    else other c

mutual
  pub data Value : Type 0 where
    empty : Value
    array structure : Values → Value
    boolean : Bool → Value
    bit_string : BitString → Value
    integer : ℤ → Value
    unsigned float32 float64 : ℕ → Value
    octet_string visible_string generalized_time binary_time mms_string utc_time : List ℕ → Value
    data_access_error : DataAccessError → Value

  pub data Values : Type 0 where
    end : Values
    value : Value → Values → Values
