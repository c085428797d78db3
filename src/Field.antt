-- ===== src/Field.antt =====
-- The fields of `parameter_node_t` of libcwmp/include/cwmp/types.h that the messages read, with the
-- device's functions behind a parameter. `S` is the state that these functions read and change.
use netcwmp.Common.{ℕ, Bool, true, false, Option, none, some, Bytes, codes, bytes_eq, ℤ}
use netcwmp.Types.{ParamType}

-- Each function answers with a fault code, what it hands back, and the state. A null pointer to a
-- function is `none`, and so is a null string.
pub record Field (S : Type 0) : Type 0 where
  pub rw : ℕ
  pub type : ParamType
  pub value : Option Bytes
  pub get : Option (S → Bytes → ℤ × Option Bytes × S)
  pub set : Option (S → Bytes → Option Bytes → ℤ × S)
  pub add : Option (S → ℤ × ℤ × S)
  pub del : Option (S → ℤ → ℤ × S)

abbrev pub is_object : ParamType → Bool
is_object ParamType.object = true
is_object _ = false

-- `TRstrcmp(name, "{i}") == 0`
unfoldable pub is_template : Option Bytes → Bool
is_template none = false
is_template (some n) = bytes_eq n (codes "{i}")
