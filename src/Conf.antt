-- ===== src/Conf.antt =====
-- The configuration: libcwmp/src/cfg.c over the reader of ini files, and `cwmp_conf_init` of
-- cwmpd/src/conf.c.
pub mod Names
mod Tests
use netcwmp.Common.{
  ℕ, Bool, true, false, List, [], ◌∷◌, Option, none, some, Bytes, codes, ℤ, pos, ◌==◌, ◌&&◌, ◌≡◌,
  take, if◌then◌else◌,
}
use netcwmp.Types.{case_eq}

-- `cwmp_conf_split`, for a name shorter than the buffer: the section and the key. A name without
-- colon is in the section "cwmp", and its key is a pointer that has not been set, `none`.
unfoldable pub before_colon : Bytes → Option (Bytes × Bytes)
before_colon [] = none
before_colon (c ∷ name) =
    let rest = before_colon name in
    if c == 58 then some ([], name) else elim rest [ none ↦ none | some (s, k) ↦ some (c ∷ s, k) ]

unfoldable pub conf_split : Bytes → Bytes × Option Bytes
unfolding before_colon
conf_split name = elim (before_colon name) [
  | none ↦ (codes "cwmp", none)
  | some (s, k) ↦ (s, some k)
]

-- What is done with the section and the key, where that is set.
abbrev pub with_key : {A : Type 0} → (Bytes → Bytes → A) → Bytes × Option Bytes → Option A
with_key f (s, none) = none
with_key f (s, some k) = some (f s k)

-- `ini_gets`, `ini_puts` and `ini_getl` are arguments, on the files `I`.
module _ {I : Type 0} where
  -- `cwmp_conf_get` and `cwmp_conf_pool_get`: the value; `none` where the key is not set.
  unfoldable pub conf_pool_get : (I → Bytes → Bytes → Bytes) → I → Bytes → Option Bytes
  unfolding conf_split
  conf_pool_get gets i name = with_key (gets i) (conf_split name)

  -- `cwmp_conf_set`
  unfoldable pub conf_set : (I → Bytes → Bytes → Bytes → I) → I → Bytes → Bytes → Option I
  unfolding conf_split
  conf_set puts i name value = with_key (λ s k. puts i s k value) (conf_split name)

  -- `cwmp_conf_get_int`
  unfoldable pub conf_get_int : (I → Bytes → Bytes → ℤ) → I → Bytes → Option ℤ
  unfolding conf_split
  conf_get_int getl i name = with_key (getl i) (conf_split name)
