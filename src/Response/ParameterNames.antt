-- ===== src/Response/ParameterNames.antt =====
-- The answer to GetParameterNames of libcwmp/src/cwmp.c.
pub mod Preorder
use netcwmp.Common.{
  ℕ, ◌+◌, Bool, true, false, List, [], ◌∷◌, ◌++◌, Option, none, some, Bytes, codes, bytes_eq, take,
  ◌==◌, if◌then◌else◌,
}
use netcwmp.Types.{ParamType}
use netcwmp.Field.{Field, is_object, is_template}
use netcwmp.Params.{Node, null, node}
use netcwmp.Xml
use netcwmp.Xml.{Xml, elem, leaf, append_sibling}
use netcwmp.Soap.{Names, Header, document}
use netcwmp.Response.{array_type_of, rpc}

-- `%s`
abbrev pub printed : Option Bytes → Bytes
printed none = codes "(null)"
printed (some s) = s

-- The `ParameterInfoStruct` of a name, before its next sibling.
unfoldable pub info_struct : Bytes → ℕ → Xml → Xml
info_struct name w next =
    elem (codes "ParameterInfoStruct") none []
      (leaf (codes "Name") (some name) []
        (leaf (codes "Writable") (some (if w == 0 then codes "0" else codes "1")) [] Xml.null))
      next

-- The three calls that append it to the list, and `count++`.
unfoldable pub add_info : Bytes → ℕ → Xml × ℕ → Xml × ℕ
unfolding info_struct
add_info name w (list, count) = (append_sibling (info_struct name w Xml.null) list, count + 1)

-- The document around the list, with its length.
unfoldable pub names_document : Names → Option Header → Xml × ℕ → Xml
names_document n header (list, count) = document n header (
    rpc (codes "cwmp:GetParameterNamesResponse") (
      elem (codes "ParameterList") none
        (array_type_of n (codes "cwmp:ParameterInfoStruct") count ∷ []) list Xml.null))

module _ {S : Type 0} where
  -- What is formatted into the buffer for a child: an object's name ends in a dot. The buffer holds
  -- 1024 bytes with the NUL.
  unfoldable pub child_path : Bytes → Option Bytes → Field S → Bytes
  child_path path name d =
      take 1023 (path ++ printed name ++ (if is_object d.type then codes "." else []))

  -- The loop over the children in `cwmp_create_getparameternames_response_all_parameter_names`, with
  -- its calls of itself.
  unfoldable pub children_names : Bytes → Node (Field S) → Xml × ℕ → Xml × ℕ
  unfolding is_template child_path add_info
  children_names path null acc = acc
  children_names path (node name d child next) acc =
      let p = child_path path name d in
      let below = children_names p child (add_info p d.rw acc) in
      children_names path next (if is_template name then acc else below)

  -- `cwmp_create_getparameternames_response_all_parameter_names`
  unfoldable pub all_parameter_names : Bytes → Node (Field S) → Xml × ℕ → Xml × ℕ
  unfolding children_names add_info
  all_parameter_names path null acc = acc
  all_parameter_names path (node name d child next) acc =
      children_names path child (add_info path d.rw acc)

  -- The loop for the next level.
  unfoldable pub level_names : Bytes → Node (Field S) → Xml × ℕ → Xml × ℕ
  unfolding is_template child_path add_info
  level_names path null acc = acc
  level_names path (node name d child next) acc =
      level_names path next
        (if is_template name then acc else add_info (child_path path name d) d.rw acc)

  -- The branches on `next_subset` and `next_level`: the list's nodes and `count`.
  unfoldable pub chosen_names : Bytes → Node (Field S) → Bool → Bool → Xml × ℕ
  unfolding all_parameter_names level_names add_info
  chosen_names path null subset level = (Xml.null, 0)
  chosen_names path (node name d child next) false level = add_info path d.rw (Xml.null, 0)
  chosen_names path (node name d child next) true true = level_names path child (Xml.null, 0)
  chosen_names path (node name d child next) true false =
      all_parameter_names path (node name d child next) (Xml.null, 0)

  -- `cwmp_create_getparameternames_response_message`; `none` is NULL.
  unfoldable pub create_getparameternames_response :
      Names → Option Header → Bytes → Node (Field S) → Bool → Bool → Option Xml
  unfolding chosen_names names_document
  create_getparameternames_response n header path null subset level = none
  create_getparameternames_response n header path (node name d child next) subset level =
      some (names_document n header (chosen_names path (node name d child next) subset level))
