-- ===== src/Request/Objects.antt =====
-- AddObject and DeleteObject: `cwmp_get_parameter_path_node`, `cwmp_parse_addobject_message` and
-- `cwmp_parse_deleteobject_message` of libcwmp/src/cwmp.c.
pub mod Paths
pub mod Adds
use netcwmp.Common.{
  ℕ, zero, suc, Bool, true, false, not, ◌&&◌, ◌||◌, List, [], ◌∷◌, Option, none, some, Bytes, codes,
  bytes_eq, length, ℤ, pos, isdigit, ◌==◌, if◌then◌else◌,
}
use netcwmp.Types.{ParamType}
use netcwmp.Field.{Field, is_object, is_template}
use netcwmp.Params.{Node, null, node, nodename, child_of, is_null}
use netcwmp.Xml.{Xml, get_node_value, get_child_with_name}
use netcwmp.Soap.{Names, atoi_of, get_rpc_method_node}
use netcwmp.Fault.{is_ok}

-- How the loop over the siblings ends: at a node, which has the name or none; behind the last
-- sibling, a template; or at the last sibling, whose name is another.
pub data Search (D : Type 0) : Type 0 where
  at : Node D → Search D
  past : Search D
  last : Search D

module _ {D : Type 0} where
  -- The loop over the siblings.
  unfoldable pub search : Bytes → Node D → Search D
  search name null = past
  search name (node none d child next) = at (node none d child next)
  search name (node (some n) d child next) =
      let rest = search name next in
      if bytes_eq n (codes "{i}")
      then rest
      else if bytes_eq n name
      then at (node (some n) d child next)
      else if is_null next
      then last
      else rest

  -- `param_node->parent`, for the nodes above it, the nearest first, in a tree whose nodes have the
  -- node above them as their parent.
  unfoldable pub parent_of : List (Node D) → Option (Node D × List (Node D))
  parent_of [] = none
  parent_of (p ∷ above) = some (p, above)

  -- The end of a round: what is left of the name is `dot`, `below` is the result of the rounds on the
  -- children of the node that has been found.
  unfoldable pub path_round :
      Bytes
      → List (Node D)
      → Search D
      → Option (Node D × List (Node D))
      → Option (Node D × List (Node D))
  unfolding parent_of
  path_round dot above past below = none
  path_round [] above last below = parent_of above
  path_round (e ∷ dot) above last below = none
  path_round [] above (at t) below = some (t, above)
  path_round (e ∷ dot) above (at t) below = if is_null (child_of t) then some (t, above) else below

  abbrev pub node_at : Search D → Node D
  node_at (at t) = t
  node_at _ = null

  -- The loop of `cwmp_get_parameter_path_node` on fuel, from the siblings `t` below `above`.
  unfoldable pub path_loop : ℕ → Bytes → List (Node D) → Node D → Option (Node D × List (Node D))
  unfolding search path_round
  path_loop k [] above t = some (t, above)
  path_loop zero (c ∷ p) above t = none
  path_loop (suc k) (c ∷ p) above t =
      let (name, dot) = nodename (c ∷ p) in
      let found = node_at (search name t) in
      path_round dot above (search name t) (path_loop k dot (found ∷ above) (child_of found))

  -- `cwmp_get_parameter_path_node`: the node, and the nodes above it. `none` is NULL.
  unfoldable pub get_parameter_path_node : Node D → Option Bytes → Option (Node D × List (Node D))
  unfolding path_loop
  get_parameter_path_node null name = none
  get_parameter_path_node (node n d child next) none = none
  get_parameter_path_node (node n d child next) (some name) =
      path_loop (length name) name [] (node n d child next)

-- What the parsers do: a null pointer is followed, the fault code is set with `CWMP_ERROR`, or
-- `CWMP_OK` with the number of the instance.
pub data Answer (S : Type 0) : Type 0 where
  crash : Answer S
  refused : ℤ → S → Answer S
  accepted : ℤ → S → Answer S

-- `is_digit(name) == 0` of util.h
unfoldable pub all_digits : Bytes → Bool
all_digits [] = true
all_digits (c ∷ s) = isdigit c && all_digits s

abbrev pub is_number : Option Bytes → Bool
is_number none = false
is_number (some n) = all_digits n

-- Whether the last byte of a name is a dot; an empty name has no last byte.
unfoldable pub ends_in_dot : Bytes → Option Bool
ends_in_dot [] = none
ends_in_dot (c ∷ []) = some (c == 46)
ends_in_dot (c ∷ d ∷ s) = ends_in_dot (d ∷ s)

-- The value of the node `ObjectName`.
abbrev pub object_name : Names → Xml → Option Bytes
object_name n doc =
    get_node_value (get_child_with_name (get_rpc_method_node n doc) (codes "ObjectName"))

module _ {S : Type 0} where
  -- The call of `param->add` and what is behind it.
  unfoldable pub call_add : Option (S → ℤ × ℤ × S) → S → Answer S
  call_add none s = refused (pos 9005) s
  call_add (some add) s =
      let (rc, instance_num, s') = add s in
      if is_ok rc then accepted instance_num s' else refused (pos 9005) s'

  unfoldable pub add_checked : Field S → Node (Field S) → S → Answer S
  unfolding call_add
  add_checked d null s =
      if not (is_object d.type) || not (d.rw == 1) then refused (pos 9005) s else crash
  add_checked d (node child_name _ _ _) s =
      let called = call_add d.add s in
      if not (is_object d.type) || not (d.rw == 1) || not (is_template child_name)
      then refused (pos 9005) s
      else called

  unfoldable pub add_object : Option (Node (Field S) × List (Node (Field S))) → S → Answer S
  unfolding add_checked
  add_object none s = refused (pos 9005) s
  add_object (some (null, above)) s = crash
  add_object (some (node _ d child _, above)) s = add_checked d child s

  -- `cwmp_parse_addobject_message`
  unfoldable pub parse_addobject_message : Names → Node (Field S) → Xml → S → Answer S
  unfolding add_object
  parse_addobject_message n root doc s =
      add_object (get_parameter_path_node root (object_name n doc)) s

  -- The call of `param->del`.
  unfoldable pub call_del : Option (S → ℤ → ℤ × S) → ℤ → S → Answer S
  call_del none number s = crash
  call_del (some del) number s =
      let (rc, s') = del s number in if is_ok rc then accepted number s' else refused (pos 9005) s'

  -- The test on the parent's `del`, and the call of the node's own.
  unfoldable pub del_below : List (Node (Field S)) → Option Bytes → Field S → S → Answer S
  unfolding call_del
  del_below [] name d s = crash
  del_below (null ∷ above) name d s = crash
  del_below (node _ e _ _ ∷ above) name d s = elim e.del [
    | none ↦ refused (pos 9005) s
    | some _ ↦ call_del d.del (atoi_of name) s
  ]

  -- The test on the last byte of the object's name, where it is read.
  unfoldable pub del_named :
      Option Bool → List (Node (Field S)) → Option Bytes → Field S → S → Answer S
  unfolding del_below
  del_named none above name d s = crash
  del_named (some false) above name d s = refused (pos 9005) s
  del_named (some true) above name d s =
      let deleted = del_below above name d s in
      if is_number name then deleted else refused (pos 9005) s

  unfoldable pub del_object : Bytes → Option (Node (Field S) × List (Node (Field S))) → S → Answer S
  unfolding ends_in_dot del_named
  del_object object none s = refused (pos 9005) s
  del_object object (some (null, above)) s = crash
  del_object object (some (node name d _ _, above)) s =
      let named = del_named (ends_in_dot object) above name d s in
      if is_object d.type then named else refused (pos 9005) s

  -- `cwmp_parse_deleteobject_message`
  unfoldable pub parse_deleteobject_message : Names → Node (Field S) → Xml → S → Answer S
  unfolding del_object
  parse_deleteobject_message n root doc s = elim (object_name n doc) [
    | none ↦ refused (pos 9005) s
    | some object ↦ del_object object (get_parameter_path_node root (some object)) s
  ]
