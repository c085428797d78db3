-- ===== src/Params.antt =====
-- The parameter tree of libcwmp/src/cwmp.c and its lookup by a dotted name,
-- `cwmp_get_parameter_nodename` and `cwmp_get_parameter_node`; new instances of an object, by
-- `cwmp_model_copy_parameter` of libcwmp/src/model.c.
pub mod Names
mod Instances
pub mod Deletes
pub mod Loads
mod Tests
use netcwmp.Common.{
  ℕ, zero, suc, Bool, true, false, List, [], ◌∷◌, Option, none, some, Bytes, bytes_eq, length, ◌==◌,
  leb, ◌&&◌, ◌≡◌, if◌then◌else◌,
}

-- `parameter_node_t`, with what the lookup follows; `D` stands for the other fields. A null
-- pointer is `null`.
pub data Node (D : Type 0) : Type 0 where
  null : Node D
  node : Option Bytes → D → (child next_sibling : Node D) → Node D

abbrev pub is_null : {D : Type 0} → Node D → Bool
is_null null = true
is_null (node _ _ _ _) = false

-- The lengths of the parts of a name: of the first one, and whether all others fit.
abbrev parts : Bytes → ℕ × Bool
parts [] = (0, true)
parts (c ∷ p) = let (k, rest) = parts p in if c == 46 then (0, leb k 255 && rest) else (suc k, rest)

-- Whether each part of a name fits, with its NUL, into `name[256]` of `cwmp_get_parameter_node`. A
-- longer part overflows it; what follows is about names that fit.
abbrev pub fits : Bytes → Bool
fits p = leb (parts p).0 255 && (parts p).1

-- The same of a name that may be null.
abbrev pub IsShort : Option Bytes → Type 0
IsShort none = Unit {0}
IsShort (some name) = fits name ≡ true

-- `cwmp_get_parameter_nodename`: the name before the first dot, and what is behind the dot.
unfoldable pub nodename : Bytes → Bytes × Bytes
nodename [] = ([], [])
nodename (c ∷ p) = let (name, rest) = nodename p in if c == 46 then ([], p) else (c ∷ name, rest)

module _ {D : Type 0} where
  -- The loop over the siblings. A node without name ends it.
  unfoldable pub find_sibling : Bytes → Node D → Node D
  find_sibling name null = null
  find_sibling name (node none d child next) = node none d child next
  find_sibling name (node (some n) d child next) =
      if bytes_eq n name then node (some n) d child next else find_sibling name next

  abbrev pub child_of : Node D → Node D
  child_of null = null
  child_of (node _ _ child _) = child

  -- The end of a round: `dot` is what is left of the name, and `found` is what the loop over the
  -- siblings has come to; `below` is the result of the rounds on its children.
  unfoldable pub descend : Bytes → Node D → Node D → Node D
  descend [] found below = found
  descend (e ∷ dot) null below = null
  descend (e ∷ dot) (node _ _ _ _) below = below

  -- The loop of `cwmp_get_parameter_node` on fuel.
  unfoldable pub node_loop : ℕ → Bytes → Node D → Node D
  unfolding descend
  node_loop k [] n = n
  node_loop zero (c ∷ p) n = null
  node_loop (suc k) (c ∷ p) n =
      let (name, dot) = nodename (c ∷ p) in
      let found = find_sibling name n in descend dot found (node_loop k dot (child_of found))

  -- `cwmp_get_parameter_node`
  unfoldable pub get_parameter_node : Node D → Bytes → Node D
  unfolding node_loop
  get_parameter_node root name = node_loop (length name) name root

  -- The second loop of `cwmp_model_copy_parameter_object`, with its calls of itself: the copies of
  -- the children. Its allocations succeed; the code does not test them.
  pub copy_children : Node D → Node D
  copy_children null = null
  copy_children (node name d child next) = node name d (copy_children child) (copy_children next)

  -- The first loop of it: the new node goes behind the last sibling.
  pub append_sibling : Node D → Node D → Node D
  append_sibling new null = new
  append_sibling new (node name d child next) = node name d child (append_sibling new next)

  -- `cwmp_model_copy_parameter_object` for a positive number, whose digits are `number`, from the
  -- first of the siblings: the siblings that it leaves. `none` stands for `CWMP_ERROR`.
  pub copy_parameter_object : Bytes → Node D → Option (Node D)
  unfolding copy_children append_sibling
  copy_parameter_object number null = none
  copy_parameter_object number (node name d child next) =
      some
        (append_sibling (node (some number) d (copy_children child) null) (node name d child next))

  -- `cwmp_model_copy_parameter` for a positive number: whether it returns `CWMP_OK`, and the object
  -- that it adds to. `mem` says whether the allocation of the new node succeeds.
  pub copy_parameter : Bool → Bytes → Node D → Bool × Node D
  unfolding copy_parameter_object
  copy_parameter mem number null = (true, null)
  copy_parameter false number (node name d child next) = (false, node name d child next)
  copy_parameter true number (node name d child next) = elim (copy_parameter_object number child) [
    | none ↦ (false, node name d child next)
    | some child' ↦ (true, node name d child' next)
  ]
