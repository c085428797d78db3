-- ===== src/Params/Loads.antt =====
-- The loader of the parameter tree in libcwmp/src/model.c: from the elements of the description file
-- of the device to nodes. The pointers of the nodes to their parents are left out.
pub mod Found
use netcwmp.Common.{
  ℕ, zero, suc, ◌+◌, ◌-◌, ◌%◌, Bool, true, false, List, [], ◌∷◌, Option, none, some, Bytes, codes,
  ℤ, pos, negsuc, atoi, if◌then◌else◌,
}
use netcwmp.Field.{is_object}
use netcwmp.Params.{Node, null, node, child_of, is_null}
use netcwmp.Types.{ParamType, case_eq, get_type_value}
use netcwmp.Xml.{Xml, first_child, own_name, get_child_with_name}

-- The fields of `parameter_node_t` that the loader sets. `F` stands for the pointers to functions, of
-- which NULL is `none`.
pub record Loaded (F : Type 0) : Type 0 where
  pub rw : ℕ
  pub type : ParamType
  pub get : Option F
  pub set : Option F
  pub notify : Option F
  pub add : Option F
  pub del : Option F
  pub refresh : Option F

-- An `int` that is kept in a byte.
abbrev to_byte : ℤ → ℕ
to_byte (pos n) = n % 256
to_byte (negsuc n) = 255 - n % 256

-- The node as `cwmp_model_init_parameter` begins with it: what it does not set is 0 by the
-- allocation.
abbrev pub untyped : {F : Type 0} → ParamType → Loaded F
untyped t = record {
  rw = 0;
  type = t;
  get = none;
  set = none;
  notify = none;
  add = none;
  del = none;
  refresh = none;
}

-- Whether the element is named "object"; an element has a name.
abbrev pub is_object_element : Xml → Bool
is_object_element x = elim (own_name x) [ none ↦ false | some n ↦ case_eq n (codes "object") ]

-- The loop of `cwmp_model_find_func`.
unfoldable pub find_named : {F : Type 0} → List (Bytes × Option F) → Bytes → Option F
find_named [] name = none
find_named ((n, f) ∷ fs) name = let rest = find_named fs name in if case_eq name n then f else rest

-- `cwmp_model_find_func`
unfoldable pub find_func : {F : Type 0} → List (Bytes × Option F) → Option Bytes → Option F
unfolding find_named
find_func fs none = none
find_func fs (some name) = find_named fs name

-- `attribute` is `XmlElementGetAttribute`, and `fs` the functions of the device.
module _ {F : Type 0} (attribute : Xml → Bytes → Option Bytes) (fs : List (Bytes × Option F)) where
  unfoldable pub type_of : Xml → ParamType
  type_of x = if is_object_element x then ParamType.object else elim (attribute x (codes "type")) [
    | none ↦ ParamType.string
    | some t ↦ get_type_value (some t)
  ]

  unfoldable pub func : Xml → Bytes → Option F
  unfolding find_func
  func x name = find_func fs (attribute x name)

  unfoldable pub rw_of : Xml → ℕ
  rw_of x = elim (attribute x (codes "rw")) [ none ↦ 0 | some v ↦ to_byte (atoi v) ]

  -- The last part of it: an object has other functions than a parameter.
  unfoldable pub set_functions : Xml → Loaded F → Loaded F
  unfolding func
  set_functions x d =
      if is_object d.type
      then record d {
        add = func x (codes "add_func");
        del = func x (codes "del_func");
        refresh = func x (codes "refresh_func");
      }
      else record d {
        get = func x (codes "get_func");
        set = func x (codes "set_func");
        notify = func x (codes "notify_func");
      }

  -- `cwmp_model_init_parameter`: the name and the fields. An element without name is left at once,
  -- and what it returns is not looked at.
  unfoldable pub init_parameter : Xml → Option Bytes × Loaded F
  unfolding type_of rw_of set_functions
  init_parameter x = elim (attribute x (codes "name")) [
    | none ↦ (none, untyped (type_of x))
    | some name ↦ (some name, set_functions x (record (untyped (type_of x)) { rw = rw_of x }))
  ]

  -- `cwmp_model_create_child_parameter`, with its calls of `cwmp_model_create_parameter`: the nodes
  -- of an element and its siblings, with those below them.
  unfoldable pub create_child_parameter : Xml → Node (Loaded F)
  unfolding init_parameter
  create_child_parameter Xml.null = null
  create_child_parameter (Xml.elem n v attrs child next) =
      let x = Xml.elem n v attrs child next in
      node (init_parameter x).0 (init_parameter x).1 (create_child_parameter child)
        (create_child_parameter next)
  create_child_parameter (Xml.other k n v next) =
      let x = Xml.other k n v next in
      node (init_parameter x).0 (init_parameter x).1 null (create_child_parameter next)

  -- `cwmp_model_create_parameter`
  pub create_parameter : Xml → Node (Loaded F)
  unfolding create_child_parameter
  create_parameter x =
      node (init_parameter x).0 (init_parameter x).1 (create_child_parameter (first_child x)) null

  -- `cwmp_model_load_parameter` on the root element of a document, up to the refresh of the
  -- objects: the root of the tree, or `none` for `CWMP_ERROR`.
  unfoldable pub load_parameter : Xml → Option (Node (Loaded F))
  unfolding create_parameter
  load_parameter Xml.null = none
  load_parameter root = elim (get_child_with_name root (codes "model")) [
    | Xml.null ↦ none
    | x ↦ some (child_of (create_parameter x))
  ]
