-- ===== src/Params/Loads/Found.antt =====
-- Dotted names in the tree that libcwmp/src/model.c loads, against the elements of the description
-- file.
use netcwmp.Common.{
  Bool, true, false, List, [], ◌∷◌, Option, none, some, Bytes, codes, bytes_eq, All, ◌≡◌, refl, ap,
  ◌∙◌, inl, inr, not, Bool-cases, if◌then◌else◌,
}
use netcwmp.Field.{is_object}
use netcwmp.Params.{Node, null, node, child_of, find_sibling, get_parameter_node, fits}
use netcwmp.Params.Loads.{
  Loaded, type_of, rw_of, func, set_functions, init_parameter, create_child_parameter,
  load_parameter,
}
use netcwmp.Params.Names.{IsName, join, follow, get_parameter_node-follow}
use netcwmp.Xml.{Xml, first_child, get_child_with_name}

-- A function that only some nodes have.
abbrev pub given : {F : Type 0} → Bool → Option F → Option F
given true f = f
given false f = none

abbrev pub field_of : {F : Type 0} → Node (Loaded F) → Option (Loaded F)
field_of null = none
field_of (node _ d _ _) = some d

module _ {F : Type 0} (attribute : Xml → Bytes → Option Bytes) (fs : List (Bytes × Option F)) where
  abbrev pub HasName : Xml → Type 0
  HasName x = (m : Bytes) × (attribute x (codes "name") ≡ some m)

  -- An element, its siblings and all below them have an attribute "name".
  unfoldable pub AllNamed : Xml → Type 0
  AllNamed Xml.null = Unit {0}
  AllNamed (Xml.elem n v attrs child next) =
      HasName (Xml.elem n v attrs child next) × AllNamed child × AllNamed next
  AllNamed (Xml.other k n v next) = HasName (Xml.other k n v next) × AllNamed next

  has_name : Xml → Bytes → Bool
  has_name x name = elim (attribute x (codes "name")) [ none ↦ false | some m ↦ bytes_eq m name ]

  -- Among the siblings the first with the name.
  unfoldable pub find_element : Bytes → Xml → Xml
  unfolding has_name
  find_element name Xml.null = Xml.null
  find_element name (Xml.elem n v attrs child next) =
      let x = Xml.elem n v attrs child next in
      let rest = find_element name next in if has_name x name then x else rest
  find_element name (Xml.other k n v next) =
      let x = Xml.other k n v next in
      let rest = find_element name next in if has_name x name then x else rest

  -- The element at the end of a path of names.
  unfoldable pub follow_elements : Bytes → List Bytes → Xml → Xml
  unfolding find_element
  follow_elements n [] x = find_element n x
  follow_elements n (m ∷ ns) x = follow_elements m ns (first_child (find_element n x))

  fields : Xml → Loaded F
  fields x =
      let object = is_object (type_of attribute fs x) in
      record {
        rw = rw_of attribute fs x;
        type = type_of attribute fs x;
        get = given (not object) (func attribute fs x (codes "get_func"));
        set = given (not object) (func attribute fs x (codes "set_func"));
        notify = given (not object) (func attribute fs x (codes "notify_func"));
        add = given object (func attribute fs x (codes "add_func"));
        del = given object (func attribute fs x (codes "del_func"));
        refresh = given object (func attribute fs x (codes "refresh_func"));
      }

  -- What an element says of a parameter or an object.
  unfoldable pub described : Xml → Option (Loaded F)
  unfolding fields
  described Xml.null = none
  described (Xml.elem n v attrs child next) = some (fields (Xml.elem n v attrs child next))
  described (Xml.other k n v next) = some (fields (Xml.other k n v next))

  init_parameter-fields :
      (x : Xml) (m : Bytes)
      → attribute x (codes "name") ≡ some m
      → init_parameter attribute fs x ≡ (some m, fields x)
  unfolding init_parameter fields set_functions
  init_parameter-fields x m e = elim (Bool-cases (is_object (type_of attribute fs x))) [
    | inl o ↦ rw (init_parameter, e, set_functions, o) refl
    | inr o ↦ rw (init_parameter, e, set_functions, o) refl
  ]

  find_sibling-null : (name : Bytes) → find_sibling {D = Loaded F} name null ≡ null
  unfolding find_sibling
  find_sibling-null name = refl

  find_sibling-node :
      (name m : Bytes) (o : Option Bytes) (d : Loaded F) (c t : Node (Loaded F))
      → o ≡ some m
      → find_sibling name (node o d c t)
        ≡ (if bytes_eq m name then node o d c t else find_sibling name t)
  unfolding find_sibling
  find_sibling-node name m o d c t e = rw e refl

  has_name-bytes_eq :
      (x : Xml) (m name : Bytes)
      → attribute x (codes "name") ≡ some m
      → bytes_eq m name ≡ has_name x name
  unfolding has_name
  has_name-bytes_eq x m name e = rw (has_name, e) refl

  choose :
      (b c : Bool) (x rest : Xml) (t : Node (Loaded F))
      → b ≡ c
      → t ≡ create_child_parameter attribute fs rest
      → (if b then create_child_parameter attribute fs x else t)
        ≡ create_child_parameter attribute fs (if c then x else rest)
  choose b true x rest t e h = rw e refl
  choose b false x rest t e h = rw e h

  find_sibling-create_child_parameter :
      (name : Bytes) (x : Xml)
      → AllNamed x
      → find_sibling name (create_child_parameter attribute fs x)
        ≡ create_child_parameter attribute fs (find_element name x)
  unfolding create_child_parameter find_element AllNamed
  find_sibling-create_child_parameter name Xml.null a = find_sibling-null name
  find_sibling-create_child_parameter name (Xml.elem n v attrs child next) ((m, e), c, r) =
      let x = Xml.elem n v attrs child next in
      find_sibling-node name m (init_parameter attribute fs x).0 (init_parameter attribute fs x).1
        (create_child_parameter attribute fs child) (create_child_parameter attribute fs next)
        (ap (λ p. p.0) (init_parameter-fields x m e))
      ∙ choose (bytes_eq m name) (has_name x name) x (find_element name next)
          (find_sibling name (create_child_parameter attribute fs next))
          (has_name-bytes_eq x m name e) (find_sibling-create_child_parameter name next r)
  find_sibling-create_child_parameter name (Xml.other k n v next) ((m, e), r) =
      let x = Xml.other k n v next in
      find_sibling-node name m (init_parameter attribute fs x).0 (init_parameter attribute fs x).1
        null (create_child_parameter attribute fs next)
        (ap (λ p. p.0) (init_parameter-fields x m e))
      ∙ choose (bytes_eq m name) (has_name x name) x (find_element name next)
          (find_sibling name (create_child_parameter attribute fs next))
          (has_name-bytes_eq x m name e) (find_sibling-create_child_parameter name next r)

  child_of-create_child_parameter :
      (x : Xml)
      → child_of (create_child_parameter attribute fs x)
        ≡ create_child_parameter attribute fs (first_child x)
  unfolding create_child_parameter
  child_of-create_child_parameter Xml.null = refl
  child_of-create_child_parameter (Xml.elem n v attrs child next) = refl
  child_of-create_child_parameter (Xml.other k n v next) = refl

  find_element-AllNamed : (name : Bytes) (x : Xml) → AllNamed x → AllNamed (find_element name x)
  unfolding find_element AllNamed
  find_element-AllNamed name Xml.null a = a
  find_element-AllNamed name (Xml.elem n v attrs child next) a =
      elim (Bool-cases (has_name (Xml.elem n v attrs child next) name)) [
        | inl b ↦ rw b a
        | inr b ↦ rw b (find_element-AllNamed name next a.2)
      ]
  find_element-AllNamed name (Xml.other k n v next) a =
      elim (Bool-cases (has_name (Xml.other k n v next) name)) [
        | inl b ↦ rw b a
        | inr b ↦ rw b (find_element-AllNamed name next a.1)
      ]

  first_child-AllNamed : (x : Xml) → AllNamed x → AllNamed (first_child x)
  unfolding AllNamed
  first_child-AllNamed Xml.null a = a
  first_child-AllNamed (Xml.elem n v attrs child next) a = a.1
  first_child-AllNamed (Xml.other k n v next) a = tt

  follow-follow_elements :
      (n : Bytes) (ns : List Bytes) (x : Xml)
      → AllNamed x
      → follow n ns (create_child_parameter attribute fs x)
        ≡ create_child_parameter attribute fs (follow_elements n ns x)
  unfolding follow follow_elements
  follow-follow_elements n [] x a = find_sibling-create_child_parameter n x a
  follow-follow_elements n (m ∷ ns) x a =
      ap (λ t. follow m ns (child_of t)) (find_sibling-create_child_parameter n x a)
      ∙ ap (follow m ns) (child_of-create_child_parameter (find_element n x))
      ∙ follow-follow_elements m ns (first_child (find_element n x))
          (first_child-AllNamed (find_element n x) (find_element-AllNamed n x a))

  follow_elements-AllNamed :
      (n : Bytes) (ns : List Bytes) (x : Xml) → AllNamed x → AllNamed (follow_elements n ns x)
  unfolding follow_elements
  follow_elements-AllNamed n [] x a = find_element-AllNamed n x a
  follow_elements-AllNamed n (m ∷ ns) x a =
      follow_elements-AllNamed m ns (first_child (find_element n x))
        (first_child-AllNamed (find_element n x) (find_element-AllNamed n x a))

  field_of-described :
      (x : Xml) → AllNamed x → field_of (create_child_parameter attribute fs x) ≡ described x
  unfolding create_child_parameter AllNamed described
  field_of-described Xml.null a = refl
  field_of-described (Xml.elem n v attrs child next) a =
      ap (λ p. some p.1) (init_parameter-fields (Xml.elem n v attrs child next) a.0.0 a.0.1)
  field_of-described (Xml.other k n v next) a =
      ap (λ p. some p.1) (init_parameter-fields (Xml.other k n v next) a.0.0 a.0.1)

  -- A document whose root has the element "model", below which all nodes have an attribute "name", is
  -- loaded, and in the tree a dotted name, with or without a dot at its end and with no empty part,
  -- whose parts have at most 255 bytes,
  -- gives what the element on that path of names says: its "rw" in a byte, its type, and the
  -- functions that it names, for an object those to add, delete and refresh, else those to get, set
  -- and notify; and NULL where there is no such element.
  pub load_parameter-get_parameter_node :
      (rn : Bytes) (rv : Option Bytes) (ra : List (Bytes × Bytes)) (rc rnext : Xml) (mn : Bytes)
      (mv : Option Bytes) (ma : List (Bytes × Bytes)) (child next : Xml) (n : Bytes)
      (ns : List Bytes) (dot : Bool)
      → get_child_with_name (Xml.elem rn rv ra rc rnext) (codes "model")
        ≡ Xml.elem mn mv ma child next
      → AllNamed child
      → IsName n
      → All IsName ns
      → fits (join n ns dot) ≡ true
      → (t : Node (Loaded F)) × (load_parameter attribute fs (Xml.elem rn rv ra rc rnext) ≡ some t)
        × (field_of (get_parameter_node t (join n ns dot)) ≡ described (follow_elements n ns child))
  unfolding load_parameter
  load_parameter-get_parameter_node rn rv ra rc rnext mn mv ma child next n ns dot e a h hs short =
      (
        create_child_parameter attribute fs child,
        rw (load_parameter, e) refl,
        ap field_of (
              get_parameter_node-follow (create_child_parameter attribute fs child) n ns dot h hs
                short
              ∙ follow-follow_elements n ns child a)
            ∙ field_of-described (follow_elements n ns child)
                (follow_elements-AllNamed n ns child a),
      )
