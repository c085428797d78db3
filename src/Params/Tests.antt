-- ===== src/Params/Tests.antt =====
-- Lookups in a small parameter tree.
use netcwmp.Common.{
  ℕ, ◌≡◌, refl, arith, Option, none, true, false, List, [], ◌∷◌, some, Bytes, codes, bytes_eq,
  if◌then◌else◌,
}
use netcwmp.Params.{Node, null, node, is_null, find_sibling, get_parameter_node, copy_parameter}
use netcwmp.Params.Deletes.{
  Links, Memory, write, fault, returns, free_parameter, free_children, delete_parameter, unlink,
}
use netcwmp.Params.Deletes.Faults.{IsObject, free_parameter_faults}
use netcwmp.Params.Instances.{Added, copy_parameter-Added}
use netcwmp.Params.Loads.{Loaded, load_parameter}
use netcwmp.Params.Loads.Found.{
  AllNamed, described, field_of, follow_elements, load_parameter-get_parameter_node,
}
use netcwmp.Xml.{Xml, get_child_with_name, find_name}
use netcwmp.Types.{case_eq}
use netcwmp.Params.Names.{join, follow, get_parameter_node-follow}

-- Root.Time and Root.Lan.Ip
abbrev tree : Node ℕ
tree =
    node (some (codes "Root")) 0
      (node (some (codes "Time")) 1 null
        (node (some (codes "Lan")) 2 (node (some (codes "Ip")) 3 null null) null))
      null

get_parameter_node-follow_example :
    get_parameter_node tree (join (codes "Root") (codes "Lan" ∷ codes "Ip" ∷ []) false)
    ≡ follow (codes "Root") (codes "Lan" ∷ codes "Ip" ∷ []) tree
unfolding join
get_parameter_node-follow_example =
    get_parameter_node-follow tree (codes "Root") (codes "Lan" ∷ codes "Ip" ∷ []) false
      (refl, (refl, (refl, (refl, tt)))) ((refl, (refl, (refl, tt))), ((refl, (refl, tt)), tt)) refl

-- The children of an object before its first instance.
abbrev template : Node ℕ
template = node (some (codes "{i}")) 4 (node (some (codes "Ip")) 5 null null) null

no_instance : is_null (find_sibling (codes "1") template) ≡ true
unfolding find_sibling bytes_eq
no_instance = refl

copy_parameter-Added_example :
    (children' : Node ℕ) × (copy_parameter true
        (codes "1")
        (node (some (codes "Wan")) 6 template null)
      ≡ (true, node (some (codes "Wan")) 6 children' null))
    × Added (codes "1") template template children'
copy_parameter-Added_example =
    copy_parameter-Added (codes "1") (codes "{i}") (some (codes "Wan")) 6 4
      (node (some (codes "Ip")) 5 null null) null null no_instance

-- An object at 1 with the leaves 2 and 3.
abbrev links : ℕ → ℕ → ℕ → Links
links p c s = record { parent = p; child = c; next_sibling = s }

abbrev two_leaves : Memory
two_leaves =
    write 1 (some (links 0 2 0))
      (write 2 (some (links 1 0 3)) (write 3 (some (links 1 0 0)) (λ q. none)))

two_leaves-IsObject : IsObject two_leaves 1 2 3 []
two_leaves-IsObject = record {
  node = links 0 2 0;
  first = links 1 0 3;
  second = links 1 0 0;
  at_node = refl;
  at_first = refl;
  at_second = refl;
  not_null = omega arith;
  child = refl;
  first_parent = refl;
  second_parent = refl;
  leaf = refl;
  next = refl;
  siblings =
      (refl, omega arith, (links 1 0 3, refl, (refl, omega arith, (links 1 0 0, refl, refl))));
  distinct = (omega arith, tt);
  apart = omega arith;
}

free_parameter_faults_example : free_parameter 6 1 two_leaves ≡ fault
free_parameter_faults_example =
    free_parameter_faults two_leaves 1 2 3 [] two_leaves-IsObject 1 (omega arith)

-- A leaf behind the first is taken out.
second_leaf :
    delete_parameter 6 3 two_leaves
    ≡ returns (write 3 none (write 2 (some (links 1 0 0)) two_leaves))
unfolding delete_parameter free_parameter free_children unlink
second_leaf = refl

-- An attribute of an element, by its name.
attr_in : Bytes → List (Bytes × Bytes) → Option Bytes
attr_in name [] = none
attr_in name ((n, v) ∷ rest) =
    let other = attr_in name rest in if bytes_eq n name then some v else other

attribute : Xml → Bytes → Option Bytes
unfolding attr_in
attribute (Xml.elem _ _ attrs _ _) name = attr_in name attrs
attribute _ name = none

-- Root with Time, of which only the latter can be set.
abbrev time_element : Xml
time_element =
    Xml.elem (codes "param") none
      ((codes "name", codes "Time")
        ∷ (codes "rw", codes "1")
        ∷ (codes "set_func", codes "SET_TIME")
        ∷ [])
      Xml.null Xml.null

abbrev root_element : Xml
root_element =
    Xml.elem (codes "object") none ((codes "name", codes "Root") ∷ []) time_element Xml.null

abbrev model_element : Xml
model_element = Xml.elem (codes "model") none [] root_element Xml.null

abbrev functions : List (Bytes × Option ℕ)
functions = (codes "get_time", some 1) ∷ (codes "set_time", some 2) ∷ []

load_parameter-get_parameter_node_example :
    (t : Node (Loaded ℕ)) × (load_parameter attribute functions
        (Xml.elem (codes "cwmp") none [] model_element Xml.null)
      ≡ some t)
    × (field_of (get_parameter_node t (join (codes "Root") (codes "Time" ∷ []) false))
        ≡ described attribute functions
            (follow_elements attribute functions (codes "Root") (codes "Time" ∷ []) root_element))
unfolding get_child_with_name find_name case_eq join AllNamed attribute attr_in bytes_eq
load_parameter-get_parameter_node_example =
    load_parameter-get_parameter_node attribute functions (codes "cwmp") none [] model_element
      Xml.null (codes "model") none [] root_element Xml.null (codes "Root") (codes "Time" ∷ [])
      false refl ((codes "Root", refl), ((codes "Time", refl), tt, tt), tt)
      (refl, (refl, (refl, (refl, tt)))) ((refl, (refl, (refl, (refl, tt)))), tt) refl
