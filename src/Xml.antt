-- ===== src/Xml.antt =====
-- Documents of libcwmp/src/cwmp.c: the nodes that the DOM library keeps, and the functions
-- `cwmp_xml_...` that read them. A document is its root element; where it has none it is `null`.
-- What the library does with a node is taken from the comments of its functions: a node is appended
-- behind the last child, an attribute that is set is added.
use netcwmp.Common.{List, Option, none, some, Bytes, if◌then◌else◌}
use netcwmp.Types.{case_eq}

-- The types of the nodes that are no elements.
pub data Kind : Type 0 where
  text cdata processing_instruction comment : Kind

-- `xmlnode_t`: an element with its name, value, attributes, first child and next sibling, or a node
-- of another type, which has a name, a value and no children. A null pointer is `null`.
pub data Xml : Type 0 where
  null : Xml
  elem : Bytes → Option Bytes → List (Bytes × Bytes) → (child next : Xml) → Xml
  other : Kind → (name value : Option Bytes) → (next : Xml) → Xml

-- `XmlNodeGetFirstChild`, `XmlNodeGetNodeValue`, and the name that a node has.
abbrev pub first_child : Xml → Xml
first_child (elem _ _ _ child _) = child
first_child _ = null

abbrev pub own_value : Xml → Option Bytes
own_value null = none
own_value (elem _ v _ _ _) = v
own_value (other _ _ v _) = v

abbrev pub own_name : Xml → Option Bytes
own_name null = none
own_name (elem n _ _ _ _) = some n
own_name (other _ n _ _) = n

-- `cwmp_xml_get_node_name`, which is the name of the first child.
pub get_node_name : Xml → Option Bytes
get_node_name node = own_name (first_child node)

-- `cwmp_xml_get_node_value`
unfoldable pub get_node_value : Xml → Option Bytes
get_node_value node = own_value (first_child node)

-- The loop of `cwmp_xml_get_child_with_name`, over the siblings.
unfoldable pub find_name : Bytes → Xml → Xml
find_name name null = null
find_name name (other _ _ _ next) = find_name name next
find_name name (elem n v attrs child next) =
    let rest = find_name name next in if case_eq n name then elem n v attrs child next else rest

-- `cwmp_xml_get_child_with_name`
unfoldable pub get_child_with_name : Xml → Bytes → Xml
unfolding find_name
get_child_with_name node name = find_name name (first_child node)

-- `XmlNodeAppendChild`, on the siblings of the children.
unfoldable pub append_sibling : Xml → Xml → Xml
append_sibling new null = new
append_sibling new (elem n v attrs child next) = elem n v attrs child (append_sibling new next)
append_sibling new (other k n v next) = other k n v (append_sibling new next)

-- A node made by `cwmp_xml_create_child_node`: an element without children, before its next sibling.
abbrev pub leaf : Bytes → Option Bytes → List (Bytes × Bytes) → Xml → Xml
leaf name value attrs next = elem name value attrs null next
