-- ===== src/Printer.antt =====
-- `cwmp_xml_print_doc_to_chunk` and `cwmp_xml_dom_tree_print_to_chunk` of libcwmp/src/cwmp.c. What is
-- written to the chunk is a string; the results of the writes are ignored. Nothing calls these
-- functions: `cwmp_write_doc_to_chunk` leaves the printing to the DOM library.
pub mod Forever
mod Tests
use netcwmp.Common.{
  ℕ, zero, suc, Bool, true, false, List, [], ◌∷◌, ◌++◌, Option, none, some, Bytes, codes,
  if◌then◌else◌,
}
use netcwmp.Escape.Decode.{escape}
use netcwmp.Xml
use netcwmp.Xml.{Xml, Kind, elem, other}

abbrev pub or_empty : Option Bytes → Bytes
or_empty none = []
or_empty (some s) = s

-- The case of an attribute, with the call for the next one. Values are not escaped.
unfoldable pub print_attributes : List (Bytes × Bytes) → Bytes
print_attributes [] = []
print_attributes ((name, value) ∷ []) = name ++ codes "=\"" ++ value ++ codes "\""
print_attributes ((name, value) ∷ a ∷ attrs) =
    name ++ codes "=\"" ++ value ++ codes "\"" ++ codes " " ++ print_attributes (a ∷ attrs)

abbrev pub attribute_part : List (Bytes × Bytes) → Bytes
attribute_part [] = []
attribute_part (a ∷ attrs) = codes " " ++ print_attributes (a ∷ attrs)

abbrev pub is_element : Xml → Bool
is_element (elem _ _ _ _ _) = true
is_element _ = false

abbrev pub is_text : Xml → Bool
is_text (other Kind.text _ _ _) = true
is_text _ = false

-- What is written before what is in an element, and behind it.
abbrev pub start_tag : Bytes → List (Bytes × Bytes) → Xml → Bytes
start_tag name attrs child =
    codes "<"
    ++ name
    ++ attribute_part attrs
    ++ (if is_element child then codes ">\n" else codes ">")

abbrev pub end_tag : Bytes → Xml → Bytes
end_tag name next = codes "</" ++ name ++ (if is_text next then codes ">" else codes ">\n")

-- The cases of the other nodes, behind which their siblings are not printed.
unfoldable pub print_other : Kind → Option Bytes → Option Bytes → Bytes
print_other Kind.text name value = escape (or_empty value)
print_other Kind.cdata name value = or_empty value
print_other Kind.processing_instruction name value =
    codes "<?" ++ or_empty name ++ codes " " ++ or_empty value ++ codes "?>\n"
print_other Kind.comment name value = []

-- `before`, what `inner` has printed, `between`, what `rest` has printed.
unfoldable pub chained : Bytes → Option Bytes → Bytes → Option Bytes → Option Bytes
chained before none between rest = none
chained before (some s) between none = none
chained before (some s) between (some t) = some (before ++ s ++ between ++ t)

-- `cwmp_xml_dom_tree_print_to_chunk` on fuel, the depth of its calls. Where the first child is an
-- element the function calls itself with the same node.
unfoldable pub dom_tree_print : ℕ → Xml → Option Bytes
unfolding print_other chained
dom_tree_print zero t = none
dom_tree_print (suc k) Xml.null = some []
dom_tree_print (suc k) (other kind name value next) = some (print_other kind name value)
dom_tree_print (suc k) (elem name value attrs child next) =
    let same = dom_tree_print k (elem name value attrs child next) in
    let sibling = dom_tree_print k next in
    chained (start_tag name attrs child) (if is_element child then same else some (or_empty value))
      (end_tag name next) sibling

-- `cwmp_xml_print_doc_to_chunk`, whose node is that of the document: its case prints the first child,
-- the root with what stands behind it.
unfoldable pub print_doc : ℕ → Xml → Option Bytes
unfolding dom_tree_print
print_doc k root = dom_tree_print k root
