-- ===== src/Request/Tests.antt =====
-- Lookups of objects, and an object that is added to.
use netcwmp.Common.{ℕ, ◌+◌, ◌≡◌, refl, [], none, some, codes, bytes_eq, pos}
use netcwmp.Types.{ParamType, case_eq}
use netcwmp.Field.{Field}
use netcwmp.Params
use netcwmp.Params.{
  Node, null, node, is_null, get_parameter_node, node_loop, nodename, find_sibling, descend,
}
use netcwmp.Xml
use netcwmp.Xml.{Xml, elem, other, get_node_value, get_child_with_name, find_name}
use netcwmp.Soap.{Names, names_of, document, received, get_rpc_method_node}
use netcwmp.Request.Objects.{object_name, parse_addobject_message}
use netcwmp.Request.Objects.Adds.{Fits, parse_addobject_message-Fits}
use netcwmp.Request.Objects.Paths.{IsPlain}

abbrev names : Names
names = names_of (codes "SOAP-ENV") (codes "SOAP-ENC")

-- An object whose instances the state counts.
abbrev counted : Field ℕ
counted = record {
  rw = 1;
  type = ParamType.object;
  value = none;
  get = none;
  set = none;
  add = some (λ s. (pos 0, pos s, s + 1));
  del = none;
}

abbrev template : Node (Field ℕ)
template = node (some (codes "{i}")) counted Params.null Params.null

abbrev counted_tree : Node (Field ℕ)
counted_tree =
    node (some (codes "Root")) counted (node (some (codes "Lan")) counted template Params.null)
      Params.null

abbrev add_request : Xml
add_request = received (
    document names none (
      elem (codes "cwmp:AddObject") none []
        (elem (codes "ObjectName") none []
          (other Xml.Kind.text none (some (codes "Root.Lan.")) Xml.null) Xml.null)
        Xml.null))

add_request-asks : object_name names add_request ≡ some (codes "Root.Lan.")
unfolding names_of document get_rpc_method_node get_child_with_name case_eq bytes_eq get_node_value
add_request-asks = refl

lan-found :
    get_parameter_node counted_tree (codes "Root.Lan.")
    ≡ node (some (codes "Lan")) counted template Params.null
unfolding get_parameter_node node_loop find_sibling descend nodename bytes_eq
lan-found = refl

lan-IsPlain : IsPlain 9 (codes "Root.Lan.")
unfolding IsPlain nodename bytes_eq
lan-IsPlain = (refl, (refl, tt))

parse_addobject_message-Fits_example :
    Fits counted 3 (parse_addobject_message names counted_tree add_request 3)
parse_addobject_message-Fits_example =
    parse_addobject_message-Fits names counted_tree add_request 3 (codes "Root.Lan.")
      (some (codes "Lan")) counted template Params.null add_request-asks refl lan-IsPlain lan-found
