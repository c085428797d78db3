-- ===== src/Request.antt =====
-- What libcwmp/src/cwmp.c reads from the requests of the ACS: the list of parameters that is built,
-- and the messages that are only read. The other messages are in Values, Objects and Transfer.
pub mod Places
mod Tests
pub mod Values
pub mod Objects
pub mod Transfer
use netcwmp.Common.{
  ℕ, to_unsigned, ◌+◌, ◌-◌, Bool, true, false, ◌||◌, List, [], ◌∷◌, ◌++◌, Option, none, some, Bytes,
  codes, bytes_eq, length, leb, ℤ, if◌then◌else◌,
}
use netcwmp.Field.{Field}
use netcwmp.Params
use netcwmp.Params.{Node, node, get_parameter_node}
use netcwmp.Xml
use netcwmp.Xml.{Xml, elem, other, own_value, get_node_value, get_child_with_name}
use netcwmp.Soap.{Names, atoi_of, or_default, get_rpc_method_node}
use netcwmp.Fault.{Parameter, is_ok}

-- `parameter_list_t` while a message is read. `places` are the first `count` places of the array,
-- where `none` is one that has not been written; `moved` says that the array has been allocated
-- anew, and that the pointer `nextpv`, through which it is written, still points into the old one.
pub record ParameterList : Type 0 where
  pub places : List (Option Parameter)
  pub size : ℕ
  pub moved : Bool

-- `cwmp_create_parameter_list`
abbrev pub create_parameter_list : ParameterList
create_parameter_list = record { places = []; size = 32; moved = false }

-- The part of the loops that grows the array and writes a parameter through `nextpv`.
unfoldable pub push_next : Parameter → ParameterList → ParameterList
push_next p pl =
    let full = leb (pl.size - 1) (length pl.places) in
    let moved = pl.moved || full in
    record {
      places = pl.places ++ (if moved then none else some p) ∷ [];
      size = if full then pl.size + 32 else pl.size;
      moved = moved;
    }

-- `cwmp_add_parameter_to_list`, which writes into the new array.
unfoldable pub add_parameter_to_list : Parameter → ParameterList → ParameterList
add_parameter_to_list p pl = record pl {
  places = pl.places ++ some p ∷ [];
  size = if leb (pl.size - 1) (length pl.places) then pl.size + 32 else pl.size;
}

-- The parameters, if every place has been written.
unfoldable pub written : List (Option Parameter) → Option (List Parameter)
written [] = some []
written (none ∷ ps) = none
written (some p ∷ ps) = elim (written ps) [ none ↦ none | some qs ↦ some (p ∷ qs) ]

-- The nodes that a loop by `XmlNodeGetFirstChild` and `XmlNodeGetNextSibling` comes to.
unfoldable pub siblings : Xml → List Xml
siblings Xml.null = []
siblings (elem n v attrs child next) = elem n v attrs child next ∷ siblings next
siblings (other k n v next) = other k n v next ∷ siblings next

-- `cwmp_get_parameter_node` with a name that may be null.
unfoldable pub node_of : {D : Type 0} → Node D → Option Bytes → Node D
node_of root none = Params.null
node_of root (some name) = get_parameter_node root name

-- `cwmp_parse_inform_response_message`; `none` is `CWMP_ERROR`.
unfoldable pub parse_inform_response_message : Xml → Option ℕ
parse_inform_response_message rpc =
    elim (own_value (get_child_with_name rpc (codes "MaxEnvelopes"))) [
      | none ↦ none
      | some value ↦ some (to_unsigned (atoi_of (some value)))
    ]

-- The tests on the value of `NextLevel`.
abbrev pub is_next_level : Option Bytes → Bool
is_next_level value =
    let nl = or_default (codes "0") value in bytes_eq nl (codes "true") || bytes_eq nl (codes "1")

-- `cwmp_parse_getparameternames_message`: the path and whether the next level is asked for.
unfoldable pub parse_getparameternames_message : Names → Xml → Option Bytes × Bool
parse_getparameternames_message n doc =
    let rpc = get_rpc_method_node n doc in
    (
      get_node_value (get_child_with_name rpc (codes "ParameterPath")),
      is_next_level (get_node_value (get_child_with_name rpc (codes "NextLevel"))),
    )

-- `cwmp_get_parameter_node_value`: the fault code, the value and the state.
unfoldable pub get_parameter_node_value :
    {S : Type 0} → Node (Field S) → Bytes → S → ℤ × Option Bytes × S
get_parameter_node_value Params.null name s = (ℤ.pos 9000, none, s)
get_parameter_node_value (node _ d _ _) name s = elim d.get [
  | none ↦ (ℤ.pos 9000, none, s)
  | some f ↦ f s name
]

-- `cwmp_set_parameter_node_value`: `CWMP_OK` or what the setter returns, the node and the state.
-- `CWMP_ERROR` is `error`.
unfoldable pub set_parameter_node_value :
    {S : Type 0} → ℤ → Node (Field S) → Bytes → Option Bytes → S → ℤ × Node (Field S) × S
set_parameter_node_value error Params.null name value s = (error, Params.null, s)
set_parameter_node_value error (node n d child next) name value s = elim d.set [
  | none ↦ (ℤ.pos 0, node n (record d { value = value }) child next, s)
  | some f ↦ let (rc, s') = f s name value in (rc, node n d child next, s')
]
