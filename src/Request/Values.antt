-- ===== src/Request/Values.antt =====
-- GetParameterValues and SetParameterValues: `cwmp_parse_getparametervalues_message` and
-- `cwmp_parse_setparametervalues_message` of libcwmp/src/cwmp.c.
pub mod Reads
pub mod Sets
use netcwmp.Common.{
  ℕ, Bool, true, false, ◌&&◌, List, [], ◌∷◌, Option, none, some, Bytes, codes, ℤ, pos, ◌⊎◌, inl,
  inr, if◌then◌else◌,
}
use netcwmp.Types.{ParamType}
use netcwmp.Field.{Field}
use netcwmp.Params
use netcwmp.Params.{Node, node}
use netcwmp.Xml
use netcwmp.Xml.{Xml, first_child, get_node_value, get_child_with_name}
use netcwmp.Soap.{Names, get_rpc_method_node}
use netcwmp.Fault.{Parameter, is_ok}
use netcwmp.Request.{ParameterList, create_parameter_list, push_next, siblings, node_of}

-- What a parser leaves: whether it returns `CWMP_OK`, the fault code if it has set one, `*ppl` if it
-- has set it, and the state of the device.
pub record Outcome (S : Type 0) : Type 0 where
  pub ok : Bool
  pub fault : Option ℤ
  pub list : Option ParameterList
  pub state : S

abbrev pub is_null_xml : Xml → Bool
is_null_xml Xml.null = true
is_null_xml _ = false

-- The parser where its list node is missing.
abbrev pub no_list : {S : Type 0} → S → Outcome S
no_list s = record { ok = false; fault = none; list = none; state = s }

-- The values of the nodes `Name` and `Value` of a node.
abbrev pub name_in : Xml → Option Bytes
name_in x = get_node_value (get_child_with_name x (codes "Name"))

abbrev pub value_in : Xml → Option Bytes
value_in x = get_node_value (get_child_with_name x (codes "Value"))

module _ {S : Type 0} where
  -- A parameter that is read: its name, value and type, or the fault code.
  unfoldable pub read_field : Field S → Bytes → S → (ℤ ⊎ Parameter) × S
  read_field d name s = elim d.get [
    | none ↦
        (inr (record { name = some name; value = d.value; type = d.type; fault_code = pos 0 }), s)
    | some f ↦
        let (rc, value, s') = f s name in
        if is_ok rc
        then (
          inr (record { name = some name; value = value; type = d.type; fault_code = pos 0 }),
          s',
        )
        else (inl rc, s')
  ]

  unfoldable pub read_node : Node (Field S) → Option Bytes → S → (ℤ ⊎ Parameter) × S
  unfolding read_field
  read_node Params.null name s = (inl (pos 9003), s)
  read_node (node _ d _ _) none s = (inl (pos 9003), s)
  read_node (node _ d _ _) (some name) s = read_field d name s

  -- A round of the loop of `cwmp_parse_getparametervalues_message`, on the value of its node.
  abbrev pub read_named : Node (Field S) → Option Bytes → S → (ℤ ⊎ Parameter) × S
  read_named root name s = read_node (node_of root name) name s

  -- The loop, over the nodes that follow.
  unfoldable pub get_loop : Node (Field S) → List Xml → ParameterList → S → Outcome S
  unfolding read_node node_of push_next
  get_loop root [] pl s = record { ok = true; fault = none; list = some pl; state = s }
  get_loop root (x ∷ xs) pl s =
      let (result, s') = read_named root (get_node_value x) s in
      elim result [
        | inl code ↦ record { ok = false; fault = some code; list = some pl; state = s' }
        | inr p ↦ get_loop root xs (push_next p pl) s'
      ]

  -- `cwmp_parse_getparametervalues_message`
  unfoldable pub parse_getparametervalues_message : Names → Node (Field S) → Xml → S → Outcome S
  unfolding get_loop
  parse_getparametervalues_message n root doc s =
      let list = get_child_with_name (get_rpc_method_node n doc) (codes "ParameterNames") in
      let read = get_loop root (siblings (first_child list)) create_parameter_list s in
      if is_null_xml list then no_list s else read

  -- What the setter of a parameter answers.
  unfoldable pub set_field : Field S → Bytes → Option Bytes → S → ℤ × S
  set_field d name value s = elim d.set [ none ↦ (pos 9008, s) | some f ↦ f s name value ]

  -- The parameter that a round of the loop of `cwmp_parse_setparametervalues_message` adds to the
  -- list, if it adds one.
  unfoldable pub set_node : Node (Field S) → Option Bytes → Option Bytes → S → Option Parameter × S
  unfolding set_field
  set_node Params.null name value s = (none, s)
  set_node (node _ d _ _) none value s = (none, s)
  set_node (node _ d _ _) (some name) value s =
      let (rc, s') = set_field d name value s in
      (some (record { name = some name; value = value; type = d.type; fault_code = rc }), s')

  abbrev pub set_named : Node (Field S) → Xml → S → Option Parameter × S
  set_named root x s = set_node (node_of root (name_in x)) (name_in x) (value_in x) s

  -- The end of a round: the outcome so far with the parameter.
  unfoldable pub set_result : Option Parameter × S → Outcome S → Outcome S
  unfolding push_next
  set_result (none, s) o = record o { state = s }
  set_result (some p, s) o = record {
    ok = o.ok && is_ok p.fault_code;
    fault = if is_ok p.fault_code then o.fault else some (pos 9003);
    list = elim o.list [ none ↦ none | some pl ↦ some (push_next p pl) ];
    state = s;
  }

  -- The loop.
  unfoldable pub set_loop : Node (Field S) → List Xml → Outcome S → Outcome S
  unfolding set_node node_of set_result
  set_loop root [] o = o
  set_loop root (x ∷ xs) o = set_loop root xs (set_result (set_named root x o.state) o)

  -- `cwmp_parse_setparametervalues_message`
  unfoldable pub parse_setparametervalues_message : Names → Node (Field S) → Xml → S → Outcome S
  unfolding set_loop
  parse_setparametervalues_message n root doc s =
      let list = get_child_with_name (get_rpc_method_node n doc) (codes "ParameterList") in
      let set =
        set_loop root (siblings (first_child list))
          (record { ok = true; fault = none; list = some create_parameter_list; state = s }) in
      if is_null_xml list then no_list s else set
