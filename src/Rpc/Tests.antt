-- ===== src/Rpc/Tests.antt =====
-- Requests to a small device, and their answers.
use netcwmp.Common.{
  ℕ, zero, suc, ◌+◌, ◌≡◌, refl, [], List, ◌∷◌, ◌++◌, none, some, Bytes, codes, pos, inl, All, arith,
  bytes_eq, length,
}
use netcwmp.Types.{ParamType, case_eq}
use netcwmp.Params
use netcwmp.Params.{Node, node, get_parameter_node, node_loop, nodename, find_sibling, descend}
use netcwmp.Xml.{Xml, elem, get_node_value, get_child_with_name}
use netcwmp.Soap.{names_of, document, get_rpc_method_name, get_rpc_method_node}
use netcwmp.Fault.{Parameter}
use netcwmp.Response.{create_getparametervalues_response, create_setparametervalues_response}
use netcwmp.Request.{siblings, node_of}
use netcwmp.Request.Values.{read_node, read_field, read_named, name_in, set_node, set_field}
use netcwmp.Request.Values.Sets.{set_each}
use netcwmp.Request.Values.Reads.{Reads}
use netcwmp.Rpc.{
  reply, undefined, header_of, respond_getparametervalues, respond_setparametervalues,
}
use netcwmp.Rpc.Samples.{names, tree, device, memory, with_text, request}
use netcwmp.Rpc.Dispatch.{Request, method_name, respond, dispatch}
use netcwmp.Rpc.Method.{Answers}
use netcwmp.Rpc.Answered.{dispatch-Answers}
use netcwmp.Rpc.Tasks.{Leaves, Queued, respond-Queued}
use netcwmp.Rpc.Values.{
  listed, HasList, respond_getparametervalues-Reads, respond_getparametervalues_many,
}
use netcwmp.Rpc.Settings.{
  settings, settings_document, respond_setparametervalues-settings,
  respond_setparametervalues_unknown,
}

abbrev reboot : Xml
reboot = request (codes "cwmp:Reboot") (with_text (codes "CommandKey") (codes "k") Xml.null)

reboot-method : get_rpc_method_name names reboot ≡ some (method_name Request.reboot)
unfolding names_of get_rpc_method_name case_eq bytes_eq method_name document get_child_with_name
reboot-method = refl

dispatch-Answers_example : Answers names (codes "cwmp:Reboot") (dispatch names memory reboot device)
unfolding method_name
dispatch-Answers_example =
    dispatch-Answers (codes "SOAP-ENV") (codes "SOAP-ENC") (omega arith) memory Request.reboot
      reboot device reboot-method

respond-Queued_example :
    Queued names memory reboot device []
      (pos 3)
      none
      (respond names memory Request.reboot reboot device)
respond-Queued_example =
    respond-Queued names memory reboot device [] (ground arith) refl
      (record { chain = tt; first = refl; last = refl; size = refl }) refl Request.reboot (pos 3)
      none Leaves.a_reboot

-- A request for the parameter Root.Time, `k` times.
abbrev names_nodes : ℕ → Xml → Xml
names_nodes zero next = next
names_nodes (suc k) next = with_text (codes "string") (codes "Root.Time") (names_nodes k next)

abbrev get_request : Xml → Xml
get_request nodes =
    request (codes "cwmp:GetParameterValues") (elem (codes "ParameterNames") none [] nodes Xml.null)

-- What is read in the state `s`.
abbrev time_at : ℕ → Parameter
time_at s = record {
  name = some (codes "Root.Time");
  value = some (s ∷ []);
  type = ParamType.string;
  fault_code = pos 0;
}

abbrev times_from : ℕ → ℕ → List Parameter
times_from zero s = []
times_from (suc k) s = time_at s ∷ times_from k (s + 1)

abbrev state_after : ℕ → ℕ → ℕ
state_after zero s = s
state_after (suc k) s = state_after k (s + 1)

times-Reads :
    (k s : ℕ) → Reads tree (siblings (names_nodes k Xml.null)) s (times_from k s) (state_after k s)
unfolding siblings read_node read_field node_of get_parameter_node node_loop find_sibling descend
    get_node_value nodename bytes_eq
times-Reads zero s = Reads.done
times-Reads (suc k) s = Reads.more refl (times-Reads k (s + 1))

request-Reads :
    (k : ℕ)
    → Reads tree
        (listed names (get_request (names_nodes k Xml.null)) (codes "ParameterNames"))
        48
        (times_from k 48)
        (state_after k 48)
unfolding names_of document get_rpc_method_node get_child_with_name case_eq bytes_eq
request-Reads k = times-Reads k 48

request-HasList : (nodes : Xml) → HasList names (get_request nodes) (codes "ParameterNames")
unfolding names_of document get_rpc_method_node get_child_with_name case_eq bytes_eq
request-HasList nodes = refl

respond_getparametervalues-Reads_example :
    respond_getparametervalues names memory (get_request (names_nodes 2 Xml.null)) device
    ≡ reply
        (some (
          create_getparametervalues_response names
            (header_of names (get_request (names_nodes 2 Xml.null)))
            (time_at 48 ∷ time_at 49 ∷ [])))
        (record device { state = 50 })
respond_getparametervalues-Reads_example =
    respond_getparametervalues-Reads names memory (get_request (names_nodes 2 Xml.null)) device
      (time_at 48 ∷ time_at 49 ∷ []) 50 (request-HasList _) (request-Reads 2) (omega arith)

respond_getparametervalues_many_example :
    respond_getparametervalues names memory (get_request (names_nodes 32 Xml.null)) device
    ≡ undefined
respond_getparametervalues_many_example =
    respond_getparametervalues_many names memory (get_request (names_nodes 32 Xml.null)) device
      (times_from 32 48) 80 (request-HasList _) (request-Reads 32) (omega arith)

-- A time, a name that is not known, a time.
abbrev unknown : Xml
unknown = with_text (codes "string") (codes "Root.Foo") (names_nodes 1 Xml.null)

abbrev time_unknown : Xml
time_unknown = with_text (codes "string") (codes "Root.Time") unknown

time_unknown-listed :
    listed names (get_request time_unknown) (codes "ParameterNames")
    ≡ (time_unknown ∷ []) ++ unknown ∷ names_nodes 1 Xml.null ∷ []
unfolding names_of document get_rpc_method_node get_child_with_name case_eq bytes_eq siblings
time_unknown-listed = refl

time-Reads : Reads tree (time_unknown ∷ []) 48 (time_at 48 ∷ []) 49
unfolding read_node read_field node_of get_parameter_node node_loop find_sibling descend
    get_node_value nodename bytes_eq
time-Reads = Reads.more refl Reads.done

unknown-named : read_named tree (get_node_value unknown) 49 ≡ (inl (pos 9003), 49)
unfolding read_node node_of get_parameter_node node_loop find_sibling descend get_node_value
    nodename bytes_eq
unknown-named = refl

-- A value for a parameter.
abbrev setting : Bytes → Xml → Xml
setting name next =
    elem (codes "ParameterValueStruct") none []
      (with_text (codes "Name") name (with_text (codes "Value") (codes "1") Xml.null)) next

abbrev set_request : Xml → Xml
set_request nodes =
    request (codes "cwmp:SetParameterValues") (elem (codes "ParameterList") none [] nodes Xml.null)

abbrev two_settings : Xml
two_settings = set_request (setting (codes "Root.Time") (setting (codes "Root.Foo") Xml.null))

set-HasList : (nodes : Xml) → HasList names (set_request nodes) (codes "ParameterList")
unfolding names_of document get_rpc_method_node get_child_with_name case_eq bytes_eq
set-HasList nodes = refl

two_settings-IsShort :
    All (λ x. Params.IsShort (name_in x)) (listed names two_settings (codes "ParameterList"))
unfolding names_of document get_rpc_method_node get_child_with_name case_eq siblings get_node_value
    bytes_eq
two_settings-IsShort = (refl, (refl, tt))

two_settings-length : length (settings names memory two_settings device).0 ≡ 1
unfolding names_of document get_rpc_method_node get_child_with_name case_eq siblings set_each
    set_node set_field node_of get_parameter_node node_loop find_sibling descend get_node_value
    nodename bytes_eq
two_settings-length = refl

respond_setparametervalues-settings_example :
    respond_setparametervalues names memory two_settings device
    ≡ reply
        (some (
          settings_document names memory two_settings device
            (settings names memory two_settings device).0))
        (record device { state = (settings names memory two_settings device).1 })
respond_setparametervalues-settings_example =
    respond_setparametervalues-settings names memory two_settings device (set-HasList _)
      two_settings-IsShort (omega (arith, two_settings-length))

abbrev unknown_setting : Xml
unknown_setting = set_request (setting (codes "Root.Foo") Xml.null)

unknown_setting-null :
    All
      (λ x. node_of tree (name_in x) ≡ Params.null)
      (listed names unknown_setting (codes "ParameterList"))
unfolding names_of document get_rpc_method_node get_child_with_name case_eq siblings node_of
    get_parameter_node node_loop find_sibling descend get_node_value nodename bytes_eq
unknown_setting-null = (refl, tt)

unknown_setting-IsShort :
    All (λ x. Params.IsShort (name_in x)) (listed names unknown_setting (codes "ParameterList"))
unfolding names_of document get_rpc_method_node get_child_with_name case_eq siblings get_node_value
    bytes_eq
unknown_setting-IsShort = (refl, tt)

respond_setparametervalues_unknown_example :
    respond_setparametervalues names memory unknown_setting device
    ≡ reply
        (some (create_setparametervalues_response names (header_of names unknown_setting) (pos 0)))
        device
respond_setparametervalues_unknown_example =
    respond_setparametervalues_unknown names memory unknown_setting device (set-HasList _)
      unknown_setting-IsShort unknown_setting-null
