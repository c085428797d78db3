-- ===== src/Inform.antt =====
-- The Inform of a session in libcwmp/src/session.c: its number, its parameters, and the message.
pub mod Forced
mod Tests
use netcwmp.Common.{
  ℕ, zero, suc, ◌+◌, ◌%◌, ◌&&◌, Bool, List, [], ◌∷◌, ◌++◌, Option, none, some, Bytes, codes, pos,
  negsuc, ℤ, itoa, ltb, leb, length, take, ◌-◌, map, if◌then◌else◌,
}
use netcwmp.Event.{EventCode}
use netcwmp.Fault.{Parameter, is_ok}
use netcwmp.Field.{Field}
use netcwmp.Params.{Node, null, node, get_parameter_node}
use netcwmp.Request.{
  ParameterList, create_parameter_list, add_parameter_to_list, get_parameter_node_value, written,
}
use netcwmp.Response.InformMessage.{DataTime, DeviceId, create_inform_message}
use netcwmp.Soap.{Header, Names}
use netcwmp.Types.{ParamType}
use netcwmp.Xml.{Xml}

-- Names with dots between them, as the format strings print them.
unfoldable pub dotted : List Bytes → Bytes
dotted [] = []
dotted (n ∷ []) = n
dotted (n ∷ m ∷ ns) = n ++ 46 ∷ dotted (m ∷ ns)

-- `cwmp_data_append_parameter_name`: NULL where there is no format string. The result is to fit into
-- 1024 bytes.
unfoldable pub append_parameter_name : List Bytes → Option Bytes
unfolding dotted
append_parameter_name ns =
    if leb 1 (length ns) && leb (length ns) 15 then some (dotted ns) else none

-- The parameters that each Inform has.
abbrev device_path : List Bytes → List Bytes
device_path ns = codes "InternetGatewayDevice" ∷ ns

abbrev info_path : Bytes → List Bytes
info_path n = device_path (codes "DeviceInfo" ∷ n ∷ [])

abbrev server_path : Bytes → List Bytes
server_path n = device_path (codes "ManagementServer" ∷ n ∷ [])

abbrev pub inform_paths : List (List Bytes)
inform_paths =
    device_path (codes "DeviceSummary" ∷ [])
    ∷ info_path (codes "Manufacturer")
    ∷ info_path (codes "ManufacturerOUI")
    ∷ info_path (codes "ProductClass")
    ∷ info_path (codes "SerialNumber")
    ∷ info_path (codes "SpecVersion")
    ∷ info_path (codes "HardwareVersion")
    ∷ info_path (codes "SoftwareVersion")
    ∷ info_path (codes "ProvisioningCode")
    ∷ server_path (codes "ConnectionRequestURL")
    ∷ server_path (codes "ParameterKey")
    ∷ server_path (codes "Username")
    ∷ server_path (codes "Password")
    ∷ server_path (codes "ConnectionRequestUsername")
    ∷ server_path (codes "ConnectionRequestPassword")
    ∷ server_path (codes "URL")
    ∷ []

abbrev pub wan_path : List Bytes
wan_path = device_path (
    codes "WANDevice"
    ∷ codes "1"
    ∷ codes "WANConnectionDevice"
    ∷ codes "1"
    ∷ codes "WANIPConnection"
    ∷ codes "1"
    ∷ codes "ExternalIPAddress"
    ∷ [])

-- The last name: that of the configuration, `cwmp:wan_interface`, or `wan_path` where it is missing
-- or empty.
unfoldable pub wan_name : Option Bytes → Option Bytes
unfolding append_parameter_name
wan_name (some (c ∷ name)) = some (c ∷ name)
wan_name _ = append_parameter_name wan_path

module _ {S : Type 0} where
  -- What follows the lookup in `cwmp_data_get_parameter_value`: where the getter is missing or fails,
  -- the value that is stored.
  unfoldable pub value_at : Node (Field S) → Bytes → S → Option Bytes × S
  unfolding get_parameter_node_value
  value_at null name s = (none, s)
  value_at (node n d child next) name s =
      let (rc, value, s') = get_parameter_node_value (node n d child next) name s in
      if is_ok rc then (value, s') else (d.value, s')

  -- `cwmp_data_get_parameter_value`
  unfoldable pub data_get_parameter_value : Node (Field S) → Option Bytes → S → Option Bytes × S
  unfolding value_at
  data_get_parameter_value root none s = (none, s)
  data_get_parameter_value root (some name) s = value_at (get_parameter_node root name) name s

  -- One of the parts of `cwmp_session_create_inform_parameters`.
  unfoldable pub add_value : Node (Field S) → Option Bytes → ParameterList × S → ParameterList × S
  unfolding add_parameter_to_list data_get_parameter_value
  add_value root name (pl, s) =
      let (value, s') = data_get_parameter_value root name s in
      (
        add_parameter_to_list
            (record { name = name; value = value; type = ParamType.string; fault_code = pos 0 }) pl,
        s',
      )

  unfoldable pub add_values :
      Node (Field S) → List (Option Bytes) → ParameterList × S → ParameterList × S
  unfolding add_value
  add_values root [] r = r
  add_values root (n ∷ ns) r = add_values root ns (add_value root n r)

  -- `cwmp_session_create_inform_parameters`
  unfoldable pub create_inform_parameters : Node (Field S) → Option Bytes → S → ParameterList × S
  unfolding add_values
  create_inform_parameters root interface s =
      add_value root (wan_name interface)
        (add_values root (map append_parameter_name inform_paths) (create_parameter_list, s))

-- `cwmp_session_get_sequence`: the number, and the text of it by `%d`.
unfoldable pub get_sequence : ℕ → ℕ × Bytes
get_sequence n =
    let next = (n + 1) % 4294967296 in
    (next, itoa (if ltb next 2147483648 then pos next else negsuc (4294967295 - next)))

-- `cwmp_session_create_header`: the number, the header, and what of its identifier is kept in the
-- session.
unfoldable pub create_header : ℕ → ℕ × Header × Bytes
unfolding get_sequence
create_header n =
    let (next, id) = get_sequence n in
    (next, record { id = some id; hold_requests = pos 0; no_more_requests = pos 0 }, take 128 id)

-- What of the device, the session and the clock goes into an Inform.
pub record Facts : Type 0 where
  pub names : Names
  pub device : DeviceId
  pub interface : Option Bytes
  pub now : DataTime
  pub retry_count : ℕ

abbrev listed : ParameterList → List Parameter
listed pl = elim (written pl.places) [ none ↦ [] | some ps ↦ ps ]

-- `cwmp_session_create_inform_message`: the document, the number, and the state of the device.
unfoldable pub session_inform_message :
    {S : Type 0} → Facts → Node (Field S) → List EventCode → ℕ → S → Xml × ℕ × S
unfolding create_header create_inform_parameters
session_inform_message f root events n s =
    let (next, header, id) = create_header n in
    let (pl, s') = create_inform_parameters root f.interface s in
    (
      create_inform_message f.names (some header) f.device events f.now 1 f.retry_count (listed pl),
      next,
      s',
    )
