-- ===== src/Response/InformMessage.antt =====
-- The Inform message of libcwmp/src/cwmp.c.
use netcwmp.Common.{
  ℕ, List, [], ◌∷◌, ◌++◌, Option, none, some, Bytes, codes, pos, itoa, length, replicate, ◌-◌, ◌==◌,
  if◌then◌else◌,
}
use netcwmp.Event.{EventCode, inform_mreboot}
use netcwmp.Xml.{Xml, null, elem, leaf}
use netcwmp.Soap.{Names, Header, document}
use netcwmp.Fault.{Parameter}
use netcwmp.Response.{array_type_of, xsd_string, rpc}

-- `datatime_t`
pub record DataTime : Type 0 where
  pub year : ℕ
  pub month : ℕ
  pub day : ℕ
  pub hour : ℕ
  pub min : ℕ
  pub sec : ℕ

-- A number with leading bytes up to a width: `%02d` and `%4d`.
unfoldable pub padded : ℕ → ℕ → ℕ → Bytes
padded fill width n = let s = itoa (pos n) in replicate (width - length s) fill ++ s

-- The text of a time.
unfoldable pub time_string : DataTime → Bytes
unfolding padded
time_string t =
    padded 32 4 t.year
    ++ codes "-"
    ++ padded 48 2 t.month
    ++ codes "-"
    ++ padded 48 2 t.day
    ++ codes "T"
    ++ padded 48 2 t.hour
    ++ codes ":"
    ++ padded 48 2 t.min
    ++ codes ":"
    ++ padded 48 2 t.sec

-- `cwmp_create_current_time_node`, before its next sibling.
unfoldable pub create_current_time_node : DataTime → Xml → Xml
unfolding time_string
create_current_time_node t next =
    leaf (codes "CurrentTime") (some (time_string t))
      ((codes "xsi:type", codes "xsd:dateTime") ∷ []) next

-- The loop of `cwmp_create_event_node`.
unfoldable pub event_structs : List EventCode → Xml
event_structs [] = null
event_structs (e ∷ es) =
    elem (codes "EventStruct") none []
      (leaf (codes "EventCode") e.code xsd_string (
        leaf (codes "CommandKey") (if e.event == inform_mreboot then some e.command_key else none)
          [] null))
      (event_structs es)

-- `cwmp_create_event_node`
unfoldable pub create_event_node : Names → List EventCode → Xml → Xml
unfolding event_structs
create_event_node n es next =
    elem (codes "Event") none (array_type_of n (codes "cwmp:EventStruct") (length es) ∷ [])
      (event_structs es) next

-- `device_id_t`
pub record DeviceId : Type 0 where
  pub manufactorer : Option Bytes
  pub oui : Option Bytes
  pub product_class : Option Bytes
  pub serial_number : Option Bytes

-- `cwmp_create_device_id_node`
unfoldable pub create_device_id_node : DeviceId → Xml → Xml
create_device_id_node d next =
    elem (codes "DeviceId") none ((codes "xsi:type", codes "cwmp:DeviceIdStruct") ∷ [])
      (leaf (codes "Manufacturer") d.manufactorer xsd_string (
        leaf (codes "OUI") d.oui xsd_string (
          leaf (codes "ProductClass") d.product_class xsd_string
            (leaf (codes "SerialNumber") d.serial_number xsd_string null))))
      next

abbrev unsigned_int : List (Bytes × Bytes)
unsigned_int = (codes "xsi:type", codes "xsd:unsignedInt") ∷ []

-- `cwmp_create_max_envelope_node` and `cwmp_create_retry_count_node`, for a number that `%d` prints
-- as it is, one below 2 ^ 31.
unfoldable pub create_max_envelope_node : ℕ → Xml → Xml
create_max_envelope_node max_envelope next =
    leaf (codes "MaxEnvelopes") (some (itoa (pos max_envelope))) unsigned_int next

unfoldable pub create_retry_count_node : ℕ → Xml → Xml
create_retry_count_node retry_count next =
    leaf (codes "RetryCount") (some (itoa (pos retry_count))) unsigned_int next

-- The loop of `cwmp_create_parameter_list_node`.
unfoldable pub string_structs : List Parameter → Xml
string_structs [] = null
string_structs (p ∷ ps) =
    elem (codes "ParameterValueStruct") none []
      (leaf (codes "Name") p.name xsd_string (leaf (codes "Value") p.value xsd_string null))
      (string_structs ps)

-- `cwmp_create_parameter_list_node`, the last child of its parent.
unfoldable pub create_parameter_list_node : Names → List Parameter → Xml
unfolding string_structs
create_parameter_list_node n pl =
    elem (codes "ParameterList") none
      (array_type_of n (codes "cwmp:ParameterValueStruct") (length pl) ∷ []) (string_structs pl)
      null

-- `cwmp_create_inform_message`
unfoldable pub create_inform_message :
    Names → Option Header → DeviceId → List EventCode → DataTime → ℕ → ℕ → List Parameter → Xml
unfolding create_device_id_node create_event_node create_max_envelope_node create_current_time_node
    create_retry_count_node create_parameter_list_node
create_inform_message n header deviceid events currentt max_envelope retry_count pl =
    document n header (
      rpc (codes "cwmp:Inform") (
        create_device_id_node deviceid (
          create_event_node n events (
            create_max_envelope_node max_envelope (
              create_current_time_node currentt
                (create_retry_count_node retry_count (create_parameter_list_node n pl)))))))
