-- ===== src/Response.antt =====
-- The documents that libcwmp/src/cwmp.c makes in answer to the ACS, and `TransferComplete`. The
-- functions for GetParameterNames are in ParameterNames, those for the Inform in InformMessage.
pub mod InformMessage
pub mod ParameterNames
mod Tests
pub mod Envelopes
use netcwmp.Common.{
  ℕ, zero, suc, ◌+◌, Bool, List, [], ◌∷◌, ◌++◌, Option, none, some, Bytes, codes, ℤ, pos, itoa,
  length, ◌==◌, if◌then◌else◌,
}
use netcwmp.Types.{get_type_string}
use netcwmp.Event.{EventCode}
use netcwmp.Xml.{Xml, null, elem, leaf}
use netcwmp.Soap.{Names, Header, document}
use netcwmp.Fault.{Parameter, is_ok, fault_nodes}

-- The attribute with the type and length of an array.
unfoldable pub array_type_of : Names → Bytes → ℕ → Bytes × Bytes
array_type_of n type count = (n.array_type, type ++ codes "[" ++ itoa (pos count) ++ codes "]")

abbrev pub xsd_string : List (Bytes × Bytes)
xsd_string = (codes "xsi:type", codes "xsd:string") ∷ []

-- A method without attributes.
abbrev pub rpc : Bytes → Xml → Xml
rpc name children = elem name none [] children null

-- The loop over the names of the methods: `count` of them, up to a null pointer.
unfoldable pub method_strings : ℕ → List (Option Bytes) → Xml
method_strings zero ms = null
method_strings (suc k) [] = null
method_strings (suc k) (none ∷ ms) = null
method_strings (suc k) (some m ∷ ms) = leaf (codes "string") (some m) [] (method_strings k ms)

-- `cwmp_create_getrpcmethods_response_message`
unfoldable pub create_getrpcmethods_response :
    Names → Option Header → Option (List (Option Bytes)) → ℕ → Option Xml
unfolding method_strings array_type_of
create_getrpcmethods_response n header none count = none
create_getrpcmethods_response n header (some methods) count = some (
    document n header (
      rpc (codes "cwmp:GetRPCMethodsResponse") (
        elem (codes "MethodList") none
          ((codes "xmlns:" ++ n.env, codes "http://schemas.xmlsoap.org/soap/envelope/")
            ∷ array_type_of n (codes "xsd:string") count
            ∷ [])
          (method_strings count methods) null)))

-- The loop of the next function.
unfoldable pub value_structs : List Parameter → Xml
value_structs [] = null
value_structs (p ∷ ps) =
    elem (codes "ParameterValueStruct") none []
      (leaf (codes "Name") p.name xsd_string
        (leaf (codes "Value") p.value ((codes "xsi:type", get_type_string p.type) ∷ []) null))
      (value_structs ps)

-- `cwmp_create_getparametervalues_response_message`
unfoldable pub create_getparametervalues_response : Names → Option Header → List Parameter → Xml
unfolding value_structs array_type_of
create_getparametervalues_response n header pl = document n header (
    rpc (codes "cwmp:GetParameterValuesResponse") (
      elem (codes "ParameterList") none
        (array_type_of n (codes "cwmp:ParameterValueStruct") (length pl) ∷ []) (value_structs pl)
        null))

-- The node `Status`, with the value of `status == 0 ? "0" : "1"`.
unfoldable pub status_node : ℤ → Xml → Xml
status_node status next =
    leaf (codes "Status") (some (if is_ok status then codes "0" else codes "1")) [] next

-- The empty nodes `StartTime` and `CompleteTime`.
abbrev pub time_nodes : Xml
time_nodes = leaf (codes "StartTime") none [] (leaf (codes "CompleteTime") none [] null)

-- `cwmp_create_setparametervalues_response_message`
unfoldable pub create_setparametervalues_response : Names → Option Header → ℤ → Xml
unfolding status_node
create_setparametervalues_response n header status =
    document n header (rpc (codes "cwmp:SetParameterValuesResponse") (status_node status null))

-- `cwmp_create_download_response_message`
unfoldable pub create_download_response : Names → Option Header → ℤ → Xml
unfolding status_node
create_download_response n header status =
    document n header (rpc (codes "cwmp:DownloadResponse") (status_node status time_nodes))

-- `cwmp_create_upload_response_message`
unfoldable pub create_upload_response : Names → Option Header → ℤ → Xml
unfolding status_node
create_upload_response n header status =
    document n header (rpc (codes "cwmp:UploadResponse") (status_node status time_nodes))

-- `cwmp_create_addobject_response_message`
unfoldable pub create_addobject_response : Names → Option Header → ℤ → ℤ → Xml
unfolding status_node
create_addobject_response n header instances status = document n header (
    rpc (codes "cwmp:AddObjectResponse")
      (leaf (codes "InstanceNumber") (some (itoa instances)) [] (status_node status null)))

-- `cwmp_create_deleteobject_response_message`
unfoldable pub create_deleteobject_response : Names → Option Header → ℤ → Xml
unfolding status_node
create_deleteobject_response n header status =
    document n header (rpc (codes "cwmp:DeleteObjectResponse") (status_node status null))

-- `cwmp_create_reboot_response_message`
unfoldable pub create_reboot_response : Names → Option Header → Xml
create_reboot_response n header = document n header (rpc (codes "cwmp:RebootResponse") null)

-- `cwmp_create_factoryreset_response_message`
unfoldable pub create_factoryreset_response : Names → Option Header → Xml
create_factoryreset_response n header =
    document n header (rpc (codes "cwmp:FactoryResetResponse") null)

-- The node `FaultStruct` of a transfer that has failed.
pub fault_struct : ℤ → Xml → Xml
fault_struct code next =
    if is_ok code then next else elem (codes "FaultStruct") none [] (fault_nodes code null) next

-- `cwmp_create_transfercomplete_message`
unfoldable pub create_transfercomplete : Names → Option Header → EventCode → Xml
unfolding fault_struct
create_transfercomplete n header evcode = document n header (
    rpc (codes "cwmp:TransferComplete") (
      leaf (codes "CommandKey") (some evcode.command_key) []
        (fault_struct evcode.fault_code time_nodes)))
