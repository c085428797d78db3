-- ===== src/Fault.antt =====
-- The fault codes of libcwmp/src/cwmp.c, and the documents that report them to the ACS.
use netcwmp.Common.{
  ℕ, Bool, false, ◌||◌, List, [], ◌∷◌, Option, none, some, Bytes, codes, ℤ, pos, negsuc, itoa, leb,
  ◌&&◌, ◌==◌, if◌then◌else◌,
}
use netcwmp.Types.{ParamType}
use netcwmp.Xml.{Xml, null, elem, leaf}
use netcwmp.Soap.{Names, Header, document}

-- `parameter_t`; `value` and `name` may be null.
pub record Parameter : Type 0 where
  pub name : Option Bytes
  pub value : Option Bytes
  pub type : ParamType
  pub fault_code : ℤ

-- `FAULT_CODE_OK`
abbrev pub is_ok : ℤ → Bool
is_ok (pos n) = n == 0
is_ok (negsuc n) = false

-- The `switch` of `cwmp_get_fault_string`.
pub fault_text : ℕ → Bytes
fault_text n =
    if n == 9000
    then codes "Method not supported"
    else if n == 9001
    then codes "Request denied"
    else if n == 9002
    then codes "Internal error"
    else if n == 9003
    then codes "Invalid arguments"
    else if n == 9004
    then codes "Resources exceeded"
    else if n == 9005
    then codes "Invalid parameter name"
    else if n == 9006
    then codes "Invalid parameter type"
    else if n == 9007
    then codes "Invalid parameter value"
    else if n == 9008
    then codes "Attempt to set a non-writable parameter"
    else if n == 9009
    then codes "Notification request rejected"
    else if n == 9010
    then codes "Download failure"
    else if n == 9011
    then codes "Upload failure"
    else if n == 9012
    then codes "File transfer server authentication failure"
    else if n == 9013
    then codes "Unsupported protocol for file transfer"
    else if n == 9014
    then codes "Download failure: unable to join multicast group"
    else if n == 9015
    then codes "Download failure: unable to contact file server"
    else if n == 9016
    then codes "Download failure: unable to access file"
    else if n == 9017
    then codes "Download failure: unable to complete download"
    else if n == 9018
    then codes "Download failure: file corrupted"
    else if n == 9019
    then codes "Download failure: file authentication failure"
    else []

-- `cwmp_get_fault_string`
unfoldable pub get_fault_string : ℤ → Bytes
unfolding fault_text
get_fault_string (pos n) = fault_text n
get_fault_string (negsuc n) = []

-- The cases of the `switch` of the fault documents that are faults of the server.
unfoldable pub is_server_fault : ℤ → Bool
is_server_fault (pos n) =
    n == 9000 || n == 9001 || n == 9002 || n == 9004 || leb 9009 n && leb n 9019
is_server_fault (negsuc n) = false

abbrev pub faultcode : ℤ → Bytes
faultcode code = if is_server_fault code then codes "Server" else codes "Client"

-- `FaultCode` and `FaultString` of a code, before further nodes.
unfoldable pub fault_nodes : ℤ → Xml → Xml
fault_nodes code next =
    leaf (codes "FaultCode") (some (itoa code)) []
      (leaf (codes "FaultString") (some (get_fault_string code)) [] next)

-- The node `SOAP-ENV:Fault` with the node `cwmp:Fault`, in which further nodes follow. As in the
-- code, `detail` is in `faultstring`.
unfoldable pub fault_element : Names → ℤ → Xml → Xml
unfolding fault_nodes
fault_element n code more =
    elem n.fault none []
      (leaf (codes "faultcode") (some (faultcode code)) [] (
        elem (codes "faultstring") (some (codes "Client fault")) []
          (elem (codes "detail") none []
            (elem (codes "cwmp:Fault") none [] (fault_nodes code more) null) null)
          null))
      null

-- `cwmp_create_faultcode_response_message`
unfoldable pub create_faultcode_response : Names → Option Header → ℤ → Xml
unfolding fault_element
create_faultcode_response n header code = document n header (fault_element n code null)

-- The loop of the next function. In a list, `none` is a place that has not been written.
pub parameter_faults : List Parameter → Xml
unfolding fault_nodes
parameter_faults [] = null
parameter_faults (p ∷ ps) =
    elem (codes "SetParameterValuesFault") none []
      (leaf (codes "ParameterName") p.name [] (fault_nodes p.fault_code null)) (parameter_faults ps)

-- `cwmp_create_faultcode_setparametervalues_response_message`
unfoldable pub create_faultcode_setparametervalues_response :
    Names → Option Header → List Parameter → ℤ → Xml
unfolding fault_element parameter_faults
create_faultcode_setparametervalues_response n header ps code =
    document n header (fault_element n code (parameter_faults ps))
