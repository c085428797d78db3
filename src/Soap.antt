-- ===== src/Soap.antt =====
-- The SOAP envelope of libcwmp/src/cwmp.c: its qualified names, the header and body of a document
-- that has been read, and the nodes around the method of a document that is made.
pub mod Lookup
use netcwmp.Common.{
  ℕ, Bool, List, [], ◌∷◌, ◌++◌, Option, none, some, Bytes, codes, bytes_eq, take, ℤ, pos, atoi,
  if◌then◌else◌,
}
use netcwmp.Types.{case_eq}
use netcwmp.Xml.{
  Xml, null, elem, other, first_child, own_name, get_node_value, get_child_with_name, leaf,
}

-- The static buffers `SOAP_ENV` and so on.
pub record Names : Type 0 where
  pub env : Bytes
  pub enc : Bytes
  pub header : Bytes
  pub body : Bytes
  pub envelope : Bytes
  pub fault : Bytes
  pub array_type : Bytes

-- `TRsnprintf(buffer, CWMP_NAME_MAX, "%s:%s", prefix, name)`
unfoldable pub qualified : Bytes → Bytes → Bytes
qualified prefix name = take 31 (prefix ++ 58 ∷ name)

-- The names that are written for two prefixes. `TRstrncpy` copies 32 bytes of a prefix; a longer one
-- leaves `SOAP_ENV` without its NUL.
unfoldable pub names_of : Bytes → Bytes → Names
unfolding qualified
names_of envs encs = record {
  env = take 32 envs;
  enc = take 32 encs;
  header = qualified envs (codes "Header");
  body = qualified envs (codes "Body");
  envelope = qualified envs (codes "Envelope");
  fault = qualified envs (codes "Fault");
  array_type = qualified encs (codes "arrayType");
}

abbrev pub or_default : Bytes → Option Bytes → Bytes
or_default d none = d
or_default d (some s) = s

-- `cwmp_set_envelope_ns`
pub set_envelope_ns : Option Bytes → Option Bytes → Names → Names
unfolding names_of
set_envelope_ns envstr encstr n =
    let envs = or_default (codes "SOAP-ENV") envstr in
    let encs = or_default (codes "SOAP-ENC") encstr in
    if case_eq n.env envs then n else names_of envs encs

-- `XmlNodeGetDocRoot`, of a document that is given by the first child of its node: what it gives is
-- one level below.
abbrev pub doc_root : Xml → Xml
doc_root doc = first_child doc

-- How `cwmp_agent_analyse_session` has what it has received parsed: between `<cwmp>` and `</cwmp>`.
abbrev pub received : Xml → Xml
received doc = elem (codes "cwmp") none [] doc null

-- `cwmp_get_header_node` and `cwmp_get_body_node`
unfoldable pub get_header_node : Names → Xml → Xml
get_header_node n doc = get_child_with_name (doc_root doc) n.header

unfoldable pub get_body_node : Names → Xml → Xml
get_body_node n doc = get_child_with_name (doc_root doc) n.body

-- `cwmp_get_rpc_method_node`
unfoldable pub get_rpc_method_node : Names → Xml → Xml
unfolding get_body_node
get_rpc_method_node n doc = first_child (get_body_node n doc)

-- The test of `cwmp_get_rpc_node` on the name of the node.
pub named_or_null : Bytes → Xml → Xml
named_or_null method null = null
named_or_null method (other k none v next) = null
named_or_null method (other k (some n) v next) =
    if bytes_eq n method then other k (some n) v next else null
named_or_null method (elem n v attrs child next) =
    if bytes_eq n method then elem n v attrs child next else null

-- `cwmp_get_rpc_node`
unfoldable pub get_rpc_node : Names → Xml → Bytes → Xml
unfolding get_rpc_method_node named_or_null
get_rpc_node n doc method = named_or_null method (get_rpc_method_node n doc)

-- `cwmp_get_rpc_method_name`
unfoldable pub get_rpc_method_name : Names → Xml → Option Bytes
unfolding get_rpc_method_node
get_rpc_method_name n doc = own_name (get_rpc_method_node n doc)

-- `header_t`
pub record Header : Type 0 where
  pub id : Option Bytes
  pub hold_requests : ℤ
  pub no_more_requests : ℤ

-- `TRatoi`
abbrev pub atoi_of : Option Bytes → ℤ
atoi_of none = pos 0
atoi_of (some s) = atoi s

-- The identifier of a header, from the node `cwmp:ID`: `CWMP_HEAD_MAX` bytes of its value.
unfoldable pub header_id : Xml → Option Bytes
header_id null = none
header_id node = some (take 64 (or_default [] (get_node_value node)))

-- `cwmp_parse_header_node`; `none` is `CWMP_ERROR` with a null header. Where a node is missing its
-- value is that of no node, which `TRatoi` reads as the zero that is there before.
unfoldable pub parse_header_node : Xml → Option Header
unfolding header_id get_child_with_name
parse_header_node null = none
parse_header_node node = some (record {
  id = header_id (get_child_with_name node (codes "cwmp:ID"));
  hold_requests = atoi_of (get_node_value (get_child_with_name node (codes "cwmp:HoldRequests")));
  no_more_requests =
      atoi_of (get_node_value (get_child_with_name node (codes "cwmp:NoMoreRequests")));
})

-- `cwmp_create_header_node`, before its next sibling.
unfoldable pub create_header_node : Names → Header → Xml → Xml
create_header_node n header next =
    elem n.header none []
      (leaf (codes "cwmp:ID") header.id ((n.env ++ codes ":mustUnderstand", codes "1") ∷ []) null)
      next

-- `cwmp_create_body_node` with the method in it.
unfoldable pub create_body_node : Names → Xml → Xml
create_body_node n rpc = elem n.body none [] rpc null

-- `cwmp_create_envelope_node` with what is in it.
unfoldable pub create_envelope_node : Names → Xml → Xml
create_envelope_node n children =
    elem n.envelope none
      ((codes "xmlns:" ++ n.env, codes "http://schemas.xmlsoap.org/soap/envelope/")
        ∷ (codes "xmlns:" ++ n.enc, codes "http://schemas.xmlsoap.org/soap/encoding/")
        ∷ (codes "xmlns:xsi", codes "http://www.w3.org/1999/XMLSchema-instance")
        ∷ (codes "xmlns:xsd", codes "http://www.w3.org/1999/XMLSchema")
        ∷ (codes "xmlns:cwmp", codes "urn:dslforum-org:cwmp-1-0")
        ∷ [])
      children null

-- The steps with which every message begins: the envelope, the header where there is one, the body.
unfoldable pub document : Names → Option Header → Xml → Xml
unfolding create_envelope_node create_header_node create_body_node
document n none rpc = create_envelope_node n (create_body_node n rpc)
document n (some h) rpc = create_envelope_node n (create_header_node n h (create_body_node n rpc))
