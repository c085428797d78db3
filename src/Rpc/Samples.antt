-- ===== src/Rpc/Samples.antt =====
-- A small device and the parts of requests, for the tests of the answers of
-- libcwmp/src/session.c.
use netcwmp.Common.{ℕ, ◌+◌, true, [], ◌∷◌, none, some, Bytes, codes, pos}
use netcwmp.Types.{ParamType}
use netcwmp.Field.{Field}
use netcwmp.Params
use netcwmp.Params.{Node, node, get_parameter_node, node_loop, nodename, find_sibling, descend}
use netcwmp.Queue.{Queue}
use netcwmp.Xml
use netcwmp.Xml.{Xml, elem, other, leaf, get_node_value, get_child_with_name}
use netcwmp.Soap.{Names, names_of, document, received}
use netcwmp.Response.{rpc}
use netcwmp.Rpc.{Argument, Device, Memory}

abbrev pub names : Names
names = names_of (codes "SOAP-ENV") (codes "SOAP-ENC")

-- A parameter that reads and writes a number of the state as one byte, and an object.
abbrev pub plain : Field ℕ
plain = record {
  rw = 1;
  type = ParamType.string;
  value = none;
  get = some (λ s name. (pos 0, some (s ∷ []), s + 1));
  set = some (λ s name value. (pos 0, s + 5));
  add = none;
  del = none;
}

abbrev pub object : Field ℕ
object = record plain { type = ParamType.object; get = none; set = none }

abbrev pub tree : Node (Field ℕ)
tree =
    node (some (codes "Root")) object (node (some (codes "Time")) plain Params.null Params.null)
      Params.null

abbrev pub no_tasks : Queue Argument
no_tasks = record { heap = λ p. none; size = 0; first = 0; last = 0 }

abbrev pub device : Device ℕ
device = record { root = tree; state = 48; queue = no_tasks }

abbrev pub memory : Memory
memory = record { fresh = 7; cloned = true; status = pos 0 }

-- A text node, an element around a text.
abbrev pub text : Bytes → Xml
text s = other Xml.Kind.text none (some s) Xml.null

abbrev pub with_text : Bytes → Bytes → Xml → Xml
with_text name s next = elem name none [] (text s) next

abbrev pub request : Bytes → Xml → Xml
request method children = received (document names none (rpc method children))
