-- ===== src/Inform/Tests.antt =====
-- An Inform of a device that has a summary and a getter that counts its calls.
use netcwmp.Common.{ℕ, ◌+◌, [], ◌∷◌, ◌++◌, Option, none, some, Bytes, codes, ℤ, pos, ◌≡◌, refl}
use netcwmp.Event.Inform.{boot_entry}
use netcwmp.Field.{Field}
use netcwmp.Inform.{
  Facts, inform_paths, wan_path, wan_name, append_parameter_name, session_inform_message,
  create_header, get_sequence,
}
use netcwmp.Inform.Forced.{answers, is_path-IsPath, session_inform_message-answers}
use netcwmp.Params.{Node, null, node}
use netcwmp.Response.InformMessage.{create_inform_message}
use netcwmp.Soap.{names_of}
use netcwmp.Types.{ParamType}

abbrev plain : Option (ℕ → Bytes → ℤ × Option Bytes × ℕ) → Option Bytes → Field ℕ
plain get value = record {
  rw = 0;
  type = ParamType.string;
  value = value;
  get = get;
  set = none;
  add = none;
  del = none;
}

abbrev root : Node (Field ℕ)
root =
    node (some (codes "InternetGatewayDevice")) (plain none none)
      (node (some (codes "DeviceSummary")) (plain none (some (codes "1.0"))) null (
        node (some (codes "ManagementServer")) (plain none none)
          (node (some (codes "URL"))
            (plain (some (λ s name. (pos 0, some (codes "http://acs"), s + 1))) none) null null)
          null))
      null

abbrev facts : Facts
facts = record {
  names = names_of (codes "SOAP-ENV") (codes "SOAP-ENC");
  device = record {
    manufactorer = some (codes "Acme");
    oui = none;
    product_class = none;
    serial_number = none;
  };
  interface = none;
  now = record { year = 2014; month = 5; day = 1; hour = 10; min = 0; sec = 0 };
  retry_count = 0;
}

session_inform_message-answers_example : session_inform_message facts root (boot_entry ∷ []) 7 0 ≡ (
  create_inform_message facts.names
      (some (create_header 7).1)
      facts.device
      (boot_entry ∷ [])
      facts.now
      1
      0
      (answers root (inform_paths ++ wan_path ∷ []) 0).0,
  (get_sequence 7).0,
  (answers root (inform_paths ++ wan_path ∷ []) 0).1,
)
unfolding wan_name append_parameter_name
session_inform_message-answers_example =
    session_inform_message-answers facts root (boot_entry ∷ []) 7 wan_path 0 refl
      (is_path-IsPath wan_path refl)
