-- ===== src/Response/Tests.antt =====
-- Documents for the ACS.
use netcwmp.Common.{ℕ, ◌≡◌, refl, true, false, [], ◌∷◌, none, some, codes, length, bytes_eq}
use netcwmp.Types.{ParamType}
use netcwmp.Field.{Field, is_template}
use netcwmp.Params
use netcwmp.Params.{Node, node}
use netcwmp.Soap.{Names, names_of}
use netcwmp.Response.InformMessage.{DataTime, DeviceId}
use netcwmp.Response.ParameterNames.{create_getparameternames_response, names_document, child_path}
use netcwmp.Response.ParameterNames.Preorder.{
  info_structs, asked, create_getparameternames_response-asked,
}

abbrev names : Names
names = names_of (codes "SOAP-ENV") (codes "SOAP-ENC")

abbrev deviceid : DeviceId
deviceid = record {
  manufactorer = some (codes "M");
  oui = none;
  product_class = none;
  serial_number = some (codes "1");
}

abbrev time : DataTime
time = record { year = 2013; month = 1; day = 2; hour = 3; min = 4; sec = 5 }

abbrev object : Field ℕ
object = record {
  rw = 0;
  type = ParamType.object;
  value = none;
  get = none;
  set = none;
  add = none;
  del = none;
}

abbrev leaf : Field ℕ
leaf = record object { rw = 1; type = ParamType.string }

-- Lan with a template, an instance of it and a parameter.
abbrev children : Node (Field ℕ)
children =
    node (some (codes "{i}")) object (node (some (codes "Ip")) leaf Params.null Params.null) (
      node (some (codes "1")) object (node (some (codes "Ip")) leaf Params.null Params.null)
        (node (some (codes "Up")) leaf Params.null Params.null))

four_names :
    asked (codes "Lan.") 0 children true false
    ≡ (codes "Lan.", 0) ∷ (codes "Lan.1.", 0) ∷ (codes "Lan.1.Ip", 1) ∷ (codes "Lan.Up", 1) ∷ []
unfolding asked is_template child_path bytes_eq
four_names = refl

create_getparameternames_response-asked_example :
    create_getparameternames_response names none
      (codes "Lan.")
      (node (some (codes "Lan")) object children Params.null)
      true
      false
    ≡ some (
        names_document names none (
          info_structs (asked (codes "Lan.") 0 children true false),
          length (asked (codes "Lan.") 0 children true false),
        ))
create_getparameternames_response-asked_example =
    create_getparameternames_response-asked names none (codes "Lan.") (some (codes "Lan")) object
      children Params.null true false
