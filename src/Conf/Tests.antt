-- ===== src/Conf/Tests.antt =====
-- The name of the device's password.
use netcwmp.Common.{some, codes, ◌≡◌, ◌↔◌, true, without, arith}
use netcwmp.Conf.{conf_split}
use netcwmp.Conf.Names.{with_colon, conf_split-with_colon}

conf_split-with_colon_example :
    (conf_split (codes "cwmp:cpe_password") ≡ (codes "cwmp", some (codes "cpe_password"))) ↔ (
      (codes "cwmp:cpe_password" ≡ with_colon (codes "cwmp") (codes "cpe_password"))
      × (without 58 (codes "cwmp") ≡ true))
conf_split-with_colon_example =
    conf_split-with_colon (codes "cwmp:cpe_password") (codes "cwmp") (codes "cpe_password")
      (omega arith)
