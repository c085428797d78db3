-- ===== src/Response/Envelopes.antt =====
-- The number of envelopes of an Inform message of libcwmp/src/cwmp.c.
use netcwmp.Common.{
  ℕ, to_unsigned, ◌≤◌, ◌<◌, List, Option, some, Bytes, itoa, atoi-decimal, length, bytes_eq, ◌≡◌,
  ap, ◌∙◌, arith,
}
use netcwmp.Event.{EventCode}
use netcwmp.Types.{case_eq}
use netcwmp.Xml.{find_name, get_child_with_name}
use netcwmp.Soap.{Header, names_of, received, get_rpc_method_node}
use netcwmp.Soap.Lookup.{get_rpc_method_node-document}
use netcwmp.Fault.{Parameter}
use netcwmp.Response.InformMessage.{
  DataTime, DeviceId, create_device_id_node, create_event_node, create_max_envelope_node,
  create_inform_message,
}
use netcwmp.Request.{parse_inform_response_message}

-- `cwmp_parse_inform_response_message` reads back from the method of an Inform message the number of
-- envelopes that `cwmp_create_inform_message` has put there, for a number below 2 ^ 31 and a prefix of
-- at most 29 bytes.
pub inform_message_envelopes :
    (env enc : Bytes) (header : Option Header) (deviceid : DeviceId) (events : List EventCode)
    (t : DataTime) (max_envelope retry_count : ℕ) (pl : List Parameter)
    → length env ≤ 29
    → max_envelope < 2147483648
    → parse_inform_response_message (
        get_rpc_method_node (names_of env enc) (
          received (
            create_inform_message
              (names_of env enc)
              header
              deviceid
              events
              t
              max_envelope
              retry_count
              pl)))
      ≡ some max_envelope
unfolding create_inform_message parse_inform_response_message get_child_with_name find_name case_eq
    bytes_eq create_device_id_node create_event_node create_max_envelope_node itoa
inform_message_envelopes env enc header deviceid events t max_envelope retry_count pl h lt =
    ap parse_inform_response_message (get_rpc_method_node-document env enc h header _)
    ∙ ap (λ z. some (to_unsigned z)) (atoi-decimal max_envelope (omega (arith, lt)))
    ∙ ap some (omega (arith, lt))
