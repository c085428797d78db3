-- ===== src/Rpc.antt =====
-- The answers to the requests of the ACS: `cwmp_session_create_..._response_message` of
-- libcwmp/src/session.c, and their choice by the method in `cwmp_agent_analyse_session` of
-- cwmpd/src/agent.c.
pub mod Dispatch
pub mod Method
pub mod Values
mod Samples
mod Tests
pub mod Tasks
pub mod Settings
pub mod Answered
use netcwmp.Common.{
  ℕ, Bool, true, false, List, [], ◌∷◌, map, Option, none, some, Bytes, codes, bytes_eq, ℤ, pos,
  if◌then◌else◌,
}
use netcwmp.Field.{Field}
use netcwmp.Params.{Node}
use netcwmp.Queue.{Ptr, Queue, queue_push}
use netcwmp.Xml.{Xml}
use netcwmp.Soap.{Names, Header, get_header_node, parse_header_node, get_rpc_method_name}
use netcwmp.Fault.{
  Parameter, create_faultcode_response, create_faultcode_setparametervalues_response,
}
use netcwmp.Response.{
  create_getrpcmethods_response, create_getparametervalues_response,
  create_setparametervalues_response, create_download_response, create_upload_response,
  create_addobject_response, create_deleteobject_response, create_reboot_response,
  create_factoryreset_response,
}
use netcwmp.Response.ParameterNames.{create_getparameternames_response}
use netcwmp.Request.{ParameterList, written, parse_getparameternames_message}
use netcwmp.Request.Values.{
  Outcome, parse_getparametervalues_message, parse_setparametervalues_message,
}
use netcwmp.Request.Objects.{
  Answer, get_parameter_path_node, ends_in_dot, parse_addobject_message, parse_deleteobject_message,
}
use netcwmp.Request.Transfer.{
  DownloadArg, UploadArg, parse_download_message, parse_upload_message, clone_download_arg,
  clone_upload_arg, parse_reboot_message,
}

-- What a task of the queue points to.
pub data Argument : Type 0 where
  download : DownloadArg → Argument
  upload : UploadArg → Argument

-- The device as the answers see it: its parameters, their state and the task queue. What a function
-- of a parameter does through `callback_register_task` counts to the state.
pub record Device (S : Type 0) : Type 0 where
  pub root : Node (Field S)
  pub state : S
  pub queue : Queue Argument

-- What memory holds: the address that `malloc` returns for a node of the queue, whether it returns
-- one for a copied argument, and what the variable `status` holds, which nothing sets.
pub record Memory : Type 0 where
  pub fresh : Ptr
  pub cloned : Bool
  pub status : ℤ

-- A document, or NULL, and the device; or a null or uninitialised pointer is followed.
pub data Reply (S : Type 0) : Type 0 where
  undefined : Reply S
  reply : Option Xml → Device S → Reply S

-- The names in `rpc_methods`.
abbrev pub rpc_methods : List (Option Bytes)
rpc_methods =
    some (codes "GetRPCMethods")
    ∷ some (codes "SetParameterValues")
    ∷ some (codes "GetParameterValues")
    ∷ some (codes "GetParameterNames")
    ∷ some (codes "SetParameterAttributes")
    ∷ some (codes "GetParameterAttributes")
    ∷ some (codes "Download")
    ∷ some (codes "Upload")
    ∷ some (codes "Reboot")
    ∷ some (codes "FactoryReset")
    ∷ some (codes "Inform")
    ∷ []

-- The header of a request.
unfoldable pub header_of : Names → Xml → Option Header
header_of n doc = parse_header_node (get_header_node n doc)

-- The parameters of a list, where there is one and each place has been written.
unfoldable pub parameters_of : Option ParameterList → Option (List Parameter)
parameters_of none = none
parameters_of (some pl) = written pl.places

module _ {S : Type 0} (n : Names) (mem : Memory) where
  -- `cwmp_session_create_getrpcmethods_response_message`
  unfoldable pub respond_getrpcmethods : Xml → Device S → Reply S
  unfolding header_of
  respond_getrpcmethods doc d =
      reply (create_getrpcmethods_response n (header_of n doc) (some rpc_methods) 11) d

  -- The answer for a path; an empty path has no last byte.
  unfoldable pub names_reply : Option Header → Option Bytes → Bool → Device S → Reply S
  names_reply header none level d = undefined
  names_reply header (some path) level d = elim (ends_in_dot path) [
    | none ↦ undefined
    | some subset ↦ elim (get_parameter_path_node d.root (some path)) [
      | none ↦ reply none d
      | some (found, above) ↦
          reply (create_getparameternames_response n header path found subset level) d
    ]
  ]

  -- `cwmp_session_create_getparameternames_response_message`
  unfoldable pub respond_getparameternames : Xml → Device S → Reply S
  unfolding header_of names_reply
  respond_getparameternames doc d =
      let (path, level) = parse_getparameternames_message n doc in
      names_reply (header_of n doc) path level d

  unfoldable pub values_reply : Option Header → Outcome S → Device S → Reply S
  unfolding parameters_of
  values_reply header o d = elim (parameters_of o.list) [
    | none ↦ undefined
    | some ps ↦
        reply (some (create_getparametervalues_response n header ps)) (record d { state = o.state })
  ]

  -- `cwmp_session_create_getparametervalues_response_message`, which does not look at what the parser
  -- returns.
  unfoldable pub respond_getparametervalues : Xml → Device S → Reply S
  unfolding header_of values_reply
  respond_getparametervalues doc d =
      values_reply (header_of n doc) (parse_getparametervalues_message n d.root doc d.state) d

  unfoldable pub set_fault_reply : Option Header → Outcome S → Device S → Reply S
  unfolding parameters_of
  set_fault_reply header o d = elim (parameters_of o.list) [
    | none ↦ undefined
    | some ps ↦ elim o.fault [
      | none ↦ undefined
      | some code ↦
          reply (some (create_faultcode_setparametervalues_response n header ps code))
            (record d { state = o.state })
    ]
  ]

  unfoldable pub set_reply : Option Header → Outcome S → Device S → Reply S
  unfolding set_fault_reply
  set_reply header o d =
      let fault = set_fault_reply header o d in
      if o.ok
      then reply (some (create_setparametervalues_response n header (pos 0)))
          (record d { state = o.state })
      else fault

  -- `cwmp_session_create_setparametervalues_response_message`
  unfoldable pub respond_setparametervalues : Xml → Device S → Reply S
  unfolding header_of set_reply
  respond_setparametervalues doc d =
      set_reply (header_of n doc) (parse_setparametervalues_message n d.root doc d.state) d

  -- `queue_push` of a task, and the document.
  unfoldable pub pushed_reply : Option Argument → ℤ → Xml → Device S → Reply S
  pushed_reply content tag answer d = elim (queue_push mem.fresh content tag d.queue) [
    | none ↦ undefined
    | some q ↦ reply (some answer) (record d { queue = q })
  ]

  -- `cwmp_session_create_download_response_message`; the tag is `TASK_DOWNLOAD_TAG`.
  unfoldable pub respond_download : Xml → Device S → Reply S
  unfolding header_of pushed_reply
  respond_download doc d =
      let answer = create_download_response n (header_of n doc) (pos 1) in
      elim (clone_download_arg mem.cloned (some (parse_download_message n doc))) [
        | none ↦ reply (some answer) d
        | some a ↦ pushed_reply (some (Argument.download a)) (pos 1) answer d
      ]

  -- `cwmp_session_create_upload_response_message`; the tag is `TASK_UPLOAD_TAG`.
  unfoldable pub respond_upload : Xml → Device S → Reply S
  unfolding header_of pushed_reply
  respond_upload doc d =
      let answer = create_upload_response n (header_of n doc) (pos 1) in
      elim (clone_upload_arg mem.cloned (some (parse_upload_message n doc))) [
        | none ↦ reply (some answer) d
        | some a ↦ pushed_reply (some (Argument.upload a)) (pos 2) answer d
      ]

  -- The end of the answers to AddObject and DeleteObject: the document for the number of the instance.
  unfoldable pub object_reply : Option Header → (ℤ → Xml) → Answer S → Device S → Reply S
  object_reply header answer Answer.crash d = undefined
  object_reply header answer (Answer.refused code s) d =
      reply (some (create_faultcode_response n header code)) (record d { state = s })
  object_reply header answer (Answer.accepted number s) d =
      reply (some (answer number)) (record d { state = s })

  -- `cwmp_session_create_addobject_response_message`
  unfoldable pub respond_addobject : Xml → Device S → Reply S
  unfolding header_of object_reply
  respond_addobject doc d =
      object_reply (header_of n doc)
        (λ number. create_addobject_response n (header_of n doc) number mem.status)
        (parse_addobject_message n d.root doc d.state) d

  -- `cwmp_session_create_deleteobject_response_message`
  unfoldable pub respond_deleteobject : Xml → Device S → Reply S
  unfolding header_of object_reply
  respond_deleteobject doc d =
      object_reply (header_of n doc)
        (λ number. create_deleteobject_response n (header_of n doc) mem.status)
        (parse_deleteobject_message n d.root doc d.state) d

  -- `cwmp_session_create_reboot_response_message`; the tag is `TASK_REBOOT_TAG`. What
  -- `cwmp_parse_reboot_message` returns and stores is not used.
  unfoldable pub respond_reboot : Xml → Device S → Reply S
  unfolding header_of pushed_reply
  respond_reboot doc d = pushed_reply none (pos 3) (create_reboot_response n (header_of n doc)) d

  -- `cwmp_session_create_factoryreset_response_message`; the tag is `TASK_FACTORYRESET_TAG`.
  unfoldable pub respond_factoryreset : Xml → Device S → Reply S
  unfolding header_of pushed_reply
  respond_factoryreset doc d =
      pushed_reply none (pos 4) (create_factoryreset_response n (header_of n doc)) d
