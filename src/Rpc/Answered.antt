-- ===== src/Rpc/Answered.antt =====
-- The documents that `cwmp_agent_analyse_session` of cwmpd/src/agent.c gets for a request.
use netcwmp.Common.{◌≤◌, some, Bytes, bytes_eq, length, ◌≡◌, refl, inl, ap, ◌∙◌, sym, subst}
use netcwmp.Xml.{Xml}
use netcwmp.Soap.{names_of, get_rpc_method_name}
use netcwmp.Response.{
  create_getrpcmethods_response, create_download_response, create_upload_response,
  create_addobject_response, create_deleteobject_response, create_reboot_response,
  create_factoryreset_response,
}
use netcwmp.Request.{parse_getparameternames_message}
use netcwmp.Request.Values.{parse_getparametervalues_message, parse_setparametervalues_message}
use netcwmp.Request.Objects.{parse_addobject_message, parse_deleteobject_message}
use netcwmp.Request.Transfer.{
  parse_download_message, parse_upload_message, clone_download_arg, clone_upload_arg,
}
use netcwmp.Rpc.{
  Device, Memory, header_of, respond_getrpcmethods, respond_getparameternames,
  respond_getparametervalues, respond_setparametervalues, respond_download, respond_upload,
  respond_reboot, respond_addobject, respond_deleteobject, respond_factoryreset,
}
use netcwmp.Rpc.Dispatch.{Request, method_name, request_of, respond, dispatch_named, dispatch}
use netcwmp.Rpc.Method.{
  Answers, Answers-elim, document-method, names_reply-Answers, values_reply-Answers,
  set_reply-Answers, pushed_reply-Answers, object_reply-Answers,
}

request_of-method_name : (r : Request) → request_of (method_name r) ≡ some r
unfolding request_of method_name bytes_eq
request_of-method_name Request.getrpcmethods = refl
request_of-method_name Request.getparameternames = refl
request_of-method_name Request.getparametervalues = refl
request_of-method_name Request.setparametervalues = refl
request_of-method_name Request.download = refl
request_of-method_name Request.upload = refl
request_of-method_name Request.reboot = refl
request_of-method_name Request.addobject = refl
request_of-method_name Request.deleteobject = refl
request_of-method_name Request.factoryreset = refl

module _ {S : Type 0} (env enc : Bytes) (h : length env ≤ 29) (mem : Memory) where
  respond-Answers :
      (r : Request) (doc : Xml) (d : Device S)
      → Answers (names_of env enc) (method_name r) (respond (names_of env enc) mem r doc d)
  unfolding respond method_name respond_getrpcmethods respond_getparameternames
      respond_getparametervalues respond_setparametervalues respond_download respond_upload
      respond_reboot respond_addobject respond_deleteobject respond_factoryreset
      create_getrpcmethods_response create_download_response create_upload_response
      create_addobject_response create_deleteobject_response create_reboot_response
      create_factoryreset_response
  respond-Answers Request.getrpcmethods doc d = inl (document-method env enc h _ _ _ _ _ _)
  respond-Answers Request.getparameternames doc d =
      let (path, level) = parse_getparameternames_message (names_of env enc) doc in
      names_reply-Answers env enc h mem (header_of (names_of env enc) doc) path level d
  respond-Answers Request.getparametervalues doc d =
      values_reply-Answers env enc h mem (header_of (names_of env enc) doc)
        (parse_getparametervalues_message (names_of env enc) d.root doc d.state) d
  respond-Answers Request.setparametervalues doc d =
      set_reply-Answers env enc h mem (header_of (names_of env enc) doc)
        (parse_setparametervalues_message (names_of env enc) d.root doc d.state) d
  respond-Answers Request.download doc d =
      Answers-elim (names_of env enc) (method_name Request.download)
        (clone_download_arg mem.cloned (some (parse_download_message (names_of env enc) doc))) _ _
        (inl (document-method env enc h _ _ _ _ _ _))
        λ a.
          pushed_reply-Answers env enc h mem (method_name Request.download) _ _ _ d
            (inl (document-method env enc h _ _ _ _ _ _))
  respond-Answers Request.upload doc d =
      Answers-elim (names_of env enc) (method_name Request.upload)
        (clone_upload_arg mem.cloned (some (parse_upload_message (names_of env enc) doc))) _ _
        (inl (document-method env enc h _ _ _ _ _ _))
        λ a.
          pushed_reply-Answers env enc h mem (method_name Request.upload) _ _ _ d
            (inl (document-method env enc h _ _ _ _ _ _))
  respond-Answers Request.reboot doc d =
      pushed_reply-Answers env enc h mem (method_name Request.reboot) _ _ _ d
        (inl (document-method env enc h _ _ _ _ _ _))
  respond-Answers Request.addobject doc d =
      object_reply-Answers env enc h mem (method_name Request.addobject)
        (header_of (names_of env enc) doc) _
        (parse_addobject_message (names_of env enc) d.root doc d.state) d
        λ number. inl (document-method env enc h _ _ _ _ _ _)
  respond-Answers Request.deleteobject doc d =
      object_reply-Answers env enc h mem (method_name Request.deleteobject)
        (header_of (names_of env enc) doc) _
        (parse_deleteobject_message (names_of env enc) d.root doc d.state) d
        λ number. inl (document-method env enc h _ _ _ _ _ _)
  respond-Answers Request.factoryreset doc d =
      pushed_reply-Answers env enc h mem (method_name Request.factoryreset) _ _ _ d
        (inl (document-method env enc h _ _ _ _ _ _))

  dispatch-respond :
      (r : Request) (doc : Xml) (d : Device S)
      → get_rpc_method_name (names_of env enc) doc ≡ some (method_name r)
      → dispatch (names_of env enc) mem doc d ≡ respond (names_of env enc) mem r doc d
  unfolding dispatch dispatch_named
  dispatch-respond r doc d e =
      ap (λ m. dispatch_named (names_of env enc) mem m doc d) e
      ∙ rw (request_of-method_name r, dispatch_named) refl

  -- For a prefix of at most 29 bytes, a document that answers one of the ten requests has a method
  -- that `cwmp_get_rpc_method_name`, run by one who receives the document as the agent receives
  -- its own, reads as the name of the request followed by `Response`, or as the fault element.
  pub dispatch-Answers :
      (r : Request) (doc : Xml) (d : Device S)
      → get_rpc_method_name (names_of env enc) doc ≡ some (method_name r)
      → Answers (names_of env enc) (method_name r) (dispatch (names_of env enc) mem doc d)
  dispatch-Answers r doc d e =
      subst (Answers (names_of env enc) (method_name r)) (sym (dispatch-respond r doc d e))
        (respond-Answers r doc d)
