-- ===== src/Rpc/Method.antt =====
-- The method of the documents that answer the requests of the ACS, in libcwmp/src/session.c.
use netcwmp.Common.{
  ◌≤◌, Bool, true, false, List, ◌++◌, Option, none, some, Bytes, codes, ℤ, pos, length, ◌≡◌, ◌⊎◌,
  inl, inr, ap, if◌then◌else◌,
}
use netcwmp.Field.{Field}
use netcwmp.Params
use netcwmp.Params.{Node, node}
use netcwmp.Queue.{queue_push}
use netcwmp.Xml.{Xml, elem, own_name}
use netcwmp.Soap.{Names, Header, names_of, document, received, get_rpc_method_name}
use netcwmp.Soap.Lookup.{get_rpc_method_node-document}
use netcwmp.Fault.{
  create_faultcode_response, create_faultcode_setparametervalues_response, fault_element,
}
use netcwmp.Response.{create_getparametervalues_response, create_setparametervalues_response}
use netcwmp.Response.ParameterNames.{create_getparameternames_response, names_document}
use netcwmp.Request.Values.{Outcome}
use netcwmp.Request.Objects.{Answer, get_parameter_path_node, ends_in_dot}
use netcwmp.Rpc.{
  Argument, Device, Memory, Reply, undefined, reply, names_reply, parameters_of, values_reply,
  set_fault_reply, set_reply, pushed_reply, object_reply,
}

-- For one that receives it, a document's method is the response to a method, or a fault.
abbrev pub IsAnswer : Names → Bytes → Xml → Type 0
IsAnswer n method out =
    (get_rpc_method_name n (received out) ≡ some (method ++ codes "Response"))
    ⊎ (get_rpc_method_name n (received out) ≡ some n.fault)

-- Where there is a document.
abbrev pub Answers : {S : Type 0} → Names → Bytes → Reply S → Type 0
Answers n method undefined = Unit
Answers n method (reply none d) = Unit
Answers n method (reply (some out) d) = IsAnswer n method out

-- The names for two prefixes, the first of at most 29 bytes.
module _ (env enc : Bytes) (h : length env ≤ 29) where
  pub document-method :
      (header : Option Header) (m : Bytes) (v : Option Bytes) (attrs : List (Bytes × Bytes))
      (child next : Xml)
      → get_rpc_method_name
          (names_of env enc)
          (received (document (names_of env enc) header (elem m v attrs child next)))
        ≡ some m
  unfolding get_rpc_method_name
  document-method header m v attrs child next =
      ap own_name (get_rpc_method_node-document env enc h header (elem m v attrs child next))

  named_node :
      {S : Type 0} (header : Option Header) (path : Bytes) (t : Node (Field S))
      (subset level : Bool) (d : Device S)
      → Answers (names_of env enc) (codes "cwmp:GetParameterNames") (
          reply (create_getparameternames_response (names_of env enc) header path t subset level) d)
  unfolding create_getparameternames_response names_document
  named_node header path Params.null subset level d = tt
  named_node header path (node name f child next) subset level d =
      inl (document-method header _ _ _ _ _)

pub Answers-elim :
    {S A : Type 0} (n : Names) (method : Bytes) (o : Option A) (e : Reply S) (f : A → Reply S)
    → Answers n method e
    → ((a : A) → Answers n method (f a))
    → Answers n method (elim o [ none ↦ e | some a ↦ f a ])
Answers-elim n method none e f he hf = he
Answers-elim n method (some a) e f he hf = hf a

module _ {S : Type 0} (env enc : Bytes) (h : length env ≤ 29) (mem : Memory) where
  pub names_reply-Answers :
      (header : Option Header) (path : Option Bytes) (level : Bool) (d : Device S)
      → Answers
          (names_of env enc)
          (codes "cwmp:GetParameterNames")
          (names_reply (names_of env enc) mem header path level d)
  unfolding names_reply
  names_reply-Answers header none level d = tt
  names_reply-Answers header (some path) level d =
      Answers-elim (names_of env enc) (codes "cwmp:GetParameterNames") (ends_in_dot path) _ _ tt
        λ subset.
          Answers-elim (names_of env enc) (codes "cwmp:GetParameterNames")
            (get_parameter_path_node d.root (some path)) _ _ tt
            λ found. names_of_node (found.0) subset
    where
      names_of_node :
          (t : Node (Field S)) (subset : Bool)
          → Answers (names_of env enc) (codes "cwmp:GetParameterNames") (
              reply
                (create_getparameternames_response (names_of env enc) header path t subset level)
                d)
      names_of_node t subset = named_node env enc h header path t subset level d

  pub values_reply-Answers :
      (header : Option Header) (o : Outcome S) (d : Device S)
      → Answers
          (names_of env enc)
          (codes "cwmp:GetParameterValues")
          (values_reply (names_of env enc) mem header o d)
  unfolding values_reply create_getparametervalues_response
  values_reply-Answers header o d =
      Answers-elim (names_of env enc) (codes "cwmp:GetParameterValues") (parameters_of o.list) _ _
        tt λ ps. inl (document-method env enc h header _ _ _ _ _)

  pub set_reply-Answers :
      (header : Option Header) (o : Outcome S) (d : Device S)
      → Answers
          (names_of env enc)
          (codes "cwmp:SetParameterValues")
          (set_reply (names_of env enc) mem header o d)
  unfolding set_reply set_fault_reply create_setparametervalues_response
      create_faultcode_setparametervalues_response fault_element
  set_reply-Answers header o d =
      elim (o.ok)
        as (λ b. Answers (names_of env enc) (codes "cwmp:SetParameterValues") (
          if b
          then reply (some (create_setparametervalues_response (names_of env enc) header (pos 0)))
              (record d { state = o.state })
          else set_fault_reply (names_of env enc) mem header o d)) [
            | true ↦ inl (document-method env enc h header _ _ _ _ _)
            | false ↦
                Answers-elim (names_of env enc) (codes "cwmp:SetParameterValues")
                  (parameters_of o.list) _ _ tt
                  λ ps.
                    Answers-elim (names_of env enc) (codes "cwmp:SetParameterValues") o.fault _ _ tt
                      λ code. inr (document-method env enc h header _ _ _ _ _)
          ]

  pub pushed_reply-Answers :
      (method : Bytes) (content : Option Argument) (tag : ℤ) (answer : Xml) (d : Device S)
      → IsAnswer (names_of env enc) method answer
      → Answers (names_of env enc) method (pushed_reply (names_of env enc) mem content tag answer d)
  unfolding pushed_reply
  pushed_reply-Answers method content tag answer d a =
      Answers-elim (names_of env enc) method (queue_push mem.fresh content tag d.queue) _ _ tt
        λ q. a

  pub object_reply-Answers :
      (method : Bytes) (header : Option Header) (answer : ℤ → Xml) (a : Answer S) (d : Device S)
      → ((number : ℤ) → IsAnswer (names_of env enc) method (answer number))
      → Answers (names_of env enc) method (object_reply (names_of env enc) mem header answer a d)
  unfolding object_reply create_faultcode_response fault_element
  object_reply-Answers method header answer Answer.crash d ok = tt
  object_reply-Answers method header answer (Answer.refused code s) d ok =
      inr (document-method env enc h header _ _ _ _ _)
  object_reply-Answers method header answer (Answer.accepted number s) d ok = ok number
