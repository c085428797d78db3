-- ===== src/Rpc/Values.antt =====
-- The answers to GetParameterValues and SetParameterValues of libcwmp/src/session.c.
use netcwmp.Common.{
  ◌≤◌, ◌<◌, Bool, true, false, List, ◌∷◌, ◌++◌, Option, none, some, Bytes, codes, ℤ, inl, length,
  ◌≡◌, refl, ap, ◌∙◌, if◌then◌else◌,
}
use netcwmp.Xml.{Xml, first_child, get_node_value, get_child_with_name}
use netcwmp.Soap.{Names, get_rpc_method_node}
use netcwmp.Fault.{Parameter}
use netcwmp.Response.{create_getparametervalues_response}
use netcwmp.Request.{ParameterList, create_parameter_list, siblings, written}
use netcwmp.Request.Places.{push_all, written-push_all, push_all_many}
use netcwmp.Request.Values.{
  Outcome, is_null_xml, no_list, read_named, get_loop, parse_getparametervalues_message,
}
use netcwmp.Request.Values.Reads.{Reads, get_loop-Reads, get_loop-fails}
use netcwmp.Rpc.{
  Device, Memory, Reply, undefined, reply, header_of, parameters_of, values_reply,
  respond_getparametervalues,
}

-- The nodes in the list of a request, and whether there is a list.
abbrev pub listed : Names → Xml → Bytes → List Xml
listed n doc name = siblings (first_child (get_child_with_name (get_rpc_method_node n doc) name))

abbrev pub HasList : Names → Xml → Bytes → Type 0
HasList n doc name = is_null_xml (get_child_with_name (get_rpc_method_node n doc) name) ≡ false

module _ {S : Type 0} (n : Names) (mem : Memory) (doc : Xml) (d : Device S) where
  get_answer : Outcome S → Reply S
  get_answer o = values_reply n mem (header_of n doc) o d

  get_answer-Outcome :
      (o : Outcome S)
      → HasList n doc (codes "ParameterNames")
      → get_loop d.root (listed n doc (codes "ParameterNames")) create_parameter_list d.state ≡ o
      → respond_getparametervalues n mem doc d ≡ get_answer o
  unfolding respond_getparametervalues parse_getparametervalues_message get_answer
  get_answer-Outcome o has e =
      ap
        (λ b.
          values_reply n mem (header_of n doc)
            (if b
              then no_list d.state
              else get_loop d.root (listed n doc (codes "ParameterNames")) create_parameter_list
                  d.state)
            d)
        has
      ∙ ap get_answer e

  get_answer-written :
      (ok : Bool) (fault : Option ℤ) (pl : ParameterList) (ps : List Parameter) (s : S)
      → written pl.places ≡ some ps
      → get_answer (record { ok = ok; fault = fault; list = some pl; state = s })
        ≡ reply
            (some (create_getparametervalues_response n (header_of n doc) ps))
            (record d { state = s })
  unfolding get_answer values_reply parameters_of
  get_answer-written ok fault pl ps s e = rw (e, values_reply) refl

  get_answer-unwritten :
      (ok : Bool) (fault : Option ℤ) (pl : ParameterList) (s : S)
      → written pl.places ≡ none
      → get_answer (record { ok = ok; fault = fault; list = some pl; state = s }) ≡ undefined
  unfolding get_answer values_reply parameters_of
  get_answer-unwritten ok fault pl s e = rw (e, values_reply) refl

  -- GetParameterValues of up to 31 names that are all found and whose getters succeed, one after the
  -- other, is answered with the names and values in the order of the request.
  pub respond_getparametervalues-Reads :
      (ps : List Parameter) (s : S)
      → HasList n doc (codes "ParameterNames")
      → Reads d.root (listed n doc (codes "ParameterNames")) d.state ps s
      → length ps ≤ 31
      → respond_getparametervalues n mem doc d
        ≡ reply
            (some (create_getparametervalues_response n (header_of n doc) ps))
            (record d { state = s })
  respond_getparametervalues-Reads ps s has reads le =
      get_answer-Outcome _ has (get_loop-Reads d.root reads create_parameter_list)
      ∙ get_answer-written true none (push_all ps create_parameter_list) ps s
          (written-push_all ps le)

  -- For more than 31 such names the answer reads a place of the list that has not been written: after
  -- the array has grown, the parser writes to the old one.
  pub respond_getparametervalues_many :
      (ps : List Parameter) (s : S)
      → HasList n doc (codes "ParameterNames")
      → Reads d.root (listed n doc (codes "ParameterNames")) d.state ps s
      → 31 < length ps
      → respond_getparametervalues n mem doc d ≡ undefined
  respond_getparametervalues_many ps s has reads lt =
      get_answer-Outcome _ has (get_loop-Reads d.root reads create_parameter_list)
      ∙ get_answer-unwritten true none (push_all ps create_parameter_list) s (push_all_many ps lt)

  -- Where a name is not found or its getter fails, behind at most 31 that succeed, the answer is not
  -- a fault: it is the list of the parameters before that name.
  pub respond_getparametervalues_fails :
      (xs : List Xml) (x : Xml) (ys : List Xml) (ps : List Parameter) (code : ℤ) (s s' : S)
      → HasList n doc (codes "ParameterNames")
      → listed n doc (codes "ParameterNames") ≡ xs ++ x ∷ ys
      → Reads d.root xs d.state ps s
      → read_named d.root (get_node_value x) s ≡ (inl code, s')
      → length ps ≤ 31
      → respond_getparametervalues n mem doc d
        ≡ reply
            (some (create_getparametervalues_response n (header_of n doc) ps))
            (record d { state = s' })
  respond_getparametervalues_fails xs x ys ps code s s' has e reads fails le =
      get_answer-Outcome _ has (
        ap (λ l. get_loop d.root l create_parameter_list d.state) e
        ∙ get_loop-fails d.root x code ys reads fails create_parameter_list)
      ∙ get_answer-written false (some code) (push_all ps create_parameter_list) ps s'
          (written-push_all ps le)
