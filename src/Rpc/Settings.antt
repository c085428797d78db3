-- ===== src/Rpc/Settings.antt =====
-- The answer to SetParameterValues of libcwmp/src/session.c.
use netcwmp.Common.{
  ◌≤◌, Bool, true, false, List, [], ◌∷◌, none, some, codes, pos, length, All, ◌≡◌, refl, sym, ap,
  subst, arith, ◌∙◌, if◌then◌else◌,
}
use netcwmp.Field.{Field}
use netcwmp.Params
use netcwmp.Params.{Node, IsShort}
use netcwmp.Xml.{Xml}
use netcwmp.Soap.{Names}
use netcwmp.Fault.{Parameter, create_faultcode_setparametervalues_response}
use netcwmp.Response.{create_setparametervalues_response}
use netcwmp.Request.{ParameterList, create_parameter_list, node_of, written}
use netcwmp.Request.Places.{push_all, written-push_all}
use netcwmp.Request.Values.{
  Outcome, no_list, name_in, set_node, set_loop, parse_setparametervalues_message,
}
use netcwmp.Request.Values.Sets.{all_ok, set_each, outcome, set_loop-set_each}
use netcwmp.Rpc.{
  Device, Memory, Reply, reply, header_of, parameters_of, set_fault_reply, set_reply,
  respond_setparametervalues,
}
use netcwmp.Rpc.Values.{listed, HasList}

module _ {S : Type 0} (n : Names) (mem : Memory) (doc : Xml) (d : Device S) where
  -- What the setters answer for the list of the request, and the state that they leave.
  abbrev pub settings : List Parameter × S
  settings = set_each d.root (listed n doc (codes "ParameterList")) d.state

  -- The document for these answers.
  abbrev pub settings_document : List Parameter → Xml
  settings_document ps =
      if all_ok ps
      then create_setparametervalues_response n (header_of n doc) (pos 0)
      else create_faultcode_setparametervalues_response n (header_of n doc) ps (pos 9003)

  set_answer : Outcome S → Reply S
  set_answer o = set_reply n mem (header_of n doc) o d

  set_answer-outcome :
      HasList n doc (codes "ParameterList")
      → respond_setparametervalues n mem doc d
        ≡ set_answer (outcome d.root settings true none create_parameter_list)
  unfolding respond_setparametervalues parse_setparametervalues_message set_answer
  set_answer-outcome has =
      ap
        (λ b.
          set_reply n mem (header_of n doc)
            (if b
              then no_list d.state
              else set_loop d.root (listed n doc (codes "ParameterList")) (record {
                ok = true;
                fault = none;
                list = some create_parameter_list;
                state = d.state;
              }))
            d)
        has
      ∙ ap set_answer (
          set_loop-set_each d.root (listed n doc (codes "ParameterList")) true none
            create_parameter_list d.state)

  set_answer-written :
      (b : Bool) (pl : ParameterList) (ps : List Parameter) (s : S)
      → written pl.places ≡ some ps
      → set_answer (record {
        ok = b;
        fault = if b then none else some (pos 9003);
        list = some pl;
        state = s;
      })
        ≡ reply
            (some (
              if b
              then create_setparametervalues_response n (header_of n doc) (pos 0)
              else create_faultcode_setparametervalues_response n (header_of n doc) ps (pos 9003)))
            (record d { state = s })
  unfolding set_answer set_reply set_fault_reply parameters_of
  set_answer-written true pl ps s e = refl
  set_answer-written false pl ps s e = rw (e, set_fault_reply) refl

  -- SetParameterValues, whose names have parts of at most 255 bytes and where at most 31 are found: every setter is called, in order and
  -- also behind one that has failed; the answer is Status 0 if all of those called have succeeded,
  -- and else a fault 9003 with the answer of each. The names that are not found count for nothing.
  pub respond_setparametervalues-settings :
      HasList n doc (codes "ParameterList")
      → All (λ x. IsShort (name_in x)) (listed n doc (codes "ParameterList"))
      → length settings.0 ≤ 31
      → respond_setparametervalues n mem doc d
        ≡ reply (some (settings_document settings.0)) (record d { state = settings.1 })
  respond_setparametervalues-settings has short le =
      set_answer-outcome has
      ∙ set_answer-written (all_ok settings.0) (push_all settings.0 create_parameter_list)
          settings.0 settings.1 (written-push_all settings.0 le)

set_each_unknown :
    {S : Type 0} (root : Node (Field S)) (xs : List Xml) (s : S)
    → All (λ x. node_of root (name_in x) ≡ Params.null) xs
    → set_each root xs s ≡ ([], s)
unfolding set_each set_node
set_each_unknown root [] s unknown = refl
set_each_unknown root (x ∷ xs) s unknown =
    rw (unknown.0, set_node) (set_each_unknown root xs s unknown.1)

-- SetParameterValues whose names have parts of at most 255 bytes and are all unknown is answered with Status 0, and changes nothing.
pub respond_setparametervalues_unknown :
    {S : Type 0} (n : Names) (mem : Memory) (doc : Xml) (d : Device S)
    → HasList n doc (codes "ParameterList")
    → All (λ x. IsShort (name_in x)) (listed n doc (codes "ParameterList"))
    → All (λ x. node_of d.root (name_in x) ≡ Params.null) (listed n doc (codes "ParameterList"))
    → respond_setparametervalues n mem doc d
      ≡ reply (some (create_setparametervalues_response n (header_of n doc) (pos 0))) d
respond_setparametervalues_unknown n mem doc d has short unknown =
    let e = set_each_unknown d.root (listed n doc (codes "ParameterList")) d.state unknown in
    respond_setparametervalues-settings n mem doc d has short
      (subst (λ r. length r.0 ≤ 31) (sym e) (omega arith))
    ∙ ap (λ r. reply (some (settings_document n mem doc d r.0)) (record d { state = r.1 })) e
