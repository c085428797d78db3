-- ===== src/Request/Values/Sets.antt =====
-- SetParameterValues of libcwmp/src/cwmp.c: the run of its loop.
use netcwmp.Common.{
  Bool, true, false, ◌&&◌, List, [], ◌∷◌, Option, none, some, ℤ, pos, ◌≡◌, refl, ◌∙◌, if◌then◌else◌,
}
use netcwmp.Field.{Field}
use netcwmp.Params.{Node}
use netcwmp.Xml.{Xml}
use netcwmp.Fault.{Parameter, is_ok}
use netcwmp.Request.{ParameterList, push_next}
use netcwmp.Request.Places.{push_all}
use netcwmp.Request.Values.{Outcome, set_named, set_result, set_loop}

abbrev pub cons_some : Option Parameter → List Parameter → List Parameter
cons_some none ps = ps
cons_some (some p) ps = p ∷ ps

abbrev pub all_ok : List Parameter → Bool
all_ok [] = true
all_ok (p ∷ ps) = is_ok p.fault_code && all_ok ps

-- What the setters answer, called one after the other whatever they answer: the parameters that are
-- found, with the answers, and the state of the device.
unfoldable pub set_each : {S : Type 0} → Node (Field S) → List Xml → S → List Parameter × S
set_each root [] s = ([], s)
set_each root (x ∷ xs) s =
    let (o, s1) = set_named root x s in let (ps, s2) = set_each root xs s1 in (cons_some o ps, s2)

module _ {S : Type 0} (root : Node (Field S)) where
  -- The loop's outcome from parameters `ps` that are put behind a list, and a state.
  abbrev pub outcome : List Parameter × S → Bool → Option ℤ → ParameterList → Outcome S
  outcome (ps, s) ok fault pl = record {
    ok = ok && all_ok ps;
    fault = if all_ok ps then fault else some (pos 9003);
    list = some (push_all ps pl);
    state = s;
  }

  -- What the loop has before a round.
  abbrev begun : Bool → Option ℤ → ParameterList → S → Outcome S
  begun ok fault pl s = record { ok = ok; fault = fault; list = some pl; state = s }

  outcome_nil :
      (ok : Bool) (fault : Option ℤ) (pl : ParameterList) (s : S)
      → begun ok fault pl s ≡ outcome ([], s) ok fault pl
  unfolding push_all
  outcome_nil true fault pl s = refl
  outcome_nil false fault pl s = refl

  -- The flags of a round and of those behind it.
  flags :
      (ok b all : Bool) (fault : Option ℤ) (pl : ParameterList) (s : S)
      → begun
          ((ok && b) && all)
          (if all then (if b then fault else some (pos 9003)) else some (pos 9003))
          pl
          s
        ≡ begun (ok && (b && all)) (if b && all then fault else some (pos 9003)) pl s
  flags true true all fault pl s = refl
  flags true false true fault pl s = refl
  flags true false false fault pl s = refl
  flags false true true fault pl s = refl
  flags false true false fault pl s = refl
  flags false false true fault pl s = refl
  flags false false false fault pl s = refl

  outcome_cons :
      (ok : Bool) (fault : Option ℤ) (pl : ParameterList) (p : Parameter) (r : List Parameter × S)
      → outcome r
          (ok && is_ok p.fault_code)
          (if is_ok p.fault_code then fault else some (pos 9003))
          (push_next p pl)
        ≡ outcome (p ∷ r.0, r.1) ok fault pl
  unfolding push_all
  outcome_cons ok fault pl p r =
      flags ok (is_ok p.fault_code) (all_ok r.0) fault (push_all r.0 (push_next p pl)) r.1

  -- The loop calls the setter of every parameter that is found, also behind one that has failed, and
  -- puts it in the list with its answer; names that are not found leave no trace. It succeeds exactly
  -- if all the setters that were called have; else the fault code is 9003.
  pub set_loop-set_each :
      (xs : List Xml) (ok : Bool) (fault : Option ℤ) (pl : ParameterList) (s : S)
      → set_loop root xs (begun ok fault pl s) ≡ outcome (set_each root xs s) ok fault pl
  unfolding set_loop set_each set_result
  set_loop-set_each [] ok fault pl s = outcome_nil ok fault pl s
  set_loop-set_each (x ∷ xs) ok fault pl s = round (set_named root x s) (set_loop-set_each xs)
    where
      round :
          (r : Option Parameter × S)
          → ((ok : Bool) (fault : Option ℤ) (pl : ParameterList) (s : S)
              → set_loop root xs (begun ok fault pl s) ≡ outcome (set_each root xs s) ok fault pl)
          → set_loop root xs (set_result r (begun ok fault pl s))
            ≡ outcome (cons_some r.0 (set_each root xs r.1).0, (set_each root xs r.1).1) ok fault pl
      round (none, s1) ih = ih ok fault pl s1
      round (some p, s1) ih =
          ih _ _ (push_next p pl) s1 ∙ outcome_cons ok fault pl p (set_each root xs s1)
