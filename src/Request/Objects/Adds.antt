-- ===== src/Request/Objects/Adds.antt =====
-- What `cwmp_parse_addobject_message` of libcwmp/src/cwmp.c makes of an object that it has found.
use netcwmp.Common.{
  Bool, true, false, not, ◌||◌, List, Option, none, some, Bytes, ℤ, pos, ◌⊎◌, inl, inr, ◌≡◌, refl,
  sym, ap, ◌∙◌, arith, length, subst, Bool-cases, ◌==◌, if◌then◌else◌,
}
use netcwmp.Field.{Field, is_object, is_template}
use netcwmp.Params.{Node, null, node, is_null, fits, get_parameter_node}
use netcwmp.Request.Objects.Paths.{IsPlain, found_in, get_parameter_path_node-get_parameter_node}
use netcwmp.Xml.{Xml}
use netcwmp.Soap.{Names}
use netcwmp.Fault.{is_ok}
use netcwmp.Request.Objects.{
  Answer, crash, refused, accepted, get_parameter_path_node, object_name, call_add, add_checked,
  add_object, parse_addobject_message,
}

-- An object that can be added to.
abbrev pub IsWritable : {S : Type 0} → Field S → Type 0
IsWritable d = (is_object d.type ≡ true) × ((d.rw == 1) ≡ true)

-- The answers that fit a node in a state. A fault has the code 9005, and the state is as before or
-- the one that the node's `add` has left with a fault. A new instance has the number that `add` has
-- handed back with success, for a writable object. A null pointer is followed only at a writable
-- object.
abbrev pub Fits : {S : Type 0} → Field S → S → Answer S → Type 0
Fits d s crash = IsWritable d
Fits {S} d s (refused code s') =
    (code ≡ pos 9005)
    × ((s' ≡ s)
        ⊎ ((add : S → ℤ × ℤ × S) × (d.add ≡ some add)
            × (is_ok (add s).0 ≡ false)
            × (s' ≡ (add s).2)))
Fits {S} d s (accepted number s') =
    IsWritable d
    × ((add : S → ℤ × ℤ × S) × (d.add ≡ some add)
        × (is_ok (add s).0 ≡ true)
        × ((add s).1 ≡ number)
        × ((add s).2 ≡ s'))

module _ {S : Type 0} where
  call_add-Fits :
      (d : Field S) (s : S) (o : Option (S → ℤ × ℤ × S))
      → IsWritable d
      → d.add ≡ o
      → Fits d s (call_add o s)
  unfolding call_add
  call_add-Fits d s none w e = (refl, inl refl)
  call_add-Fits d s (some add) w e = elim (Bool-cases (is_ok (add s).0)) [
    | inl ok ↦
        subst
          (λ b. Fits d s (if b then accepted (add s).1 (add s).2 else refused (pos 9005) (add s).2))
          (sym ok) (w, (add, e, ok, refl, refl))
    | inr fails ↦
        subst
          (λ b. Fits d s (if b then accepted (add s).1 (add s).2 else refused (pos 9005) (add s).2))
          (sym fails) (refl, inr (add, e, fails, refl))
  ]

  -- The tests on the node, before what is done with a writable object.
  guarded :
      (d : Field S) (s : S) (object writable template : Bool) (a : Answer S)
      → is_object d.type ≡ object
      → (d.rw == 1) ≡ writable
      → (IsWritable d → Fits d s a)
      → Fits d s (if not object || not writable || not template then refused (pos 9005) s else a)
  guarded d s false writable template a eo ew fits = (refl, inl refl)
  guarded d s true false template a eo ew fits = (refl, inl refl)
  guarded d s true true false a eo ew fits = (refl, inl refl)
  guarded d s true true true a eo ew fits = fits (eo, ew)

  no_child :
      (d : Field S) (s : S) (object writable : Bool)
      → is_object d.type ≡ object
      → (d.rw == 1) ≡ writable
      → Fits d s (if not object || not writable then refused (pos 9005) s else crash)
  no_child d s false writable eo ew = (refl, inl refl)
  no_child d s true false eo ew = (refl, inl refl)
  no_child d s true true eo ew = (eo, ew)

  add_checked-Fits :
      (d : Field S) (child : Node (Field S)) (s : S) → Fits d s (add_checked d child s)
  unfolding add_checked
  add_checked-Fits d null s = no_child d s (is_object d.type) (d.rw == 1) refl refl
  add_checked-Fits d (node name f child next) s =
      guarded d s (is_object d.type) (d.rw == 1) (is_template name) (call_add d.add s) refl refl
        λ w. call_add-Fits d s d.add w refl

  found-some :
      (o : Option (Node (Field S) × List (Node (Field S)))) (d : Field S) (s : S)
      (name : Option Bytes) (child next : Node (Field S))
      → found_in o ≡ node name d child next
      → Fits d s (add_object o s)
  unfolding found_in add_object
  found-some none d s name child next e = absurd (ground (arith, ap is_null e))
  found-some (some (t, above)) d s name child next e =
      subst (λ u. Fits d s (add_object (some (u, above)) s)) (sym e) (add_checked-Fits d child s)

  -- AddObject for a name under which the tree has a node, whose parts have at most 255 bytes and are
  -- none of them `{i}`: a fault always has the code 9005, and leaves the state as it was or as the
  -- node's own `add` has left it with a fault; a new instance has the number that `add` has handed
  -- back with success, and the node is a writable object; a null pointer is followed only where the
  -- node is a writable object.
  pub parse_addobject_message-Fits :
      (n : Names) (root : Node (Field S)) (doc : Xml) (s : S) (path : Bytes) (name : Option Bytes)
      (d : Field S) (child next : Node (Field S))
      → object_name n doc ≡ some path
      → fits path ≡ true
      → IsPlain (length path) path
      → get_parameter_node root path ≡ node name d child next
      → Fits d s (parse_addobject_message n root doc s)
  unfolding parse_addobject_message
  parse_addobject_message-Fits n root doc s path name d child next asks short plain found =
      subst (λ o. Fits d s (add_object (get_parameter_path_node root o) s)) (sym asks)
        (found-some (get_parameter_path_node root (some path)) d s name child next
          (get_parameter_path_node-get_parameter_node root path plain (ap is_null found) ∙ found))
