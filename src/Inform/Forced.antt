-- ===== src/Inform/Forced.antt =====
-- The parameters of an Inform of libcwmp/src/session.c against the tree.
use netcwmp.Common.{
  ℕ, ◌≤◌, Bool, Option-cases, inl, inr, List, [], ◌∷◌, ◌++◌, Option, none, some, Bytes, All, false,
  true, pos, map, ◌≡◌, refl, sym, ap, ap₂, ◌∙◌, arith, length, append-nil, append_assoc,
  if◌then◌else◌, leb, ◌&&◌, without, without_sound, leb→le, All-append, map-append,
}
use netcwmp.Event.{EventCode}
use netcwmp.Fault.{Parameter, is_ok}
use netcwmp.Field.{Field}
use netcwmp.Inform.{
  dotted, append_parameter_name, inform_paths, wan_name, value_at, data_get_parameter_value,
  add_value, add_values, create_inform_parameters, Facts, session_inform_message, create_header,
  get_sequence,
}
use netcwmp.Params.{Node, null, node, get_parameter_node}
use netcwmp.Params.Names.{IsName, join, follow, path_found}
use netcwmp.Response.InformMessage.{create_inform_message}
use netcwmp.Request.Places.{all_written}
use netcwmp.Request.{
  create_parameter_list, ParameterList, add_parameter_to_list, get_parameter_node_value, written,
}
use netcwmp.Types.{ParamType}

-- The names of a path, none of them empty or with a dot, and at most fifteen.
abbrev pub IsPath : List Bytes → Type 0
IsPath [] = ⊥
IsPath (n ∷ ns) = IsName n × All IsName ns × (length ns ≤ 14)

-- Whether a list of names is a path.
abbrev is_name : Bytes → Bool
is_name [] = false
is_name (c ∷ cs) = without 46 (c ∷ cs)

abbrev all : (Bytes → Bool) → List Bytes → Bool
all p [] = true
all p (x ∷ xs) = p x && all p xs

abbrev pub is_path : List Bytes → Bool
is_path [] = false
is_path (n ∷ ns) = is_name n && all is_name ns && leb (length ns) 14

is_name-IsName : (n : Bytes) → is_name n ≡ true → IsName n
is_name-IsName [] h = absurd (ground (arith, h))
is_name-IsName (c ∷ cs) h = without_sound 46 (c ∷ cs) h

all-IsName : (ns : List Bytes) → all is_name ns ≡ true → All IsName ns
all-IsName [] h = tt
all-IsName (n ∷ ns) h = (is_name-IsName n (ground arith), all-IsName ns (ground arith))

pub is_path-IsPath : (p : List Bytes) → is_path p ≡ true → IsPath p
is_path-IsPath [] h = absurd (ground (arith, h))
is_path-IsPath (n ∷ ns) h = (
  is_name-IsName n (ground arith),
  all-IsName ns (ground arith),
  leb→le (length ns) 14 (ground arith),
)

abbrev all_paths : List (List Bytes) → Bool
all_paths [] = true
all_paths (p ∷ ps) = is_path p && all_paths ps

all_paths-IsPath : (ps : List (List Bytes)) → all_paths ps ≡ true → All IsPath ps
all_paths-IsPath [] h = tt
all_paths-IsPath (p ∷ ps) h = (is_path-IsPath p (ground arith), all_paths-IsPath ps (ground arith))

inform_paths-IsPath : All IsPath inform_paths
inform_paths-IsPath = all_paths-IsPath inform_paths refl

join-dotted : (n : Bytes) (ns : List Bytes) → join n ns false ≡ dotted (n ∷ ns)
unfolding join dotted
join-dotted n [] = append-nil n
join-dotted n (m ∷ ns) = ap (λ s. n ++ 46 ∷ s) (join-dotted m ns)

append_parameter_name-dotted :
    (p : List Bytes) → IsPath p → append_parameter_name p ≡ some (dotted p)
unfolding append_parameter_name
append_parameter_name-dotted [] h = absurd h
append_parameter_name-dotted (n ∷ ns) (h, hs, l) = ground (arith, l)

-- The parameter of a path, when its node has answered `value`.
abbrev parameter : List Bytes → Option Bytes → Parameter
parameter p value = record {
  name = some (dotted p);
  value = value;
  type = ParamType.string;
  fault_code = pos 0;
}

module _ {S : Type 0} where
  -- The node at the end of a path.
  at : List Bytes → Node (Field S) → Node (Field S)
  at [] root = null
  at (n ∷ ns) root = follow n ns root

  -- What a node answers: what its getter does if that succeeds, and the stored value otherwise; no
  -- node, no value.
  answer : Node (Field S) → Bytes → S → Option Bytes × S
  answer null name s = (none, s)
  answer (node n d child next) name s = elim d.get [
    | none ↦ (d.value, s)
    | some f ↦ (if is_ok (f s name).0 then (f s name).1 else d.value, (f s name).2)
  ]

  -- The parameters of some paths, read one after the other.
  unfoldable pub answers : Node (Field S) → List (List Bytes) → S → List Parameter × S
  unfolding at answer
  answers root [] s = ([], s)
  answers root (p ∷ ps) s =
      let (value, s') = answer (at p root) (dotted p) s in
      let (rest, t) = answers root ps s' in (parameter p value ∷ rest, t)

  if_pair :
      (b : Bool) (x y : Option Bytes) (t : S)
      → ◌≡◌ {A = Option Bytes × S} (if b then (x, t) else (y, t)) (if b then x else y, t)
  if_pair true x y t = refl
  if_pair false x y t = refl

  value_at-answer :
      (t : Node (Field S)) (name : Bytes) (s : S) → value_at t name s ≡ answer t name s
  unfolding value_at answer get_parameter_node_value
  value_at-answer null name s = refl
  value_at-answer (node n d child next) name s = elim (Option-cases d.get) [
    | inl e ↦ rw e refl
    | inr (f, e) ↦ rw e (if_pair (is_ok (f s name).0) (f s name).1 d.value (f s name).2)
  ]

  data_get_parameter_value-answer :
      (root : Node (Field S)) (p : List Bytes) (s : S)
      → IsPath p
      → data_get_parameter_value root (some (dotted p)) s ≡ answer (at p root) (dotted p) s
  unfolding data_get_parameter_value at
  data_get_parameter_value-answer root [] s h = absurd h
  data_get_parameter_value-answer root (n ∷ ns) s (h, hs, l) =
      ap (λ t. value_at t (dotted (n ∷ ns)) s)
        (ap (get_parameter_node root) (sym (join-dotted n ns)) ∙ path_found root n ns false h hs)
      ∙ value_at-answer (follow n ns root) (dotted (n ∷ ns)) s

  add_value-answer :
      (root : Node (Field S)) (p : List Bytes) (pl : ParameterList) (s : S)
      → IsPath p
      → add_value root (some (dotted p)) (pl, s) ≡ (
        add_parameter_to_list (parameter p (answer (at p root) (dotted p) s).0) pl,
        (answer (at p root) (dotted p) s).1,
      )
  unfolding add_value
  add_value-answer root p pl s h =
      ap (λ (r : Option Bytes × S). (add_parameter_to_list (parameter p r.0) pl, r.1))
        (data_get_parameter_value-answer root p s h)

  Holds : Node (Field S) → List (List Bytes) → ParameterList × S → ParameterList × S → Type 0
  Holds root ps (pl, s) r =
      (r.0.places ≡ pl.places ++ map some (answers root ps s).0) × (r.1 ≡ (answers root ps s).1)

  add_values-answers :
      (root : Node (Field S)) (ps : List (List Bytes)) (pl : ParameterList) (s : S)
      → All IsPath ps
      → Holds root ps (pl, s) (add_values root (map append_parameter_name ps) (pl, s))
  unfolding add_values answers Holds add_parameter_to_list
  add_values-answers root [] pl s h = (sym (append-nil pl.places), refl)
  add_values-answers root (p ∷ ps) pl s (h, hs) =
      let v = answer (at p root) (dotted p) s in
      let next = add_parameter_to_list (parameter p v.0) pl in
      let rest = add_values-answers root ps next v.1 hs in
      let e =
        ap (λ o. add_value root o (pl, s)) (append_parameter_name-dotted p h)
        ∙ add_value-answer root p pl s h in
      (
        ap (λ r. (add_values root (map append_parameter_name ps) r).0.places) e
            ∙ rest.0
            ∙ append_assoc pl.places (some (parameter p v.0) ∷ [])
                (map some (answers root ps v.1).0),
        ap (λ r. (add_values root (map append_parameter_name ps) r).1) e ∙ rest.1,
      )

  add_values-append :
      (root : Node (Field S)) (xs : List (Option Bytes)) (o : Option Bytes) (r : ParameterList × S)
      → add_values root (xs ++ o ∷ []) r ≡ add_value root o (add_values root xs r)
  unfolding add_values
  add_values-append root [] o r = refl
  add_values-append root (x ∷ xs) o r = add_values-append root xs o (add_value root x r)

  in_order :
      (root : Node (Field S)) (interface : Option Bytes) (p : List Bytes) (s : S)
      → wan_name interface ≡ some (dotted p)
      → IsPath p
      → create_inform_parameters root interface s
        ≡ add_values root
            (map append_parameter_name (inform_paths ++ p ∷ []))
            (create_parameter_list, s)
  unfolding create_inform_parameters
  in_order root interface p s e h =
      let names = map append_parameter_name inform_paths in
      ap (λ o. add_value root o (add_values root names (create_parameter_list, s)))
        (e ∙ sym (append_parameter_name-dotted p h))
      ∙ sym (add_values-append root names (append_parameter_name p) (create_parameter_list, s))
      ∙ ap (λ os. add_values root os (create_parameter_list, s))
          (sym (map-append append_parameter_name inform_paths (p ∷ [])))

  -- If the last name is a path, the parameters of an Inform are all written, and are those of the
  -- sixteen fixed paths and the last one, read in this order: each has the value that the getter at
  -- the end of its path gives, where there is none or it fails the stored value, and NULL where the
  -- path leads nowhere; the device is left as the getters leave it.
  pub create_inform_parameters-answers :
      (root : Node (Field S)) (interface : Option Bytes) (p : List Bytes) (s : S)
      → wan_name interface ≡ some (dotted p)
      → IsPath p
      → (written (create_inform_parameters root interface s).0.places
          ≡ some (answers root (inform_paths ++ p ∷ []) s).0)
        × ((create_inform_parameters root interface s).1
            ≡ (answers root (inform_paths ++ p ∷ []) s).1)
  unfolding create_inform_parameters Holds
  create_inform_parameters-answers root interface p s e h =
      let paths = inform_paths ++ p ∷ [] in
      let read =
        add_values-answers root paths create_parameter_list s
          (All-append IsPath inform_paths (p ∷ []) inform_paths-IsPath (h, tt)) in
      let same = in_order root interface p s e h in
      (
        ap (λ r. written r.0.places) same
            ∙ ap written read.0
            ∙ all_written (answers root paths s).0,
        ap (λ r. r.1) same ∙ read.1,
      )

  -- If the last name of the parameters, that of the configuration or the fixed one for the address
  -- of the first WAN connection, is a path of names without dots, fifteen at most, then the Inform
  -- is the message with the next number, the device, the events, the time, one envelope and the
  -- retries, and with the parameters of the sixteen fixed paths and the last one, read in this
  -- order: each has the value that the getter at the end of its path gives, where there is none or
  -- it fails the stored value, and NULL where the path leads nowhere. The device is left as the
  -- getters leave it.
  pub session_inform_message-answers :
      (f : Facts) (root : Node (Field S)) (events : List EventCode) (n : ℕ) (p : List Bytes) (s : S)
      → wan_name f.interface ≡ some (dotted p)
      → IsPath p
      → session_inform_message f root events n s ≡ (
        create_inform_message f.names
            (some (create_header n).1)
            f.device
            events
            f.now
            1
            f.retry_count
            (answers root (inform_paths ++ p ∷ []) s).0,
        (get_sequence n).0,
        (answers root (inform_paths ++ p ∷ []) s).1,
      )
  unfolding session_inform_message create_header
  session_inform_message-answers f root events n p s e h =
      let read = create_inform_parameters-answers root f.interface p s e h in
      let doc = λ (w : Option (List Parameter)).
        create_inform_message f.names (some (create_header n).1) f.device events f.now 1
          f.retry_count (elim w [ none ↦ [] | some ps ↦ ps ]) in
      ap₂ (λ w (t : S). (doc w, (get_sequence n).0, t)) read.0 read.1
