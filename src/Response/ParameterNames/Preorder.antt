-- ===== src/Response/ParameterNames/Preorder.antt =====
-- The names in an answer to GetParameterNames of libcwmp/src/cwmp.c, as a list.
use netcwmp.Common.{
  ℕ, ◌+◌, Bool, true, false, List, [], ◌∷◌, ◌++◌, Option, some, Bytes, length, ◌≡◌, refl, sym, ◌∙◌,
  ap, ap₂, arith, if◌then◌else◌,
}
use netcwmp.Field.{Field, is_template}
use netcwmp.Params.{Node, null, node}
use netcwmp.Xml.{Xml, elem, other, append_sibling}
use netcwmp.Soap.{Names, Header}
use netcwmp.Response.ParameterNames.{
  info_struct, add_info, child_path, children_names, all_parameter_names, level_names, chosen_names,
  names_document, create_getparameternames_response,
}

-- A name with the flag whether it can be written.
abbrev Info : Type 0
Info = Bytes × ℕ

-- The nodes for a list of names.
unfoldable pub info_structs : List Info → Xml
info_structs [] = Xml.null
info_structs ((name, w) ∷ is) = info_struct name w (info_structs is)

-- Siblings behind siblings.
join : Xml → Xml → Xml
join Xml.null t = t
join (elem n v a c next) t = elem n v a c (join next t)
join (other k n v next) t = other k n v (join next t)

join-append_sibling :
    (name : Bytes) (w : ℕ) (list t : Xml)
    → join (append_sibling (info_struct name w Xml.null) list) t ≡ join list (info_struct name w t)
unfolding join append_sibling info_struct
join-append_sibling name w Xml.null t = refl
join-append_sibling name w (elem n v a c next) t =
    ap (elem n v a c) (join-append_sibling name w next t)
join-append_sibling name w (other k n v next) t =
    ap (other k n v) (join-append_sibling name w next t)

join-null : (list : Xml) → join list Xml.null ≡ list
unfolding join
join-null Xml.null = refl
join-null (elem n v a c next) = ap (elem n v a c) (join-null next)
join-null (other k n v next) = ap (other k n v) (join-null next)

-- What the three calls add for each of a list.
extend : List Info → Xml × ℕ → Xml × ℕ
extend [] acc = acc
extend ((name, w) ∷ is) acc = extend is (add_info name w acc)

extend-append :
    (is js : List Info) (acc : Xml × ℕ) → extend (is ++ js) acc ≡ extend js (extend is acc)
unfolding extend
extend-append [] js acc = refl
extend-append ((name, w) ∷ is) js acc = extend-append is js (add_info name w acc)

extend_lem :
    (is : List Info) (list : Xml) (count : ℕ)
    → extend is (list, count) ≡ (join list (info_structs is), length is + count)
unfolding extend info_structs add_info
extend_lem [] list count = ap₂ (λ l k. (l, k)) (sym (join-null list)) (omega arith)
extend_lem ((name, w) ∷ is) list count =
    extend_lem is (append_sibling (info_struct name w Xml.null) list) (count + 1)
    ∙ ap₂ (λ l k. (l, k)) (join-append_sibling name w list (info_structs is)) (omega arith)

module _ {S : Type 0} where
  -- The names below a node, in the order of a walk from the root: each child before its children,
  -- without the templates of instances and what is below them.
  unfoldable pub below : Bytes → Node (Field S) → List Info
  below path null = []
  below path (node name d child next) =
      let p = child_path path name d in
      let deeper = below p child in
      (if is_template name then [] else (p, d.rw) ∷ deeper) ++ below path next

  -- The names of the children, without templates.
  unfoldable pub children : Bytes → Node (Field S) → List Info
  children path null = []
  children path (node name d child next) =
      (if is_template name then [] else (child_path path name d, d.rw) ∷ []) ++ children path next

  -- The names that a request asks for.
  unfoldable pub asked : Bytes → ℕ → Node (Field S) → Bool → Bool → List Info
  unfolding below children
  asked path w child false level = (path, w) ∷ []
  asked path w child true true = children path child
  asked path w child true false = (path, w) ∷ below path child

  children_names-extend :
      (path : Bytes) (t : Node (Field S)) (acc : Xml × ℕ)
      → children_names path t acc ≡ extend (below path t) acc
  unfolding children_names below extend
  children_names-extend path null acc = refl
  children_names-extend path (node name d child next) acc =
      ap (λ a. children_names path next (if is_template name then acc else a))
        (children_names-extend (child_path path name d) child
          (add_info (child_path path name d) d.rw acc))
      ∙ children_names-extend path next _
      ∙ elim (is_template name)
          as (λ b.
            extend (below path next) (
              if b
              then acc
              else extend (below (child_path path name d) child)
                  (add_info (child_path path name d) d.rw acc))
            ≡ extend
                ((if b
                    then []
                    else (child_path path name d, d.rw) ∷ below (child_path path name d) child)
                  ++ below path next)
                acc) [
                  | true ↦ refl
                  | false ↦ sym (
                      extend-append
                        ((child_path path name d, d.rw) ∷ below (child_path path name d) child)
                        (below path next) acc)
                ]

  level_names-extend :
      (path : Bytes) (t : Node (Field S)) (acc : Xml × ℕ)
      → level_names path t acc ≡ extend (children path t) acc
  unfolding level_names children extend
  level_names-extend path null acc = refl
  level_names-extend path (node name d child next) acc =
      level_names-extend path next _
      ∙ elim (is_template name)
          as (λ b.
            extend (children path next)
              (if b then acc else add_info (child_path path name d) d.rw acc)
            ≡ extend ((if b then [] else (child_path path name d, d.rw) ∷ []) ++ children path next)
                acc) [ true ↦ refl | false ↦ refl ]

  chosen_names-asked :
      (path : Bytes) (name : Option Bytes) (d : Field S) (child next : Node (Field S))
      (subset level : Bool)
      → chosen_names path (node name d child next) subset level
        ≡ extend (asked path d.rw child subset level) (Xml.null, 0)
  unfolding chosen_names asked extend all_parameter_names
  chosen_names-asked path name d child next false level = refl
  chosen_names-asked path name d child next true true = level_names-extend path child (Xml.null, 0)
  chosen_names-asked path name d child next true false =
      children_names-extend path child (add_info path d.rw (Xml.null, 0))

  -- The answer for a node that there is lists exactly the names asked for, in order, and its array
  -- has their number: for a path without final dot the path alone; otherwise the children of the
  -- node at the next level, or else the path and all names below it in preorder. Templates `{i}`
  -- and what is below them are left out.
  pub create_getparameternames_response-asked :
      (n : Names) (header : Option Header) (path : Bytes) (name : Option Bytes) (d : Field S)
      (child next : Node (Field S)) (subset level : Bool)
      → create_getparameternames_response n header path (node name d child next) subset level
        ≡ some (
            names_document n header (
              info_structs (asked path d.rw child subset level),
              length (asked path d.rw child subset level),
            ))
  unfolding create_getparameternames_response join
  create_getparameternames_response-asked n header path name d child next subset level =
      ap (λ l. some (names_document n header l))
        (chosen_names-asked path name d child next subset level
          ∙ extend_lem (asked path d.rw child subset level) Xml.null 0
          ∙ ap (λ k. (info_structs (asked path d.rw child subset level), k)) (omega arith))
