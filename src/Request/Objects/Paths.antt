-- ===== src/Request/Objects/Paths.antt =====
-- `cwmp_get_parameter_path_node` of libcwmp/src/cwmp.c against `cwmp_get_parameter_node`.
use netcwmp.Common.{
  ℕ, zero, suc, true, false, List, [], ◌∷◌, Option, none, some, Bytes, codes, bytes_eq,
  bytes_eq_iff, length, ◌≡◌, refl, sym, ◌∙◌, ap, Bool-cases, inl, inr, arith, if◌then◌else◌,
}
use netcwmp.Params.{
  Node, null, node, is_null, nodename, child_of, find_sibling, descend, node_loop,
  get_parameter_node,
}
use netcwmp.Params.Names.{node_loop-null}
use netcwmp.Request.Objects.{
  Search, at, last, search, path_round, node_at, path_loop, get_parameter_path_node,
}

-- No name of a dotted name is the template's.
unfoldable pub IsPlain : ℕ → Bytes → Type 0
IsPlain k [] = Unit
IsPlain zero (c ∷ p) = Unit
IsPlain (suc k) (c ∷ p) =
    let (name, dot) = nodename (c ∷ p) in
    let rest = IsPlain k dot in (bytes_eq name (codes "{i}") ≡ false) × rest

module _ {D : Type 0} where
  further :
      (name n : Bytes) (next : Node D)
      → search name next ≡ at (find_sibling name next)
      → is_null (find_sibling name next) ≡ false
      → (if bytes_eq n (codes "{i}")
          then search name next
          else if false
          then at null
          else if is_null next
          then last
          else search name next)
        ≡ at (find_sibling name next)
  unfolding find_sibling
  further name n null same h = absurd (ground arith)
  further name n (node m d child next) same h =
      elim (bytes_eq n (codes "{i}"))
        as (λ b.
          (if b then search name (node m d child next) else search name (node m d child next))
          ≡ at (find_sibling name (node m d child next))) [ true ↦ same | false ↦ same ]

  -- A sibling that the one lookup finds, the other finds too.
  search-find_sibling :
      (name : Bytes) (t : Node D)
      → bytes_eq name (codes "{i}") ≡ false
      → is_null (find_sibling name t) ≡ false
      → search name t ≡ at (find_sibling name t)
  unfolding search find_sibling
  search-find_sibling name null plain h = absurd (ground arith)
  search-find_sibling name (node none d child next) plain h = refl
  search-find_sibling name (node (some n) d child next) plain h =
      elim (Bool-cases (bytes_eq n name)) [
        | inl same ↦
            rw (same, ap (λ m. bytes_eq m (codes "{i}")) ((bytes_eq_iff n name).0 same) ∙ plain)
              refl
        | inr differs ↦ rw (differs) (
            further name n next (search-find_sibling name next plain (rest differs)) (rest differs))
      ]
    where
      rest : bytes_eq n name ≡ false → is_null (find_sibling name next) ≡ false
      rest differs =
          sym (
            ap (λ b. is_null (if b then node (some n) d child next else find_sibling name next))
              differs)
          ∙ h

  unfoldable pub found_in : Option (Node D × List (Node D)) → Node D
  found_in none = null
  found_in (some (t, above)) = t

  -- The end of a round, where the rounds on the children agree.
  round :
      (k : ℕ) (dot : Bytes) (above : List (Node D)) (t : Node D) (r : Search D)
      → (is_null t ≡ false → r ≡ at t)
      → ((above : List (Node D)) (t : Node D)
          → is_null (node_loop k dot t) ≡ false
          → found_in (path_loop k dot above t) ≡ node_loop k dot t)
      → is_null (descend dot t (node_loop k dot (child_of t))) ≡ false
      → found_in
          (path_round dot above r (path_loop k dot (node_at r ∷ above) (child_of (node_at r))))
        ≡ descend dot t (node_loop k dot (child_of t))
  unfolding path_round descend found_in
  round k [] above t r same ih h =
      ap
        (λ r.
          found_in
            (path_round [] above r (path_loop k [] (node_at r ∷ above) (child_of (node_at r)))))
        (same h)
  round k (e ∷ dot) above null r same ih h = absurd (ground arith)
  round k (e ∷ dot) above (node n d null next) r same ih h =
      absurd (ground (arith, sym (ap is_null (node_loop-null k (e ∷ dot))) ∙ h))
  round k (e ∷ dot) above (node n d (node m b c s) next) r same ih h =
      ap
        (λ r. found_in (
          path_round (e ∷ dot) above r
            (path_loop k (e ∷ dot) (node_at r ∷ above) (child_of (node_at r)))))
        (same refl)
      ∙ ih _ (node m b c s) h

  path_loop-node_loop :
      (k : ℕ) (p : Bytes) (above : List (Node D)) (t : Node D)
      → IsPlain k p
      → is_null (node_loop k p t) ≡ false
      → found_in (path_loop k p above t) ≡ node_loop k p t
  unfolding path_loop node_loop IsPlain found_in
  path_loop-node_loop k [] above t plain h = refl
  path_loop-node_loop zero (c ∷ p) above t plain h = absurd (ground arith)
  path_loop-node_loop (suc k) (c ∷ p) above t plain h =
      let (name, dot) = nodename (c ∷ p) in
      round k dot above (find_sibling name t) (search name t) (search-find_sibling name t plain.0)
        (λ above' t'. path_loop-node_loop k dot above' t' plain.1) h

  -- Where `cwmp_get_parameter_node` finds a node for a name without the part `{i}`,
  -- `cwmp_get_parameter_path_node` finds the same.
  pub get_parameter_path_node-get_parameter_node :
      (root : Node D) (name : Bytes)
      → IsPlain (length name) name
      → is_null (get_parameter_node root name) ≡ false
      → found_in (get_parameter_path_node root (some name)) ≡ get_parameter_node root name
  unfolding get_parameter_path_node get_parameter_node found_in
  get_parameter_path_node-get_parameter_node null name plain h =
      sym (node_loop-null (length name) name)
  get_parameter_path_node-get_parameter_node (node n d child next) name plain h =
      path_loop-node_loop (length name) name [] (node n d child next) plain h
