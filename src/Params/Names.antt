-- ===== src/Params/Names.antt =====
-- `cwmp_get_parameter_node` of libcwmp/src/cwmp.c against the path that a dotted name spells.
use netcwmp.Common.{
  ℕ, zero, suc, ◌≤◌, ◌≡◌, refl, sym, ◌∙◌, ap, append-nil, Bool, true, false, List, [], ◌∷◌, ◌++◌,
  Bytes, length, length-append, ◌==◌, arith, All,
}
use netcwmp.Params.{
  Node, null, node, nodename, find_sibling, child_of, descend, node_loop, get_parameter_node, fits,
}

-- A name that can stand between dots.
abbrev pub IsName : Bytes → Type 0
IsName [] = ⊥
IsName (c ∷ cs) = All (λ d. (d == 46) ≡ false) (c ∷ cs)

-- A name may end in a dot, as that of an object does.
abbrev pub last_dot : Bool → Bytes
last_dot false = []
last_dot true = 46 ∷ []

-- The names of a path, joined by dots.
unfoldable pub join : Bytes → List Bytes → Bool → Bytes
join n [] dot = n ++ last_dot dot
join n (m ∷ ns) dot = n ++ 46 ∷ join m ns dot

nodename-append : (n p : Bytes) → All (λ d. (d == 46) ≡ false) n → nodename (n ++ 46 ∷ p) ≡ (n, p)
unfolding nodename
nodename-append [] p h = refl
nodename-append (c ∷ n) p h = rw (nodename-append n p h.1, h.0) refl

nodename_plain : (n : Bytes) → All (λ d. (d == 46) ≡ false) n → nodename n ≡ (n, [])
unfolding nodename
nodename_plain [] h = refl
nodename_plain (c ∷ n) h = rw (nodename_plain n h.1, h.0) refl

IsName-All : (n : Bytes) → IsName n → All (λ d. (d == 46) ≡ false) n
IsName-All [] h = absurd h
IsName-All (c ∷ n) h = h

nodename_last : (n : Bytes) (dot : Bool) → IsName n → nodename (n ++ last_dot dot) ≡ (n, [])
nodename_last n true h = nodename-append n [] (IsName-All n h)
nodename_last n false h = ap nodename (append-nil n) ∙ nodename_plain n (IsName-All n h)

module _ {D : Type 0} where
  -- The node at the end of a path: among the siblings the first with the name, then its children.
  unfoldable pub follow : Bytes → List Bytes → Node D → Node D
  follow n [] t = find_sibling n t
  follow n (m ∷ ns) t = follow m ns (child_of (find_sibling n t))

  descend-null : (dot : Bytes) (below : Node D) → descend dot null below ≡ null
  unfolding descend
  descend-null [] below = refl
  descend-null (e ∷ dot) below = refl

  pub node_loop-null : (k : ℕ) (p : Bytes) → node_loop {D = D} k p null ≡ null
  unfolding node_loop find_sibling descend
  node_loop-null k [] = refl
  node_loop-null zero (c ∷ p) = refl
  node_loop-null (suc k) (c ∷ p) =
      descend-null (nodename (c ∷ p)).1 (node_loop k (nodename (c ∷ p)).1 null)

  -- The rounds of the loop, for the last name and for one before.
  node_loop_last :
      (k c : ℕ) (p n : Bytes) (t : Node D)
      → nodename (c ∷ p) ≡ (n, [])
      → node_loop (suc k) (c ∷ p) t ≡ find_sibling n t
  unfolding node_loop descend
  node_loop_last k c p n t e = rw (e, node_loop) refl

  descend_child :
      (k e : ℕ) (q : Bytes) (t : Node D)
      → descend (e ∷ q) t (node_loop k (e ∷ q) (child_of t)) ≡ node_loop k (e ∷ q) (child_of t)
  unfolding descend
  descend_child k e q null = sym (node_loop-null k (e ∷ q))
  descend_child k e q (node name d child next) = refl

  node_loop_more :
      (k c e : ℕ) (p q n : Bytes) (t : Node D)
      → nodename (c ∷ p) ≡ (n, e ∷ q)
      → node_loop (suc k) (c ∷ p) t ≡ node_loop k (e ∷ q) (child_of (find_sibling n t))
  unfolding node_loop
  node_loop_more k c e p q n t h = rw (h, node_loop) (descend_child k e q (find_sibling n t))

  node_loop-follow :
      (k : ℕ) (n : Bytes) (ns : List Bytes) (dot : Bool) (t : Node D)
      → IsName n
      → All IsName ns
      → length (join n ns dot) ≤ k
      → node_loop k (join n ns dot) t ≡ follow n ns t
  unfolding join follow
  node_loop-follow k [] ns dot t h hs l = absurd h
  node_loop-follow zero (c ∷ n) [] dot t h hs l = elim l [ ]
  node_loop-follow zero (c ∷ n) (m ∷ ns) dot t h hs l = elim l [ ]
  node_loop-follow (suc k) (c ∷ n) [] dot t h hs l =
      node_loop_last k c (n ++ last_dot dot) (c ∷ n) t (nodename_last (c ∷ n) dot h)
  node_loop-follow (suc k) (c ∷ n) ([] ∷ ns) dot t h hs l = absurd hs.0
  node_loop-follow (suc k) (c ∷ n) ((e ∷ m) ∷ []) dot t h hs l =
      node_loop_more k c e (n ++ 46 ∷ join (e ∷ m) [] dot) (m ++ last_dot dot) (c ∷ n) t
        (nodename-append (c ∷ n) (join (e ∷ m) [] dot) h)
      ∙ node_loop-follow k (e ∷ m) [] dot (child_of (find_sibling (c ∷ n) t)) hs.0 hs.1
          (omega (arith, l, length-append n (46 ∷ join (e ∷ m) [] dot)))
  node_loop-follow (suc k) (c ∷ n) ((e ∷ m) ∷ o ∷ ns) dot t h hs l =
      node_loop_more k c e (n ++ 46 ∷ join (e ∷ m) (o ∷ ns) dot) (m ++ 46 ∷ join o ns dot) (c ∷ n) t
        (nodename-append (c ∷ n) (join (e ∷ m) (o ∷ ns) dot) h)
      ∙ node_loop-follow k (e ∷ m) (o ∷ ns) dot (child_of (find_sibling (c ∷ n) t)) hs.0 hs.1
          (omega (arith, l, length-append n (46 ∷ join (e ∷ m) (o ∷ ns) dot)))

  -- The loop, for any fuel that is the length of the name.
  pub path_found :
      (root : Node D) (n : Bytes) (ns : List Bytes) (dot : Bool)
      → IsName n
      → All IsName ns
      → get_parameter_node root (join n ns dot) ≡ follow n ns root
  unfolding get_parameter_node
  path_found root n ns dot h hs =
      node_loop-follow (length (join n ns dot)) n ns dot root h hs (omega arith)

  -- The lookup of a dotted name, with or without a dot at its end, whose names are not empty and have
  -- at most 255 bytes, gives the node at the end of the path that they spell. On each level that is
  -- the first node that has the name or has none; where a level has no such node it is NULL.
  pub get_parameter_node-follow :
      (root : Node D) (n : Bytes) (ns : List Bytes) (dot : Bool)
      → IsName n
      → All IsName ns
      → fits (join n ns dot) ≡ true
      → get_parameter_node root (join n ns dot) ≡ follow n ns root
  get_parameter_node-follow root n ns dot h hs short = path_found root n ns dot h hs
