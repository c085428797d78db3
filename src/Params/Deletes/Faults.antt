-- ===== src/Params/Deletes/Faults.antt =====
-- Freeing an object with children, in libcwmp/src/model.c.
use netcwmp.Common.{
  ℕ, zero, suc, ◌+◌, ◌<◌, List, [], ◌∷◌, none, some, length, All, ==_iff, ◌≡◌, ◌≢◌, refl, sym, ap,
  ◌∙◌, arith,
}
use netcwmp.Params.Deletes.{
  Links, Memory, write, fault, returns, ◌>>=◌, follow, unlink, free_parameter, free_children,
  delete_parameter, unlike, follow-some, delete_parameter_step, free_parameter_step,
  free_children_step, free_children_null, unlink_null, unlink_free, unlink_next,
}

-- The siblings from a pointer on: none is NULL, and the last one's next is.
abbrev pub Siblings : Memory → ℕ → List ℕ → Type 0
Siblings h p [] = p ≡ 0
Siblings h p (a ∷ rest) =
    (p ≡ a) × (a ≢ 0) × ((n : Links) × (h a ≡ some n) × Siblings h n.next_sibling rest)

abbrev pub tail : List ℕ → List ℕ
tail [] = []
tail (a ∷ rest) = rest

-- No sibling comes before the first one.
unlink-first :
    (k q p : ℕ) (rest : List ℕ) (h : Memory)
    → length rest < k
    → q ≢ 0
    → Siblings h p rest
    → All (λ a. a ≢ q) (tail rest)
    → unlink k q p h ≡ returns h
unlink-first zero q p rest h lt nq s others = absurd (omega (arith, lt))
unlink-first (suc k) q p [] h lt nq s others = ap (λ x. unlink (suc k) q x h) s ∙ unlink_null k q h
unlink-first (suc k) q p (a ∷ []) h lt nq (e, na, (n, ha, end)) others =
    ap (λ x. unlink (suc k) q x h) e
    ∙ unlink_next k q a h n na ha (λ z. nq (sym z ∙ end))
    ∙ unlink-first k q n.next_sibling [] h (omega (arith, lt)) nq end tt
unlink-first (suc k) q p (a ∷ b ∷ rest) h lt nq (e, na, (n, ha, s)) others =
    ap (λ x. unlink (suc k) q x h) e
    ∙ unlink_next k q a h n na ha (λ z. others.0 (sym s.0 ∙ z))
    ∙ unlink-first k q n.next_sibling (b ∷ rest) h (omega (arith, lt)) nq s others.1

-- An object in memory whose first child has no children, and whose further children come behind it.
pub record IsObject (h : Memory) (p c d : ℕ) (others : List ℕ) : Type 0 where
  pub node : Links
  pub first : Links
  pub second : Links
  pub at_node : h p ≡ some node
  pub at_first : h c ≡ some first
  pub at_second : h d ≡ some second
  pub not_null : p ≢ 0
  pub child : node.child ≡ c
  pub first_parent : first.parent ≡ p
  pub second_parent : second.parent ≡ p
  pub leaf : first.child ≡ 0
  pub next : first.next_sibling ≡ d
  pub siblings : Siblings h c (c ∷ d ∷ others)
  pub distinct : All (λ a. a ≢ c) (d ∷ others)
  pub apart : p ≢ c

module _ (h : Memory) (p c d : ℕ) (others : List ℕ) (o : IsObject h p c d others) where
  -- A leaf is freed.
  leaf_freed : (k : ℕ) → free_parameter (suc (suc k)) c h ≡ returns (write c none h)
  leaf_freed k =
      free_parameter_step (suc k) c h o.first o.siblings.1 o.at_first
      ∙ ap (λ x. free_children (suc k) x h >>= λ h'. follow h' c (λ m. returns (write c none h')))
          o.leaf
      ∙ ap (λ x. x >>= λ h'. follow h' c (λ m. returns (write c none h'))) (free_children_null k h)
      ∙ follow-some h c o.first _ o.at_first

  -- The first child is freed, and is still linked.
  first_freed :
      (k : ℕ)
      → length others + 2 < suc (suc k)
      → delete_parameter (suc (suc (suc k))) c h ≡ returns (write c none h)
  first_freed k lt =
      delete_parameter_step (suc (suc k)) c h o.first o.node o.siblings.1 o.at_first
        (ap h o.first_parent ∙ o.at_node)
      ∙ ap (λ x. unlink (suc (suc k)) c x h >>= λ h'. free_parameter (suc (suc k)) c h') o.child
      ∙ ap (λ x. x >>= λ h'. free_parameter (suc (suc k)) c h')
          (unlink-first (suc (suc k)) c c (c ∷ d ∷ others) h (omega (arith, lt)) o.siblings.1
            o.siblings o.distinct)
      ∙ leaf_freed k

  elsewhere : (q : ℕ) → q ≢ c → write c none h q ≡ h q
  elsewhere q nq = rw (unlike q c nq) refl

  -- The second child is looked for from the first one, which is free.
  second_faults : (k : ℕ) → delete_parameter (suc (suc k)) d (write c none h) ≡ fault
  second_faults k =
      delete_parameter_step (suc k) d (write c none h) o.second o.node o.siblings.2.2.1
        (elsewhere d o.distinct.0 ∙ o.at_second)
        (ap (write c none h) o.second_parent ∙ elsewhere p o.apart ∙ o.at_node)
      ∙ ap (λ x. unlink (suc k) d x (write c none h) >>= λ h'. free_parameter (suc k) d h') o.child
      ∙ ap (λ x. x >>= λ h'. free_parameter (suc k) d h')
          (unlink_free k d c (write c none h) o.siblings.1 (rw ((==_iff c c).1 refl) refl))

  children_fault :
      (k : ℕ)
      → length others + 2 < suc (suc k)
      → free_children (suc (suc (suc (suc k)))) c h ≡ fault
  children_fault k lt =
      free_children_step (suc (suc (suc k))) c h o.first o.siblings.1 o.at_first
      ∙ ap (λ x. x >>= λ h'. free_children (suc (suc (suc k))) o.first.next_sibling h')
          (first_freed k lt)
      ∙ ap (λ x. free_children (suc (suc (suc k))) x (write c none h)) o.next
      ∙ free_children_step (suc (suc k)) d (write c none h) o.second o.siblings.2.2.1
          (elsewhere d o.distinct.0 ∙ o.at_second)
      ∙ ap (λ x. x >>= λ h'. free_children (suc (suc k)) o.second.next_sibling h') (second_faults k)

  -- `cwmp_model_free_parameter` on an object whose children have it as their parent, which has two
  -- children or more, the first of them without children: with fuel for the calls and the siblings
  -- it follows a pointer to a child that it has freed.
  pub free_parameter_faults :
      (k : ℕ)
      → length others + 2 < suc (suc k)
      → free_parameter (suc (suc (suc (suc (suc k))))) p h ≡ fault
  free_parameter_faults k lt =
      free_parameter_step (suc (suc (suc (suc k)))) p h o.node o.not_null o.at_node
      ∙ ap (λ x. x >>= λ h'. follow h' p (λ m. returns (write p none h')))
          (ap (λ x. free_children (suc (suc (suc (suc k)))) x h) o.child ∙ children_fault k lt)
