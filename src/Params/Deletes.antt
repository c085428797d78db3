-- ===== src/Params/Deletes.antt =====
-- Nodes of the parameter tree as they lie in memory, and how they are freed: `cwmp_model_free_parameter`
-- and `cwmp_model_delete_parameter` of libcwmp/src/model.c.
pub mod Faults
use netcwmp.Common.{
  ℕ, zero, suc, Bool, true, false, Option, none, some, ◌==◌, ◌≡◌, ◌≢◌, ap, ◌∙◌, refl, arith,
  if◌then◌else◌,
}

-- The pointers of a node; the address 0 is NULL.
pub record Links : Type 0 where
  pub parent : ℕ
  pub child : ℕ
  pub next_sibling : ℕ

-- The nodes by their addresses; `none` is memory that is free.
abbrev pub Memory : Type 0
Memory = ℕ → Option Links

abbrev pub write : ℕ → Option Links → Memory → Memory
write p o h q = if q == p then o else h q

-- How a call ends: a pointer to memory that is free, or NULL, is followed; the fuel has run out; or
-- the call returns.
pub data Ending : Type 0 where
  fault : Ending
  no_fuel : Ending
  returns : Memory → Ending

infixl 5 ◌>>=◌
abbrev pub ◌>>=◌ : Ending → (Memory → Ending) → Ending
fault >>= f = fault
no_fuel >>= f = no_fuel
returns h >>= f = f h

-- A pointer that is followed.
abbrev pub follow : Memory → ℕ → (Links → Ending) → Ending
follow h p f = elim (h p) [ none ↦ fault | some n ↦ f n ]

-- The loop of `cwmp_model_delete_parameter` from the sibling at `tmp`: the node before `p` gets the
-- sibling behind `p`.
unfoldable pub unlink : ℕ → ℕ → ℕ → Memory → Ending
unlink zero p tmp h = no_fuel
unlink (suc k) p tmp h =
    let rest = λ (n : Links). unlink k p n.next_sibling h in
    if tmp == 0
    then returns h
    else follow h tmp λ n.
      if n.next_sibling == p
      then follow h p
          (λ m. returns (write tmp (some (record n { next_sibling = m.next_sibling })) h))
      else rest n

unfoldable mutual
  -- `cwmp_model_free_parameter`
  pub free_parameter : ℕ → ℕ → Memory → Ending
  free_parameter zero p h = no_fuel
  free_parameter (suc k) p h =
      let freed =
        follow h p
          (λ n. free_children k n.child h >>= λ h'. follow h' p (λ m. returns (write p none h'))) in
      if p == 0 then returns h else freed

  -- Its loop over the children.
  pub free_children : ℕ → ℕ → Memory → Ending
  free_children zero p h = no_fuel
  free_children (suc k) p h =
      let rest =
        follow h p (λ n. delete_parameter k p h >>= λ h'. free_children k n.next_sibling h') in
      if p == 0 then returns h else rest

  -- `cwmp_model_delete_parameter`
  pub delete_parameter : ℕ → ℕ → Memory → Ending
  delete_parameter zero p h = no_fuel
  delete_parameter (suc k) p h =
      let deleted =
        follow h p
          (λ n. follow h n.parent (λ m. unlink k p m.child h) >>= λ h'. free_parameter k p h') in
      if p == 0 then returns h else deleted

-- The calls one step on.
pub unlike : (a b : ℕ) → a ≢ b → (a == b) ≡ false
unlike a b h = ground arith

pub follow-some :
    (h : Memory) (p : ℕ) (n : Links) (f : Links → Ending) → h p ≡ some n → follow h p f ≡ f n
follow-some h p n f e = ap (λ (o : Option Links). elim o [ none ↦ fault | some m ↦ f m ]) e

pub follow-none : (h : Memory) (p : ℕ) (f : Links → Ending) → h p ≡ none → follow h p f ≡ fault
follow-none h p f e = ap (λ (o : Option Links). elim o [ none ↦ fault | some m ↦ f m ]) e

not_null : (p : ℕ) (h : Memory) (e : Ending) → p ≢ 0 → (if p == 0 then returns h else e) ≡ e
not_null p h e np = ap (λ b. if b then returns h else e) (unlike p 0 np)

pub delete_parameter_step :
    (k p : ℕ) (h : Memory) (n m : Links)
    → p ≢ 0
    → h p ≡ some n
    → h n.parent ≡ some m
    → delete_parameter (suc k) p h ≡ (unlink k p m.child h >>= λ h'. free_parameter k p h')
unfolding delete_parameter
delete_parameter_step k p h n m np e f =
    not_null p h _ np
    ∙ follow-some h p n _ e
    ∙ ap (λ x. x >>= λ h'. free_parameter k p h')
        (follow-some h n.parent m (λ m'. unlink k p m'.child h) f)

pub free_parameter_step :
    (k p : ℕ) (h : Memory) (n : Links)
    → p ≢ 0
    → h p ≡ some n
    → free_parameter (suc k) p h
      ≡ (free_children k n.child h >>= λ h'. follow h' p (λ m. returns (write p none h')))
unfolding free_parameter
free_parameter_step k p h n np e = not_null p h _ np ∙ follow-some h p n _ e

pub free_children_step :
    (k p : ℕ) (h : Memory) (n : Links)
    → p ≢ 0
    → h p ≡ some n
    → free_children (suc k) p h
      ≡ (delete_parameter k p h >>= λ h'. free_children k n.next_sibling h')
unfolding free_children
free_children_step k p h n np e = not_null p h _ np ∙ follow-some h p n _ e

pub free_children_null : (k : ℕ) (h : Memory) → free_children (suc k) 0 h ≡ returns h
unfolding free_children
free_children_null k h = refl

pub unlink_null : (k p : ℕ) (h : Memory) → unlink (suc k) p 0 h ≡ returns h
unfolding unlink
unlink_null k p h = refl

pub unlink_free :
    (k p tmp : ℕ) (h : Memory) → tmp ≢ 0 → h tmp ≡ none → unlink (suc k) p tmp h ≡ fault
unfolding unlink
unlink_free k p tmp h nt e = not_null tmp h _ nt ∙ follow-none h tmp _ e

pub unlink_next :
    (k p tmp : ℕ) (h : Memory) (n : Links)
    → tmp ≢ 0
    → h tmp ≡ some n
    → n.next_sibling ≢ p
    → unlink (suc k) p tmp h ≡ unlink k p n.next_sibling h
unfolding unlink
unlink_next k p tmp h n nt e np =
    not_null tmp h _ nt
    ∙ follow-some h tmp n _ e
    ∙ ap
        (λ b.
          if b
          then follow h p
              (λ m. returns (write tmp (some (record n { next_sibling = m.next_sibling })) h))
          else unlink k p n.next_sibling h)
        (unlike n.next_sibling p np)
