-- ===== src/Queue/Priority.antt =====
-- `queue_add` of libcwmp/src/queue.c: where a task of some priority goes.
use netcwmp.Common.{
  ℕ, ◌+◌, ◌≤◌, ◌<◌, ◌≡◌, ◌∙◌, ◌≢◌, refl, ap, true, false, [], ◌∷◌, ◌++◌, Option, none, some, ◌==◌,
  leb, if◌then◌else◌, arith, length, Bool-cases, inl, inr, ==_iff,
}
use netcwmp.Queue.{
  Ptr, null, Item, Node, node, Heap, Queue, write, set_next, put_first, append, fill, add_behind,
  queue_add,
}
use netcwmp.Queue.Chain.{Cells, front, has, Chain, Chain-write, has_unused}
use netcwmp.Queue.Fifo.{Repr, append-Repr, ne_null}

lt→leb : (a b : ℕ) → b < a → leb a b ≡ false
lt→leb a b h = ground arith

le→leb : (a b : ℕ) → a ≤ b → leb a b ≡ true
le→leb a b h = ground arith

module _ {D : Type 0} where
  write_ne : (h : Heap D) (p q : Ptr) (c : Option (Node D)) → (p == q) ≡ false → write h p c q ≡ h q
  unfolding write
  write_ne h p q c e = rw e refl

  write_eq : (h : Heap D) (p : Ptr) (c : Option (Node D)) → write h p c p ≡ c
  unfolding write
  write_eq h p c = ground arith

  queue_add_at :
      (fresh : Ptr) (i : Item D) (q : Queue D) (n : Node D)
      → (fresh == null) ≡ false
      → (q.first == null) ≡ false
      → (fresh == q.first) ≡ false
      → q.heap q.first ≡ some n
      → queue_add fresh i q ≡ (
          if leb n.item.priority i.priority
          then put_first fresh n.next (fill fresh i q)
          else append fresh (fill fresh i q))
  unfolding queue_add
  queue_add_at fresh i q n d e ne h =
      rw (d, e)
        (add_behind_at (fill fresh i q) (unfold fill in write_ne q.heap fresh q.first _ ne ∙ h))
    where
      add_behind_at :
          (p : Queue D)
          → p.heap p.first ≡ some n
          → add_behind fresh i p
            ≡ (if leb n.item.priority i.priority then put_first fresh n.next p else append fresh p)
      add_behind_at p e = unfold add_behind in rw (e, add_behind) refl

  differ : (h : Heap D) (p a : Ptr) {n : Node D} → h p ≡ none → h a ≡ some n → (p == a) ≡ false
  differ h p a e k = elim (Bool-cases (p == a)) [
    | inl same ↦ cc (e, k, ap h ((==_iff p a).0 same))
    | inr other ↦ other
  ]

  set_next_at :
      (p next : Ptr) (h : Heap D) (n : Node D)
      → h p ≡ some n
      → set_next p next h ≡ some (write h p (some (record n { next = next })))
  unfolding set_next
  set_next_at p next h n e = rw (e, set_next) refl

  put_first_at :
      (fresh next : Ptr) (q : Queue D) (h : Heap D)
      → set_next fresh next q.heap ≡ some h
      → put_first fresh next q ≡ some (record q { heap = h; first = fresh })
  unfolding put_first
  put_first_at fresh next q h e = rw (e, put_first) refl

  put_first-fill :
      (fresh next : Ptr) (i : Item D) (q : Queue D)
      → put_first fresh next (fill fresh i q)
        ≡ some (record {
          heap = write (write q.heap fresh (some (node i null))) fresh (some (node i next));
          size = q.size + 1;
          first = fresh;
          last = q.last;
        })
  unfolding fill
  put_first-fill fresh next i q = put_first_at fresh next (fill fresh i q) _ (
      set_next_at fresh next (fill fresh i q).heap (node i null)
        (write_eq q.heap fresh (some (node i null))))

  queue_add_first :
      (fresh : Ptr) (i : Item D) (q : Queue D) (a : Ptr) (j : Item D) (xs : Cells D)
      → fresh ≢ null
      → q.heap fresh ≡ none
      → Repr q ((a, j) ∷ xs)
      → queue_add fresh i q ≡ (
          if leb j.priority i.priority
          then put_first fresh (front xs) (fill fresh i q)
          else append fresh (fill fresh i q))
  queue_add_first fresh i q a j xs d e r =
      queue_add_at fresh i q (node j (front xs)) (ne_null fresh d)
        (rw r.first (ne_null a r.chain.0)) (rw r.first (differ q.heap fresh a e r.chain.1))
        (rw r.first r.chain.1)

  -- Where the queue stands for a list of tasks that is not empty, and `malloc` has found an unused
  -- address: a task of lower priority than the first goes to the end, as a push does.
  pub queue_add-Repr :
      (fresh : Ptr) (i : Item D) (q : Queue D) (a : Ptr) (j : Item D) (xs : Cells D)
      → fresh ≢ null
      → q.heap fresh ≡ none
      → i.priority < j.priority
      → Repr q ((a, j) ∷ xs)
      → (q' : Queue D) × (queue_add fresh i q ≡ some q')
        × Repr q' (((a, j) ∷ xs) ++ (fresh, i) ∷ [])
  queue_add-Repr fresh i q a j xs d e low r =
      let next = append-Repr fresh i q a j xs d e r in
      (
        next.0,
        queue_add_first fresh i q a j xs d e r ∙ rw (lt→leb j.priority i.priority low) next.1,
        next.2,
      )

  -- Where the queue stands for a list of tasks that is not empty, and `malloc` has found an unused
  -- address: a task of at least the first one's priority takes the place of the first: the new list
  -- is the new task before the old list without its first, and the first can no more be reached
  -- from the queue; the size counts it still.
  pub queue_add_loses :
      (fresh : Ptr) (i : Item D) (q : Queue D) (a : Ptr) (j : Item D) (xs : Cells D)
      → fresh ≢ null
      → q.heap fresh ≡ none
      → j.priority ≤ i.priority
      → Repr q ((a, j) ∷ xs)
      → (q' : Queue D) × (queue_add fresh i q ≡ some q')
        × Chain q'.heap ((fresh, i) ∷ xs)
        × (q'.first ≡ fresh)
        × (has a ((fresh, i) ∷ xs) ≡ false)
        × (q'.size ≡ length ((fresh, i) ∷ xs) + 1)
  queue_add_loses fresh i q a j xs d e high r = (
    record {
      heap = write (write q.heap fresh (some (node i null))) fresh (some (node i (front xs)));
      size = q.size + 1;
      first = fresh;
      last = q.last;
    },
    queue_add_first fresh i q a j xs d e r
        ∙ rw (le→leb j.priority i.priority high) (put_first-fill fresh (front xs) i q),
    (
      d,
      write_eq (write q.heap fresh (some (node i null))) fresh (some (node i (front xs))),
      has_unused q.heap fresh xs e r.chain.3,
      Chain-write (write q.heap fresh (some (node i null))) fresh (some (node i (front xs))) xs
          (has_unused q.heap fresh xs e r.chain.3)
          (Chain-write q.heap fresh (some (node i null)) xs (has_unused q.heap fresh xs e r.chain.3)
            r.chain.3),
    ),
    refl,
    rw (differ q.heap fresh a e r.chain.1) r.chain.2,
    omega (arith, r.size),
  )
