-- ===== src/Queue/Free.antt =====
-- `queue_free` of libcwmp/src/queue.c: which nodes it frees.
use netcwmp.Common.{
  ℕ, zero, suc, ◌≡◌, ◌∙◌, refl, true, false, [], ◌∷◌, none, some, ◌==◌, arith, length,
}
use netcwmp.Queue.{Ptr, null, Item, Node, node, Heap, Queue, write, free_nodes, queue_free}
use netcwmp.Queue.Chain.{Cells, has, Chain, Chain-write}
use netcwmp.Queue.Fifo.{Repr, ne_null}

module _ {D : Type 0} where
  free_nodes_next :
      (k : ℕ) (p : Ptr) (h : Heap D) (n : Node D)
      → h p ≡ some n
      → (n.next == null) ≡ false
      → free_nodes (suc k) p h ≡ free_nodes k n.next (write h p none)
  unfolding free_nodes
  free_nodes_next k p h n e d = rw (e, free_nodes, d) refl

  free_nodes_last :
      (k : ℕ) (p : Ptr) (h : Heap D) (n : Node D)
      → h p ≡ some n
      → (n.next == null) ≡ true
      → free_nodes (suc k) p h ≡ some h
  unfolding free_nodes
  free_nodes_last k p h n e d = rw (e, free_nodes, d) refl

  -- Free every cell but the last of those that begin at `a`.
  freed : Heap D → Ptr → Cells D → Heap D
  freed h a [] = h
  freed h a ((b, j) ∷ xs) = freed (write h a none) b xs

  freed_outside :
      (h : Heap D) (a p : Ptr) (xs : Cells D)
      → (a == p) ≡ false
      → has p xs ≡ false
      → freed h a xs p ≡ h p
  unfolding freed write
  freed_outside h a p [] d out = refl
  freed_outside h a p ((b, j) ∷ xs) d out =
      freed_outside (write h a none) b p xs (ground arith) (ground arith) ∙ rw d refl

  free_nodes-freed :
      (h : Heap D) (a : Ptr) (i : Item D) (xs : Cells D)
      → Chain h ((a, i) ∷ xs)
      → free_nodes (suc (length xs)) a h ≡ some (freed h a xs)
  unfolding freed
  free_nodes-freed h a i [] ch = free_nodes_last zero a h (node i null) ch.1 refl
  free_nodes-freed h a i ((b, j) ∷ xs) ch =
      free_nodes_next (suc (length xs)) a h (node i b) ch.1 (ne_null b ch.3.0)
      ∙ free_nodes-freed (write h a none) b j xs (Chain-write h a none ((b, j) ∷ xs) ch.2 ch.3)

  -- The last cell stays allocated, and every other one is free.
  abbrev pub LastLeft : Heap D → Ptr → Item D → Cells D → Type 0
  LastLeft h a i [] = h a ≡ some (node i null)
  LastLeft h a i ((b, j) ∷ xs) = (h a ≡ none) × LastLeft h b j xs

  freed-LastLeft :
      (h : Heap D) (a : Ptr) (i : Item D) (xs : Cells D)
      → Chain h ((a, i) ∷ xs)
      → LastLeft (freed h a xs) a i xs
  unfolding freed
  freed-LastLeft h a i [] ch = ch.1
  freed-LastLeft h a i ((b, j) ∷ xs) ch = (
    freed_outside (write h a none) b a xs (ground (arith, ch.2)) (ground (arith, ch.2))
        ∙ (unfold write in ground arith),
    freed-LastLeft (write h a none) b j xs (Chain-write h a none ((b, j) ∷ xs) ch.2 ch.3),
  )

  -- Given as many rounds as the queue has tasks, `queue_free` ends without a fault, with every node
  -- free but the last, which stays allocated.
  pub queue_free_leaks :
      (q : Queue D) (a : Ptr) (i : Item D) (xs : Cells D)
      → Repr q ((a, i) ∷ xs)
      → (h : Heap D) × (queue_free (length ((a, i) ∷ xs)) q ≡ some h) × LastLeft h a i xs
  unfolding queue_free
  queue_free_leaks q a i xs r = (
    freed q.heap a xs,
    rw r.first (free_nodes-freed q.heap a i xs r.chain),
    freed-LastLeft q.heap a i xs r.chain,
  )

  -- On an empty queue it reads through the null pointer, whatever the fuel.
  pub queue_free_empty :
      (fuel : ℕ) (q : Queue D) → Repr q [] → q.heap null ≡ none → queue_free fuel q ≡ none
  unfolding queue_free
  queue_free_empty fuel q r e = rw r.first (free_nodes_null fuel q.heap e)
    where
      free_nodes_null : (k : ℕ) (h : Heap D) → h null ≡ none → free_nodes k null h ≡ none
      free_nodes_null zero h e = unfold free_nodes in refl
      free_nodes_null (suc k) h e = unfold free_nodes in rw (e, free_nodes) refl
