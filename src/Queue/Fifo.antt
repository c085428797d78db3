-- ===== src/Queue/Fifo.antt =====
-- `queue_push` and `queue_pop` of libcwmp/src/queue.c against a list of tasks.
use netcwmp.Common.{
  ◌+◌, ◌≡◌, ◌∙◌, ◌≢◌, refl, sym, false, [], ◌∷◌, ◌++◌, Option, none, some, ◌==◌, if◌then◌else◌,
  arith, ℤ, negsuc, length, length-append,
}
use netcwmp.Queue.{
  Ptr, null, common_priority, Item, Node, node, Heap, Queue, write, set_next, append, fill,
  queue_push, take_node, queue_pop,
}
use netcwmp.Queue.Chain.{
  Cells, front, back_from, back, Chain, Chain-write, linked, Chain-linked, set_next-linked,
}

-- The queue stands for the cells `xs`.
pub record Repr {D : Type 0} (q : Queue D) (xs : Cells D) : Type 0 where
  pub chain : Chain q.heap xs
  pub first : q.first ≡ front xs
  pub last : q.last ≡ back xs
  pub size : q.size ≡ length xs

-- The item of a pushed task.
abbrev pub pushed : {D : Type 0} → Option D → ℤ → Item D
pushed content datatype = record {
  content = content;
  arg1 = none;
  arg2 = none;
  datatype = datatype;
  priority = common_priority;
}

pub ne_null : (p : Ptr) → p ≢ null → (p == null) ≡ false
ne_null p h = ground arith

module _ {D : Type 0} where
  pub back_from-concat :
      (a : Ptr) (xs : Cells D) (p : Ptr) (v : Item D) → back_from a (xs ++ (p, v) ∷ []) ≡ p
  back_from-concat a [] p v = refl
  back_from-concat a ((b, j) ∷ xs) p v = back_from-concat b xs p v

  append_at :
      (fresh : Ptr) (q : Queue D) (h : Heap D)
      → set_next q.last fresh q.heap ≡ some h
      → append fresh q ≡ some (record q { heap = h; last = fresh })
  unfolding append
  append_at fresh q h e = rw (e, append) refl

  -- What `append` leaves of a queue that a new node has been counted in.
  pub append-Repr :
      (fresh : Ptr) (v : Item D) (q : Queue D) (a : Ptr) (i : Item D) (xs : Cells D)
      → fresh ≢ null
      → q.heap fresh ≡ none
      → Repr q ((a, i) ∷ xs)
      → (q' : Queue D) × (append fresh (fill fresh v q) ≡ some q')
        × Repr q' (((a, i) ∷ xs) ++ (fresh, v) ∷ [])
  unfolding fill
  append-Repr fresh v q a i xs d e r = (
    record {
      heap = linked q.heap a i xs fresh v;
      size = q.size + 1;
      first = q.first;
      last = fresh;
    },
    append_at fresh (fill fresh v q) (linked q.heap a i xs fresh v)
        (rw r.last (set_next-linked q.heap a i xs fresh v e r.chain)),
    record {
      chain = Chain-linked q.heap a i xs fresh v d e r.chain;
      first = r.first;
      last = sym (back_from-concat a xs fresh v);
      size = omega (arith, r.size, length-append ((a, i) ∷ xs) ((fresh, v) ∷ []));
    },
  )

  -- The first node of an empty queue.
  pub single-Repr :
      (fresh : Ptr) (v : Item D) (q : Queue D)
      → fresh ≢ null
      → Repr q []
      → Repr (record (fill fresh v q) { first = fresh; last = fresh }) ((fresh, v) ∷ [])
  unfolding fill write
  single-Repr fresh v q d r = record {
    chain = (d, ground arith, refl, tt);
    first = refl;
    last = refl;
    size = omega (arith, r.size);
  }

  queue_push_at :
      (fresh : Ptr) (content : Option D) (datatype : ℤ) (q : Queue D)
      → (fresh == null) ≡ false
      → (q.first == null) ≡ false
      → queue_push fresh content datatype q ≡ append fresh (fill fresh (pushed content datatype) q)
  unfolding queue_push
  queue_push_at fresh content datatype q d e = rw (d, e) refl

  -- Where the queue stands for a list of tasks, a push to an address that `malloc` has found unused
  -- does not fault, and adds the task at the end.
  pub queue_push-Repr :
      (fresh : Ptr) (content : Option D) (datatype : ℤ) (q : Queue D) (xs : Cells D)
      → fresh ≢ null
      → q.heap fresh ≡ none
      → Repr q xs
      → (q' : Queue D) × (queue_push fresh content datatype q ≡ some q')
        × Repr q' (xs ++ (fresh, pushed content datatype) ∷ [])
  unfolding queue_push
  queue_push-Repr fresh content datatype q [] d e r = (
    record (fill fresh (pushed content datatype) q) { first = fresh; last = fresh },
    ground (arith, r.first),
    single-Repr fresh (pushed content datatype) q d r,
  )
  queue_push-Repr fresh content datatype q ((a, i) ∷ xs) d e r =
      let next = append-Repr fresh (pushed content datatype) q a i xs d e r in
      (
        next.0,
        queue_push_at fresh content datatype q (ne_null fresh d) (rw r.first (ne_null a r.chain.0))
            ∙ next.1,
        next.2,
      )

  queue_pop_at :
      (q : Queue D) (n : Node D)
      → (q.first == null) ≡ false
      → q.heap q.first ≡ some n
      → queue_pop q ≡ some (take_node n q)
  unfolding queue_pop
  queue_pop_at q n d e = rw (d, e) refl

  write_self : (h : Heap D) (p : Ptr) (c : Option (Node D)) → write h p c p ≡ c
  unfolding write
  write_self h p c = ground arith

  -- The `last` field after a pop.
  last_after :
      (h : Heap D) (a last : Ptr) (xs : Cells D)
      → Chain h xs
      → last ≡ back_from a xs
      → (if front xs == null then null else last) ≡ back xs
  last_after h a last [] ch e = refl
  last_after h a last ((b, j) ∷ xs) ch e = rw (ne_null b ch.0) e

  -- Where the queue stands for a list of tasks, a pop returns type and content of the oldest task,
  -- frees its node and leaves the others.
  pub queue_pop-Repr :
      (q : Queue D) (a : Ptr) (i : Item D) (xs : Cells D)
      → Repr q ((a, i) ∷ xs)
      → (q' : Queue D) × (queue_pop q ≡ some (i.datatype, some i.content, q'))
        × (q'.heap a ≡ none)
        × Repr q' xs
  unfolding take_node
  queue_pop-Repr q a i xs r = (
    (take_node (node i (front xs)) q).2,
    queue_pop_at q (node i (front xs)) (rw r.first (ne_null a r.chain.0)) (rw r.first r.chain.1),
    rw r.first (write_self q.heap a none),
    record {
      chain = rw r.first (Chain-write q.heap a none xs r.chain.2 r.chain.3);
      first = refl;
      last = last_after q.heap a q.last xs r.chain.3 r.last;
      size = omega (arith, r.size);
    },
  )

  -- Of an empty queue it returns -1 and changes nothing.
  pub queue_pop_empty : (q : Queue D) → Repr q [] → queue_pop q ≡ some (negsuc 0, none, q)
  unfolding queue_pop
  queue_pop_empty q r = ground (arith, r.first)
