-- ===== src/Queue/Run.antt =====
-- Whole runs of the queue of libcwmp/src/queue.c against a list of tasks. What `malloc`
-- returns is part of a push.
use netcwmp.Common.{
  ◌≡◌, ◌∙◌, ◌≢◌, refl, ap, List, [], ◌∷◌, ◌++◌, Option, none, some, ℤ, negsuc, map,
}
use netcwmp.Queue.{Ptr, null, Item, Queue, queue_push, queue_pop, Popped}
use netcwmp.Queue.Chain.{Cells}
use netcwmp.Queue.Fifo.{Repr, pushed, queue_push-Repr, queue_pop-Repr, queue_pop_empty}

pub data Op (D : Type 0) : Type 0 where
  push : Ptr → Option D → ℤ → Op D
  pop : Op D

-- What a caller of `queue_pop` sees of it.
abbrev pub Seen : Type 0 → Type 0
Seen D = ℤ × Option (Option D)

-- A task by its type and content.
abbrev pub Task : Type 0 → Type 0
Task D = ℤ × Option D

-- Each allocation of the run succeeds, with an address that is not in use at that time.
abbrev pub MallocOk : {D : Type 0} → List (Op D) → Queue D → Type 0
MallocOk [] q = Unit
MallocOk {D} (push fresh content datatype ∷ ops) q =
    (fresh ≢ null)
    × (q.heap fresh ≡ none)
    × ((q' : Queue D) → queue_push fresh content datatype q ≡ some q' → MallocOk ops q')
MallocOk {D} (pop ∷ ops) q = (out : Popped D) → queue_pop q ≡ some out → MallocOk ops out.2

module _ {D : Type 0} where
  abbrev pub task : Ptr × Item D → Task D
  task (_, i) = (i.datatype, i.content)

  -- The queue as a list of tasks, oldest first.
  unfoldable pub list_run : List (Op D) → List (Task D) → List (Seen D) × List (Task D)
  list_run [] ts = ([], ts)
  list_run (push fresh content datatype ∷ ops) ts = list_run ops (ts ++ (datatype, content) ∷ [])
  list_run (pop ∷ ops) [] = let (seen, ts) = list_run ops [] in ((negsuc 0, none) ∷ seen, ts)
  list_run (pop ∷ ops) ((datatype, content) ∷ ts) =
      let (seen, ts') = list_run ops ts in ((datatype, some content) ∷ seen, ts')

  abbrev see : Seen D → Option (List (Seen D) × Queue D) → Option (List (Seen D) × Queue D)
  see s none = none
  see s (some (seen, q)) = some (s ∷ seen, q)

  -- The operations on the heap; `none` is a fault.
  pub heap_run : List (Op D) → Queue D → Option (List (Seen D) × Queue D)
  heap_run [] q = some ([], q)
  heap_run (push fresh content datatype ∷ ops) q = elim (queue_push fresh content datatype q) [
    | none ↦ none
    | some q' ↦ heap_run ops q'
  ]
  heap_run (pop ∷ ops) q = elim (queue_pop q) [
    | none ↦ none
    | some (ret, out, q') ↦ see (ret, out) (heap_run ops q')
  ]

  map-concat :
      (xs : Cells D) (x : Ptr × Item D) → map task (xs ++ x ∷ []) ≡ map task xs ++ task x ∷ []
  map-concat [] x = refl
  map-concat (y ∷ xs) x = ap (◌∷◌ (task y)) (map-concat xs x)

  -- From a queue that stands for a list of tasks: a run of pushes and pops whose allocations
  -- succeed does not fault, its pops return what those of the list of tasks return, and the queue
  -- that it leaves stands for the list that those leave.
  pub heap_run-list_run :
      (ops : List (Op D)) (q : Queue D) (xs : Cells D)
      → MallocOk ops q
      → Repr q xs
      → (q' : Queue D) × (xs' : Cells D) × (heap_run ops q
          ≡ some ((list_run ops (map task xs)).0, q'))
        × Repr q' xs'
        × (map task xs' ≡ (list_run ops (map task xs)).1)
  unfolding heap_run list_run
  heap_run-list_run [] q xs ok r = (q, xs, refl, r, refl)
  heap_run-list_run (push fresh content datatype ∷ ops) q xs ok r =
      let step = queue_push-Repr fresh content datatype q xs ok.0 ok.1 r in
      let rest = heap_run-list_run ops step.0 _ (ok.2 step.0 step.1) step.2 in
      let same = map-concat xs (fresh, pushed content datatype) in
      (
        rest.0,
        rest.1,
        rw (step.1, heap_run) (rest.2 ∙ ap (λ ts. some ((list_run ops ts).0, rest.0)) same),
        rest.3,
        rest.4 ∙ ap (λ ts. (list_run ops ts).1) same,
      )
  heap_run-list_run (pop ∷ ops) q [] ok r =
      let rest = heap_run-list_run ops q [] (ok _ (queue_pop_empty q r)) r in
      (rest.0, rest.1, rw (queue_pop_empty q r, heap_run, rest.2) refl, rest.3, rest.4)
  heap_run-list_run (pop ∷ ops) q ((a, i) ∷ xs) ok r =
      let step = queue_pop-Repr q a i xs r in
      let rest = heap_run-list_run ops step.0 xs (ok _ step.1) step.3 in
      (rest.0, rest.1, rw (step.1, heap_run, rest.2) refl, rest.3, rest.4)
