-- ===== src/Queue/Tests.antt =====
-- Runs of the queue, and its theorems at concrete queues.
use netcwmp.Common.{ℕ, ◌≡◌, refl, List, [], ◌∷◌, ◌++◌, none, some, arith, map, pos, negsuc}
use netcwmp.Queue.{null, Item, node, Heap, Queue, write, queue_create}
use netcwmp.Queue.Chain.{Cells}
use netcwmp.Queue.Fifo.{Repr, pushed}
use netcwmp.Queue.Run.{Op, push, pop, heap_run, list_run, MallocOk, task, heap_run-list_run}

abbrev no_heap : Heap ℕ
no_heap _ = none

-- Two tasks, at addresses 1 and 2.
abbrev two_heap : Heap ℕ
two_heap =
    write (write no_heap 1 (some (node (pushed (some 7) (pos 1)) 2))) 2
      (some (node (pushed none (pos 3)) null))

abbrev two_tasks : Queue ℕ
two_tasks = record { heap = two_heap; size = 2; first = 1; last = 2 }

abbrev two_cells : Cells ℕ
two_cells = (1, pushed (some 7) (pos 1)) ∷ (2, pushed none (pos 3)) ∷ []

two_tasks-Repr : Repr two_tasks two_cells
unfolding write
two_tasks-Repr = record {
  chain = (ground arith, refl, refl, (ground arith, refl, refl, tt));
  first = refl;
  last = refl;
  size = refl;
}

unused_3 : two_heap 3 ≡ none
unfolding write
unused_3 = refl

-- A callback task.
abbrev callback : Item ℕ
callback = record { content = some 9; arg1 = none; arg2 = none; datatype = pos 5; priority = 2 }

abbrev low_task : Item ℕ
low_task = record { content = some 9; arg1 = none; arg2 = none; datatype = pos 5; priority = 0 }

abbrev ops : List (Op ℕ)
ops = push 3 (some 5) (pos 2) ∷ pop ∷ []

ops-MallocOk : MallocOk ops two_tasks
ops-MallocOk = (ground arith, unused_3, λ q' e out e'. tt)

heap_run-list_run_example :
    (q' : Queue ℕ) × (xs' : Cells ℕ) × (heap_run ops two_tasks
      ≡ some ((list_run ops (map task two_cells)).0, q'))
    × Repr q' xs'
    × (map task xs' ≡ (list_run ops (map task two_cells)).1)
heap_run-list_run_example = heap_run-list_run ops two_tasks two_cells ops-MallocOk two_tasks-Repr

ops_seen :
    (list_run (pop ∷ pop ∷ ops ++ pop ∷ []) (map task two_cells)).0
    ≡ (pos 1, some (some 7)) ∷ (pos 3, some none) ∷ (pos 2, some (some 5)) ∷ (negsuc 0, none) ∷ []
unfolding list_run
ops_seen = refl

queue_create-Repr : Repr (queue_create no_heap) []
unfolding queue_create
queue_create-Repr = record { chain = tt; first = refl; last = refl; size = refl }
