-- ===== src/Tasks/Runs.antt =====
-- What `cwmp_agent_run_tasks` of cwmpd/src/agent.c does with a queue of tasks.
use netcwmp.Common.{
  ℕ, suc, ◌≡◌, ◌<◌, refl, sym, subst, ◌∙◌, Bool, true, false, ◌||◌, List, [], ◌∷◌, Option, none,
  some, ℤ, pos, negsuc, length, map, All, arith, has_flag,
}
use netcwmp.Queue.{Queue, queue_pop}
use netcwmp.Queue.Chain.{Cells}
use netcwmp.Queue.Fifo.{Repr, queue_pop-Repr, queue_pop_empty}
use netcwmp.Queue.Run.{Task, task}
use netcwmp.Event.{Events, inform_mreboot, acs_flag}
use netcwmp.Event.Slots.{IsWf, pending}
use netcwmp.Event.Clear.{clear_active-IsWf, clear_active-flags}
use netcwmp.Event.Boot.{raise}
use netcwmp.Event.Boot.Reports.{raise-Adds}
use netcwmp.Tasks.{Transfer, Done, run_task, run_reboot, is_minus_one, run_loop, run_tasks}

-- A task that `queue_pop` can tell from an empty queue.
abbrev pub IsTask : Task Transfer → Type 0
IsTask (tag, _) = is_minus_one tag ≡ false

-- The events after a list of tasks has been run, oldest first.
unfoldable pub tasks_run : (ℕ → Done) → List (Task Transfer) → Events → Option Events
tasks_run done [] s = some s
tasks_run done ((tag, a) ∷ ts) s = elim (run_task (done (suc (length ts))) tag a s) [
  | none ↦ none
  | some s' ↦ tasks_run done ts s'
]

-- What the `ok` variable is after the tasks.
abbrev pub ok_after : {A : Type 0} → Bool → List A → Bool
ok_after ok [] = ok
ok_after ok (x ∷ xs) = true

ok_after-true : {A : Type 0} (xs : List A) → ok_after true xs ≡ true
ok_after-true [] = refl
ok_after-true (x ∷ xs) = refl

-- What the loop leaves.
abbrev Emptied : Bool → Option Events → Option (Bool × Queue Transfer × Events) → Type 0
Emptied ok none r = r ≡ none
Emptied ok (some s) r = (q : Queue Transfer) × (r ≡ some (ok, q, s)) × Repr q []

run_loop_empty :
    (done : ℕ → Done) (k : ℕ) (ok : Bool) (q : Queue Transfer) (s : Events)
    → queue_pop q ≡ some (negsuc 0, none, q)
    → run_loop done (suc k) ok q s ≡ some (ok, q, s)
unfolding run_loop
run_loop_empty done k ok q s e = rw (e, run_loop) refl

run_loop_next :
    (done : ℕ → Done) (k : ℕ) (ok : Bool) (q q' : Queue Transfer) (s : Events) (tag : ℤ)
    (a : Option Transfer)
    → queue_pop q ≡ some (tag, some a, q')
    → is_minus_one tag ≡ false
    → run_loop done (suc k) ok q s
      ≡ elim (run_task (done k) tag a s) [ none ↦ none | some s' ↦ run_loop done k true q' s' ]
unfolding run_loop
run_loop_next done k ok q q' s tag a e t = rw (e, run_loop, t) refl

Emptied-task :
    (o : Option Events) (spec : Events → Option Events)
    (loop : Events → Option (Bool × Queue Transfer × Events))
    → ((s : Events) → Emptied true (spec s) (loop s))
    → Emptied true
        (elim o [ none ↦ none | some s ↦ spec s ])
        (elim o [ none ↦ none | some s ↦ loop s ])
Emptied-task none spec loop h = refl
Emptied-task (some s) spec loop h = h s

run_loop-Emptied :
    (done : ℕ → Done) (ok : Bool) (q : Queue Transfer) (xs : Cells Transfer) (s : Events)
    → All IsTask (map task xs)
    → Repr q xs
    → Emptied
        (ok_after ok xs)
        (tasks_run done (map task xs) s)
        (run_loop done (suc (length (map task xs))) ok q s)
unfolding tasks_run
run_loop-Emptied done ok q [] s t r = (q, run_loop_empty done 0 ok q s (queue_pop_empty q r), r)
run_loop-Emptied done ok q ((a, i) ∷ xs) s t r =
    let step = queue_pop-Repr q a i xs r in
    let k = suc (length (map task xs)) in
    subst
      (Emptied true (elim (run_task (done k) i.datatype i.content s) [
        | none ↦ none
        | some s' ↦ tasks_run done (map task xs) s'
      ]))
      (sym (run_loop_next done k ok q step.0 s i.datatype i.content step.1 t.0))
      (Emptied-task (run_task (done k) i.datatype i.content s) (tasks_run done (map task xs))
        (run_loop done k true step.0)
        (λ s'.
          subst (λ b. Emptied b (tasks_run done (map task xs) s') (run_loop done k true step.0 s'))
            (ok_after-true xs) (run_loop-Emptied done true step.0 xs s' t.1 step.3)))

-- Where the queue stands for a list of tasks, none of type -1 and none that lacks the data it
-- needs, `cwmp_agent_run_tasks` with a round for each task and one more runs them one after the
-- other, oldest first, and leaves an empty queue; it returns `CWMP_YES` exactly if there was a
-- task.
pub run_tasks-tasks_run :
    (done : ℕ → Done) (q : Queue Transfer) (xs : Cells Transfer) (s s' : Events)
    → All IsTask (map task xs)
    → Repr q xs
    → tasks_run done (map task xs) s ≡ some s'
    → (q' : Queue Transfer) × (run_tasks done (suc (length (map task xs))) q s
        ≡ some (ok_after false xs, q', s'))
      × Repr q' []
unfolding run_tasks
run_tasks-tasks_run done q xs s s' t r h =
    subst
      (λ o. Emptied (ok_after false xs) o (run_loop done (suc (length (map task xs))) false q s)) h
      (run_loop-Emptied done false q xs s t r)

-- Tasks other than transfers, reboots and factory resets, such as callbacks, do nothing.
abbrev pub IsOther : Task Transfer → Type 0
IsOther (tag, _) = (n : ℕ) × (tag ≡ pos n) × (4 < n)

run_task_other :
    (d : Done) (n : ℕ) (a : Option Transfer) (s : Events) → 4 < n → run_task d (pos n) a s ≡ some s
unfolding run_task
run_task_other d n a s h = ground arith

tasks_run_other :
    (done : ℕ → Done) (ts : List (Task Transfer)) (s : Events)
    → All IsOther ts
    → tasks_run done ts s ≡ some s
unfolding tasks_run
tasks_run_other done [] s h = refl
tasks_run_other done ((tag, a) ∷ ts) s h =
    rw (h.0.1, tasks_run, run_task_other (done (suc (length ts))) h.0.0 a s h.0.2)
      (tasks_run_other done ts s h.1)

other-IsTask : (ts : List (Task Transfer)) → All IsOther ts → All IsTask ts
other-IsTask [] h = tt
other-IsTask ((tag, a) ∷ ts) h = (rw h.0.1 refl, other-IsTask ts h.1)

-- A queue that stands for tasks whose tags are above 4, such as `TASK_CALLBACK_TAG`, is emptied
-- without an effect on the events.
pub run_tasks_other :
    (done : ℕ → Done) (q : Queue Transfer) (xs : Cells Transfer) (s : Events)
    → All IsOther (map task xs)
    → Repr q xs
    → (q' : Queue Transfer) × (run_tasks done (suc (length (map task xs))) q s
        ≡ some (ok_after false xs, q', s))
      × Repr q' []
run_tasks_other done q xs s h r =
    run_tasks-tasks_run done q xs s s (other-IsTask (map task xs) h) r
      (tasks_run_other done (map task xs) s h)

or_true : (a b : Bool) → (a || (b || true)) ≡ true
or_true a b = ground arith

-- Where the event list is well-formed and has room, a reboot task leaves no event pending and the
-- ACS flag set.
pub run_task_reboot :
    (d : Done) (a : Option Transfer) (s : Events)
    → IsWf s.el
    → s.el.count < s.el.size
    → (s' : Events) × (run_task d (pos 3) a s ≡ some s')
      × ((j : ℕ) → pending s'.el j ≡ none)
      × (has_flag s'.global.event_flag acs_flag ≡ true)
unfolding run_task run_reboot
run_task_reboot d a s v k =
    let r = raise-Adds inform_mreboot s (omega arith) v k in
    (
      run_reboot d s,
      refl,
      (clear_active-IsWf d.io (raise inform_mreboot s) r.wf).1,
      (clear_active-flags d.io (raise inform_mreboot s) r.wf).0
          ∙ rw (r.pends inform_mreboot)
              (or_true (has_flag (raise inform_mreboot s).global.event_flag acs_flag) _),
    )
