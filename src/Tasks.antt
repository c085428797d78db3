-- ===== src/Tasks.antt =====
-- `cwmp_agent_run_tasks` of cwmpd/src/agent.c: the tasks that a session has left in the queue are run
-- when the session has ended.
--
-- A task's data are a `Transfer` (`download_arg_t` and `upload_arg_t`, of which this function reads
-- the command key). How a transfer ends, when it starts and ends, and how the saves of the event file
-- end come from outside (`Done`). Where data that the task needs are null the read is a fault,
-- `none`.
pub mod Runs
mod Tests
use netcwmp.Common.{
  ℕ, zero, suc, Bool, true, false, Option, none, some, Bytes, ℤ, pos, negsuc, ◌==◌, ◌||◌,
  if◌then◌else◌,
}
use netcwmp.Queue.{Queue, queue_pop}
use netcwmp.Event.{SaveOutcome, Events, inform_mreboot, clear_active}
use netcwmp.Event.Boot.{raise, raise_transfer}

pub record Transfer : Type 0 where
  pub cmdkey : Bytes

pub record Done : Type 0 where
  pub fault_code : ℤ
  pub start : ℕ
  pub end : ℕ
  pub io : ℕ → SaveOutcome

-- The cases of a download and of an upload, whose data the `free` at their end takes.
unfoldable pub run_transfer : Done → Option Transfer → Events → Option Events
run_transfer d none s = none
run_transfer d (some a) s = some (raise_transfer (some a.cmdkey) d.fault_code d.start d.end s)

-- The case of a reboot.
pub run_reboot : Done → Events → Events
run_reboot d s = clear_active d.io (raise inform_mreboot s)

-- The `switch` on the type of a task: `TASK_DOWNLOAD_TAG`, `TASK_UPLOAD_TAG`, `TASK_REBOOT_TAG`,
-- `TASK_FACTORYRESET_TAG`.
unfoldable pub run_task : Done → ℤ → Option Transfer → Events → Option Events
unfolding run_transfer run_reboot
run_task d (negsuc n) a s = some s
run_task d (pos n) a s =
    if n == 1 || n == 2
    then run_transfer d a s
    else if n == 3
    then some (run_reboot d s)
    else if n == 4
    then some (clear_active d.io s)
    else some s

-- The test on the return value of `queue_pop`.
abbrev pub is_minus_one : ℤ → Bool
is_minus_one (pos n) = false
is_minus_one (negsuc n) = n == 0

-- What the `data` variable holds when a task is popped.
abbrev pub stored : Option (Option Transfer) → Option Transfer
stored none = none
stored (some a) = a

-- The loop on fuel: `ok`, the queue and the events; `done k` is what happens with `k` rounds left.
-- `none` is a fault, or fuel that has run out.
pub run_loop :
    (ℕ → Done) → ℕ → Bool → Queue Transfer → Events → Option (Bool × Queue Transfer × Events)
run_loop done zero ok q s = none
run_loop done (suc k) ok q s = elim (queue_pop q) [
  | none ↦ none
  | some (tag, out, q') ↦ elim (is_minus_one tag) [
    | true ↦ some (ok, q', s)
    | false ↦ elim (run_task (done k) tag (stored out) s) [
      | none ↦ none
      | some s' ↦ run_loop done k true q' s'
    ]
  ]
]

-- `cwmp_agent_run_tasks`
pub run_tasks : (ℕ → Done) → ℕ → Queue Transfer → Events → Option (Bool × Queue Transfer × Events)
run_tasks done fuel q s = run_loop done fuel false q s
