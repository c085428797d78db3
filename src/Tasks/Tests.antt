-- ===== src/Tasks/Tests.antt =====
-- `cwmp_agent_run_tasks` at concrete queues.
use netcwmp.Common.{ℕ, ◌≡◌, ◌==◌, if◌then◌else◌, refl, true, [], ◌∷◌, none, some, codes, pos, arith}
use netcwmp.Queue.{Queue, node, null}
use netcwmp.Queue.Chain.{Cells}
use netcwmp.Queue.Fifo.{Repr, pushed}
use netcwmp.Event.{saves, Events, list_create, zero_global, absent}
use netcwmp.Event.Boot.{raise_transfer}
use netcwmp.Tasks.{Transfer, Done, run_task, run_transfer, run_tasks}
use netcwmp.Tasks.Runs.{tasks_run, run_tasks-tasks_run}

abbrev quiet_events : Events
quiet_events = record { el = list_create 18; global = zero_global; file = absent }

abbrev fails : ℕ → Done
fails k = record { fault_code = pos 9010; start = 3; end = 4; io = λ _. saves }

abbrev firmware : Transfer
firmware = record { cmdkey = codes "fw" }

-- A queue of one callback.
abbrev callback_queue : Queue Transfer
callback_queue = record {
  heap = λ p. if p == 1 then some (node (pushed none (pos 5)) null) else none;
  size = 1;
  first = 1;
  last = 1;
}

abbrev callback_cells : Cells Transfer
callback_cells = (1, pushed none (pos 5)) ∷ []

callback-Repr : Repr callback_queue callback_cells
callback-Repr = record {
  chain = (ground arith, refl, refl, tt);
  first = refl;
  last = refl;
  size = refl;
}

-- A queue of one download.
abbrev download_queue : Queue Transfer
download_queue = record callback_queue {
  heap = λ p. if p == 1 then some (node (pushed (some firmware) (pos 1)) null) else none;
}

abbrev download_cells : Cells Transfer
download_cells = (1, pushed (some firmware) (pos 1)) ∷ []

download-Repr : Repr download_queue download_cells
download-Repr = record {
  chain = (ground arith, refl, refl, tt);
  first = refl;
  last = refl;
  size = refl;
}

abbrev downloaded : Events
downloaded = raise_transfer (some (codes "fw")) (pos 9010) 3 4 quiet_events

download_run : tasks_run fails ((pos 1, some firmware) ∷ []) quiet_events ≡ some downloaded
unfolding tasks_run run_task run_transfer
download_run = refl

run_tasks-tasks_run_example :
    (q' : Queue Transfer) × (run_tasks fails 2 download_queue quiet_events
      ≡ some (true, q', downloaded))
    × Repr q' []
run_tasks-tasks_run_example =
    run_tasks-tasks_run fails download_queue download_cells quiet_events downloaded (refl, tt)
      download-Repr download_run
