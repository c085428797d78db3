-- ===== src/Event/Tests.antt =====
-- Runs of the event code, and its theorems at concrete lists.
use netcwmp.Common.{ℕ, ◌≡◌, ◌≤◌, refl, false, ◌||◌, some, codes, ◌==◌, if◌then◌else◌, pos}
use netcwmp.Event.{
  inform_bootstrap, inform_transfercomplete, inform_mreboot, zero_global, EventList, EventGlobal,
  saves, absent, holds, global_init, Events, filled, find_slot, set_checked, set_value, or_same,
  list_create, clear_active, clear_global, clear_case,
}
use netcwmp.Event.Slots.{lookup, live, pending, IsWf, is_some, list_create-IsWf}
use netcwmp.Event.Raise.{set_value-IsWf, pending-set_value}
use netcwmp.Event.Clear.{clear_active_saved}
use netcwmp.Event.Boot.{event_init}
use netcwmp.Event.Boot.Reports.{start_reports, booted, event_init_reports}
use netcwmp.Event.Boot.Forever.{born, next, clears, start_bootstrap}
use netcwmp.Event.Inform.{get_active_event}
use netcwmp.Event.Inform.Lists.{find_entry, entry, get_active_event_lists}

abbrev empty_list : EventList
empty_list = list_create 18

-- One transfer, done with fault 9001.
abbrev after_transfer : EventList
after_transfer =
    or_same empty_list (set_value empty_list (pos 7) (pos 1) (some (codes "k1")) (pos 9001) 5 6)

transfer_accepted :
    set_value empty_list (pos 7) (pos 1) (some (codes "k1")) (pos 9001) 5 6 ≡ some after_transfer
unfolding set_value set_checked find_slot filled list_create
transfer_accepted = refl

transfer_kept :
    lookup 7 1 after_transfer.events ≡ some (filled 7 (pos 1) (some (codes "k1")) (pos 9001) 5 6)
unfolding lookup set_value set_checked find_slot filled list_create
transfer_kept = refl

set_value-IsWf_example : IsWf after_transfer
set_value-IsWf_example =
    set_value-IsWf empty_list after_transfer 7 (pos 1) (some (codes "k1")) (pos 9001) 5 6
      (list_create-IsWf 18) transfer_accepted

pending-set_value_example : pending after_transfer 7 ≡ (
    if 7 == 7
    then live (some (filled 7 (pos 1) (some (codes "k1")) (pos 9001) 5 6))
    else pending empty_list 7)
pending-set_value_example =
    pending-set_value empty_list after_transfer 7 (pos 1) (some (codes "k1")) (pos 9001) 5 6 7
      (list_create-IsWf 18) transfer_accepted

-- Eighteen connection requests fill the list.

-- A list of its own for the state at work.
abbrev working : Events
working = record { el = after_transfer; global = zero_global; file = absent }

abbrev working-IsWf : IsWf working.el
working-IsWf =
    set_value-IsWf empty_list after_transfer 7 (pos 1) (some (codes "k1")) (pos 9001) 5 6
      (list_create-IsWf 18) transfer_accepted

clear_active_saved_example :
    let s' = clear_active (λ _. saves) working in
    let b =
      is_some (pending after_transfer inform_bootstrap)
      || (is_some (pending after_transfer inform_mreboot)
          || is_some (pending after_transfer inform_transfercomplete)) in
    (s'.file ≡ (if b then holds s'.global else absent)) × (b ≡ false → s'.global ≡ zero_global)
clear_active_saved_example = clear_active_saved (λ _. saves) working working-IsWf (λ k. refl)

transfer_flagged : (clear_active (λ _. saves) working).global.event_flag ≡ 4
unfolding clear_active clear_global clear_case set_value set_checked find_slot filled list_create
transfer_flagged = refl

abbrev acs_global : EventGlobal
acs_global = record zero_global { event_flag = 6; event_key = codes "k1" }

event_init_reports_example :
    let s = event_init (holds acs_global) in
    let g = global_init (holds acs_global) in
    IsWf s.el
    × (s.el.count ≤ 4)
    × ((j : ℕ) → is_some (pending s.el j) ≡ start_reports g j)
    × (s.global ≡ booted g)
event_init_reports_example = event_init_reports (holds acs_global)

start_bootstrap_example :
    is_some (pending (event_init (clear_active (λ _. saves) (event_init absent)).file).el 1)
    ≡ (0 == 1)
start_bootstrap_example =
    start_bootstrap {s = clear_active (λ _. saves) (event_init absent)}
      (next born (clears (λ _. saves))) 1

-- `pending` of the working list.
working_pends :
    pending after_transfer 7 ≡ some (filled 7 (pos 1) (some (codes "k1")) (pos 9001) 5 6)
unfolding pending lookup set_value set_checked find_slot filled list_create
working_pends = refl

get_active_event_lists_example :
    find_entry 7 (get_active_event after_transfer) ≡ entry (pending after_transfer 7)
get_active_event_lists_example =
    get_active_event_lists after_transfer 7 (filled 7 (pos 1) (some (codes "k1")) (pos 9001) 5 6) 7
      working-IsWf working_pends
