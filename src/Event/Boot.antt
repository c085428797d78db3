-- ===== src/Event/Boot.antt =====
-- `cwmp_event_init` of libcwmp/src/event.c: which events a start of the device raises.
pub mod Reports
pub mod Forever
use netcwmp.Common.{ℕ, Bool, ◌||◌, Bytes, Option, none, some, ◌==◌, if◌then◌else◌, ℤ, pos, has_flag}
use netcwmp.Event.{
  inform_max, inform_bootstrap, inform_boot, inform_transfercomplete, inform_mreboot,
  inform_mdownload, bootstrap_flag, acs_flag, transfercomplete_flag, EventGlobal, list_create,
  set_value, or_same, EventFile, global_init, Events,
}

-- A call of `cwmp_event_set_value` with no key, fault or times, its result ignored.
pub raise : ℕ → Events → Events
unfolding set_value
raise event s = record s { el = or_same s.el (set_value s.el (pos event) (pos 1) none (pos 0) 0 0) }

-- A call of it for `INFORM_TRANSFERCOMPLETE`, as in `cwmp_event_init` and `cwmp_agent_run_tasks`.
pub raise_transfer : Option Bytes → ℤ → ℕ → ℕ → Events → Events
unfolding set_value
raise_transfer key fault_code start end s = record s {
  el = or_same s.el (set_value s.el (pos inform_transfercomplete) (pos 1) key fault_code start end);
}

-- The first test of `cwmp_event_init`.
abbrev pub is_bootstrap : EventGlobal → Bool
is_bootstrap g = g.event_flag == 0 || has_flag g.event_flag bootstrap_flag

-- The last part of `cwmp_event_init`.
init_upgrade : Events → Events
init_upgrade s =
    if has_flag s.global.event_flag transfercomplete_flag
    then raise_transfer (some s.global.event_key) s.global.fault_code s.global.start s.global.end
        (raise inform_mdownload s)
    else s

-- The middle part of it: why the device started.
init_reboot : Events → Events
init_reboot s =
    if is_bootstrap s.global
    then raise inform_bootstrap
        (record s { global = record (s.global) { event_flag = bootstrap_flag } })
    else if has_flag s.global.event_flag acs_flag
    then raise inform_mreboot (raise inform_boot s)
    else raise inform_boot s

-- `cwmp_event_init`, with the event file that it finds.
pub event_init : EventFile → Events
unfolding init_reboot init_upgrade
event_init file =
    init_upgrade
      (init_reboot (record { el = list_create inform_max; global = global_init file; file = file }))
