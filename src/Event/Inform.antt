-- ===== src/Event/Inform.antt =====
-- What cwmpd/src/agent.c reads from the events: the event list of an Inform
-- (`cwmp_agent_get_active_event`), and the transfer that is still to be reported (the part of
-- `cwmp_agent_analyse_session` behind its label `eventcheck`).
pub mod Lists
use netcwmp.Common.{
  ℕ, zero, suc, Option, none, take, has_flag, drop_flag, ◌||◌, List, [], ◌∷◌, some, codes, ◌==◌,
  if◌then◌else◌, is_pos,
}
use netcwmp.Event.{
  Events, transfercomplete_flag, inform_transfercomplete, command_key_len, inform_bootstrap,
  inform_boot, inform_mreboot, EventCode, blank, EventList,
}

-- `cwmp_agent_get_active_event`: the entry of the Inform that a slot becomes. The new record comes
-- zeroed from the pool.
pub inform_entry : EventCode → EventCode
inform_entry e = record blank {
  event = e.event;
  code = e.code;
  command_key =
      if e.event == inform_mreboot || e.event == inform_bootstrap then e.command_key else [];
}

pub active_slots : ℕ → List EventCode → List EventCode
unfolding inform_entry
active_slots zero es = []
active_slots (suc n) [] = []
active_slots (suc n) (e ∷ es) =
    if is_pos e.ref then inform_entry e ∷ active_slots n es else active_slots n es

-- The entry for an Inform that has no event to report.
pub boot_entry : EventCode
boot_entry = record blank { event = inform_boot; code = some (codes "1 BOOT") }

pub or_boot : List EventCode → List EventCode
unfolding boot_entry
or_boot [] = boot_entry ∷ []
or_boot (e ∷ es) = e ∷ es

pub get_active_event : EventList → List EventCode
unfolding active_slots or_boot
get_active_event el = or_boot (active_slots el.count el.events)

-- Behind `eventcheck`: the transfer to report, if its flag is set; the flag is taken back.
unfoldable pub event_check : Events → Option EventCode × Events
event_check s =
    if has_flag s.global.event_flag transfercomplete_flag
    then (
      some (record blank {
        event = inform_transfercomplete;
        command_key = take command_key_len s.global.event_key;
        fault_code = s.global.fault_code;
        start = s.global.start;
        end = s.global.end;
      }),
      record s {
        global = record (s.global) {
          event_flag = drop_flag s.global.event_flag transfercomplete_flag;
        };
      },
    )
    else (none, s)
