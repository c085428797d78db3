-- ===== src/Event.antt =====
-- libcwmp/src/event.c and libcwmp/include/cwmp/event.h: the event list of a CPE, its record of
-- reboots (`event_global`) and the file that keeps that record; the list that goes into an Inform
-- (`cwmp_agent_get_active_event` of cwmpd/src/agent.c).
--
-- The slots of `event_list_t` are a list of records: slot `i` is the object `events[i]` points to.
-- Times are numbers, `int` values integers. The mutex is not modelled: a call is one step.
mod Tests
pub mod Slots
pub mod Raise
pub mod Clear
pub mod Boot
pub mod Inform
use netcwmp.Common.{
  ℕ, zero, suc, ◌+◌, List, [], ◌∷◌, Option, none, some, Bytes, codes, get_elem?, set, take,
  replicate, leb, ◌==◌, if◌then◌else◌, ℤ, pos, negsuc, is_pos, add_flag,
}

-- `INFORM_MAX` and the members of the enumeration that the code names.
abbrev pub inform_max : ℕ
inform_max = 18

abbrev pub inform_bootstrap : ℕ
inform_bootstrap = 0

abbrev pub inform_boot : ℕ
inform_boot = 1

abbrev pub inform_valuechange : ℕ
inform_valuechange = 4

abbrev pub inform_connectionrequest : ℕ
inform_connectionrequest = 6

abbrev pub inform_transfercomplete : ℕ
inform_transfercomplete = 7

abbrev pub inform_mreboot : ℕ
inform_mreboot = 11

abbrev pub inform_mdownload : ℕ
inform_mdownload = 13

-- `EVENT_REBOOT_BOOTSTRAP_FLAG`, `EVENT_REBOOT_ACS_FLAG`, `EVENT_REBOOT_TRANSFERCOMPLETE_FLAG`
abbrev pub bootstrap_flag : ℕ
bootstrap_flag = 1

abbrev pub acs_flag : ℕ
acs_flag = 2

abbrev pub transfercomplete_flag : ℕ
transfercomplete_flag = 4

abbrev pub command_key_len : ℕ
command_key_len = 32

-- `event_code_t`. `code` is a null pointer until the slot is written.
pub record EventCode : Type 0 where
  pub event : ℕ
  pub code : Option Bytes
  pub command_key : Bytes
  pub ref : ℤ
  pub fault_code : ℤ
  pub start : ℕ
  pub end : ℕ

-- What `pool_pcalloc` leaves: zeros.
abbrev pub blank : EventCode
blank = record {
  event = 0;
  code = none;
  command_key = [];
  ref = pos 0;
  fault_code = pos 0;
  start = 0;
  end = 0;
}

-- `event_list_t`
pub record EventList : Type 0 where
  pub events : List EventCode
  pub count : ℕ
  pub size : ℕ

-- `event_global_t`
pub record EventGlobal : Type 0 where
  pub event_flag : ℕ
  pub event_key : Bytes
  pub fault_code : ℤ
  pub start : ℕ
  pub end : ℕ

abbrev pub zero_global : EventGlobal
zero_global = record { event_flag = 0; event_key = []; fault_code = pos 0; start = 0; end = 0 }

-- The codes of `inform_event_table`.
pub code_table : List Bytes
code_table =
    codes "0 BOOTSTRAP"
    ∷ codes "1 BOOT"
    ∷ codes "2 PERIODIC"
    ∷ codes "3 SCHEDULED"
    ∷ codes "4 VALUE CHANGE"
    ∷ codes "5 KICKED"
    ∷ codes "6 CONNECTION REQUEST"
    ∷ codes "7 TRANSFER COMPLETE"
    ∷ codes "8 DIAGNOSTICS COMPLETE"
    ∷ codes "9 REQUEST DOWNLOAD"
    ∷ codes "10 AUTONOMOUS TRANSFER COMPLETE"
    ∷ codes "M Reboot"
    ∷ codes "M ScheduleInform"
    ∷ codes "M Download"
    ∷ codes "M Upload"
    ∷ codes "M X_0_AccountChanged"
    ∷ codes "M 16"
    ∷ codes "M 17"
    ∷ []

-- `cwmp_event_list_create` and `cwmp_event_list_init`
unfoldable pub list_create : ℕ → EventList
list_create size = record { events = replicate size blank; count = 0; size = size }

-- The search loop of `cwmp_event_set_value`: the first of the `count` slots with this event, and
-- `count` where there is none.
pub find_slot : ℕ → ℕ → List EventCode → ℕ
find_slot event zero es = 0
find_slot event (suc count) [] = suc count
find_slot event (suc count) (e ∷ es) =
    if e.event == event then 0 else suc (find_slot event count es)

-- `TRstrncpy(ec->command_key, cmd_key, COMMAND_KEY_LEN)` into a zeroed array; `none` is NULL.
pub copy_key : Option Bytes → Bytes
copy_key none = []
copy_key (some k) = take command_key_len k

-- The slot that `cwmp_event_set_value` writes.
pub filled : ℕ → ℤ → Option Bytes → ℤ → ℕ → ℕ → EventCode
unfolding copy_key
filled event value cmd_key fault_code start end = record {
  event = event;
  code = get_elem? code_table event;
  command_key = copy_key cmd_key;
  ref = value;
  fault_code = fault_code;
  start = start;
  end = end;
}

-- The body of `cwmp_event_set_value` after its range check; `none` stands for `CWMP_ERROR`.
pub set_checked : EventList → ℕ → EventCode → Option EventList
unfolding find_slot
set_checked el event ec =
    if leb el.size el.count
    then none
    else some (record el {
      events = set el.events (find_slot event el.count el.events) ec;
      count = el.count + 1;
    })

-- `cwmp_event_set_value`
pub set_value : EventList → ℤ → ℤ → Option Bytes → ℤ → ℕ → ℕ → Option EventList
unfolding set_checked filled
set_value el (negsuc n) value cmd_key fault_code start end = none
set_value el (pos event) value cmd_key fault_code start end =
    if leb inform_max event
    then none
    else set_checked el event (filled event value cmd_key fault_code start end)

-- The callers ignore the result: a refused call leaves the list as it was.
abbrev pub or_same : EventList → Option EventList → EventList
or_same el none = el
or_same el (some el') = el'

-- How an attempt to write the event file ends. `fopen(…, "wb+")` empties the file.
pub data SaveOutcome : Type 0 where
  open_fails write_fails saves : SaveOutcome

-- The event file: absent, shorter than a record, or holding one.
pub data EventFile : Type 0 where
  absent short : EventFile
  holds : EventGlobal → EventFile

-- `cwmp_event_file_save`
pub file_save : SaveOutcome → EventGlobal → EventFile → EventFile
file_save open_fails g file = file
file_save write_fails g file = short
file_save saves g file = holds g

-- `cwmp_event_global_init`: whatever goes wrong, the record is zeroed. What `fread` may leave of a file
-- that ends within the record is not kept.
pub global_init : EventFile → EventGlobal
global_init absent = zero_global
global_init short = zero_global
global_init (holds g) = g

-- The part of `cwmp_t` that this file works on.
pub record Events : Type 0 where
  pub el : EventList
  pub global : EventGlobal
  pub file : EventFile

-- One save in the loop of `cwmp_event_clear_active`.
save : SaveOutcome → EventGlobal → EventGlobal × EventFile → EventGlobal × EventFile
unfolding file_save
save io g (_, file) = (g, file_save io g file)

-- The `switch` of `cwmp_event_clear_active` on a slot with a positive `ref`.
pub clear_case : SaveOutcome → EventCode → EventGlobal × EventFile → EventGlobal × EventFile
unfolding save
clear_case io e (g, file) =
    if e.event == inform_bootstrap
    then save io (record g { event_flag = add_flag g.event_flag acs_flag }) (g, file)
    else if e.event == inform_mreboot
    then save io (record g { event_flag = add_flag g.event_flag acs_flag }) (g, file)
    else if e.event == inform_transfercomplete
    then save io
        (record {
          event_flag = add_flag g.event_flag transfercomplete_flag;
          event_key = e.command_key;
          fault_code = e.fault_code;
          start = e.start;
          end = e.end;
        })
        (g, file)
    else (g, file)

-- The loop of `cwmp_event_clear_active` over the first `n` slots: what becomes of the slots, and of
-- the record and its file. `io k` is how the save at the slot with `k` behind it ends.
pub clear_slots : ℕ → List EventCode → List EventCode
clear_slots zero es = es
clear_slots (suc n) [] = []
clear_slots (suc n) (e ∷ es) =
    (if is_pos e.ref then record e { ref = pos 0 } else e) ∷ clear_slots n es

pub clear_global :
    (ℕ → SaveOutcome) → ℕ → List EventCode → EventGlobal × EventFile → EventGlobal × EventFile
unfolding clear_case
clear_global io zero es g = g
clear_global io (suc n) [] g = g
clear_global io (suc n) (e ∷ es) g =
    clear_global io n es (if is_pos e.ref then clear_case (io n) e g else g)

-- `cwmp_event_clear_active`
pub clear_active : (ℕ → SaveOutcome) → Events → Events
unfolding clear_slots clear_global
clear_active io s = record {
  el = record { events = clear_slots s.el.count s.el.events; count = 0; size = s.el.size };
  global = (clear_global io s.el.count s.el.events (s.global, s.file)).0;
  file = (clear_global io s.el.count s.el.events (s.global, s.file)).1;
}
