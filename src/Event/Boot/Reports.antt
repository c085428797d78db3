-- ===== src/Event/Boot/Reports.antt =====
-- Which events `cwmp_event_init` of libcwmp/src/event.c leaves pending.
use netcwmp.Common.{
  ℕ, suc, ◌≤◌, ◌<◌, ◌≡◌, refl, ◌∙◌, ap, Bool, true, false, ◌&&◌, ◌||◌, Option, none, some, Bytes,
  ◌==◌, if◌then◌else◌, arith, ℤ, pos, has_flag,
}
use netcwmp.Event.{
  inform_max, inform_bootstrap, inform_boot, inform_transfercomplete, inform_mreboot,
  inform_mdownload, bootstrap_flag, acs_flag, transfercomplete_flag, EventGlobal, EventList, filled,
  set_checked, set_value, or_same, list_create, EventFile, global_init, Events,
}
use netcwmp.Event.Slots.{live, pending, IsWf, is_some, lookup, list_create-IsWf}
use netcwmp.Event.Raise.{Written, Written-IsWf, pending-Written}
use netcwmp.Event.Boot.{raise, raise_transfer, is_bootstrap, init_upgrade, init_reboot, event_init}

-- From `s` to `s'` one event has become pending, and all else is as before.
pub record Adds (event : ℕ) (s s' : Events) : Type 0 where
  pub wf : IsWf s'.el
  pub count : s'.el.count ≡ suc s.el.count
  pub size : s'.el.size ≡ s.el.size
  pub global : s'.global ≡ s.global
  pub file : s'.file ≡ s.file
  pub pends : (j : ℕ) → is_some (pending s'.el j) ≡ (event == j || is_some (pending s.el j))

set_value-accepts :
    (el : EventList) (event : ℕ) (key : Option Bytes) (fault : ℤ) (start end : ℕ)
    → event < inform_max
    → el.count < el.size
    → Written el event
        (filled event (pos 1) key fault start end)
        (or_same el (set_value el (pos event) (pos 1) key fault start end))
unfolding set_value set_checked filled
set_value-accepts el event key fault start end h k = ground arith

Written-Adds :
    (s : Events) (event : ℕ) (key : Option Bytes) (fault : ℤ) (start end : ℕ) (el : EventList)
    → IsWf s.el
    → Written s.el event (filled event (pos 1) key fault start end) el
    → Adds event s (record s { el = el })
Written-Adds s event key fault start end el v w = record {
  wf = Written-IsWf w v;
  count = w.count;
  size = w.size;
  global = refl;
  file = refl;
  pends = λ j. rw (pending-Written j w v) (live_filled j);
}
  where
    live_filled :
        (j : ℕ)
        → is_some (
            if event == j
            then live (some (filled event (pos 1) key fault start end))
            else pending s.el j)
          ≡ (event == j || is_some (pending s.el j))
    live_filled j = unfold filled in ground arith

pub raise-Adds :
    (event : ℕ) (s : Events)
    → event < inform_max
    → IsWf s.el
    → s.el.count < s.el.size
    → Adds event s (raise event s)
unfolding raise
raise-Adds event s h v k =
    Written-Adds s event none (pos 0) 0 0 _ v (set_value-accepts s.el event none (pos 0) 0 0 h k)

raise_transfer-Adds :
    (key : Option Bytes) (fault : ℤ) (start end : ℕ) (s : Events)
    → IsWf s.el
    → s.el.count < s.el.size
    → Adds inform_transfercomplete s (raise_transfer key fault start end s)
unfolding raise_transfer
raise_transfer-Adds key fault start end s v k =
    Written-Adds s inform_transfercomplete key fault start end _ v
      (set_value-accepts s.el inform_transfercomplete key fault start end (omega arith) k)

-- The list of `s` is well-formed with at most `n` slots in use, and `p` says what is pending.
record Ready (n : ℕ) (p : ℕ → Bool) (s : Events) : Type 0 where
  wf : IsWf s.el
  few : s.el.count ≤ n
  size : s.el.size ≡ inform_max
  pends : (j : ℕ) → is_some (pending s.el j) ≡ p j

Adds-Ready :
    {n event : ℕ} {p : ℕ → Bool} {s s' : Events}
    → Ready n p s
    → Adds event s s'
    → Ready (suc n) (λ j. event == j || p j) s'
Adds-Ready {event} r a = record {
  wf = a.wf;
  few = omega (arith, a.count, r.few);
  size = a.size ∙ r.size;
  pends = λ j. a.pends j ∙ ap (λ b. event == j || b) (r.pends j);
}

raise-Ready :
    {n : ℕ} {p : ℕ → Bool} (event : ℕ) (s : Events)
    → event < inform_max
    → n < inform_max
    → Ready n p s
    → Ready (suc n) (λ j. event == j || p j) (raise event s)
raise-Ready event s h k r = Adds-Ready r (raise-Adds event s h r.wf (omega (arith, r.few, r.size)))

if-Ready :
    (b : Bool) {n : ℕ} {p q : ℕ → Bool} {s t : Events}
    → Ready n p s
    → Ready n q t
    → Ready n (λ j. if b then p j else q j) (if b then s else t)
if-Ready true r k = r
if-Ready false r k = k

Ready-mono : {n m : ℕ} {p : ℕ → Bool} {s : Events} → n ≤ m → Ready n p s → Ready m p s
Ready-mono h r = record { wf = r.wf; few = omega (arith, r.few); size = r.size; pends = r.pends }

-- The events of a start of the device with the record `g`.
abbrev pub boot_reports : EventGlobal → ℕ → Bool
boot_reports g j =
    if is_bootstrap g
    then inform_bootstrap == j || false
    else if has_flag g.event_flag acs_flag
    then inform_mreboot == j || (inform_boot == j || false)
    else inform_boot == j || false

abbrev pub upgrade_reports : EventGlobal → (ℕ → Bool) → ℕ → Bool
upgrade_reports g p j =
    if has_flag g.event_flag transfercomplete_flag
    then inform_transfercomplete == j || (inform_mdownload == j || p j)
    else p j

init_reboot-Ready :
    (s : Events) → Ready 0 (λ j. false) s → Ready 2 (boot_reports s.global) (init_reboot s)
unfolding init_reboot
init_reboot-Ready s r =
    if-Ready (is_bootstrap s.global)
      (Ready-mono (omega arith) (
        raise-Ready inform_bootstrap
          (record s { global = record (s.global) { event_flag = bootstrap_flag } }) (omega arith)
          (omega arith) (record { wf = r.wf; few = r.few; size = r.size; pends = r.pends })))
      (if-Ready (has_flag s.global.event_flag acs_flag)
        (raise-Ready inform_mreboot (raise inform_boot s) (omega arith) (omega arith)
          (raise-Ready inform_boot s (omega arith) (omega arith) r))
        (Ready-mono (omega arith) (raise-Ready inform_boot s (omega arith) (omega arith) r)))

init_upgrade-Ready :
    (p : ℕ → Bool) (s : Events)
    → Ready 2 p s
    → Ready 4 (upgrade_reports s.global p) (init_upgrade s)
unfolding init_upgrade
init_upgrade-Ready p s r =
    let raised = raise-Ready inform_mdownload s (omega arith) (omega arith) r in
    if-Ready (has_flag s.global.event_flag transfercomplete_flag)
      (Adds-Ready raised (
        raise_transfer-Adds (some s.global.event_key) s.global.fault_code s.global.start
          s.global.end (raise inform_mdownload s) raised.wf
          (omega (arith, raised.few, raised.size))))
      (Ready-mono (omega arith) r)

-- The record that the start leaves.
abbrev pub booted : EventGlobal → EventGlobal
booted g = if is_bootstrap g then record g { event_flag = bootstrap_flag } else g

init_reboot-global : (s : Events) → (init_reboot s).global ≡ booted s.global
unfolding init_reboot raise
init_reboot-global s = ground arith

init_upgrade-global : (s : Events) → (init_upgrade s).global ≡ s.global
unfolding init_upgrade raise raise_transfer
init_upgrade-global s = ground arith

-- What a start of the device reports, by the record `g` of its event file. A record with no flag or
-- with the bootstrap flag: a bootstrap alone. Any other: a boot; a reboot, if the ACS flag is set;
-- a download and its transfer, if the transfer flag is set.
abbrev pub start_reports : EventGlobal → ℕ → Bool
start_reports g j =
    if is_bootstrap g
    then inform_bootstrap == j
    else inform_boot == j
      || (has_flag g.event_flag acs_flag && inform_mreboot == j)
      || (has_flag g.event_flag transfercomplete_flag
          && (inform_mdownload == j || inform_transfercomplete == j))

reports-start :
    (g : EventGlobal) (j : ℕ) → upgrade_reports (booted g) (boot_reports g) j ≡ start_reports g j
reports-start g j = ground arith

-- `cwmp_event_init` leaves a well-formed list of at most four slots, and the events that are
-- pending in it are those that `start_reports` names for the record in the event file; of the
-- record it changes only the flags, to the bootstrap flag alone where a bootstrap is reported.
pub event_init_reports :
    (file : EventFile)
    → let s = event_init file in
      let g = global_init file in
      IsWf s.el
      × (s.el.count ≤ 4)
      × ((j : ℕ) → is_some (pending s.el j) ≡ start_reports g j)
      × (s.global ≡ booted g)
unfolding event_init
event_init_reports file = (
  last.wf,
  last.few,
  λ j.
      last.pends j
      ∙ ap (λ g. upgrade_reports g (boot_reports (global_init file)) j) (init_reboot-global first)
      ∙ reports-start (global_init file) j,
  init_upgrade-global (init_reboot first) ∙ init_reboot-global first,
)
  where
    first : Events
    first = record { el = list_create inform_max; global = global_init file; file = file }

    empty : Ready 0 (λ j. false) first
    empty = record {
      wf = list_create-IsWf inform_max;
      few = unfold list_create in omega arith;
      size = unfold list_create in refl;
      pends = λ j. unfold list_create pending lookup in refl;
    }

    last :
        Ready 4
          (upgrade_reports (init_reboot first).global (boot_reports (global_init file)))
          (init_upgrade (init_reboot first))
    last = init_upgrade-Ready _ (init_reboot first) (init_reboot-Ready first empty)
