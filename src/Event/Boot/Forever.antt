-- ===== src/Event/Boot/Forever.antt =====
-- The life of a device through its events: calls of `cwmp_event_set_value` and
-- `cwmp_event_clear_active`, reports of a transfer, and starts, in any order and with any outcome
-- of the writes to the event file.
use netcwmp.Common.{
  ℕ, zero, suc, ◌≡◌, refl, ◌∙◌, true, false, List, [], ◌∷◌, Option, Bytes, ◌==◌, if◌then◌else◌,
  arith, ℤ, has_flag, is_pos,
}
use netcwmp.Event.{
  inform_bootstrap, bootstrap_flag, EventCode, EventGlobal, SaveOutcome, open_fails, write_fails,
  saves, EventFile, absent, global_init, Events, set_value, or_same, clear_case, clear_global,
  clear_active,
}
use netcwmp.Event.Slots.{pending, is_some}
use netcwmp.Event.Inform.{event_check}
use netcwmp.Event.Boot.{is_bootstrap, event_init, init_reboot, init_upgrade, raise, raise_transfer}
use netcwmp.Event.Boot.Reports.{event_init_reports}

pub data Step (s : Events) : Events → Type 0 where
  sets :
      (event value : ℤ) (key : Option Bytes) (fault : ℤ) (start end : ℕ)
      → Step s (record s { el = or_same s.el (set_value s.el event value key fault start end) })
  clears : (io : ℕ → SaveOutcome) → Step s (clear_active io s)
  checks : Step s (event_check s).1
  starts : Step s (event_init s.file)

-- From the first start, with no event file.
pub data Life : Events → Type 0 where
  born : Life (event_init absent)
  next : {s t : Events} → Life s → Step s t → Life t

-- The bootstrap flag is set, and the file can only lead to another bootstrap.
record Stuck (g : EventGlobal) (file : EventFile) : Type 0 where
  flag : has_flag g.event_flag bootstrap_flag ≡ true
  file_ok : is_bootstrap (global_init file) ≡ true

clear_case-Stuck :
    (io : SaveOutcome) (e : EventCode) (g : EventGlobal) (file : EventFile)
    → Stuck g file
    → Stuck (clear_case io e (g, file)).0 (clear_case io e (g, file)).1
unfolding clear_case global_init
clear_case-Stuck open_fails e g file h = ground arith
clear_case-Stuck write_fails e g file h = ground arith
clear_case-Stuck saves e g file h = ground arith

clear_global-Stuck :
    (io : ℕ → SaveOutcome) (n : ℕ) (es : List EventCode) (g : EventGlobal × EventFile)
    → Stuck g.0 g.1
    → Stuck (clear_global io n es g).0 (clear_global io n es g).1
unfolding clear_global
clear_global-Stuck io zero es g h = h
clear_global-Stuck io (suc n) [] g h = h
clear_global-Stuck io (suc n) (e ∷ es) g h =
    clear_global-Stuck io n es (if is_pos e.ref then clear_case (io n) e g else g)
      (elim (is_pos e.ref)
        as (λ b.
          Stuck (if b then clear_case (io n) e g else g).0
            (if b then clear_case (io n) e g else g).1) [
              | true ↦ clear_case-Stuck (io n) e g.0 g.1 h
              | false ↦ h
            ])

event_init-file : (file : EventFile) → (event_init file).file ≡ file
unfolding event_init init_reboot init_upgrade raise raise_transfer
event_init-file file = ground arith

start-Stuck :
    (file : EventFile)
    → is_bootstrap (global_init file) ≡ true
    → Stuck (event_init file).global (event_init file).file
start-Stuck file h = record {
  flag = rw (event_init_reports file).3 (ground arith);
  file_ok = rw (event_init-file file) h;
}

Step-Stuck : {s t : Events} → Step s t → Stuck s.global s.file → Stuck t.global t.file
unfolding clear_active event_check
Step-Stuck (sets event value key fault start end) h = h
Step-Stuck {s} (clears io) h = clear_global-Stuck io s.el.count s.el.events (s.global, s.file) h
Step-Stuck {s} checks h = ground arith
Step-Stuck {s} starts h = start-Stuck s.file h.file_ok

Life-Stuck : {s : Events} → Life s → Stuck s.global s.file
Life-Stuck born = start-Stuck absent (unfold global_init in refl)
Life-Stuck (next l st) = Step-Stuck st (Life-Stuck l)

-- Whatever happens in the life of a device, a start reports a bootstrap and nothing else: never a
-- boot, a reboot that the server asked for, or a finished download.
pub start_bootstrap :
    {s : Events}
    → Life s
    → (j : ℕ) → is_some (pending (event_init s.file).el j) ≡ (inform_bootstrap == j)
start_bootstrap {s} l j =
    let stuck = Life-Stuck l in (event_init_reports s.file).2 j ∙ ground (arith, stuck.file_ok)
