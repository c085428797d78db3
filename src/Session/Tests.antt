-- ===== src/Session/Tests.antt =====
-- Sessions of cwmpd/src/agent.c at concrete inputs.
use netcwmp.Common.{ℕ, ◌≡◌, true, false, [], none, codes}
use netcwmp.Event.{SaveOutcome, saves, Events, list_create, zero_global, absent}
use netcwmp.Event.Slots.{list_create-IsWf, pending}
use netcwmp.Session.{Reading, Link, session_create, session_loop}
use netcwmp.Session.Delivery.{session_loop_unreachable, session_loop_loses}

abbrev quiet_events : Events
quiet_events = record { el = list_create 18; global = zero_global; file = absent }

abbrev saving : ℕ → SaveOutcome
saving k = saves

abbrev get_names : Reading
get_names = record {
  length = 200;
  parsed = true;
  method = codes "cwmp:GetParameterNames";
  rc_is_ok = false;
}

abbrev up : ℕ → Link
up k = record { connected = true; sent = true }

session_loop_unreachable_example :
    let s =
      session_loop
        (λ _. true)
        saving
        (λ k. record { connected = false; sent = true })
        11
        (session_create quiet_events []) in
    (s.session_close ≡ true) × (s.connects ≡ 5) × (s.posts ≡ []) × (s.events ≡ quiet_events)
session_loop_unreachable_example =
    session_loop_unreachable (λ _. true) saving (λ _. true) quiet_events []

session_loop_loses_example :
    let s =
      session_loop
        (λ _. true)
        saving
        (λ _. record { connected = true; sent = false })
        4
        (session_create quiet_events []) in
    (s.session_close ≡ true)
    × (s.connects ≡ 1)
    × (s.posts ≡ [])
    × ((j : ℕ) → pending s.events.el j ≡ none)
session_loop_loses_example =
    session_loop_loses (λ _. true) saving quiet_events [] (list_create-IsWf 18)
