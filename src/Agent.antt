-- ===== src/Agent.antt =====
-- The outer loop of `cwmp_agent_start_session` of cwmpd/src/agent.c: a session for each request, and
-- after it the tasks that the queue holds. A request that another thread raises meanwhile is left out.
mod Serves
mod Tests
use netcwmp.Common.{ℕ, Bool, true, false, List, Option, none, some, Bytes, if◌then◌else◌}
use netcwmp.Event.{SaveOutcome, Events}
use netcwmp.Queue.{Queue}
use netcwmp.Session.{Reading, Session, Link, session_create, session_loop}
use netcwmp.Tasks.{Transfer, Done, run_tasks}

-- The part of `cwmp_t` that the loop works on.
pub record Agent : Type 0 where
  pub new_request : Bool
  pub events : Events
  pub queue : Queue Transfer

-- What a round of the loop meets: the network, the responses of the ACS, which responses can be
-- made and what making them does to the queue, and what becomes of saves and tasks.
pub record Surroundings : Type 0 where
  pub made : Bytes → Bool
  pub io : ℕ → SaveOutcome
  pub link : ℕ → Link
  pub inbox : List (Option Reading)
  pub enqueue : Queue Transfer → Queue Transfer
  pub done : ℕ → Done

-- The session of a round, with fuel.
abbrev pub session_of : Surroundings → ℕ → Agent → Session
session_of w fuel a = session_loop w.made w.io w.link fuel (session_create a.events w.inbox)

-- What follows a session: the tasks, and the request that they make.
pub after_session : Surroundings → ℕ → Agent → Session → Option Agent
after_session w fuel a s = elim (run_tasks w.done fuel (w.enqueue a.queue) s.events) [
  | none ↦ none
  | some (ok, queue, events) ↦ some (record { new_request = ok; events = events; queue = queue })
]

-- A round of the loop, with fuel for the session and for the tasks; `none` is a fault, or fuel that
-- has run out.
pub agent_round : Surroundings → ℕ → ℕ → Agent → Option Agent
unfolding after_session
agent_round w session_fuel task_fuel a =
    let s = session_of w session_fuel a in
    if a.new_request
    then if s.session_close then after_session w task_fuel a s else none
    else some a
