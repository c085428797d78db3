-- ===== src/Session/Delivery.antt =====
-- What becomes of the events in a session of cwmpd/src/agent.c: on a network without ACS, where the
-- Inform is not delivered, and where it is.
use netcwmp.Common.{
  ℕ, ◌≡◌, refl, Bool, true, false, List, [], ◌∷◌, Option, none, some, Bytes, codes,
}
use netcwmp.Event.{SaveOutcome, Events, EventCode, clear_active}
use netcwmp.Event.Slots.{IsWf, pending}
use netcwmp.Event.Clear.{clear_active-IsWf}
use netcwmp.Event.Inform.{get_active_event, event_check}
use netcwmp.Session.{
  Status, Reading, no_reading, Session, Link, Document, session_create, session_step, session_loop,
  do_start, do_inform, do_send, do_exit, retry_session, after_retry,
}

-- Where no connection succeeds, a session tries five times, posts nothing, leaves the events as
-- they are, and closes.
pub session_loop_unreachable :
    (made : Bytes → Bool) (io : ℕ → SaveOutcome) (sent : ℕ → Bool) (events : Events)
    (inbox : List (Option Reading))
    → let s =
        session_loop made io
          (λ k. record { connected = false; sent = sent k })
          11
          (session_create events inbox) in
      (s.session_close ≡ true) × (s.connects ≡ 5) × (s.posts ≡ []) × (s.events ≡ events)
unfolding session_loop session_create session_step do_start retry_session after_retry do_exit
session_loop_unreachable made io sent events inbox = (refl, refl, refl, refl)

-- Where the event list is well-formed, the connection succeeds and the post of the Inform fails,
-- the session closes after one attempt, nothing is posted, and yet no event is pending any more.
pub session_loop_loses :
    (made : Bytes → Bool) (io : ℕ → SaveOutcome) (events : Events) (inbox : List (Option Reading))
    → IsWf events.el
    → let s =
        session_loop made io
          (λ _. record { connected = true; sent = false })
          4
          (session_create events inbox) in
      (s.session_close ≡ true)
      × (s.connects ≡ 1)
      × (s.posts ≡ [])
      × ((j : ℕ) → pending s.events.el j ≡ none)
unfolding session_loop session_create session_step do_start do_inform do_send do_exit
session_loop_loses made io events inbox v = (refl, refl, refl, (clear_active-IsWf io events v).1)

-- What is written after the ACS has answered the Inform.
abbrev pub documents : Option EventCode → List Document
documents none = []
documents (some e) = Document.transfercomplete_message e ∷ []

-- The answer of the ACS to an Inform.
abbrev pub inform_response : ℕ → Reading
inform_response n = record {
  length = n;
  parsed = true;
  method = codes "cwmp:InformResponse";
  rc_is_ok = false;
}

abbrev up : ℕ → Link
up k = record { connected = true; sent = true }

module _ (made : Bytes → Bool) (io : ℕ → SaveOutcome) (events : Events) (n : ℕ) where
  abbrev inform_documents : List Document
  inform_documents = Document.inform_message (get_active_event events.el) ∷ []

  abbrev checked : Option EventCode × Events
  checked = event_check (clear_active io events)

  -- The session when the Inform has been answered, when the analysis of that is done, and when the
  -- empty response is received.
  abbrev informed : Session
  informed = record (session_create events []) {
    status = Status.anslyse;
    writers = inform_documents;
    events = clear_active io events;
    inbox = some no_reading ∷ [];
    posts = inform_documents ∷ [];
    connects = 1;
  }

  abbrev reported : Session
  reported = record informed {
    status = Status.anslyse;
    writers = documents checked.0;
    events = checked.1;
    inbox = [];
    posts = inform_documents ∷ documents checked.0 ∷ [];
  }
