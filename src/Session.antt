-- ===== src/Session.antt =====
-- cwmpd/src/agent.c: a session with the ACS, from connecting to its end. It is the state machine
-- of `cwmp_agent_start_session` with the functions that it calls, `cwmp_agent_retry_session` and
-- `cwmp_agent_analyse_session`.
--
-- What the network and the XML library answer is an argument or part of the state: whether a
-- connection and a post succeed (`Link`), the responses still to come (`inbox`), and for which
-- methods a response document can be made (`made`). Documents are not printed: the chunk `writers`
-- is the list of the documents in it. Logging, sleeping and authentication leave no trace here.
mod Rounds
pub mod Ends
pub mod Delivery
mod Tests
use netcwmp.Common.{
  ℕ, zero, suc, ◌+◌, Bool, true, false, ◌&&◌, ◌||◌, List, [], ◌∷◌, ◌++◌, Option, none, some, Bytes,
  codes, bytes_eq, leb, ◌==◌, if◌then◌else◌,
}
use netcwmp.Event.{EventCode, SaveOutcome, Events, clear_active}
use netcwmp.Event.Inform.{get_active_event, event_check}

-- `MAX_SESSION_RETRY`
abbrev pub max_session_retry : ℕ
max_session_retry = 3

-- The session's states; nothing sets `CWMP_ST_RESEMD`.
pub data Status : Type 0 where
  start inform send resend recv anslyse retry end exit : Status

-- What can be written to the ACS.
pub data Document : Type 0 where
  inform_message : List EventCode → Document
  transfercomplete_message : EventCode → Document
  response_message : Bytes → Document
  fault_message : Document

-- A response of the ACS: its length, whether it parses, its method, and what the uninitialised `rc`
-- of `cwmp_agent_analyse_session` is if it does not: whether it equals `CWMP_OK`.
pub record Reading : Type 0 where
  pub length : ℕ
  pub parsed : Bool
  pub method : Bytes
  pub rc_is_ok : Bool

abbrev pub no_reading : Reading
no_reading = record { length = 0; parsed = false; method = []; rc_is_ok = false }

-- `cwmp_session_t` and the events of its `cwmp_t`. In `inbox`, `none` is a response that is not
-- received; after the last entry the connection is closed. `posts` and `connects` record the posts
-- that went through and the number of attempts to connect.
pub record Session : Type 0 where
  pub status : Status
  pub retry_count : ℕ
  pub newdata : Bool
  pub reconnect : Bool
  pub session_close : Bool
  pub writers : List Document
  pub readers : Reading
  pub events : Events
  pub inbox : List (Option Reading)
  pub posts : List (List Document)
  pub connects : ℕ

pub record Link : Type 0 where
  pub connected : Bool
  pub sent : Bool

-- `cwmp_session_create`
pub session_create : Events → List (Option Reading) → Session
session_create events inbox = record {
  status = Status.start;
  retry_count = 0;
  newdata = false;
  reconnect = false;
  session_close = false;
  writers = [];
  readers = no_reading;
  events = events;
  inbox = inbox;
  posts = [];
  connects = 0;
}

-- `cwmp_agent_retry_session` without its delay: whether it times out, and the session.
pub retry_session : Session → Bool × Session
retry_session s =
    if leb s.retry_count max_session_retry
    then (false, record s { retry_count = s.retry_count + 1 })
    else (true, record s { retry_count = 0 })

-- The methods that `cwmp_agent_analyse_session` answers with a document.
pub answered_methods : List Bytes
answered_methods =
    codes "cwmp:GetRPCMethods"
    ∷ codes "cwmp:GetParameterNames"
    ∷ codes "cwmp:GetParameterValues"
    ∷ codes "cwmp:SetParameterValues"
    ∷ codes "cwmp:Download"
    ∷ codes "cwmp:Upload"
    ∷ codes "cwmp:Reboot"
    ∷ codes "cwmp:AddObject"
    ∷ codes "cwmp:DeleteObject"
    ∷ codes "cwmp:FactoryReset"
    ∷ []

pub is_among : Bytes → List Bytes → Bool
is_among m [] = false
is_among m (n ∷ ns) = bytes_eq m n || is_among m ns

-- The `if` chain on the method: `newdoc`, NULL for the methods that need no answer.
pub answer : (Bytes → Bool) → Bytes → Option Document
unfolding answered_methods
answer made method =
    if is_among method answered_methods && made method
    then some (Document.response_message method)
    else none

-- The last part of `cwmp_agent_analyse_session`: whether it returns `CWMP_OK`, and the session.
pub reply : Option Document → Session → Bool × Session
reply (some d) s = (true, record s { newdata = true; writers = s.writers ++ d ∷ [] })
reply none s = if s.readers.length == 0 then (false, s) else (true, record s { newdata = true })

-- The part behind the label `eventcheck`, with the rest.
pub transfer_document : Option EventCode → Option Document
transfer_document none = none
transfer_document (some e) = some (Document.transfercomplete_message e)

pub eventcheck : Session → Bool × Session
unfolding reply transfer_document
eventcheck s =
    let (ec, events) = event_check s.events in
    reply (transfer_document ec) (record s { events = events })

-- The rest of it, where the method has an answer or not.
pub answer_or_check : Option Document → Session → Bool × Session
unfolding eventcheck
answer_or_check none s = eventcheck s
answer_or_check (some d) s = reply (some d) s

-- `cwmp_agent_analyse_session`
pub analyse_session : (Bytes → Bool) → Session → Bool × Session
unfolding answer_or_check
analyse_session made s =
    if s.readers.length == 0
    then eventcheck (record s { newdata = false })
    else if s.readers.parsed
    then answer_or_check (answer made s.readers.method) (record s { writers = [] })
    else (s.readers.rc_is_ok, record s { writers = s.writers ++ Document.fault_message ∷ [] })

-- The cases of the `switch` of `cwmp_agent_start_session`.
pub do_start : Link → Session → Session
do_start l s = record s {
  status = if l.connected then Status.inform else Status.retry;
  connects = s.connects + 1;
}

pub do_inform : (ℕ → SaveOutcome) → Session → Session
do_inform io s = record s {
  status = Status.send;
  events = clear_active io s.events;
  writers = s.writers ++ Document.inform_message (get_active_event s.events.el) ∷ [];
}

pub do_send : Link → Session → Session
do_send l s = record s {
  status = if l.sent then Status.recv else Status.exit;
  newdata = false;
  posts = if l.sent then s.posts ++ s.writers ∷ [] else s.posts;
}

pub do_recv : List (Option Reading) → Session → Session
do_recv [] s = record s { status = Status.end; readers = no_reading }
do_recv (none ∷ rs) s = record s { status = Status.end; readers = no_reading; inbox = rs }
do_recv (some r ∷ rs) s = record s { status = Status.anslyse; readers = r; inbox = rs }

pub after_anslyse : Bool × Session → Session
after_anslyse (ok, s) = record s { status = if ok then Status.send else Status.end }

pub after_retry : Bool × Session → Session
after_retry (timeout, s) = record s { status = if timeout then Status.exit else Status.start }

pub do_end : Session → Session
do_end s = record s { status = if s.newdata then Status.send else Status.exit }

pub do_exit : Session → Session
do_exit s =
    if s.reconnect
    then record s { reconnect = false; status = Status.start }
    else record s { session_close = true }

-- One round of the loop.
pub session_step : (Bytes → Bool) → (ℕ → SaveOutcome) → Link → Status → Session → Session
unfolding after_anslyse after_retry
session_step made io l Status.start s = do_start l s
session_step made io l Status.inform s = do_inform io s
session_step made io l Status.send s = do_send l s
session_step made io l Status.resend s = s
session_step made io l Status.recv s = do_recv s.inbox s
session_step made io l Status.anslyse s = after_anslyse (analyse_session made s)
session_step made io l Status.retry s = after_retry (retry_session s)
session_step made io l Status.end s = do_end s
session_step made io l Status.exit s = do_exit s

-- `while (!session_close)`, for at most `fuel` rounds; `link k` is the network with `k` rounds
-- left.
pub session_loop : (Bytes → Bool) → (ℕ → SaveOutcome) → (ℕ → Link) → ℕ → Session → Session
session_loop made io link zero s = s
session_loop made io link (suc k) s = elim s.session_close [
  | true ↦ s
  | false ↦ session_loop made io link k (session_step made io (link k) s.status s)
]
