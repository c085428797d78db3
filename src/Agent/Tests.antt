-- ===== src/Agent/Tests.antt =====
-- A round of the agent at a concrete state.
use netcwmp.Common.{◌==◌, if◌then◌else◌, true, [], ◌∷◌, none, some, codes, pos}
use netcwmp.Event.{Events, saves, list_create, zero_global, absent}
use netcwmp.Event.Boot.{raise_transfer}
use netcwmp.Queue.{Queue, node, null}
use netcwmp.Queue.Chain.{Cells}
use netcwmp.Queue.Fifo.{pushed}
use netcwmp.Session.Delivery.{inform_response}
use netcwmp.Tasks.{Transfer}
use netcwmp.Agent.{Agent, Surroundings}

abbrev firmware : Transfer
firmware = record { cmdkey = codes "fw" }

-- A request for a session, with a download in the queue.
abbrev asked : Agent
asked = record {
  new_request = true;
  events = record { el = list_create 18; global = zero_global; file = absent };
  queue = record {
    heap = λ p. if p == 1 then some (node (pushed (some firmware) (pos 1)) null) else none;
    size = 1;
    first = 1;
    last = 1;
  };
}

abbrev cells : Cells Transfer
cells = (1, pushed (some firmware) (pos 1)) ∷ []

abbrev sunny : Surroundings
sunny = record {
  made = λ _. true;
  io = λ _. saves;
  link = λ _. record { connected = true; sent = true };
  inbox = some (inform_response 300) ∷ [];
  enqueue = λ q. q;
  done = λ _. record { fault_code = pos 0; start = 0; end = 0; io = λ _. saves };
}

abbrev downloaded : Events → Events
downloaded e = raise_transfer (some (codes "fw")) (pos 0) 0 0 e
