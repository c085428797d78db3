-- ===== src/Agent/Serves.antt =====
-- A round of the outer loop of cwmpd/src/agent.c: the session with the tasks behind it.
use netcwmp.Queue.{Queue}
use netcwmp.Session.{Session}
use netcwmp.Agent.{Agent}
