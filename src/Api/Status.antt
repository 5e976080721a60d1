-- ===== src/Api/Status.antt =====
-- internal/api/server.go: the handlers that report on the program itself.
use chronos_dev.Common.{ℕ, String, List, Option, none, some, Visit, Result, ok, err, Error}
use chronos_dev.Domain.Worker.{Worker}
use chronos_dev.Store.State.{Store}
use chronos_dev.Store.Fleet.{list_workers}

pub data StatusBody : Type 0 where
  -- The members "status", "queue" and "error" of an object.
  healthy_body : StatusBody
  ready_body : String → StatusBody
  not_ready_body : Error → StatusBody
  error_body : Error → StatusBody
  workers_body : List Worker → StatusBody
  backends_body : String → List String → StatusBody

pub record StatusReply : Type 0 where
  pub status : ℕ
  pub body : StatusBody

unfoldable pub healthz : StatusReply
healthz = record { status = 200; body = healthy_body }

abbrev pub ping_reply : String → Option Error → StatusReply
ping_reply queue_name none = record { status = 200; body = ready_body queue_name }
ping_reply queue_name (some e) = record { status = 503; body = not_ready_body e }

-- The ping of the store's database, if the store has one.
unfoldable pub readyz : Option (Option Error) → String → StatusReply
readyz none queue_name = ping_reply queue_name none
readyz (some ping) queue_name = ping_reply queue_name ping

unfoldable pub list_workers_reply : Result (List Worker) → StatusReply
list_workers_reply (ok workers) = record { status = 200; body = workers_body workers }
list_workers_reply (err e) = record { status = 500; body = error_body e }

-- On the store in memory, whose listing has no error.
unfoldable pub list_workers_handler : Visit Worker → Store → StatusReply
list_workers_handler visit store = list_workers_reply (ok (list_workers visit store))

unfoldable pub queue_backends : String → List String → StatusReply
queue_backends active names = record { status = 200; body = backends_body active names }
