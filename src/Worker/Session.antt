-- ===== src/Worker/Session.antt =====
-- internal/worker/worker.go: `session`, which registers the node with the scheduler, sends heartbeats and registers
-- again after one that fails, and `Health`. The scheduler is the one that is modelled; what becomes of a connection
-- and of a call is an input.
pub mod Forgotten
pub mod Known
pub mod Lost
use chronos_dev.Common.{
  ℤ, String, Bool, true, false, List, [], ◌∷◌, Option, none, some, if◌then◌else◌, Result, ok, err,
  Error, failure, wrapped, int32,
}
use chronos_dev.Auth.{Authenticator}
use chronos_dev.Scheduler.State.{Service, Env}
use chronos_dev.Scheduler.Grpc.{
  RegisterResponse, register_call, HeartbeatResponse, heartbeat_call, deregister_call,
}
use chronos_dev.Worker.{Node, register_request, cancel_each}

-- A call that the scheduler serves, or whose request or reply is lost.
pub data CallFate : Type 0 where
  served : CallFate
  request_lost reply_lost : Error → CallFate

abbrev pub call : {R : Type 0} → CallFate → (Service → Service × R) → Service → Service × Result R
call served f s = ((f s).0, ok (f s).1)
call (request_lost e) f s = (s, err e)
call (reply_lost e) f s = ((f s).0, err e)

-- One run of `dial`: the error of the connection, the call of Register, the scheduler's surroundings then, and the
-- error of its connection back to the worker.
pub record Link : Type 0 where
  pub dial_error : Option Error
  pub reach : CallFate
  pub env : Env
  pub back_error : Option Error

pub data Phase : Type 0 where
  registering beating ended : Phase

-- The node, the scheduler, and whether the session has a client.
pub record World : Type 0 where
  pub node : Node
  pub service : Service
  pub has_client : Bool
  pub phase : Phase

pub data Turn : Type 0 where
  timer : (Service → Service) → Env → CallFate → Link → Turn
  stopped : CallFate → Turn

-- The tokens of the scheduler, and the text of an error.
module _ (auth : Authenticator) (print : Error → String) where
  abbrev pub register_error : Result RegisterResponse → Option Error
  register_error (err e) = some e
  register_error (ok r) = if r.is_ok then none else some (wrapped "register: " (failure r.message))

  abbrev pub dialled : Option Error → Link → World → World × Option Error
  dialled (some e) l w = (w, some e)
  dialled none l w =
      let done =
        call l.reach (register_call auth print l.env l.back_error (register_request w.node))
          w.service in
      (record w { service = done.0; has_client = true }, register_error done.1)

  unfoldable pub dial_scheduler : Link → World → World × Option Error
  dial_scheduler l w = dialled l.dial_error l w

  abbrev pub begin_if : World × Option Error → World
  begin_if (w, none) = record w { phase = beating }
  begin_if (w, some e) = w

  unfoldable pub try_register : Link → World → World
  try_register l w = begin_if (dial_scheduler l w)

  abbrev pub on_heartbeat : Link → Service × Result HeartbeatResponse → World → World
  on_heartbeat l (s, ok r) w = record w { service = s; node = cancel_each r.cancel_job_ids w.node }
  on_heartbeat l (s, err e) w = (dial_scheduler l (record w { service = s })).0

  unfoldable pub send_heartbeat : Env → CallFate → Link → World → World
  send_heartbeat env reach l w =
      on_heartbeat l
        (call reach
          (heartbeat_call auth env w.node.token w.node.cfg.id w.node.active
            (int32 w.node.cfg.capacity))
          w.service)
        w

  -- The deferred call of Deregister, which is made if there is a client.
  abbrev pub deregister_if : Bool → CallFate → World → World
  deregister_if false reach w = w
  deregister_if true reach w = record w {
    service = (call reach (deregister_call auth w.node.token w.node.cfg.id) w.service).0;
  }

  -- A session that is not registered yet ends without the deferred call.
  unfoldable pub end_session : Phase → CallFate → World → World
  end_session registering reach w = record w { phase = ended }
  end_session beating reach w = record (deregister_if w.has_client reach w) { phase = ended }
  end_session ended reach w = w

  unfoldable pub on_timer : Phase → Env → CallFate → Link → World → World
  on_timer registering env reach l w = try_register l w
  on_timer beating env reach l w = send_heartbeat env reach l w
  on_timer ended env reach l w = w

  -- A turn of the loops, at a tick of the timer or at the end of the context; `meanwhile` is what else happens to the
  -- scheduler before the tick.
  unfoldable pub session_turn : Turn → World → World
  session_turn (timer meanwhile env reach l) w =
      on_timer w.phase env reach l (record w { service = meanwhile w.service })
  session_turn (stopped reach) w = end_session w.phase reach w

  unfoldable pub session : List Turn → World → World
  session [] w = w
  session (t ∷ turns) w = session turns (session_turn t w)

unfoldable pub new_session : Node → Service → World
new_session node service = record {
  node = node;
  service = service;
  has_client = false;
  phase = registering;
}

pub record HealthResponse : Type 0 where
  pub worker_id : String
  pub capacity : ℤ
  pub active_jobs : ℤ
  pub is_healthy : Bool

unfoldable pub health : Node → HealthResponse
health n = record {
  worker_id = n.cfg.id;
  capacity = int32 n.cfg.capacity;
  active_jobs = n.active;
  is_healthy = true;
}
