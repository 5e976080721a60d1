-- ===== src/Worker/Examples.antt =====
-- The laws of a node, at a node with one job.
use chronos_dev.Common.{
  total, String, Error, canceled, inr, ◌++◌, pos, ◌≤ℤ◌, true, false, [], ◌∷◌, none, some, ◌≡◌, refl,
  arith, lookup, ne_of_false,
}
use chronos_dev.Domain.Job.{Job, running, ExecutionResult}
use chronos_dev.Domain.Samples.{
  sample_job, sample_worker, sample_message, timed_out_result, no_cron,
}
use chronos_dev.Auth.{Authenticator, valid_worker_token}
use chronos_dev.Execution.{execute}
use chronos_dev.Execution.Samples.{run}
use chronos_dev.Scheduler.State.{Service, Env, has}
use chronos_dev.Scheduler.Report.{with_reason, is_terminal}
use chronos_dev.Scheduler.Grpc.{report_of, report_call}
use chronos_dev.Scheduler.Fleet.{heartbeat}
use chronos_dev.Scheduler.Cancel.{request_cancel}
use chronos_dev.Scheduler.Writes.{job_at}
use chronos_dev.Scheduler.Ending.{verdict}
use chronos_dev.Worker.{
  Node, WorkerConfig, ExecuteJobRequest, new_node, at_capacity, execute_request, report_request,
  cancel_each,
}
use chronos_dev.Worker.Threads.{System, arrived, admitted, advance, Reach, arrive, pick}
use chronos_dev.Worker.Load.{start, ReachWithin, here_within, next_within, active-le-capacity}
use chronos_dev.Worker.Overrun.{active_exceeds}
use chronos_dev.Worker.Cancels.{is_over, request_cancel-is_over}
use chronos_dev.Worker.Journey.{report_of-report_request, run-verdict}
use chronos_dev.Worker.Session.{
  CallFate, served, reply_lost, Link, World, Turn, timer, beating, session, new_session,
}
use chronos_dev.Worker.Session.Forgotten.{IsForgotten}
use chronos_dev.Worker.Session.Lost.{check_workers-IsForgotten}
use chronos_dev.Store.Fleet.{mark_stale_workers}
use chronos_dev.Scheduler.Recovery.{check_workers}
use chronos_dev.Worker.Session.Known.{IsHealthy, session-IsHealthy}

abbrev cfg : WorkerConfig
cfg = record {
  id = "w1";
  listen_addr = "local";
  advertise_addr = "host";
  capacity = pos 1;
  heartbeat_every = pos 5;
  scheduler_addr = "scheduler";
  http_client_timeout = pos 30;
}

abbrev request : ExecuteJobRequest
request = record {
  job_id = "j1";
  execution_id = "e1";
  name = "mail";
  job_type = "builtin";
  payload = "{}";
  attempt = pos 1;
  timeout_ms = pos 5;
  trace_id = "";
}

-- A call that has passed the test.
abbrev one_admitted : System
one_admitted = record { node = new_node cfg "t1"; threads = admitted request ∷ [] }

one_admitted_reached : ReachWithin 1 (start cfg "t1") one_admitted
unfolding new_node advance at_capacity total
one_admitted_reached =
    next_within (next_within here_within (arrive request refl) (omega arith))
      (pick [] [] (arrived request) refl refl) (omega arith)

active-le-capacity_example : one_admitted.node.active ≤ℤ pos 1
active-le-capacity_example = active-le-capacity 1 0 cfg "t1" one_admitted refl one_admitted_reached

active_exceeds_example : (t : System) × Reach (start cfg "t1") t × (t.node.active ≡ pos 5)
active_exceeds_example = active_exceeds cfg "t1" 5 (omega arith) (omega arith)

abbrev guarded : Authenticator
guarded = record { api_keys = []; worker_tokens = ("t1", tt) ∷ []; disabled = false }

abbrev env : Env
env = record {
  now = pos 100;
  uuid = "u1";
  cron = no_cron;
  floats = record {
    of_int = λ a. 0;
    to_int = pos;
    less = λ a b. false;
    add = λ a b. 0;
    mul = λ a b. 0;
    pow = λ a b. 0;
  };
  draw = λ id. 0;
  visit_jobs = λ m. m;
  visit_workers = λ m. m;
  visit_fleet = λ m. m;
}

abbrev service : Service
service = record {
  cfg = record {
    id = "s1";
    assign_batch_size = pos 10;
    heartbeat_timeout = pos 20;
    suspect_grace_period = pos 10;
    poll_interval = pos 5;
    grpc_addr = "scheduler";
    listen_addr = "local";
  };
  store = record {
    jobs = ("j1", sample_job "j1" running) ∷ [];
    by_idem = [];
    executions = [];
    workers = [];
    outbox = [];
  };
  queue = record { items = []; closed = false; delayed = [] };
  emitted = [];
  sent = [];
  workers = ("w1", sample_worker "w1" 1) ∷ [];
  pending_cancels = [];
}

-- The node while the job runs in context 7.
abbrev node : Node
node = record (new_node cfg "t1") { active = pos 1; cancels = ("j1", 7) ∷ []; contexts = 8 }

request_cancel-is_over_example :
    let ids = (heartbeat env "w1" (pos 1) (pos 1) (request_cancel "j1" service).0).1 in
    is_over 7 (cancel_each ids node).cancelled ≡ true
unfolding lookup new_node
request_cancel-is_over_example =
    request_cancel-is_over env "j1" (pos 1) (pos 1) service (sample_job "j1" running) node 7 refl
      (ne_of_false "w1" "" refl) refl

abbrev timed : ExecutionResult
timed = record timed_out_result { duration = pos 3_000_000 }

report_of-report_request_example :
    report_of (report_request node (execute_request (sample_message "j1") "e1") timed) ≡ record {
      job_id = "j1";
      execution_id = "e1";
      worker_id = "w1";
      attempt = pos 0;
      result = with_reason timed;
    }
unfolding new_node
report_of-report_request_example =
    report_of-report_request node (sample_message "j1") "e1" timed 0 3 refl (omega arith) refl

run-verdict_example :
    let res = execute run "builtin" in
    let done = report_call guarded env (report_request node request res) service in
    (j : Job) × (job_at "j1" done.0 ≡ some j)
    × (j.state ≡ verdict (with_reason res) (pos 1) (sample_job "j1" running))
    × (done.1 ≡ (true, none))
unfolding new_node lookup valid_worker_token is_terminal
run-verdict_example =
    run-verdict guarded env node request run service (sample_job "j1" running) refl refl refl
      (ne_of_false "u1" "j1" refl)

abbrev link : CallFate → Link
link fate = record { dial_error = none; reach = fate; env = env; back_error = none }

abbrev print : Error → String
print e = "error"

-- A worker whose last heartbeat is too long ago, and its session.
abbrev stalled : World
stalled = record {
  node = node;
  service = record service {
    store = record (service.store) { workers = ("w1", sample_worker "w1" 1) ∷ [] };
  };
  has_client = true;
  phase = beating;
}

abbrev beat : Turn
beat = timer (λ s. s) env served (link served)

check_workers-IsForgotten_example : IsForgotten "w1" (
    session guarded print
      (beat ∷ beat ∷ [])
      (record stalled { service = check_workers env stalled.service }))
unfolding new_node mark_stale_workers has
check_workers-IsForgotten_example =
    check_workers-IsForgotten guarded print env (beat ∷ beat ∷ []) stalled refl refl
      ((refl, λ s h. h), ((refl, λ s h. h), tt))

session-IsHealthy_example :
    let w =
      session guarded print
        (timer (λ s. s) env served (link (reply_lost canceled)) ∷ [] ++ (beat ∷ beat ∷ []))
        (new_session node service) in
    (w.phase ≡ beating) × IsHealthy "w1" w.service
unfolding new_node valid_worker_token lookup
session-IsHealthy_example =
    session-IsHealthy guarded print node service
      (timer (λ s. s) env served (link (reply_lost canceled)) ∷ []) beat (beat ∷ []) refl
      (inr (canceled, inr refl), tt) (refl, refl, refl) ((refl, λ s h. h), tt)
