-- ===== src/Scheduler/Examples.antt =====
-- The laws of the scheduler, at a service with two workers and two jobs.
use chronos_dev.Common.{
  Any, inl, pos, String, [], ◌∷◌, ◌≡◌, refl, true, false, none, some, lookup, values, failure,
  ne_of_false,
}
use chronos_dev.Domain.Job.{Job, assigned, completed, running, queued}
use chronos_dev.Domain.Samples.{
  sample_job, sample_worker, sample_message, timed_out_result, no_cron,
}
use chronos_dev.Domain.Worker.{Worker, is_assignable}
use chronos_dev.Store.State.{Store}
use chronos_dev.Scheduler.State.{Service, Env, Floats}
use chronos_dev.Scheduler.Assign.{
  Answer, unreachable, replied, answer_error, pick_worker, handle_queued_job,
}
use chronos_dev.Scheduler.Report.{Report, is_terminal, with_reason, handle_result}
use chronos_dev.Scheduler.Writes.{job_at}
use chronos_dev.Scheduler.Ending.{Judged}
use chronos_dev.Scheduler.Verdict.{Quiet, report_all, handle_result-Judged, handle_result-Quiet}
use chronos_dev.Scheduler.Delivery.{
  visited, IsHandedTo, handle_queued_job_accepted, handle_queued_job_stranded,
}
use chronos_dev.Auth.{Authenticator}
use chronos_dev.Scheduler.Grpc.{RegisterRequest, ReportRequest}
use chronos_dev.Scheduler.Choice.{IsBest, pick_worker-IsBest}

abbrev no_floats : Floats
no_floats = record {
  of_int = λ a. 0;
  to_int = pos;
  less = λ a b. false;
  add = λ a b. 0;
  mul = λ a b. 0;
  pow = λ a b. 0;
}

abbrev env : Env
env = record {
  now = pos 100;
  uuid = "u1";
  cron = no_cron;
  floats = no_floats;
  draw = λ id. 0;
  visit_jobs = λ m. m;
  visit_workers = λ m. m;
  visit_fleet = λ m. m;
}

abbrev jobs : Store
jobs = record {
  jobs =
      ("j1", sample_job "j1" running)
      ∷ ("j2", sample_job "j2" completed)
      ∷ ("j3", sample_job "j3" queued)
      ∷ [];
  by_idem = [];
  executions = [];
  workers = [];
  outbox = [];
}

abbrev idle : Service
idle = record {
  cfg = record {
    id = "s1";
    assign_batch_size = pos 10;
    heartbeat_timeout = pos 20;
    suspect_grace_period = pos 10;
    poll_interval = pos 5;
    grpc_addr = "scheduler";
    listen_addr = "local";
  };
  store = jobs;
  queue = record { items = []; closed = false; delayed = [] };
  emitted = [];
  sent = [];
  workers = [];
  pending_cancels = [];
}

abbrev busy : Service
busy = record idle { workers = ("w1", sample_worker "w1" 2) ∷ ("w2", sample_worker "w2" 1) ∷ [] }

abbrev report_on : String → Report
report_on id = record {
  job_id = id;
  execution_id = "e1";
  worker_id = "w1";
  attempt = pos 1;
  result = timed_out_result;
}

handle_result-Judged_example :
    (j : Job) × (job_at "j1" (handle_result env (report_on "j1") busy).0 ≡ some j)
    × Judged env (report_on "j1") (with_reason timed_out_result) (sample_job "j1" running) j
    × ((handle_result env (report_on "j1") busy).1 ≡ none)
unfolding lookup is_terminal
handle_result-Judged_example =
    handle_result-Judged env (report_on "j1") busy (sample_job "j1" running) refl refl
      (ne_of_false "u1" "j1" refl)

handle_result-Quiet_example :
    let late = report_all ((env, report_on "j2") ∷ []) busy in
    Quiet busy (handle_result env (report_on "j2") late).0
    × ((handle_result env (report_on "j2") late).1 ≡ none)
unfolding lookup
handle_result-Quiet_example =
    let done = sample_job "j2" completed in
    handle_result-Quiet env (report_on "j2") ((env, report_on "j2") ∷ []) busy
      ((done, refl, inl refl), tt) (done, refl, inl refl)

-- The first worker visited is free.
free_worker : Any (λ w. is_assignable w ≡ true) (visited env busy)
unfolding is_assignable
free_worker = inl refl

handle_queued_job_accepted_example :
    let after_it = handle_queued_job env (replied true "") (sample_message "j3") busy in
    (w : Worker) × (j' : Job) × IsBest (visited env busy) (some w)
    × (after_it.1 ≡ none)
    × (job_at "j3" after_it.0 ≡ some j')
    × (j'.state ≡ running)
    × (j'.started_at ≡ some env.now)
    × IsHandedTo env w (sample_message "j3") (sample_job "j3" queued) j'
unfolding lookup
handle_queued_job_accepted_example =
    handle_queued_job_accepted env "" (sample_message "j3") busy (sample_job "j3" queued) refl
      (inl refl) free_worker

abbrev refused : Answer
refused = unreachable (failure "refused")

handle_queued_job_stranded_example :
    let after_it = handle_queued_job env refused (sample_message "j3") busy in
    (w : Worker) × (j' : Job) × IsBest (visited env busy) (some w)
    × (after_it.1 ≡ some (failure "refused"))
    × (job_at "j3" after_it.0 ≡ some j')
    × (j'.state ≡ assigned)
    × (j'.started_at ≡ some (pos 7))
    × IsHandedTo env w (sample_message "j3") (sample_job "j3" queued) j'
    × (handle_queued_job env (replied true "") (sample_message "j3") after_it.0
        ≡ (after_it.0, none))
unfolding lookup answer_error
handle_queued_job_stranded_example =
    handle_queued_job_stranded env env refused (replied true "") (sample_message "j3")
      (sample_message "j3") busy (handle_queued_job env refused (sample_message "j3") busy).0
      (sample_job "j3" queued) (failure "refused") refl (inl refl) free_worker refl refl refl

pick_worker-IsBest_example : IsBest (values (env.visit_fleet busy.workers)) (pick_worker env busy)
pick_worker-IsBest_example = pick_worker-IsBest env busy

abbrev guarded : Authenticator
guarded = record { api_keys = []; worker_tokens = ("t1", tt) ∷ []; disabled = false }

abbrev request_with : String → RegisterRequest
request_with token = record {
  token = token;
  worker_id = "w9";
  address = "host";
  capacity = pos 2;
  cap_builtin = true;
  cap_webhook = false;
  labels = [];
}

abbrev report_with : String → ReportRequest
report_with token = record {
  token = token;
  worker_id = "w1";
  job_id = "j1";
  execution_id = "e1";
  attempt = pos 1;
  success = true;
  output = "";
  error = "";
  retryable = false;
  duration_ms = pos 3;
  reason = "";
}
