-- ===== src/Api/Examples.antt =====
-- The laws of the handlers, at a server with one job.
use chronos_dev.Common.{pos, [], ◌∷◌, ◌≡◌, refl, false, some, arith, lookup, ok, Perm}
use chronos_dev.Domain.Job.{Job, JobState, completed, running}
use chronos_dev.Domain.Schedule.{validate_schedule}
use chronos_dev.Domain.Samples.{sample_job, sample_request, no_cron}
use chronos_dev.Queue.Delivery.{held}
use chronos_dev.Api.{
  Env, Server, new_job, first_run, prepare, cancel_job_handler, create_job_handler,
}
use chronos_dev.Analytics.Range.{TimeRange}
use chronos_dev.Api.Analytics.{
  Querier, Parsers, Params, analytics_throughput, analytics_latency, analytics_failures,
  analytics_workers, analytics_queue, analytics_scheduler, analytics_capacity,
}
use chronos_dev.Api.Ranges.{Alike, only_forward_asked}
use chronos_dev.Common.{ℕ, ℤ, none, Result, err, canceled, ltb_ℤ, if◌then◌else◌, arith}
use chronos_dev.Api.Cancellation.{cancel_table, cancel_job_exact}
use chronos_dev.Api.Submission.{marked, resubmit_requeues}

abbrev env : Env
env = record { now = pos 100; uuid = "u1"; cron = no_cron }

abbrev server_with : JobState → Server
server_with state = record {
  store = record {
    jobs = ("j1", sample_job "j1" state) ∷ [];
    by_idem = ("k1", "j1") ∷ [];
    executions = [];
    workers = [];
    outbox = [];
  };
  queue = record { items = []; closed = false; delayed = [] };
  emitted = [];
}

prepares : prepare env sample_request ≡ ok (new_job env sample_request (pos 100))
unfolding prepare validate_schedule first_run
prepares = refl

resubmit_requeues_example :
    let r = create_job_handler env sample_request (server_with completed) in
    (r.1.status ≡ 201)
    × (lookup "j1" r.0.store.jobs ≡ some (marked env (sample_job "j1" completed)))
    × Perm (held r.0.queue) ("j1" ∷ held (server_with completed).queue)
unfolding lookup new_job
resubmit_requeues_example =
    resubmit_requeues env sample_request (server_with completed)
      (new_job env sample_request (pos 100)) (sample_job "j1" completed) (pos 5) prepares
      (λ e. absurd (cc)) refl refl refl (omega arith) refl

cancel_job_exact_example :
    (j : Job) × (lookup "j1" (cancel_job_handler env "j1" (server_with running)).0.store.jobs
      ≡ some j)
    × (j.state ≡ (cancel_table running).0)
    × ((cancel_job_handler env "j1" (server_with running)).1.status ≡ (cancel_table running).1)
unfolding lookup
cancel_job_exact_example =
    cancel_job_exact env "j1" (server_with running) (sample_job "j1" running) refl

-- A querier whose answer is the start of the range.
abbrev start_querier : Querier ℕ ℤ
start_querier = record {
  throughput = λ tr g. ok tr.from;
  latency = λ tr. ok tr.from;
  failures = λ tr. ok tr.from;
  workers = λ tr. ok tr.from;
  queue = λ tr. ok tr.from;
  capacity = λ tr f. ok tr.from;
  anomalies = λ a b. ok b.from;
  scheduler = λ tr. ok tr.from;
}

-- The same, but that it fails on ranges that do not go forward.
abbrev checked : TimeRange → Result ℤ
checked tr = if ltb_ℤ tr.from tr.to then ok tr.from else err canceled

abbrev strict_querier : Querier ℕ ℤ
strict_querier = record {
  throughput = λ tr g. checked tr;
  latency = checked;
  failures = checked;
  workers = checked;
  queue = checked;
  capacity = λ tr f. checked tr;
  anomalies = λ a b. checked a;
  scheduler = checked;
}

queriers-Alike : Alike start_querier strict_querier
queriers-Alike = record {
  throughput = λ tr g h. ground (arith, h);
  latency = λ tr h. ground (arith, h);
  failures = λ tr h. ground (arith, h);
  workers = λ tr h. ground (arith, h);
  queue = λ tr h. ground (arith, h);
  scheduler = λ tr h. ground (arith, h);
  capacity = λ tr f h. ground (arith, h);
}

abbrev parsers : Parsers ℕ
parsers = record {
  time_of = λ text. ok (pos 7);
  duration_of = λ text. some (pos 3);
  float_of = λ text. none;
  thirty = 30;
  now = pos 9;
}

-- From the instant 7 to now.
abbrev params : Params
params = record { from = "7"; to = ""; grain = ""; target_per_worker = "x"; window = "3" }

only_forward_asked_example :
    (analytics_throughput parsers (some start_querier) params
      ≡ analytics_throughput parsers (some strict_querier) params)
    × (analytics_latency parsers (some start_querier) params
        ≡ analytics_latency parsers (some strict_querier) params)
    × (analytics_failures parsers (some start_querier) params
        ≡ analytics_failures parsers (some strict_querier) params)
    × (analytics_workers parsers (some start_querier) params
        ≡ analytics_workers parsers (some strict_querier) params)
    × (analytics_queue parsers (some start_querier) params
        ≡ analytics_queue parsers (some strict_querier) params)
    × (analytics_scheduler parsers (some start_querier) params
        ≡ analytics_scheduler parsers (some strict_querier) params)
    × (analytics_capacity parsers (some start_querier) params
        ≡ analytics_capacity parsers (some strict_querier) params)
only_forward_asked_example =
    only_forward_asked start_querier strict_querier parsers params queriers-Alike
