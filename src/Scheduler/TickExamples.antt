-- ===== src/Scheduler/TickExamples.antt =====
-- A tick of a service with a job that is over and one that runs too long.
use chronos_dev.Common.{
  pos, String, false, List, [], ◌∷◌, ◌≢◌, refl, eq_iff, ◌==◌, lookup, delete, Visit, All, All-map,
  Bool-cases, inl, inr, arith,
}
use chronos_dev.Domain.Job.{Job, completed, running}
use chronos_dev.Domain.Samples.{sample_job, no_cron}
use chronos_dev.Store.Idempotency.{IsValid}
use chronos_dev.Scheduler.State.{Service, Env}
use chronos_dev.Scheduler.Report.{is_terminal}
use chronos_dev.Scheduler.Tick.{tick}
use chronos_dev.Scheduler.Finality.{IsSound, Keeps}
use chronos_dev.Scheduler.Permanence.{tick-Keeps}

-- A loop over each key once, at its value.
abbrev visit_once : Visit Job
visit_once [] = []
visit_once ((key, job) ∷ m) = (key, job) ∷ delete key (visit_once m)

delete-All :
    (P : String × Job → Type 0) (x : String) (m : List (String × Job))
    → All P m
    → All (λ e. (x ≢ e.0) × P e) (delete x m)
unfolding delete
delete-All P x [] h = tt
delete-All P x ((y, job) ∷ m) h = elim (Bool-cases (y == x)) [
  | inl e ↦ rw e (delete-All P x m h.1)
  | inr e ↦ rw e ((λ same. absurd (ground (arith, e, same, eq_iff y x)), h.0), delete-All P x m h.1)
]

visit_once-IsSound : IsSound visit_once
unfolding lookup
visit_once-IsSound [] = tt
visit_once-IsSound ((key, job) ∷ m) = (
  ground (arith, eq_iff key key),
  All-map _ _ (λ e h. ground (arith, h.0, h.1, eq_iff key e.0)) _
      (delete-All _ key (visit_once m) (visit_once-IsSound m)),
)

abbrev env : Env
env = record {
  now = pos 100;
  uuid = "u1";
  cron = no_cron;
  floats = record {
    of_int = λ a. 0;
    to_int = pos;
    less = λ a b. false;
    add = λ a b. 0;
    mul = λ a b. 0;
    pow = λ a b. 0;
  };
  draw = λ id. 0;
  visit_jobs = visit_once;
  visit_workers = λ m. m;
  visit_fleet = λ m. m;
}

abbrev service : Service
service = record {
  cfg = record {
    id = "s1";
    assign_batch_size = pos 10;
    heartbeat_timeout = pos 20;
    suspect_grace_period = pos 10;
    poll_interval = pos 5;
    grpc_addr = "scheduler";
    listen_addr = "local";
  };
  store = record {
    jobs = ("j1", sample_job "j1" running) ∷ ("j2", sample_job "j2" completed) ∷ [];
    by_idem = [];
    executions = [];
    workers = [];
    outbox = [];
  };
  queue = record { items = []; closed = false; delayed = [] };
  emitted = [];
  sent = [];
  workers = [];
  pending_cancels = [];
}

service-IsValid : IsValid service.store
unfolding lookup
service-IsValid = record {
  keyed = λ id j h. ground (arith, h, eq_iff "j1" id, eq_iff "j2" id);
  indexed = λ key id h. absurd (cc);
}

service-Keeps : Keeps "j2" (sample_job "j2" completed) service
unfolding lookup
service-Keeps = record { valid = service-IsValid; found = refl }

tick-Keeps_example : Keeps "j2" (sample_job "j2" completed) (tick env service)
unfolding is_terminal
tick-Keeps_example =
    tick-Keeps env "j2" (sample_job "j2" completed) service visit_once-IsSound refl service-Keeps
