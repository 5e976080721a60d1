-- ===== src/Store/Examples.antt =====
-- The laws of the store, at a store with two jobs and a worker.
use chronos_dev.Common.{pos, [], ◌∷◌, ◌≡◌, refl, lookup, insert, ok}
use chronos_dev.Domain.Job.{running, scheduled}
use chronos_dev.Domain.Samples.{sample_job, sample_worker}
use chronos_dev.Store.State.{Store, empty}
use chronos_dev.Store.Jobs.{create_job, create_keyed, put_job, stamped}
use chronos_dev.Store.Idempotency.{
  IsValid, empty-IsValid, create_job_idempotent, create_job-IsValid,
}

abbrev two_jobs : Store
two_jobs = record {
  jobs = ("j1", sample_job "j1" running) ∷ ("j2", sample_job "j2" scheduled) ∷ [];
  by_idem = [];
  executions = [];
  workers = ("w1", sample_worker "w1" 0) ∷ [];
  outbox = [];
}

-- The store after the first creation.
abbrev one_job : Store
one_job = record {
  jobs = ("j1", stamped (pos 1) "u1" (sample_job "j1" scheduled)) ∷ [];
  by_idem = ("k1", "j1") ∷ [];
  executions = [];
  workers = [];
  outbox = [];
}

creates :
    create_job (pos 1) "u1" (sample_job "j1" scheduled) empty
    ≡ ok (stamped (pos 1) "u1" (sample_job "j1" scheduled), one_job)
unfolding create_job create_keyed put_job empty lookup insert
creates = refl

create_job_idempotent_example :
    create_job (pos 8) "u2" (sample_job "" scheduled) one_job
    ≡ ok (stamped (pos 1) "u1" (sample_job "j1" scheduled), one_job)
create_job_idempotent_example =
    create_job_idempotent (pos 1) (pos 8) "u1" "u2" (sample_job "j1" scheduled)
      (sample_job "" scheduled) empty one_job (stamped (pos 1) "u1" (sample_job "j1" scheduled))
      (λ e. absurd (cc)) refl creates

one_job-IsValid : IsValid one_job
unfolding empty lookup
one_job-IsValid =
    create_job-IsValid (pos 1) "u1" (sample_job "j1" scheduled) empty one_job
      (stamped (pos 1) "u1" (sample_job "j1" scheduled)) refl creates empty-IsValid
