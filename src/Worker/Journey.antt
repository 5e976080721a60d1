-- ===== src/Worker/Journey.antt =====
-- From the push of a job to the report of its run.
use chronos_dev.Common.{
  ℕ, ℤ, pos, ◌*◌, ◌^◌, ◌<◌, ◌*ℤ◌, String, true, false, none, some, ◌==◌, ◌≡◌, ◌≢◌, refl, ◌∙◌, ap,
  if◌then◌else◌, Bool-cases, inl, inr, arith, int32_small,
}
use chronos_dev.Domain.Job.{
  Job, QueuedJob, ExecutionResult, millisecond, milliseconds, reason_success, reason_failed,
}
use chronos_dev.Auth.{Authenticator, valid_worker_token}
use chronos_dev.Execution.{Run, execute}
use chronos_dev.Scheduler.State.{Service, Env}
use chronos_dev.Scheduler.Report.{with_reason, is_terminal}
use chronos_dev.Scheduler.Grpc.{report_of, report_call}
use chronos_dev.Scheduler.Writes.{job_at}
use chronos_dev.Scheduler.Ending.{verdict}
use chronos_dev.Scheduler.Verdict.{handle_result-Judged}
use chronos_dev.Worker.{Node, ExecuteJobRequest, execute_request, report_request}

whole_ms : (k : ℕ) → milliseconds (pos (k * millisecond)) *ℤ pos millisecond ≡ pos (k * millisecond)
unfolding milliseconds ◌*ℤ◌
whole_ms k = ground arith

-- What the scheduler pushes comes back in the report of the run: the job, the execution, the attempt (if it
-- is below 2 ^ 31) and the result with its reason, if the run took whole milliseconds; the worker is the
-- node.
pub report_of-report_request :
    (n : Node) (job : QueuedJob) (execution_id : String) (res : ExecutionResult) (attempt ms : ℕ)
    → job.attempt ≡ pos attempt
    → attempt < 2 ^ 31
    → res.duration ≡ pos (ms * millisecond)
    → report_of (report_request n (execute_request job execution_id) res) ≡ record {
      job_id = job.job_id;
      execution_id = execution_id;
      worker_id = n.cfg.id;
      attempt = job.attempt;
      result = with_reason res;
    }
unfolding report_of report_request execute_request with_reason
report_of-report_request n job execution_id res attempt ms a small d =
    elim (Bool-cases (res.reason == "")) [
      | inl e ↦ rw (e, a, d, int32_small attempt small, whole_ms ms) (ground (arith, e, d))
      | inr e ↦ rw (e, a, d, int32_small attempt small, whole_ms ms) (ground (arith, e, d))
    ]

with_reason-nonempty : (res : ExecutionResult) → ((with_reason res).reason == "") ≡ false
unfolding with_reason
with_reason-nonempty res = elim (Bool-cases (res.reason == "")) [
  | inl e ↦
      rw e
        (elim res.success as (λ b. ((if b then reason_success else reason_failed) == "") ≡ false) [
          | true ↦ refl
          | false ↦ refl
        ])
  | inr e ↦ rw e e
]

-- The verdict on a run that is reported is the one on its result.
reported-verdict :
    (n : Node) (req : ExecuteJobRequest) (res : ExecutionResult) (attempt : ℤ) (j : Job)
    → verdict (with_reason (report_of (report_request n req res)).result) attempt j
      ≡ verdict (with_reason res) attempt j
unfolding report_of report_request
reported-verdict n req res attempt j =
    let filled : with_reason (report_of (report_request n req res)).result
        ≡ (report_of (report_request n req res)).result =
      unfold with_reason in rw (with_reason-nonempty res) refl in
    ap (λ r. verdict r attempt j) filled ∙ same
  where
    same :
        verdict (report_of (report_request n req res)).result attempt j
        ≡ verdict (with_reason res) attempt j
    same = unfold with_reason in ground arith

-- A job that is not at its end, when a node with an accepted token reports its run, gets the state of the
-- verdict on the result of that run, and the report is answered as taken. The fresh identifier must
-- differ from the job's.
pub run-verdict :
    (auth : Authenticator) (env : Env) (n : Node) (req : ExecuteJobRequest) (run : Run)
    (s : Service) (j : Job)
    → valid_worker_token auth n.token ≡ true
    → job_at req.job_id s ≡ some j
    → is_terminal j.state ≡ false
    → env.uuid ≢ req.job_id
    → let res = execute run req.job_type in
      let done = report_call auth env (report_request n req res) s in
      (j' : Job) × (job_at req.job_id done.0 ≡ some j')
      × (j'.state ≡ verdict (with_reason res) req.attempt j)
      × (done.1 ≡ (true, none))
unfolding report_call report_of report_request
run-verdict auth env n req run s j accepted h open_ new_id =
    let res = execute run req.job_type in
    let (j', found, judged, no_error) =
      handle_result-Judged env (report_of (report_request n req res)) s j h open_ new_id in
    (
      j',
      rw accepted found,
      judged.state ∙ reported-verdict n req res req.attempt j,
      rw (accepted, no_error) refl,
    )
