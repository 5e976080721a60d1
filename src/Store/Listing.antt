-- ===== src/Store/Listing.antt =====
-- internal/store/memory/store.go: the queries on jobs. Each is a loop over the map of jobs, in the
-- order that `visit` gives, which ends when enough jobs are found.
use chronos_dev.Common.{
  ℤ, pos, ◌*◌, String, Bool, false, ◌&&◌, ◌||◌, List, [], ◌∷◌, ◌++◌, Option, none, some, ◌==◌,
  if◌then◌else◌, Visit, length, leb_ℤ, ltb_ℤ, ◌+ℤ◌,
}
use chronos_dev.Domain.Job.{
  Job, JobState, scheduled, retrying, cancel_requested, running, assigned, state_name, same_state,
  Instant, Duration, second,
}
use chronos_dev.Store.State.{Store}

-- limit <= 0 stands for 50.
abbrev pub or_fifty : ℤ → ℤ
or_fifty limit = if leb_ℤ limit (pos 0) then pos 50 else limit

-- The loop that checks the limit after each job that it takes.
unfoldable pub collect : (Job → Bool) → ℤ → List Job → List (String × Job) → List Job
collect p limit out [] = out
collect p limit out ((k, j) ∷ m) =
    let out' = if p j then out ++ (j ∷ []) else out in
    let rest = collect p limit out' m in
    if p j && leb_ℤ limit (pos (length out')) then out' else rest

-- The loop of `ListDueScheduled`, which checks the limit after each job that it visits.
unfoldable pub collect_due : (Job → Bool) → ℤ → List Job → List (String × Job) → List Job
collect_due p limit out [] = out
collect_due p limit out ((k, j) ∷ m) =
    let out' = if p j then out ++ (j ∷ []) else out in
    let rest = collect_due p limit out' m in if leb_ℤ limit (pos (length out')) then out' else rest

unfoldable pub has_state : String → Job → Bool
unfolding state_name
has_state state j = state == "" || state_name j.state == state

unfoldable pub list_jobs : Visit Job → String → ℤ → Store → List Job
list_jobs visit state limit s = collect (has_state state) (or_fifty limit) [] (visit s.jobs)

-- t != nil && !t.After(now)
abbrev pub reached : Instant → Option Instant → Bool
reached now none = false
reached now (some t) = leb_ℤ t now

abbrev pub due_in : JobState → Instant → Job → Bool
due_in scheduled now j = reached now j.scheduled_at
due_in retrying now j = reached now j.next_retry_at
due_in _ now j = false

unfoldable pub is_due : Instant → Job → Bool
is_due now j = due_in j.state now j

unfoldable pub list_due_scheduled : Visit Job → Instant → ℤ → Store → List Job
list_due_scheduled visit now limit s = collect_due (is_due now) limit [] (visit s.jobs)

unfoldable pub list_cancel_requested : Visit Job → ℤ → Store → List Job
list_cancel_requested visit limit s =
    collect (λ j. same_state j.state cancel_requested) (or_fifty limit) [] (visit s.jobs)

abbrev thirty_seconds : Duration
thirty_seconds = pos (30 * second)

abbrev past_deadline : Instant → Duration → Option Instant → Bool
past_deadline now timeout none = false
past_deadline now timeout (some t) =
    ltb_ℤ (t +ℤ (if leb_ℤ timeout (pos 0) then thirty_seconds else timeout)) now

unfoldable pub is_timed_out : Instant → Job → Bool
is_timed_out now j =
    (same_state j.state running || same_state j.state assigned)
    && past_deadline now j.timeout j.started_at

unfoldable pub list_timed_out_running : Visit Job → Instant → ℤ → Store → List Job
list_timed_out_running visit now limit s =
    collect (is_timed_out now) (or_fifty limit) [] (visit s.jobs)
