-- ===== src/Postgres/Listings.antt =====
-- The listings of jobs on a database.
use chronos_dev.Common.{ℕ, ℤ, pos, List, ◌≡◌, arith, ◌≤ℤ◌, String, Visit, values, ok}
use chronos_dev.Domain.Job.{Job, Instant, same_state, cancel_requested}
use chronos_dev.Postgres.{Database}
use chronos_dev.Postgres.Queries.{
  newest_first, by_urgency, by_update, by_start, page_size, in_state, is_ready, is_overdue,
  list_jobs, list_due_scheduled, list_cancel_requested, list_timed_out_running,
}
use chronos_dev.Sql.{page}
use chronos_dev.Postgres.Ranking.{
  newest_first-IsRank, by_urgency-IsRank, by_update-IsRank, by_start-IsRank, NoneLast, IsMoreUrgent,
  IsReady, IsOverdue, IsAsked, nulls_last-NoneLast, by_urgency-IsMoreUrgent, is_ready-IsReady,
  is_ready-not, is_overdue-IsOverdue, is_overdue-not, in_state-IsAsked, in_state-not,
  same_state-true, same_state-false,
}
use chronos_dev.Sql.Ordering.{IsListing, page-IsListing}

pub list_due_scheduled-page :
    (scan : Visit Job) (now : Instant) (n : ℕ) (db : Database)
    → list_due_scheduled scan now (pos n) db
      ≡ ok (page by_urgency (is_ready now) n (values (scan db.jobs)))
unfolding list_due_scheduled
list_due_scheduled-page scan now n db = ground arith

-- In whatever order the database comes upon the rows, each listing is the beginning, as long as the limit
-- allows, of a list of just the rows asked for: the jobs in the state asked for, or all of them, newest
-- first; the jobs whose cancellation is requested by the time of their last update; the running and
-- assigned jobs whose time of start and timeout are past, by the time of their start; and, with a limit
-- that is not negative, the scheduled jobs and the jobs to be retried whose time has come, the higher
-- priority first, then those scheduled for no time, then the earlier time.
pub listings-IsPage :
    (scan : Visit Job) (now : Instant) (state : String) (limit : ℤ) (n : ℕ) (db : Database)
    → let rows = values (scan db.jobs) in
      let size = page_size limit in
      IsListing
        (λ a b. b.created_at ≤ℤ a.created_at)
        (IsAsked state)
        size
        rows
        (list_jobs scan state limit db)
      × IsListing
          (λ a b. a.updated_at ≤ℤ b.updated_at)
          (λ j. j.state ≡ cancel_requested)
          size
          rows
          (list_cancel_requested scan limit db)
      × IsListing
          (λ a b. NoneLast a.started_at b.started_at)
          (IsOverdue now)
          size
          rows
          (list_timed_out_running scan now limit db)
      × ((out : List Job) × (list_due_scheduled scan now (pos n) db ≡ ok out)
          × IsListing IsMoreUrgent (IsReady now) n rows out)
unfolding list_jobs list_cancel_requested list_timed_out_running
listings-IsPage scan now state limit n db =
    let rows = values (scan db.jobs) in
    let size = page_size limit in
    (
      page-IsListing newest_first (in_state state) (λ a b. b.created_at ≤ℤ a.created_at)
          (IsAsked state) size rows newest_first-IsRank (λ a b h. ground (arith, h))
          (in_state-IsAsked state) (in_state-not state),
      page-IsListing by_update (λ j. same_state j.state cancel_requested)
          (λ a b. a.updated_at ≤ℤ b.updated_at) (λ j. j.state ≡ cancel_requested) size rows
          by_update-IsRank (λ a b h. ground (arith, h))
          (λ j. same_state-true j.state cancel_requested)
          (λ j. same_state-false j.state cancel_requested),
      page-IsListing by_start (is_overdue now) (λ a b. NoneLast a.started_at b.started_at)
          (IsOverdue now) size rows by_start-IsRank
          (λ a b. nulls_last-NoneLast a.started_at b.started_at) (is_overdue-IsOverdue now)
          (is_overdue-not now),
      (
        page by_urgency (is_ready now) n rows,
        list_due_scheduled-page scan now n db,
        page-IsListing by_urgency (is_ready now) IsMoreUrgent (IsReady now) n rows by_urgency-IsRank
            by_urgency-IsMoreUrgent (is_ready-IsReady now) (is_ready-not now),
      ),
    )
