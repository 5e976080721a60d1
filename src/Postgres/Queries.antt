-- ===== src/Postgres/Queries.antt =====
-- internal/store/postgres/store.go: the queries that list rows. `scan` is the order in which the database
-- comes upon the rows of a table, which decides between rows that ORDER BY leaves equal.
use chronos_dev.Common.{
  ℕ, ℤ, pos, ◌*ℤ◌, ◌+ℤ◌, String, Bool, true, false, ◌&&◌, ◌||◌, List, Option, none, some, ◌==◌,
  if◌then◌else◌, Visit, insert, lookup, values, select, eqb_ℤ, ltb_ℤ, leb_ℤ, pos_part, Result, ok,
  err, failure,
}
use chronos_dev.Domain.Job.{
  Job, Instant, millisecond, milliseconds, scheduled, retrying, cancel_requested, running, assigned,
  same_state, state_name,
}
use chronos_dev.Domain.Worker.{Worker, is_healthy}
use chronos_dev.Sql.{ordered, page}
use chronos_dev.Postgres.{Database}

-- NULLS FIRST, and the default for ASC, which is NULLS LAST.
abbrev pub nulls_first : Option Instant → Option Instant → Bool
nulls_first none u = true
nulls_first (some t) none = false
nulls_first (some t) (some u) = leb_ℤ t u

abbrev pub nulls_last : Option Instant → Option Instant → Bool
nulls_last t none = true
nulls_last none (some u) = false
nulls_last (some t) (some u) = leb_ℤ t u

-- created_at DESC
abbrev pub newest_first : Job → Job → Bool
newest_first a b = leb_ℤ b.created_at a.created_at

-- priority DESC, scheduled_at ASC NULLS FIRST
abbrev pub by_urgency : Job → Job → Bool
by_urgency a b =
    ltb_ℤ b.priority a.priority
    || (eqb_ℤ a.priority b.priority && nulls_first a.scheduled_at b.scheduled_at)

-- updated_at ASC
abbrev pub by_update : Job → Job → Bool
by_update a b = leb_ℤ a.updated_at b.updated_at

-- started_at ASC
abbrev pub by_start : Job → Job → Bool
by_start a b = nulls_last a.started_at b.started_at

-- limit <= 0 stands for 50.
abbrev pub page_size : ℤ → ℕ
page_size limit = if leb_ℤ limit (pos 0) then 50 else pos_part limit

abbrev pub in_state : String → Job → Bool
in_state state j = state == "" || state_name j.state == state

-- A comparison with NULL does not hold.
abbrev pub not_after : Option Instant → Instant → Bool
not_after none now = false
not_after (some t) now = leb_ℤ t now

unfoldable pub is_ready : Instant → Job → Bool
is_ready now j =
    (same_state j.state scheduled && not_after j.scheduled_at now)
    || (same_state j.state retrying && not_after j.next_retry_at now)

-- started_at + timeout_ms < now
abbrev pub overdue : Option Instant → ℤ → Instant → Bool
overdue none timeout_ms now = false
overdue (some t) timeout_ms now = ltb_ℤ (t +ℤ timeout_ms *ℤ pos millisecond) now

unfoldable pub is_overdue : Instant → Job → Bool
is_overdue now j =
    (same_state j.state running || same_state j.state assigned)
    && overdue j.started_at (milliseconds j.timeout) now

unfoldable pub list_jobs : Visit Job → String → ℤ → Database → List Job
list_jobs scan state limit db =
    page newest_first (in_state state) (page_size limit) (values (scan db.jobs))

-- The database refuses a negative limit.
unfoldable pub list_due_scheduled : Visit Job → Instant → ℤ → Database → Result (List Job)
list_due_scheduled scan now limit db =
    if ltb_ℤ limit (pos 0)
    then err (failure "LIMIT must not be negative")
    else ok (page by_urgency (is_ready now) (pos_part limit) (values (scan db.jobs)))

unfoldable pub list_cancel_requested : Visit Job → ℤ → Database → List Job
list_cancel_requested scan limit db =
    page by_update (λ j. same_state j.state cancel_requested) (page_size limit)
      (values (scan db.jobs))

unfoldable pub list_timed_out_running : Visit Job → Instant → ℤ → Database → List Job
list_timed_out_running scan now limit db =
    page by_start (is_overdue now) (page_size limit) (values (scan db.jobs))

-- INSERT … ON CONFLICT (id) DO UPDATE, which leaves registered_at as it is.
abbrev pub or_registered : Worker → Option Worker → Worker
or_registered w none = w
or_registered w (some old) = record w { registered_at = old.registered_at }

unfoldable pub upsert_worker : Worker → Database → Database
upsert_worker w db = record db {
  workers = insert w.id (or_registered w (lookup w.id db.workers)) db.workers;
}

-- ORDER BY active_jobs ASC
unfoldable pub list_healthy_workers : Visit Worker → Database → List Worker
list_healthy_workers scan db =
    ordered (λ a b. leb_ℤ a.active_jobs b.active_jobs)
      (select (λ w. is_healthy w.status) (values (scan db.workers)))

-- ORDER BY registered_at
unfoldable pub list_workers : Visit Worker → Database → List Worker
list_workers scan db =
    ordered (λ a b. leb_ℤ a.registered_at b.registered_at) (values (scan db.workers))
