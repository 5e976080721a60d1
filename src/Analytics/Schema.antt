-- ===== src/Analytics/Schema.antt =====
-- internal/analytics/schema.go: the tables and views that are made when a program connects. A table is its rows, and
-- a view, which has none of its own here, is a table too; `R` are the rows. The columns, engines and queries of the
-- statements are not kept.
pub mod Cleared
mod Examples
use chronos_dev.Common.{
  String, Bool, List, [], ◌∷◌, ◌++◌, map, Option, none, some, ◌==◌, if◌then◌else◌, Map, lookup,
  insert, delete, after, Result, ok, err, Error, ◌>>=◌,
}

pub data Statement : Type 0 where
  -- CREATE … IF NOT EXISTS and DROP TABLE IF EXISTS, by the name of the table.
  create drop : String → Statement
  create_database : String → Statement

abbrev pub tables : List String
tables =
    "job_minute_stats" ∷ "job_minute_stats_mv" ∷ "worker_minute_stats" ∷ "worker_minute_stats_mv"
    ∷ "failure_minute_stats" ∷ "failure_minute_stats_mv" ∷ "job_hourly_stats"
    ∷ "job_hourly_stats_mv" ∷ "job_daily_stats" ∷ "job_daily_stats_mv" ∷ []

unfoldable pub statements : List Statement
statements = map create ("chronos_events" ∷ tables)

unfoldable pub drops : List Statement
drops = map drop (
    "job_minute_stats_mv" ∷ "job_minute_stats" ∷ "worker_minute_stats_mv" ∷ "worker_minute_stats"
    ∷ "failure_minute_stats_mv" ∷ "failure_minute_stats" ∷ "job_hourly_stats_mv"
    ∷ "job_hourly_stats" ∷ "job_daily_stats_mv" ∷ "job_daily_stats" ∷ [])

module _ {R : Type 0} where
  abbrev pub create_missing : String → Option (List R) → Map (List R) → Map (List R)
  create_missing name none db = insert name [] db
  create_missing name (some rows) db = db

  unfoldable pub execute : Statement → Map (List R) → Map (List R)
  execute (create name) db = create_missing name (lookup name db) db
  execute (drop name) db = delete name db
  execute (create_database name) db = db

  abbrev pub unless_failed : Option Error → Map (List R) → Result (Map (List R))
  unless_failed none db = ok db
  unless_failed (some e) db = err e

  -- conn.Exec, where `failed` are the errors of statements.
  unfoldable pub exec :
      (Statement → Option Error) → Statement → Map (List R) → Result (Map (List R))
  exec failed st db = unless_failed (failed st) (execute st db)

  -- The statements whose error is dropped.
  unfoldable pub exec_each :
      (Statement → Option Error) → List Statement → Map (List R) → Map (List R)
  exec_each failed [] db = db
  exec_each failed (st ∷ sts) db = exec_each failed sts (after db (exec failed st db))

  unfoldable pub exec_all :
      (Statement → Option Error) → List Statement → Map (List R) → Result (Map (List R))
  exec_all failed [] db = ok db
  exec_all failed (st ∷ sts) db = exec failed st db >>= exec_all failed sts

  abbrev pub with_database :
      (Statement → Option Error) → String → Map (List R) → Result (Map (List R))
  with_database failed name db = if name == "" then ok db else exec failed (create_database name) db

  unfoldable pub ensure_schema :
      (Statement → Option Error) → String → Map (List R) → Result (Map (List R))
  ensure_schema failed name db = with_database failed name db >>= λ db'.
      exec_all failed statements (exec_each failed drops db')
