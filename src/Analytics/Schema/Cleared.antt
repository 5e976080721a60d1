-- ===== src/Analytics/Schema/Cleared.antt =====
-- What is left of the tables.
use chronos_dev.Common.{
  String, List, [], ◌∷◌, Option, none, some, ◌==◌, eq_iff, ◌≡◌, refl, ap, ◌∙◌, arith, inl, inr,
  Bool-cases, if◌then◌else◌, All, Map, lookup, lookup-insert, lookup-delete, ok, Error,
}
use chronos_dev.Analytics.Schema.{
  Statement, create, drop, create_database, tables, statements, drops, create_missing, execute,
  exec, exec_each, exec_all, with_database, ensure_schema,
}

module _ {R : Type 0} where
  abbrev pub or_new : Option (List R) → Option (List R)
  or_new none = some []
  or_new (some rows) = some rows

  -- What a statement makes of the rows of one table.
  abbrev pub seen : String → Statement → Option (List R) → Option (List R)
  seen name (create n) o = if n == name then or_new o else o
  seen name (drop n) o = if n == name then none else o
  seen name (create_database n) o = o

  abbrev pub seen_all : String → List Statement → Option (List R) → Option (List R)
  seen_all name [] o = o
  seen_all name (st ∷ sts) o = seen_all name sts (seen name st o)

  create-seen :
      (name n : String) (o : Option (List R)) (db : Map (List R))
      → lookup n db ≡ o
      → lookup name (create_missing n o db)
        ≡ (if n == name then or_new (lookup name db) else lookup name db)
  create-seen name n none db h = ground (arith, h, lookup-insert n name [] db, eq_iff n name)
  create-seen name n (some rows) db h = ground (arith, h, eq_iff n name)

  execute-seen :
      (name : String) (st : Statement) (db : Map (List R))
      → lookup name (execute st db) ≡ seen name st (lookup name db)
  unfolding execute
  execute-seen name (create n) db = create-seen name n (lookup n db) db refl
  execute-seen name (drop n) db = lookup-delete n name db
  execute-seen name (create_database n) db = refl

  exec_each-seen :
      (failed : Statement → Option Error) (name : String) (sts : List Statement) (db : Map (List R))
      → ((st : Statement) → failed st ≡ none)
      → lookup name (exec_each failed sts db) ≡ seen_all name sts (lookup name db)
  unfolding exec_each exec
  exec_each-seen failed name [] db h = refl
  exec_each-seen failed name (st ∷ sts) db h = rw (h st) (
      exec_each-seen failed name sts (execute st db) h
      ∙ ap (seen_all name sts) (execute-seen name st db))

  exec_all-seen :
      (failed : Statement → Option Error) (sts : List Statement) (db : Map (List R))
      → ((st : Statement) → failed st ≡ none)
      → (t : Map (List R)) × (exec_all failed sts db ≡ ok t)
        × ((name : String) → lookup name t ≡ seen_all name sts (lookup name db))
  unfolding exec_all exec
  exec_all-seen failed [] db h = (db, refl, λ name. refl)
  exec_all-seen failed (st ∷ sts) db h =
      let (t, done, rows) = exec_all-seen failed sts (execute st db) h in
      (t, rw (h st) done, λ name. rows name ∙ ap (seen_all name sts) (execute-seen name st db))

  with_database-fine :
      (failed : Statement → Option Error) (name : String) (db : Map (List R))
      → ((st : Statement) → failed st ≡ none)
      → with_database failed name db ≡ ok db
  unfolding exec execute
  with_database-fine failed name db h = elim (Bool-cases (name == "")) [
    | inl e ↦ rw e refl
    | inr e ↦ rw (e, h (create_database name)) refl
  ]

-- If no statement fails, EnsureAdvancedSchema ends without an error. Then each of the ten tables and views of
-- statistics is there and has no rows, whatever it had before, and the table of events has the rows that it had, or
-- none if it was not there.
pub ensure_schema-exact :
    {R : Type 0} (failed : Statement → Option Error) (name : String) (db : Map (List R))
    → ((st : Statement) → failed st ≡ none)
    → (t : Map (List R)) × (ensure_schema failed name db ≡ ok t)
      × All (λ table. lookup table t ≡ some []) tables
      × (lookup "chronos_events" t ≡ or_new (lookup "chronos_events" db))
unfolding ensure_schema statements drops
ensure_schema-exact failed name db h =
    let dropped = exec_each failed drops db in
    let (t, done, rows) = exec_all-seen failed statements dropped h in
    let left = λ (table : String).
      rows table ∙ ap (seen_all table statements) (exec_each-seen failed table drops db h) in
    (
      t,
      rw (with_database-fine failed name db h) done,
      (
        left "job_minute_stats",
        (
          left "job_minute_stats_mv",
          (
            left "worker_minute_stats",
            (
              left "worker_minute_stats_mv",
              (
                left "failure_minute_stats",
                (
                  left "failure_minute_stats_mv",
                  (
                    left "job_hourly_stats",
                    (
                      left "job_hourly_stats_mv",
                      (left "job_daily_stats", (left "job_daily_stats_mv", tt)),
                    ),
                  ),
                ),
              ),
            ),
          ),
        ),
      ),
      left "chronos_events",
    )
