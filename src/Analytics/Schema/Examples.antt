-- ===== src/Analytics/Schema/Examples.antt =====
-- A database whose daily statistics have a row.
use chronos_dev.Common.{ℕ, List, [], ◌∷◌, none, some, ◌≡◌, refl, All, Map, lookup, ok}
use chronos_dev.Analytics.Schema.{tables, ensure_schema}
use chronos_dev.Analytics.Schema.Cleared.{or_new, ensure_schema-exact}

abbrev filled : Map (List ℕ)
filled = ("job_daily_stats", 7 ∷ []) ∷ ("chronos_events", 1 ∷ 2 ∷ []) ∷ []

ensure_schema-exact_example :
    (t : Map (List ℕ)) × (ensure_schema (λ st. none) "chronos" filled ≡ ok t)
    × All (λ table. lookup table t ≡ some []) tables
    × (lookup "chronos_events" t ≡ or_new (lookup "chronos_events" filled))
ensure_schema-exact_example = ensure_schema-exact (λ st. none) "chronos" filled (λ st. refl)
