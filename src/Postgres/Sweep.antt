-- ===== src/Postgres/Sweep.antt =====
-- The sweep of the workers on a database is the one in memory.
use chronos_dev.Common.{[], ◌∷◌, ◌≡◌, refl, ◌∙◌, ap, ap₂, Map, Visit, map_values, arith, ◌-ℤ◌, ◌+ℤ◌}
use chronos_dev.Domain.Job.{Instant, Duration}
use chronos_dev.Domain.Worker.{Worker}
use chronos_dev.Store.State.{Store}
use chronos_dev.Store.Fleet.{
  becomes_unavailable, becomes_suspected, mark_stale, mark_stale_workers as mark_in_memory,
}
use chronos_dev.Postgres.{Database, to_unavailable, to_suspected, mark_stale_workers}

two_statements :
    (dead suspect : Instant) (w : Worker)
    → to_suspected suspect dead (to_unavailable dead w) ≡ mark_stale dead suspect w
unfolding to_suspected to_unavailable mark_stale becomes_unavailable becomes_suspected
two_statements dead suspect w = ground arith

both_sweeps :
    (dead suspect : Instant) (m : Map Worker)
    → map_values (to_suspected suspect dead) (map_values (to_unavailable dead) m)
      ≡ map_values (mark_stale dead suspect) m
both_sweeps dead suspect [] = refl
both_sweeps dead suspect ((k, w) ∷ m) =
    ap₂ (λ x rest. (k, x) ∷ rest) (two_statements dead suspect w) (both_sweeps dead suspect m)

-- With the same workers and one reading of the clock, the two statements of the sweep on a database leave
-- each worker just as the loop in memory does.
pub mark_stale_workers-same :
    (visit : Visit Worker) (now : Instant) (timeout grace : Duration) (db : Database) (s : Store)
    → db.workers ≡ s.workers
    → (mark_stale_workers now timeout grace db).workers
      ≡ (mark_in_memory visit now timeout grace s).store.workers
unfolding mark_stale_workers mark_in_memory
mark_stale_workers-same visit now timeout grace db s same =
    both_sweeps (now -ℤ (timeout +ℤ grace)) (now -ℤ timeout) db.workers
    ∙ ap (map_values (mark_stale (now -ℤ (timeout +ℤ grace)) (now -ℤ timeout))) same
