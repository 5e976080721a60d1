-- ===== src/Outbox/Examples.antt =====
-- The laws of the outbox publisher, at an outbox of three rows.
use chronos_dev.Common.{pos, String, [], ◌∷◌, ◌++◌, map, ◌≡◌, refl, arith}
use chronos_dev.Store.State.{Store, OutboxRow}
use chronos_dev.Store.Outbox.{one_of}
use chronos_dev.Store.Publication.{HasDistinctIds}
use chronos_dev.Outbox.{Topics, Publisher, message_of, flushes}
use chronos_dev.Outbox.Draining.{flushes_drain}

abbrev topics : Topics
topics = record {
  job_events_topic = "jobs";
  worker_events_topic = "workers";
  scheduler_events_topic = "schedulers";
}

abbrev row : String → OutboxRow
row id = record {
  id = id;
  event_type = "JOB_CREATED";
  aggregate_id = "j1";
  payload = "";
  created_at = pos 1;
}

abbrev three : Store
three = record {
  jobs = [];
  by_idem = [];
  executions = [];
  workers = [];
  outbox = row "r1" ∷ row "r2" ∷ row "r3" ∷ [];
}

abbrev publisher : Publisher
publisher = record { topics = topics; store = three; written = [] }

three-HasDistinctIds : HasDistinctIds three.outbox
unfolding one_of
three-HasDistinctIds = (refl, (refl, (refl, tt)))

flushes_drain_example :
    ((flushes 1 publisher).store.outbox ≡ [])
    × ((flushes 1 publisher).written ≡ [] ++ map (message_of topics) three.outbox)
flushes_drain_example = flushes_drain 1 publisher (omega arith) three-HasDistinctIds
