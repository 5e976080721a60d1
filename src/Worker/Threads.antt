-- ===== src/Worker/Threads.antt =====
-- The goroutines of a node. A call of `ExecuteJob` and the run that it starts are one thread, whose
-- steps are what the atomic counter and the mutex make indivisible; threads take turns in any order.
use chronos_dev.Common.{ℕ, String, List, ◌∷◌, ◌++◌, ◌≡◌, if◌then◌else◌}
use chronos_dev.Worker.{
  ExecuteJobRequest, Node, at_capacity, count_job, register_cancel, remove_cancel, call_cancel,
  uncount_job, cancel_local,
}

-- Where a thread stands: before the test; past it; counted; running in its context, which ends with
-- the report; and the three deferred calls.
pub data Pc : Type 0 where
  arrived admitted counted : ExecuteJobRequest → Pc
  running reported unregistered released : ExecuteJobRequest → ℕ → Pc
  refused finished : Pc

unfoldable pub advance : Node → Pc → Node × Pc
advance n (arrived req) = if at_capacity n then (n, refused) else (n, admitted req)
advance n (admitted req) = (count_job n, counted req)
advance n (counted req) = (register_cancel req n, running req n.contexts)
advance n (running req context) = (n, reported req context)
advance n (reported req context) = (remove_cancel req n, unregistered req context)
advance n (unregistered req context) = (call_cancel context n, released req context)
advance n (released req context) = (uncount_job n, finished)
advance n refused = (n, refused)
advance n finished = (n, finished)

pub record System : Type 0 where
  pub node : Node
  pub threads : List Pc

-- A call arrives, a thread goes on, or the scheduler asks for a cancellation.
pub data Step (s t : System) : Type 0 where
  arrive : (req : ExecuteJobRequest) → t ≡ record s { threads = arrived req ∷ s.threads } → Step s t
  pick :
      (before after : List Pc) (p : Pc)
      → s.threads ≡ before ++ (p ∷ after)
      → t ≡ record s {
        node = (advance s.node p).0;
        threads = before ++ ((advance s.node p).1 ∷ after);
      }
      → Step s t
  cancel : (job_id : String) → t ≡ record s { node = cancel_local job_id s.node } → Step s t

pub data Reach (s : System) : System → Type 0 where
  here : Reach s s
  next : {t u : System} → Reach s t → Step t u → Reach s u

-- A thread past the test that is not counted yet, and one that is counted and not finished.
abbrev pub is_admitted : Pc → ℕ
is_admitted (admitted req) = 1
is_admitted _ = 0

abbrev pub occupies : Pc → ℕ
occupies (counted req) = 1
occupies (running req context) = 1
occupies (reported req context) = 1
occupies (unregistered req context) = 1
occupies (released req context) = 1
occupies _ = 0
