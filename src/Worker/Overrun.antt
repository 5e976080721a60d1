-- ===== src/Worker/Overrun.antt =====
-- The test of the capacity and the count are two steps, between which other calls pass the test.
use chronos_dev.Common.{
  ℕ, zero, suc, ◌+◌, pos, String, List, [], ◌∷◌, ◌++◌, ◌≡◌, refl, ap, sym, subst, arith, ◌<ℤ◌,
  leb_ℤ, false, ◌+ℤ◌, ◌<◌, ◌^◌, ◌∙◌, int32, int32_small,
}
use chronos_dev.Worker.{ExecuteJobRequest, WorkerConfig, new_node, at_capacity, count_job}
use chronos_dev.Worker.Threads.{
  Pc, arrived, admitted, counted, advance, System, Step, arrive, pick, Reach, here, next,
}
use chronos_dev.Worker.Load.{start}

abbrev many : ℕ → Pc → List Pc
many zero p = []
many (suc n) p = p ∷ many n p

many-shift : (n : ℕ) (p : Pc) (ps : List Pc) → many n p ++ (p ∷ ps) ≡ p ∷ (many n p ++ ps)
many-shift zero p ps = refl
many-shift (suc n) p ps = ap (◌∷◌ p) (many-shift n p ps)

Reach-trans : {s t u : System} → Reach s t → Reach t u → Reach s u
Reach-trans r here = r
Reach-trans r (next q st) = next (Reach-trans r q) st

module _ (cfg : WorkerConfig) (token : String) (req : ExecuteJobRequest) where
  -- Threads that have arrived, that have passed the test, and that are counted.
  abbrev stage : ℕ → ℕ → ℕ → System
  stage a b k = record {
    node = record (new_node cfg token) { active = pos k };
    threads = many a (arrived req) ++ (many b (admitted req) ++ many k (counted req));
  }

  arrive_all : (n : ℕ) → Reach (start cfg token) (stage n 0 0)
  unfolding new_node
  arrive_all zero = here
  arrive_all (suc n) = next (arrive_all n) (arrive req refl)

  -- The last thread that has arrived passes the test.
  test_one : (a b : ℕ) → pos 0 <ℤ cfg.capacity → Step (stage (suc a) b 0) (stage a (suc b) 0)
  unfolding advance at_capacity new_node
  test_one a b room =
      let after = many b (admitted req) ++ [] in
      let passes : leb_ℤ cfg.capacity (pos 0) ≡ false = ground arith in
      pick (many a (arrived req)) after (arrived req) (sym (many-shift a (arrived req) after))
        (rw passes refl)

  count_one : (b k : ℕ) → suc k < 2 ^ 31 → Step (stage 0 (suc b) k) (stage 0 b (suc k))
  unfolding advance count_job new_node ◌+ℤ◌
  count_one b k fits =
      let counted_once : int32 (pos k +ℤ pos 1) ≡ pos (suc k) =
        ap int32 (ground arith) ∙ int32_small (suc k) fits in
      let after = many k (counted req) in
      pick (many b (admitted req)) after (admitted req) (sym (many-shift b (admitted req) after)) (
        ap
          (λ x. record {
            node = record (new_node cfg token) { active = x };
            threads = many b (admitted req) ++ (counted req ∷ after);
          })
          (sym counted_once))

  test_all : (a b : ℕ) → pos 0 <ℤ cfg.capacity → Reach (stage a b 0) (stage 0 (b + a) 0)
  test_all zero b room = subst (λ n. Reach (stage 0 b 0) (stage 0 n 0)) (omega arith) here
  test_all (suc a) b room =
      subst (λ n. Reach (stage (suc a) b 0) (stage 0 n 0)) (omega arith)
        (Reach-trans (next here (test_one a b room)) (test_all a (suc b) room))

  count_all : (b k : ℕ) → k + b < 2 ^ 31 → Reach (stage 0 b k) (stage 0 0 (k + b))
  count_all zero k fits = subst (λ n. Reach (stage 0 0 k) (stage 0 0 n)) (omega arith) here
  count_all (suc b) k fits =
      subst (λ n. Reach (stage 0 (suc b) k) (stage 0 0 n)) (omega arith)
        (Reach-trans (next here (count_one b k (omega arith))) (count_all b (suc k) (omega arith)))

-- The capacity of a node is no bound on its active jobs: with any positive capacity, for every number
-- below 2 ^ 31 a run of the node reaches a state in which so many jobs are active.
pub active_exceeds :
    (cfg : WorkerConfig) (token : String) (n : ℕ)
    → n < 2 ^ 31
    → pos 0 <ℤ cfg.capacity
    → (t : System) × Reach (start cfg token) t × (t.node.active ≡ pos n)
active_exceeds cfg token n fits room = (
  stage cfg token any 0 0 n,
  Reach-trans (arrive_all cfg token any n) (
      Reach-trans (test_all cfg token any n 0 room) (
        subst (λ m. Reach (stage cfg token any 0 (0 + n) 0) (stage cfg token any 0 0 m))
          (omega arith) (count_all cfg token any (0 + n) 0 (omega arith)))),
  refl,
)
  where
    any : ExecuteJobRequest
    any = record {
      job_id = "j";
      execution_id = "e";
      name = "";
      job_type = "builtin";
      payload = "{}";
      attempt = pos 1;
      timeout_ms = pos 0;
      trace_id = "";
    }
