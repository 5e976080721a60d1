-- ===== src/Worker/Load.antt =====
-- How many jobs a node runs at once.
use chronos_dev.Common.{
  total, total-middle, ℕ, suc, ◌+◌, ◌≤◌, ◌<◌, pos, String, List, [], ◌∷◌, ◌++◌, ◌≡◌, refl, ◌∙◌, ap,
  sym, subst, Bool-cases, ◌^◌, int32, int32_small, int32-up, int32-down, int32-le, ◌⊎◌, inl, inr,
  arith, ◌+ℤ◌, ◌-ℤ◌, ◌≤ℤ◌,
}
use chronos_dev.Worker.{
  WorkerConfig, Node, new_node, at_capacity, count_job, register_cancel, remove_cancel, call_cancel,
  uncount_job, cancel_local, cancel_at,
}
use chronos_dev.Worker.Threads.{
  Pc, arrived, admitted, counted, running, reported, unregistered, released, refused, finished,
  advance, System, Step, arrive, pick, cancel, Reach, here, next, is_admitted, occupies,
}

-- The counter is the number of threads that are counted and not finished, as a signed 32-bit number.
pub record IsCounted (s : System) : Type 0 where
  pub count : s.node.active ≡ int32 (pos (total occupies s.threads))

plus_none : (a : ℕ) → 0 + a ≡ a
plus_none a = omega arith

plus_one : (a : ℕ) → 1 + a ≡ a + 1
plus_one a = omega arith

-- What one thread's step does to the counter and to the weights.
advance-counts :
    (n : Node) (p : Pc) (a : ℕ)
    → n.active ≡ int32 (pos (occupies p + a))
    → (advance n p).0.active ≡ int32 (pos (occupies (advance n p).1 + a))
unfolding advance count_job register_cancel remove_cancel call_cancel uncount_job
advance-counts n (arrived req) a h = elim (Bool-cases (at_capacity n)) [
  | inl e ↦ rw e h
  | inr e ↦ rw e h
]
advance-counts n (admitted req) a h =
    ap (λ x. int32 (x +ℤ pos 1)) (h ∙ ap (λ x. int32 (pos x)) (plus_none a))
    ∙ int32-up a
    ∙ ap (λ x. int32 (pos x)) (omega arith)
advance-counts n (released req context) a h =
    ap (λ x. int32 (x -ℤ pos 1)) (h ∙ ap (λ x. int32 (pos x)) (plus_one a))
    ∙ int32-down a
    ∙ ap (λ x. int32 (pos x)) (sym (plus_none a))
advance-counts n _ a h = h

cancel_local-active :
    (id : String) (n : Node)
    → ((cancel_local id n).active ≡ n.active) × ((cancel_local id n).cfg ≡ n.cfg)
unfolding cancel_local cancel_at call_cancel
cancel_local-active id n = ground arith

pick-IsCounted :
    (s : System) (before after : List Pc) (p : Pc)
    → s.threads ≡ before ++ (p ∷ after)
    → IsCounted s
    → (advance s.node p).0.active
      ≡ int32 (pos (total occupies (before ++ ((advance s.node p).1 ∷ after))))
pick-IsCounted s before after p e h =
    let q = (advance s.node p).1 in
    let rest = total occupies before + total occupies after in
    let held : s.node.active ≡ int32 (pos (occupies p + rest)) =
      h.count
      ∙ ap (λ x. int32 (pos x))
          (ap (total occupies) e ∙ omega (arith, total-middle occupies before after p)) in
    advance-counts s.node p rest held
    ∙ ap (λ x. int32 (pos x)) (omega (arith, total-middle occupies before after q))

Step-IsCounted : (s t : System) → Step s t → IsCounted s → IsCounted t
unfolding total
Step-IsCounted s t (arrive req e) h =
    subst IsCounted (sym e) record { count = h.count ∙ ap (λ x. int32 (pos x)) (omega arith) }
Step-IsCounted s t (pick before after p e f) h =
    subst IsCounted (sym f) record { count = pick-IsCounted s before after p e h }
Step-IsCounted s t (cancel id e) h =
    subst IsCounted (sym e) record { count = (cancel_local-active id s.node).0 ∙ h.count }

abbrev pub start : WorkerConfig → String → System
start cfg token = record { node = new_node cfg token; threads = [] }

start-IsCounted : (cfg : WorkerConfig) (token : String) → IsCounted (start cfg token)
unfolding new_node total
start-IsCounted cfg token = record { count = sym (int32_small 0 (omega arith)) }

-- Whatever the order in which the threads of a node take turns, its counter of active jobs is the number
-- of threads that were counted and are not finished, as a signed 32-bit number.
pub Reach-IsCounted :
    (cfg : WorkerConfig) (token : String) (t : System) → Reach (start cfg token) t → IsCounted t
Reach-IsCounted cfg token _ here = start-IsCounted cfg token
Reach-IsCounted cfg token _ (next {t = u} {u = t} r st) =
    Step-IsCounted u t st (Reach-IsCounted cfg token u r)

-- Runs in which never more than so many threads stand between the test and the count.
pub data ReachWithin (m : ℕ) (s : System) : System → Type 0 where
  here_within : ReachWithin m s s
  next_within :
      {t u : System}
      → ReachWithin m s t
      → Step t u
      → total is_admitted u.threads ≤ m
      → ReachWithin m s u

ReachWithin-Reach : {m : ℕ} {s t : System} → ReachWithin m s t → Reach s t
ReachWithin-Reach here_within = here
ReachWithin-Reach (next_within r st few) = next (ReachWithin-Reach r) st

lt-or-le : (a b : ℕ) → (a < b) ⊎ (b ≤ a)
lt-or-le a b = ground arith

-- Threads counted or about to be, against the capacity `c`.
record IsBounded (c m : ℕ) (s : System) : Type 0 where
  capacity : s.node.cfg.capacity ≡ pos c
  counting : IsCounted s
  bound : total occupies s.threads + total is_admitted s.threads ≤ c + m

advance-cfg : (n : Node) (p : Pc) → (advance n p).0.cfg ≡ n.cfg
unfolding advance count_job register_cancel remove_cancel call_cancel uncount_job
advance-cfg n (arrived req) = ground arith
advance-cfg n (admitted req) = refl
advance-cfg n _ = refl

-- A step adds to the weights only at the test, which the capacity bounds.
advance-bound :
    (n : Node) (p : Pc) (c a : ℕ)
    → n.cfg.capacity ≡ pos c
    → n.active ≡ pos (occupies p + a)
    → let q = (advance n p).1 in
      ((occupies q + is_admitted q ≤ occupies p + is_admitted p)
        ⊎ ((occupies p + a < c) × (occupies q + a < c) × (is_admitted q ≡ 1)))
unfolding advance at_capacity
advance-bound n (arrived req) c a k h = ground (arith, k, h)
advance-bound n (admitted req) c a k h = inl (omega arith)
advance-bound n (counted req) c a k h = inl (omega arith)
advance-bound n (running req x) c a k h = inl (omega arith)
advance-bound n (reported req x) c a k h = inl (omega arith)
advance-bound n (unregistered req x) c a k h = inl (omega arith)
advance-bound n (released req x) c a k h = inl (omega arith)
advance-bound n refused c a k h = inl (omega arith)
advance-bound n finished c a k h = inl (omega arith)

pick-bound :
    (c m : ℕ) (s t : System) (before after : List Pc) (p : Pc)
    → s.threads ≡ before ++ (p ∷ after)
    → t.threads ≡ before ++ ((advance s.node p).1 ∷ after)
    → c + m < 2 ^ 31
    → total is_admitted t.threads ≤ suc m
    → IsBounded c m s
    → total occupies t.threads + total is_admitted t.threads ≤ c + m
pick-bound c m s t before after p e f fits few h =
    let q = (advance s.node p).1 in
    let rest = total occupies before + total occupies after in
    let old_occupies = ap (total occupies) e ∙ total-middle occupies before after p in
    let old_admitted = ap (total is_admitted) e ∙ total-middle is_admitted before after p in
    let new_occupies = ap (total occupies) f ∙ total-middle occupies before after q in
    let new_admitted = ap (total is_admitted) f ∙ total-middle is_admitted before after q in
    let held : s.node.active ≡ pos (occupies p + rest) =
      h.counting.count
      ∙ int32_small (total occupies s.threads) (omega (arith, h.bound))
      ∙ ap pos (omega (arith, old_occupies)) in
    elim (advance-bound s.node p c rest h.capacity held) [
      | inl less ↦
          omega (arith, h.bound, old_occupies, old_admitted, new_occupies, new_admitted, less)
      | inr (full, room, one) ↦ omega (arith, new_occupies, new_admitted, room, few)
    ]

Step-IsBounded :
    (c m : ℕ) (s t : System)
    → Step s t
    → c + m < 2 ^ 31
    → total is_admitted t.threads ≤ suc m
    → IsBounded c m s
    → IsBounded c m t
unfolding total
Step-IsBounded c m s t (arrive req e) fits few h = subst (IsBounded c m) (sym e) record {
  capacity = h.capacity;
  counting = Step-IsCounted s _ (arrive req refl) h.counting;
  bound = omega (arith, h.bound);
}
Step-IsBounded c m s t (pick before after p e f) fits few h = record {
  capacity =
      ap (λ x. x.node.cfg.capacity) f ∙ (ap (λ x. x.capacity) (advance-cfg s.node p) ∙ h.capacity);
  counting = Step-IsCounted s t (pick before after p e f) h.counting;
  bound = pick-bound c m s t before after p e (ap (λ x. x.threads) f) fits few h;
}
Step-IsBounded c m s t (cancel id e) fits few h = record {
  capacity =
      ap (λ x. x.node.cfg.capacity) e
      ∙ (ap (λ x. x.capacity) (cancel_local-active id s.node).1 ∙ h.capacity);
  counting = Step-IsCounted s t (cancel id e) h.counting;
  bound = omega (
    arith,
    h.bound,
    ap (λ x. total occupies x.threads) e,
    ap (λ x. total is_admitted x.threads) e,
  );
}

reach-IsBounded :
    (c m : ℕ) (cfg : WorkerConfig) (token : String) (t : System)
    → cfg.capacity ≡ pos c
    → c + m < 2 ^ 31
    → ReachWithin (suc m) (start cfg token) t
    → IsBounded c m t
unfolding new_node total
reach-IsBounded c m cfg token _ k fits here_within = record {
  capacity = k;
  counting = start-IsCounted cfg token;
  bound = omega arith;
}
reach-IsBounded c m cfg token _ k fits (next_within {t = u} {u = t} r st few) =
    Step-IsBounded c m u t st fits few (reach-IsBounded c m cfg token u k fits r)

-- If never more than `m + 1` threads stand between the test of the capacity and the count, a node with
-- capacity `c` never has more than `c + m` active jobs: never more than `c` if calls are taken one at
-- a time.
pub active-le-capacity :
    (c m : ℕ) (cfg : WorkerConfig) (token : String) (t : System)
    → cfg.capacity ≡ pos c
    → ReachWithin (suc m) (start cfg token) t
    → t.node.active ≤ℤ pos (c + m)
active-le-capacity c m cfg token t k r =
    let counted = Reach-IsCounted cfg token t (ReachWithin-Reach r) in
    let n = total occupies t.threads in
    elim (lt-or-le (c + m) (2 ^ 31)) [
      | inl fits ↦
          let h = reach-IsBounded c m cfg token t k fits r in
          let small = int32_small n (omega (arith, h.bound)) in
          subst (λ x. x ≤ℤ pos (c + m)) (sym (counted.count ∙ small)) (omega (arith, h.bound))
      | inr big ↦
          let top = int32-le (pos n) in
          subst (λ x. x ≤ℤ pos (c + m)) (sym counted.count) (omega (arith, top, big))
    ]
