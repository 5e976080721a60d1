-- ===== src/Scheduler/Choice.antt =====
-- Which worker is picked for a job.
use chronos_dev.Common.{
  true, false, List, [], ◌∷◌, Option, none, some, ◌≡◌, refl, sym, subst, ◌⊎◌, inl, inr, ◌≤ℤ◌, arith,
  All, Any, values, Bool-cases, ltb_ℤ, if◌then◌else◌,
}
use chronos_dev.Domain.Worker.{Worker, is_assignable}
use chronos_dev.Scheduler.State.{Service, Env}
use chronos_dev.Scheduler.Assign.{better, pick_loop, pick_worker}

-- A choice among the workers that a loop visits: none of them can take a job, or the one chosen can,
-- was visited, and has no more active jobs than any that can.
abbrev pub IsBest : List Worker → Option Worker → Type 0
IsBest ws none = All (λ w. is_assignable w ≡ false) ws
IsBest ws (some b) =
    (is_assignable b ≡ true)
    × Any (λ w. w ≡ b) ws
    × All (λ w. (is_assignable w ≡ false) ⊎ (b.active_jobs ≤ℤ w.active_jobs)) ws

-- The choice so far, `best`, against what is still to be visited.
abbrev Improves : List Worker → Option Worker → Option Worker → Type 0
Improves ws none r = IsBest ws r
Improves ws (some b) none = ⊥
Improves ws (some b) (some c) =
    (is_assignable c ≡ true)
    × ((c ≡ b) ⊎ Any (λ w. w ≡ c) ws)
    × (c.active_jobs ≤ℤ b.active_jobs)
    × All (λ w. (is_assignable w ≡ false) ⊎ (c.active_jobs ≤ℤ w.active_jobs)) ws

improve_taken :
    (w b : Worker) (ws : List Worker) (r : Option Worker)
    → ltb_ℤ w.active_jobs b.active_jobs ≡ true
    → Improves ws (some w) r
    → Improves (w ∷ ws) (some b) r
improve_taken w b ws none e k = k
improve_taken w b ws (some c) e k = (
  k.0,
  inr (elim k.1 [ inl q ↦ inl (sym q) | inr q ↦ inr q ]),
  ground (arith, e, k.2),
  (inr k.2, k.3),
)

improve_kept :
    (w b : Worker) (ws : List Worker) (r : Option Worker)
    → ltb_ℤ w.active_jobs b.active_jobs ≡ false
    → Improves ws (some b) r
    → Improves (w ∷ ws) (some b) r
improve_kept w b ws none e k = k
improve_kept w b ws (some c) e k = (
  k.0,
  elim k.1 [ inl q ↦ inl q | inr q ↦ inr (inr q) ],
  k.2,
  (inr (ground (arith, e, k.2)), k.3),
)

improve_some :
    (w b : Worker) (ws : List Worker) (r : Option Worker)
    → Improves ws (better w (some b)) r
    → Improves (w ∷ ws) (some b) r
improve_some w b ws r k = elim (Bool-cases (ltb_ℤ w.active_jobs b.active_jobs)) [
  | inl e ↦ improve_taken w b ws r e (subst (λ x. Improves ws (if x then some w else some b) r) e k)
  | inr e ↦ improve_kept w b ws r e (subst (λ x. Improves ws (if x then some w else some b) r) e k)
]

improve_skip :
    (w : Worker) (ws : List Worker) (best r : Option Worker)
    → is_assignable w ≡ false
    → Improves ws best r
    → Improves (w ∷ ws) best r
improve_skip w ws none none a k = (a, k)
improve_skip w ws none (some c) a k = (k.0, inr k.1, (inl a, k.2))
improve_skip w ws (some b) none a k = k
improve_skip w ws (some b) (some c) a k =
    (k.0, elim k.1 [ inl q ↦ inl q | inr q ↦ inr (inr q) ], k.2, (inl a, k.3))

improve_first :
    (w : Worker) (ws : List Worker) (r : Option Worker)
    → Improves ws (some w) r
    → Improves (w ∷ ws) none r
improve_first w ws none k = absurd k
improve_first w ws (some c) k =
    (k.0, elim k.1 [ inl q ↦ inl (sym q) | inr q ↦ inr q ], (inr k.2, k.3))

abbrev IsChoosable : Option Worker → Type 0
IsChoosable none = Unit {0}
IsChoosable (some b) = is_assignable b ≡ true

pick_loop-Improves :
    (ws : List Worker) (best : Option Worker)
    → IsChoosable best
    → Improves ws best (pick_loop ws best)
unfolding pick_loop
pick_loop-Improves [] none h = tt
pick_loop-Improves [] (some b) h = (h, inl refl, omega arith, tt)
pick_loop-Improves (w ∷ ws) none h = elim (Bool-cases (is_assignable w)) [
  | inl e ↦
      subst (λ x. Improves (w ∷ ws) none (pick_loop ws (if x then some w else none))) (sym e)
        (improve_first w ws _ (pick_loop-Improves ws (some w) e))
  | inr e ↦
      subst (λ x. Improves (w ∷ ws) none (pick_loop ws (if x then some w else none))) (sym e)
        (improve_skip w ws none _ e (pick_loop-Improves ws none h))
]
pick_loop-Improves (w ∷ ws) (some b) h = elim (Bool-cases (is_assignable w)) [
  | inl e ↦
      subst
        (λ x. Improves (w ∷ ws) (some b) (pick_loop ws (if x then better w (some b) else some b)))
        (sym e)
        (improve_some w b ws _ (pick_loop-Improves ws (better w (some b)) (ground (arith, e, h))))
  | inr e ↦
      subst
        (λ x. Improves (w ∷ ws) (some b) (pick_loop ws (if x then better w (some b) else some b)))
        (sym e) (improve_skip w ws (some b) _ e (pick_loop-Improves ws (some b) h))
]

-- The worker picked for a job can take one (it is healthy and has a free slot), is connected, and has no
-- more active jobs than any other that can; none is picked only if none can.
pub pick_worker-IsBest :
    (env : Env) (s : Service) → IsBest (values (env.visit_fleet s.workers)) (pick_worker env s)
unfolding pick_worker
pick_worker-IsBest env s = pick_loop-Improves (values (env.visit_fleet s.workers)) none tt
