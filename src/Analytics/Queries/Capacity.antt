-- ===== src/Analytics/Queries/Capacity.antt =====
-- What Capacity finds, and what it has of an empty range.
use chronos_dev.Common.{
  ℕ, pos, ◌%◌, ◌^◌, ◌≤◌, ◌<◌, ◌≤ℤ◌, true, false, List, [], ◌∷◌, map, ◌≡◌, refl, ap, subst, ◌∙◌, ◌⊎◌,
  arith, inl, inr, Bool-cases, if◌then◌else◌, eqb_ℤ, All, Any, total, total-map, ok,
}
use chronos_dev.Domain.Job.{Instant}
use chronos_dev.Analytics.Range.{TimeRange}
use chronos_dev.Analytics.Table.{EventRow}
use chronos_dev.Sql.Groups.{AreApart, apart-none, group_by-of, group_by-total, group_by-AreApart}
use chronos_dev.Analytics.Queries.{
  Float64, ClickHouse, Asked, fetch_one, rows_in, count_if, by_time,
}
use chronos_dev.Analytics.Queries.Buckets.{IsSent, fetch_one-sent, instants-IsSame}
use chronos_dev.Analytics.Queries.Counts.{one_if}
use chronos_dev.Analytics.Queries.Statistics.{
  CapacityResult, largest, per_minute, capacity_row, target_or_default, recommended, active_workers,
  or_else, capacity_of, capacity,
}

largest-Any : (ns : List ℕ) → (largest ns ≡ 0) ⊎ Any (λ n. n ≡ largest ns) ns
unfolding largest
largest-Any [] = inl refl
largest-Any (n ∷ ns) = ground (arith, largest-Any ns)

module _ (start : Instant → Instant) where
  abbrev key : EventRow → Instant
  key r = start r.event_time

  -- A group's weight is at most the largest one.
  group-le-largest :
      (v : Instant × List EventRow → ℕ) (m : Instant) (gs : List (Instant × List EventRow))
      → AreApart eqb_ℤ key instants-IsSame gs
      → total (λ g. if eqb_ℤ g.0 m then v g else 0) gs ≤ largest (map v gs)
  unfolding total largest
  group-le-largest v m [] h = omega arith
  group-le-largest v m (g ∷ gs) h = elim (Bool-cases (eqb_ℤ g.0 m)) [
    | inl e ↦
        let others =
          subst (λ j. All (λ x. eqb_ℤ j x.0 ≡ false) gs) (instants-IsSame.sound g.0 m e) h.0 in
        let none_left = apart-none eqb_ℤ key instants-IsSame v m gs others in
        rw (e, none_left) (ground arith)
    | inr e ↦ let rest = group-le-largest v m gs h.1 in rw e (ground (arith, rest))
  ]

  group-ge :
      (v : Instant × List EventRow → ℕ) (p : ℕ) (gs : List (Instant × List EventRow))
      → Any (λ n. n ≡ p) (map v gs)
      → (m : Instant) × (p ≤ total (λ g. if eqb_ℤ g.0 m then v g else 0) gs)
  unfolding total
  group-ge v p [] h = absurd h
  group-ge v p (g ∷ gs) (inl e) = (g.0, rw (instants-IsSame.complete g.0) (omega (arith, e)))
  group-ge v p (g ∷ gs) (inr h) = let (m, le) = group-ge v p gs h in (m, ground (arith, le))

-- The jobs that were completed in a minute.
abbrev pub completed_in : (Instant → Instant) → Instant → List EventRow → ℕ
completed_in start m =
    total λ r. if eqb_ℤ (start r.event_time) m then one_if "JOB_COMPLETED" r else 0

-- An answer that is right for these rows.
pub record IsCapacity {F : Type 0} (f : Float64 F) (ch : ClickHouse F) (rows : List EventRow)
    (out : CapacityResult F) : Type 0 where
  pub completed : out.completed ≡ count_if "JOB_COMPLETED" rows % 2 ^ 64
  pub bounded : (m : Instant) → completed_in ch.start_of_minute m rows ≤ out.peak_per_minute
  pub reached :
      (out.peak_per_minute ≡ 0)
      ⊎ ((m : Instant) × (completed_in ch.start_of_minute m rows ≡ out.peak_per_minute))
  pub enough :
      f.less (f.of_uint64 0) out.target_per_worker ≡ true
      → 0 < out.peak_per_minute
      → pos 1 ≤ℤ out.recommended_workers

module _ {F : Type 0} (f : Float64 F) (ch : ClickHouse F) (rows : List EventRow) where
  abbrev groups : List (Instant × List EventRow)
  groups = by_time ch.start_of_minute rows

  abbrev jobs_of : Instant × List EventRow → ℕ
  jobs_of g = count_if "JOB_COMPLETED" g.1

  groups-completed :
      (m : Instant)
      → total (λ g. if eqb_ℤ g.0 m then jobs_of g else 0) groups
        ≡ completed_in ch.start_of_minute m rows
  unfolding count_if
  groups-completed m =
      group_by-of eqb_ℤ (key ch.start_of_minute) instants-IsSame (one_if "JOB_COMPLETED") m rows

  peak-bounds :
      (m : Instant) → completed_in ch.start_of_minute m rows ≤ largest (per_minute f ch rows)
  unfolding per_minute
  peak-bounds m =
      subst (λ n. n ≤ largest (map jobs_of groups)) (groups-completed m)
        (group-le-largest ch.start_of_minute jobs_of m groups
          (group_by-AreApart eqb_ℤ (key ch.start_of_minute) instants-IsSame rows))

  peak-reached :
      (largest (per_minute f ch rows) ≡ 0)
      ⊎ ((m : Instant) × (completed_in ch.start_of_minute m rows ≡ largest (per_minute f ch rows)))
  unfolding per_minute
  peak-reached = elim (largest-Any (map jobs_of groups)) [
    | inl e ↦ inl e
    | inr h ↦
        let (m, le) = group-ge ch.start_of_minute jobs_of (largest (map jobs_of groups)) groups h in
        inr (m, omega (arith, le, groups-completed m, peak-bounds m))
  ]

  sum-completed : total (λ n. n) (per_minute f ch rows) ≡ count_if "JOB_COMPLETED" rows
  unfolding per_minute count_if
  sum-completed =
      total-map (λ n. n) jobs_of groups
      ∙ group_by-total eqb_ℤ (key ch.start_of_minute) instants-IsSame (one_if "JOB_COMPLETED") rows

recommended-enough :
    {F : Type 0} (f : Float64 F) (ch : ClickHouse F) (peak : ℕ) (target : F)
    → f.less (f.of_uint64 0) target ≡ true
    → 0 < peak
    → pos 1 ≤ℤ recommended f ch peak target
unfolding recommended
recommended-enough f ch peak target h p = ground (arith, h, p)

-- If the first query does not fail, Capacity answers, whatever comes of the second. The completed jobs are those of
-- the range, kept to 64 bits; in no minute more of them were completed than the peak, and the peak is zero or the
-- number of some minute. If the target is positive and the peak is not zero, at least one worker is recommended.
pub capacity-exact :
    {F : Type 0} (f : Float64 F) (ch : ClickHouse F) (tr : TimeRange) (target : F) (a b : Asked)
    → IsSent a
    → (out : CapacityResult F) × (capacity f ch tr target a b ≡ ok out)
      × IsCapacity f ch (rows_in tr a) out
unfolding capacity
capacity-exact f ch tr target a b sent =
    let rows = rows_in tr a in
    let goal = target_or_default f ch target in
    let peak = largest (per_minute f ch rows) in
    let active = or_else 0 (fetch_one b (active_workers (rows_in tr b))) in
    (
      capacity_of f ch tr goal active (capacity_row f ch (per_minute f ch rows)),
      rw (fetch_one-sent a (capacity_row f ch (per_minute f ch rows)) sent) refl,
      record {
        completed = ap (λ n. n % 2 ^ 64) (sum-completed f ch rows);
        bounded = peak-bounds f ch rows;
        reached = peak-reached f ch rows;
        enough = recommended-enough f ch peak goal;
      },
    )
