-- ===== src/Analytics/Queries/Buckets.antt =====
-- Queries without an error, and the rows of a time's buckets.
use chronos_dev.Common.{
  ℕ, suc, ◌≤◌, List, [], ◌∷◌, Option, none, ◌≡◌, refl, sym, subst, ◌∙◌, arith, if◌then◌else◌, eqb_ℤ,
  leb_ℤ, eq_of_parts, total, total-perm, count, Perm, ok, Error,
}
use chronos_dev.Domain.Job.{Instant}
use chronos_dev.Analytics.Table.{EventRow}
use chronos_dev.Sql.Ordering.{IsOrdered, ordered-Perm, ordered-IsOrdered}
use chronos_dev.Sql.Groups.{IsSame, group_by-total, group_by-once, group_by-of}
use chronos_dev.Analytics.Queries.{
  Asked, scan_rows, fetch_until, fetch, fetch_one, by_time, buckets,
}

-- A query that has no error.
pub record IsSent (a : Asked) : Type 0 where
  pub asked : a.query_error ≡ none
  pub scanned : (n : ℕ) → a.scan_error n ≡ none
  pub whole : a.broken ≡ none

pub scan_rows-all :
    {R : Type 0} (failed : ℕ → Option Error) (n : ℕ) (rows : List R)
    → ((m : ℕ) → failed m ≡ none)
    → scan_rows failed n rows ≡ ok rows
unfolding scan_rows
scan_rows-all failed n [] h = refl
scan_rows-all failed n (r ∷ rows) h = rw (h n, scan_rows-all failed (suc n) rows h) refl

pub fetch-sent :
    {R : Type 0} (a : Asked) (rows : List R)
    → IsSent a
    → fetch a rows ≡ ok (record { rows = rows; rows_error = none })
unfolding fetch fetch_until
fetch-sent a rows h = rw (h.asked, h.whole, scan_rows-all a.scan_error 0 rows h.scanned) refl

pub fetch_one-sent : {R : Type 0} (a : Asked) (r : R) → IsSent a → fetch_one a r ≡ ok r
unfolding fetch_one
fetch_one-sent a r h = rw (h.asked, h.scanned 0) refl

pub instants-IsSame : IsSame eqb_ℤ
instants-IsSame = record {
  sound = λ a b h. eq_of_parts a b (ground (arith, h));
  complete = λ a. ground arith;
}

module _ (start : Instant → Instant) where
  buckets-Perm : (rows : List EventRow) → Perm (buckets start rows) (by_time start rows)
  unfolding buckets
  buckets-Perm rows = ordered-Perm _ (by_time start rows)

  pub buckets-IsOrdered :
      (rows : List EventRow) → IsOrdered (λ a b. leb_ℤ a.0 b.0) (buckets start rows)
  unfolding buckets
  buckets-IsOrdered rows =
      ordered-IsOrdered _
        (record { total = λ a b h. ground (arith, h); trans = λ a b c h k. ground (arith, h, k) })
        (by_time start rows)

  pub buckets-once :
      (b : Instant) (rows : List EventRow) → count (λ g. eqb_ℤ g.0 b) (buckets start rows) ≤ 1
  buckets-once b rows =
      subst (λ n. n ≤ 1)
        (sym (total-perm _ (buckets start rows) (by_time start rows) (buckets-Perm rows)))
        (group_by-once eqb_ℤ (λ r. start r.event_time) instants-IsSame b rows)

  pub buckets-total :
      (w : EventRow → ℕ) (rows : List EventRow)
      → total (λ g. total w g.1) (buckets start rows) ≡ total w rows
  buckets-total w rows =
      total-perm _ (buckets start rows) (by_time start rows) (buckets-Perm rows)
      ∙ group_by-total eqb_ℤ (λ r. start r.event_time) instants-IsSame w rows

  pub buckets-of :
      (w : EventRow → ℕ) (b : Instant) (rows : List EventRow)
      → total (λ g. if eqb_ℤ g.0 b then total w g.1 else 0) (buckets start rows)
        ≡ total (λ r. if eqb_ℤ (start r.event_time) b then w r else 0) rows
  buckets-of w b rows =
      total-perm _ (buckets start rows) (by_time start rows) (buckets-Perm rows)
      ∙ group_by-of eqb_ℤ (λ r. start r.event_time) instants-IsSame w b rows
