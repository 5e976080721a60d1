-- ===== src/Analytics/Queries/Rates.antt =====
-- What Failures counts by type.
use chronos_dev.Common.{
  ℕ, zero, suc, ◌+◌, ◌%◌, ◌^◌, ◌<◌, String, true, false, List, [], ◌∷◌, map, Option, none, some,
  ◌==◌, eq_iff, eq_refl, ◌≡◌, refl, sym, ap, subst, ◌∙◌, arith, inl, inr, Bool-cases, if◌then◌else◌,
  select, length, All, total, total-select, total-ext, total-one, total-zero, Map, lookup, insert,
  lookup-insert, ok,
}
use chronos_dev.Analytics.Range.{TimeRange}
use chronos_dev.Analytics.Table.{EventRow}
use chronos_dev.Sql.{group_by}
use chronos_dev.Sql.Groups.{
  IsSame, AreApart, apart-none, group_by-of, group_by-filled, group_by-AreApart,
}
use chronos_dev.Analytics.Queries.{
  Float64, ClickHouse, Asked, rows_in, count_if, type_counts, buckets, ◌+u◌,
}
use chronos_dev.Analytics.Queries.Buckets.{IsSent, fetch-sent}
use chronos_dev.Analytics.Queries.Outcomes.{
  FailureResult, Outcomes, is_outcome, put_outcome, put_counts, read_outcomes, no_outcomes,
  outcome_rows, failures_of, rates_of, failures,
}

texts-IsSame : IsSame ◌==◌
texts-IsSame = record { sound = λ a b h. ground (arith, h, eq_iff a b); complete = eq_refl }

-- A count that an entry has, if there is anything to count.
abbrev pub found_or : Option ℕ → ℕ → Option ℕ
found_or o zero = o
found_or o (suc n) = some (suc n)

abbrev pub or_zero : Option ℕ → ℕ
or_zero none = 0
or_zero (some n) = n

zero_add : (n : ℕ) → n ≡ 0 + n
zero_add n = omega arith

add_zero : (n : ℕ) → n ≡ n + 0
add_zero n = omega arith

put_counts-found :
    (t : String) (gs : List (String × List EventRow)) (m : Map ℕ)
    → AreApart ◌==◌ (λ r. r.event_type) texts-IsSame gs
    → All (λ g. 0 < length g.1) gs
    → lookup t (put_counts (map (λ g. (g.0, length g.1)) gs) m)
      ≡ found_or (lookup t m) (total (λ g. if g.0 == t then length g.1 else 0) gs)
unfolding put_counts total
put_counts-found t [] m a h = refl
put_counts-found t (g ∷ gs) m a h =
    let rest = put_counts-found t gs (insert g.0 (length g.1) m) a.1 h.1 in
    let put = lookup-insert g.0 t (length g.1) m in
    elim (Bool-cases (g.0 == t)) [
      | inl e ↦
          let others =
            subst (λ k. All (λ x. (k == x.0) ≡ false) gs) (texts-IsSame.sound g.0 t e) a.0 in
          let none_left =
            apart-none ◌==◌ (λ r. r.event_type) texts-IsSame (λ x. length x.1) t gs others in
          rw (rest, put, e, none_left) (found_first (length g.1) h.0)
      | inr e ↦ rw (rest, put, e) (ap (found_or (lookup t m)) (zero_add _))
    ]
  where
    found_first : (n : ℕ) → 0 < n → found_or (some n) 0 ≡ found_or (lookup t m) (n + 0)
    found_first zero p = absurd (omega (arith, p))
    found_first (suc n) p = ap (found_or (lookup t m)) (add_zero (suc n))

-- What the loop has under a type is the number of its rows.
pub type_counts-found :
    (t : String) (rows : List EventRow)
    → lookup t (put_counts (type_counts rows) []) ≡ found_or none (count_if t rows)
unfolding type_counts count_if lookup
type_counts-found t rows =
    let gs = group_by ◌==◌ (λ r. r.event_type) rows in
    put_counts-found t gs [] (group_by-AreApart ◌==◌ (λ r. r.event_type) texts-IsSame rows)
      (group_by-filled ◌==◌ (λ r. r.event_type) texts-IsSame rows)
    ∙ ap (found_or none) (
        total-ext _ _ gs (λ g. ap (λ n. if g.0 == t then n else 0) (sym (total-one g.1)))
        ∙ group_by-of ◌==◌ (λ r. r.event_type) texts-IsSame (λ r. 1) t rows)

-- The variables of the loop are what the map has.
pub record IsRead (o : Outcomes) : Type 0 where
  pub completed : o.completed ≡ or_zero (lookup "JOB_COMPLETED" o.by_type)
  pub failed : o.failed ≡ or_zero (lookup "JOB_FAILED" o.by_type)
  pub timeout : o.timeout ≡ or_zero (lookup "JOB_TIMEOUT" o.by_type)
  pub cancel : o.cancel ≡ or_zero (lookup "JOB_CANCELLED" o.by_type)
  pub retry : o.retry ≡ or_zero (lookup "JOB_RETRY_SCHEDULED" o.by_type)

-- A text that is one literal is no other.
apart : (t a b : String) → (a == b) ≡ false → (t == a) ≡ true → (t == b) ≡ false
apart t a b d h = ground (arith, d, h, eq_iff t a)

put_outcome-IsRead :
    (t : String) (n : ℕ) (o : Outcomes)
    → IsRead o
    → IsRead (put_outcome (t, n) (record o { by_type = insert t n o.by_type }))
put_outcome-IsRead t n o h = record {
  completed = ground (arith, h.completed, lookup-insert t "JOB_COMPLETED" n o.by_type);
  failed = ground (
    arith,
    h.failed,
    lookup-insert t "JOB_FAILED" n o.by_type,
    apart t "JOB_COMPLETED" "JOB_FAILED" refl,
  );
  timeout = ground (
    arith,
    h.timeout,
    lookup-insert t "JOB_TIMEOUT" n o.by_type,
    apart t "JOB_COMPLETED" "JOB_TIMEOUT" refl,
    apart t "JOB_FAILED" "JOB_TIMEOUT" refl,
  );
  cancel = ground (
    arith,
    h.cancel,
    lookup-insert t "JOB_CANCELLED" n o.by_type,
    apart t "JOB_COMPLETED" "JOB_CANCELLED" refl,
    apart t "JOB_FAILED" "JOB_CANCELLED" refl,
    apart t "JOB_TIMEOUT" "JOB_CANCELLED" refl,
  );
  retry = ground (
    arith,
    h.retry,
    lookup-insert t "JOB_RETRY_SCHEDULED" n o.by_type,
    apart t "JOB_COMPLETED" "JOB_RETRY_SCHEDULED" refl,
    apart t "JOB_FAILED" "JOB_RETRY_SCHEDULED" refl,
    apart t "JOB_TIMEOUT" "JOB_RETRY_SCHEDULED" refl,
    apart t "JOB_CANCELLED" "JOB_RETRY_SCHEDULED" refl,
  );
}

read_outcomes-IsRead :
    (rows : List (String × ℕ)) (o : Outcomes) → IsRead o → IsRead (read_outcomes rows o)
unfolding read_outcomes
read_outcomes-IsRead [] o h = h
read_outcomes-IsRead (r ∷ rows) o h =
    read_outcomes-IsRead rows (put_outcome r (record o { by_type = insert r.0 r.1 o.by_type }))
      (put_outcome-IsRead r.0 r.1 o h)

put_outcome-by_type : (r : String × ℕ) (o : Outcomes) → (put_outcome r o).by_type ≡ o.by_type
put_outcome-by_type r o = ground arith

read_outcomes-by_type :
    (rows : List (String × ℕ)) (o : Outcomes)
    → (read_outcomes rows o).by_type ≡ put_counts rows o.by_type
unfolding read_outcomes put_counts
read_outcomes-by_type [] o = refl
read_outcomes-by_type (r ∷ rows) o =
    let o' : Outcomes = record o { by_type = insert r.0 r.1 o.by_type } in
    read_outcomes-by_type rows (put_outcome r o') ∙ ap (put_counts rows) (put_outcome-by_type r o')

-- The rows that Failures looks at have all of the rows of each of the five types, and none of another.
count_outcomes :
    (t : String) (rows : List EventRow)
    → count_if t (select (λ r. is_outcome r.event_type) rows)
      ≡ (if is_outcome t then count_if t rows else 0)
unfolding count_if
count_outcomes t rows = total-select _ _ rows ∙ elim (Bool-cases (is_outcome t)) [
  | inl e ↦ rw e (total-ext _ _ rows (λ r. ground (arith, e, eq_iff r.event_type t)))
  | inr e ↦
      rw e (
        total-ext _ (λ r. 0) rows (λ r. ground (arith, e, eq_iff r.event_type t)) ∙ total-zero rows)
]

-- A number of the rows as a part of others, or zero if there are none; the sum of the others is kept to 64 bits.
abbrev pub part_of : {F : Type 0} → Float64 F → ClickHouse F → ℕ → ℕ → F
part_of f ch n all =
    let d = f.of_uint64 (all % 2 ^ 64) in
    if f.less (f.of_uint64 0) d then f.over (f.of_uint64 n) d else f.of_uint64 0

-- The counts and the rates that are right for these rows.
pub record IsFailures {F : Type 0} (f : Float64 F) (ch : ClickHouse F) (rows : List EventRow)
    (out : FailureResult F) : Type 0 where
  pub counted :
      (t : String)
      → lookup t out.by_type ≡ found_or none (if is_outcome t then count_if t rows else 0)
  pub rates :
      (c x t k : ℕ)
      → c ≡ count_if "JOB_COMPLETED" rows
      → x ≡ count_if "JOB_FAILED" rows
      → t ≡ count_if "JOB_TIMEOUT" rows
      → k ≡ count_if "JOB_CANCELLED" rows
      → (out.success_rate ≡ part_of f ch c (c + x + t + k))
        × (out.failure_rate ≡ part_of f ch x (c + x + t + k))
        × (out.timeout_rate ≡ part_of f ch t (c + x + t + k))
        × (out.cancel_rate ≡ part_of f ch k (c + x + t + k))

module _ {F : Type 0} (f : Float64 F) (ch : ClickHouse F) (tr : TimeRange) (a : Asked) where
  abbrev outcomes : Outcomes
  outcomes = read_outcomes (outcome_rows tr a) no_outcomes

  outcomes-found :
      (t : String)
      → lookup t outcomes.by_type
        ≡ found_or none (if is_outcome t then count_if t (rows_in tr a) else 0)
  unfolding outcome_rows
  outcomes-found t =
      ap (lookup t) (read_outcomes-by_type (outcome_rows tr a) no_outcomes)
      ∙ type_counts-found t (select (λ r. is_outcome r.event_type) (rows_in tr a))
      ∙ ap (found_or none) (count_outcomes t (rows_in tr a))

  found_zero : (n : ℕ) → or_zero (found_or none n) ≡ n
  found_zero zero = refl
  found_zero (suc n) = refl

  value :
      (t : String) (n m : ℕ)
      → is_outcome t ≡ true
      → n ≡ or_zero (lookup t outcomes.by_type)
      → m ≡ count_if t (rows_in tr a)
      → n ≡ m
  value t n m e h k =
      h ∙ ap or_zero (outcomes-found t) ∙ rw e (found_zero (count_if t (rows_in tr a))) ∙ sym k

  sum_of : (c x t k : ℕ) → ((c +u x) +u t) +u k ≡ (c + x + t + k) % 2 ^ 64
  unfolding ◌+u◌
  sum_of c x t k = omega arith

  rates_of-IsFailures : IsFailures f ch (rows_in tr a) (rates_of f ch tr outcomes)
  unfolding rates_of lookup
  rates_of-IsFailures =
      let read =
        read_outcomes-IsRead (outcome_rows tr a) no_outcomes (record {
          completed = refl;
          failed = refl;
          timeout = refl;
          cancel = refl;
          retry = refl;
        }) in
      record {
        counted = outcomes-found;
        rates = λ c x t k hc hx ht hk.
            let ec = value "JOB_COMPLETED" outcomes.completed c refl read.completed hc in
            let ex = value "JOB_FAILED" outcomes.failed x refl read.failed hx in
            let et = value "JOB_TIMEOUT" outcomes.timeout t refl read.timeout ht in
            let ek = value "JOB_CANCELLED" outcomes.cancel k refl read.cancel hk in
            rw (ec, ex, et, ek, sum_of c x t k) (refl, refl, refl, refl);
      }

-- If no query fails, Failures answers. The map of its answer has each of the five types of outcomes with the
-- number of its rows in the range, if there is one, and no other type. Each of the four rates of outcomes is the
-- number of its rows divided by the number of rows of all four, which is kept to 64 bits, or zero where that is
-- not positive.
pub failures-exact :
    {F : Type 0} (f : Float64 F) (ch : ClickHouse F) (tr : TimeRange) (a b : Asked)
    → IsSent a
    → IsSent b
    → (out : FailureResult F) × (failures f ch tr a b ≡ ok out) × IsFailures f ch (rows_in tr a) out
unfolding failures
failures-exact f ch tr a b sent sent_too =
    let right = rates_of-IsFailures f ch tr a in
    let series = map failures_of (buckets ch.start_of_minute (rows_in tr b)) in
    (
      record (rates_of f ch tr (outcomes f ch tr a)) { series = series },
      rw (fetch-sent a (outcome_rows tr a) sent, fetch-sent b series sent_too) refl,
      record { counted = right.counted; rates = right.rates },
    )
