-- ===== src/Analytics/Queries/Alarms.antt =====
-- Which anomalies are found.
use chronos_dev.Common.{
  ℕ, ◌≤◌, String, Bool, true, false, ◌&&◌, Any, List, [], ◌∷◌, ◌++◌, Option, none, some, ◌≡◌, refl,
  arith, inl, inr, Bool-cases, ok,
}
use chronos_dev.Analytics.Range.{TimeRange}
use chronos_dev.Analytics.Queries.{Float64, ClickHouse, Asked}
use chronos_dev.Analytics.Queries.Anomalies.{
  Severity, critical, Anomaly, AnomaliesResult, Snap, load_snap, ratio_of, severity_rise,
  severity_drop, note_if, check, checked, anomalies,
}

-- What float64 has of a quotient by itself, which is 1 or no number, and of the numbers that are compared with it.
pub record HasQuotients {F : Type 0} (f : Float64 F) : Type 0 where
  pub self_rise :
      (x : F) (n : ℕ)
      → 2 ≤ n
      → f.less (f.of_uint64 0) x ≡ true
      → f.le (f.of_uint64 n) (f.over x x) ≡ false
  pub self_drop :
      (x : F) (n : ℕ)
      → 2 ≤ n
      → f.less (f.of_uint64 0) x ≡ true
      → f.le (f.over x x) (f.over (f.of_uint64 1) (f.of_uint64 n)) ≡ false
  pub nought : (n : ℕ) → 2 ≤ n → f.le (f.of_uint64 n) (f.of_uint64 0) ≡ false

and_false : (p : Bool) → (p && false) ≡ false
and_false p = ground arith

module _ {F : Type 0} (f : Float64 F) (ch : ClickHouse F) (laws : HasQuotients f) where
  quiet_rise :
      (x : F) (n m : ℕ)
      → 2 ≤ n
      → 2 ≤ m
      → severity_rise f ch (ratio_of f ch x x) (f.of_uint64 n) (f.of_uint64 m) ≡ none
  unfolding severity_rise ratio_of
  quiet_rise x n m p q = elim (Bool-cases (f.less (f.of_uint64 0) x)) [
    | inl e ↦ rw (e, laws.self_rise x m q e, laws.self_rise x n p e) refl
    | inr e ↦ rw (e, laws.nought m q, laws.nought n p) refl
  ]

  quiet_drop :
      (x : F) (n m : ℕ)
      → 2 ≤ n
      → 2 ≤ m
      → severity_drop f ch x x (f.of_uint64 n) (f.of_uint64 m) ≡ none
  unfolding severity_drop
  quiet_drop x n m p q = elim (Bool-cases (f.less (f.of_uint64 0) x)) [
    | inl e ↦ rw (e, laws.self_drop x m q e, laws.self_drop x n p e) refl
    | inr e ↦ rw e refl
  ]

  quiet_check :
      (metric : String) (x : F) (n m : ℕ) (higher_bad : Bool) (out : List (Anomaly F))
      → 2 ≤ n
      → 2 ≤ m
      → check f ch metric x x n m higher_bad out ≡ out
  unfolding check
  quiet_check metric x n m true out p q = rw (quiet_rise x n m p q) (ground arith)
  quiet_check metric x n m false out p q = rw (quiet_drop x n m p q) (ground arith)

  quiet_checked : (s : Snap F) → checked f ch s s ≡ []
  unfolding checked
  quiet_checked s =
      rw
        (
          quiet_check "p95_latency_ms" s.p95 2 4 true [] (omega arith) (omega arith),
          quiet_check "failure_rate" s.fail_rate 2 5 true [] (omega arith) (omega arith),
        )
        (quiet_check "throughput_per_sec" s.throughput 2 4 false [] (omega arith) (omega arith))

-- An anomaly that is found stays in the list.
abbrev IsInfinite : {F : Type 0} → Float64 F → List (Anomaly F) → Type 0
IsInfinite f = Any (λ x. (x.ratio ≡ f.infinity) × (x.severity ≡ critical))

Any-left : {A : Type 0} (P : A → Type 0) (xs ys : List A) → Any P xs → Any P (xs ++ ys)
Any-left P [] ys h = absurd h
Any-left P (x ∷ xs) ys (inl e) = inl e
Any-left P (x ∷ xs) ys (inr h) = inr (Any-left P xs ys h)

Any-end : {A : Type 0} (P : A → Type 0) (xs : List A) (y : A) → P y → Any P (xs ++ (y ∷ []))
Any-end P [] y h = inl h
Any-end P (x ∷ xs) y h = inr (Any-end P xs y h)

module _ {F : Type 0} (f : Float64 F) (ch : ClickHouse F) where
  note_if-keeps :
      (metric : String) (b c : F) (o : Option Severity) (out : List (Anomaly F))
      → IsInfinite f out
      → IsInfinite f (note_if f ch metric b c o out)
  note_if-keeps metric b c none out h = h
  note_if-keeps metric b c (some sev) out h = Any-left _ out _ h

  check-keeps :
      (metric : String) (b c : F) (n m : ℕ) (higher_bad : Bool) (out : List (Anomaly F))
      → IsInfinite f out
      → IsInfinite f (check f ch metric b c n m higher_bad out)
  unfolding check
  check-keeps metric b c n m higher_bad out h =
      elim (Bool-cases (f.le b (f.of_uint64 0) && f.le c (f.of_uint64 0))) [
        | inl e ↦ rw e h
        | inr e ↦ rw e (note_if-keeps metric b c _ out h)
      ]

  check-IsInfinite :
      (metric : String) (b c : F) (n m : ℕ) (out : List (Anomaly F))
      → f.less (f.of_uint64 0) b ≡ false
      → f.less (f.of_uint64 0) c ≡ true
      → f.le c (f.of_uint64 0) ≡ false
      → f.le (f.of_uint64 m) f.infinity ≡ true
      → IsInfinite f (check f ch metric b c n m true out)
  unfolding check severity_rise ratio_of
  check-IsInfinite metric b c n m out e u v w =
      rw (e, u, v, w, and_false (f.le b (f.of_uint64 0))) (Any-end _ out _ (rw (e, u) refl, refl))

-- Where float64 has the laws of quotients, two windows that are loaded with the same quantile, rate of failures and
-- throughput have no anomaly.
pub unchanged_quiet :
    {F : Type 0} (f : Float64 F) (ch : ClickHouse F) (current baseline : TimeRange) (a b : Asked)
    (s : Snap F)
    → HasQuotients f
    → load_snap f ch current a ≡ ok s
    → load_snap f ch baseline b ≡ ok s
    → anomalies f ch current baseline a b
      ≡ ok (record { window = current; baseline = baseline; anomalies = [] })
unfolding anomalies
unchanged_quiet f ch current baseline a b s laws h k = rw (h, k, quiet_checked f ch laws s) refl

-- If both windows are loaded, and the rate of failures is not positive in the baseline and positive in the current
-- window, then Anomalies answers with a critical anomaly whose ratio is infinity; the conditions on the order say that
-- the current rate is not also at most zero, and that 5 is at most infinity.
pub infinite_ratio :
    {F : Type 0} (f : Float64 F) (ch : ClickHouse F) (current baseline : TimeRange) (a b : Asked)
    (cur base : Snap F)
    → load_snap f ch current a ≡ ok cur
    → load_snap f ch baseline b ≡ ok base
    → f.less (f.of_uint64 0) base.fail_rate ≡ false
    → f.less (f.of_uint64 0) cur.fail_rate ≡ true
    → f.le cur.fail_rate (f.of_uint64 0) ≡ false
    → f.le (f.of_uint64 5) f.infinity ≡ true
    → (out : AnomaliesResult F) × (anomalies f ch current baseline a b ≡ ok out)
      × Any (λ x. (x.ratio ≡ f.infinity) × (x.severity ≡ critical)) out.anomalies
unfolding anomalies checked
infinite_ratio f ch current baseline a b cur base h k e u v w =
    let first = check f ch "p95_latency_ms" base.p95 cur.p95 2 4 true [] in
    (
      record { window = current; baseline = baseline; anomalies = checked f ch base cur },
      rw (h, k) refl,
      check-keeps f ch "throughput_per_sec" base.throughput cur.throughput 2 4 false _
          (check-IsInfinite f ch "failure_rate" base.fail_rate cur.fail_rate 2 5 first e u v w),
    )
