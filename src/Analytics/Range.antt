-- ===== src/Analytics/Range.antt =====
-- internal/analytics/query.go: the range of time that a query is asked for. The parser of instants is a
-- parameter.
use chronos_dev.Common.{
  String, ◌==◌, if◌then◌else◌, ltb_ℤ, ◌-ℤ◌, ◌<ℤ◌, ◌≡◌, arith, bind-ok, Result, ok, err, failure,
  wrapped, ◌>>=◌,
}
use chronos_dev.Domain.Job.{Instant, Duration}

pub record TimeRange : Type 0 where
  pub from : Instant
  pub to : Instant

abbrev pub named_error : String → Result Instant → Result Instant
named_error text (ok t) = ok t
named_error text (err e) = err (wrapped text e)

-- A bound that is given, or its default.
unfoldable pub bound : (String → Result Instant) → String → Instant → String → Result Instant
bound parse text default given = if given == "" then ok default else named_error text (parse given)

unfoldable pub forward : Instant → Instant → Result TimeRange
forward from to =
    if ltb_ℤ from to
    then ok (record { from = from; to = to })
    else err (failure "to must be after from")

unfoldable pub parse_range :
    (String → Result Instant) → Instant → String → String → Duration → Result TimeRange
parse_range parse now from to window =
    bound parse "invalid from: " (now -ℤ window) from >>= λ start.
    bound parse "invalid to: " now to >>= λ end_. forward start end_

forward-lt : (from to : Instant) (tr : TimeRange) → forward from to ≡ ok tr → tr.from <ℤ tr.to
unfolding forward
forward-lt from to tr h = ground (arith, h)

-- A range that is parsed has its end after its start.
pub parse_range-lt :
    (parse : String → Result Instant) (now : Instant) (from to : String) (window : Duration)
    (tr : TimeRange)
    → parse_range parse now from to window ≡ ok tr
    → tr.from <ℤ tr.to
unfolding parse_range
parse_range-lt parse now from to window tr h =
    let (start, a, rest) = bind-ok (bound parse "invalid from: " (now -ℤ window) from) _ tr h in
    let (end_, b, last) = bind-ok (bound parse "invalid to: " now to) _ tr rest in
    forward-lt start end_ tr last
