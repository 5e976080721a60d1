-- ===== src/Postgres/Ranking.antt =====
-- The orders of the listings.
use chronos_dev.Common.{
  ◌⊎◌, inl, inr, ◌≡◌, ◌≢◌, true, false, ℤ, pos, String, eq_iff, Option, none, some, ◌≤ℤ◌, ◌<ℤ◌,
  ◌+ℤ◌, ◌*ℤ◌, arith, eq_of_parts,
}
use chronos_dev.Domain.Job.{
  Job, Instant, JobState, scheduled, retrying, running, assigned, millisecond, milliseconds,
  same_state, same_state_iff, state_name,
}
use chronos_dev.Sql.Ordering.{IsRank}
use chronos_dev.Postgres.Queries.{
  nulls_first, nulls_last, newest_first, by_urgency, by_update, by_start, not_after, is_ready,
  overdue, is_overdue, in_state,
}

pub newest_first-IsRank : IsRank newest_first
newest_first-IsRank = record { total = λ a b h. ground arith; trans = λ a b c h k. ground arith }

pub by_update-IsRank : IsRank by_update
by_update-IsRank = record { total = λ a b h. ground arith; trans = λ a b c h k. ground arith }

nulls_last-IsRank : IsRank nulls_last
nulls_last-IsRank = record { total = λ a b h. ground arith; trans = λ a b c h k. ground arith }

nulls_first-IsRank : IsRank nulls_first
nulls_first-IsRank = record { total = λ a b h. ground arith; trans = λ a b c h k. ground arith }

pub by_start-IsRank : IsRank by_start
by_start-IsRank = record {
  total = λ a b h. nulls_last-IsRank.total a.started_at b.started_at h;
  trans = λ a b c h k. nulls_last-IsRank.trans a.started_at b.started_at c.started_at h k;
}

pub by_urgency-IsRank : IsRank by_urgency
by_urgency-IsRank = record {
  total = λ a b h. ground (
    arith,
    h,
    nulls_first-IsRank.total a.scheduled_at b.scheduled_at,
    eq_of_parts a.priority b.priority,
  );
  trans = λ a b c h k.
      ground (arith, h, k, nulls_first-IsRank.trans a.scheduled_at b.scheduled_at c.scheduled_at);
}

-- Times that may be missing, the missing ones first, and last.
abbrev pub NoneFirst : Option Instant → Option Instant → Type 0
NoneFirst none u = Unit {0}
NoneFirst (some t) none = ⊥
NoneFirst (some t) (some u) = t ≤ℤ u

abbrev pub NoneLast : Option Instant → Option Instant → Type 0
NoneLast t none = Unit {0}
NoneLast none (some u) = ⊥
NoneLast (some t) (some u) = t ≤ℤ u

-- The higher priority first, then the earlier time.
abbrev pub IsMoreUrgent : Job → Job → Type 0
IsMoreUrgent a b =
    (b.priority <ℤ a.priority)
    ⊎ ((a.priority ≡ b.priority) × NoneFirst a.scheduled_at b.scheduled_at)

abbrev pub HasPassed : Option Instant → Instant → Type 0
HasPassed none now = ⊥
HasPassed (some t) now = t ≤ℤ now

-- A scheduled job at its time, or a job to be retried at the time of its retry.
abbrev pub IsReady : Instant → Job → Type 0
IsReady now j =
    ((j.state ≡ scheduled) × HasPassed j.scheduled_at now)
    ⊎ ((j.state ≡ retrying) × HasPassed j.next_retry_at now)

-- The time of the start, a number of milliseconds later, is past.
abbrev pub HasRunOut : Option Instant → ℤ → Instant → Type 0
HasRunOut none timeout_ms now = ⊥
HasRunOut (some t) timeout_ms now = t +ℤ timeout_ms *ℤ pos millisecond <ℤ now

abbrev pub IsOverdue : Instant → Job → Type 0
IsOverdue now j =
    ((j.state ≡ running) ⊎ (j.state ≡ assigned))
    × HasRunOut j.started_at (milliseconds j.timeout) now

nulls_first-NoneFirst : (t u : Option Instant) → nulls_first t u ≡ true → NoneFirst t u
nulls_first-NoneFirst none u h = tt
nulls_first-NoneFirst (some t) none h = absurd (ground (arith, h))
nulls_first-NoneFirst (some t) (some u) h = ground (arith, h)

pub nulls_last-NoneLast : (t u : Option Instant) → nulls_last t u ≡ true → NoneLast t u
nulls_last-NoneLast t none h = tt
nulls_last-NoneLast none (some u) h = absurd (ground (arith, h))
nulls_last-NoneLast (some t) (some u) h = ground (arith, h)

pub by_urgency-IsMoreUrgent : (a b : Job) → by_urgency a b ≡ true → IsMoreUrgent a b
by_urgency-IsMoreUrgent a b h = ground (
  arith,
  h,
  nulls_first-NoneFirst a.scheduled_at b.scheduled_at,
  eq_of_parts a.priority b.priority,
)

not_after-HasPassed :
    (t : Option Instant) (now : Instant) → not_after t now ≡ true → HasPassed t now
not_after-HasPassed none now h = absurd (ground (arith, h))
not_after-HasPassed (some t) now h = ground (arith, h)

not_after-not : (t : Option Instant) (now : Instant) → not_after t now ≡ false → ¬ HasPassed t now
not_after-not none now h k = k
not_after-not (some t) now h k = ground (arith, h, k)

overdue-HasRunOut :
    (t : Option Instant) (ms : ℤ) (now : Instant) → overdue t ms now ≡ true → HasRunOut t ms now
overdue-HasRunOut none ms now h = absurd (ground (arith, h))
overdue-HasRunOut (some t) ms now h = ground (arith, h)

overdue-not :
    (t : Option Instant) (ms : ℤ) (now : Instant) → overdue t ms now ≡ false → ¬ HasRunOut t ms now
overdue-not none ms now h k = k
overdue-not (some t) ms now h k = ground (arith, h, k)

is_in : (a b : JobState) → same_state a b ≡ true → a ≡ b
is_in a b h = ground (arith, h, same_state_iff a b)

pub same_state-false : (a b : JobState) → same_state a b ≡ false → a ≢ b
same_state-false a b h k = ground (arith, h, k, same_state_iff a b)

pub same_state-true : (a b : JobState) → same_state a b ≡ true → a ≡ b
same_state-true a b h = is_in a b h

-- The tests of the listings decide their properties.
pub is_ready-IsReady : (now : Instant) (j : Job) → is_ready now j ≡ true → IsReady now j
unfolding is_ready
is_ready-IsReady now j h = ground (
  arith,
  h,
  same_state_iff j.state scheduled,
  same_state_iff j.state retrying,
  not_after-HasPassed j.scheduled_at now,
  not_after-HasPassed j.next_retry_at now,
)

pub is_ready-not : (now : Instant) (j : Job) → is_ready now j ≡ false → ¬ IsReady now j
unfolding is_ready
is_ready-not now j h (inl k) =
    ground (arith, h, k.0, same_state_iff j.state scheduled, not_after-not j.scheduled_at now, k.1)
is_ready-not now j h (inr k) =
    ground (arith, h, k.0, same_state_iff j.state retrying, not_after-not j.next_retry_at now, k.1)

pub is_overdue-IsOverdue : (now : Instant) (j : Job) → is_overdue now j ≡ true → IsOverdue now j
unfolding is_overdue
is_overdue-IsOverdue now j h = ground (
  arith,
  h,
  same_state_iff j.state running,
  same_state_iff j.state assigned,
  overdue-HasRunOut j.started_at (milliseconds j.timeout) now,
)

pub is_overdue-not : (now : Instant) (j : Job) → is_overdue now j ≡ false → ¬ IsOverdue now j
unfolding is_overdue
is_overdue-not now j h k = ground (
  arith,
  h,
  k.0,
  same_state_iff j.state running,
  same_state_iff j.state assigned,
  overdue-not j.started_at (milliseconds j.timeout) now,
  k.1,
)

-- Any state if none is asked for, else the state with that name.
abbrev pub IsAsked : String → Job → Type 0
IsAsked state j = (state ≡ "") ⊎ (state_name j.state ≡ state)

pub in_state-IsAsked : (state : String) (j : Job) → in_state state j ≡ true → IsAsked state j
in_state-IsAsked state j h = ground (arith, h, eq_iff state "", eq_iff (state_name j.state) state)

pub in_state-not : (state : String) (j : Job) → in_state state j ≡ false → ¬ IsAsked state j
in_state-not state j h (inl k) = ground (arith, h, k, eq_iff state "")
in_state-not state j h (inr k) = ground (arith, h, k, eq_iff (state_name j.state) state)
