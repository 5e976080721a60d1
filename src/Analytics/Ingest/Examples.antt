-- ===== src/Analytics/Ingest/Examples.antt =====
-- A consumer that meets an unreadable message, an event and a tick.
use chronos_dev.Common.{
  ℕ, suc, ◌≤◌, leb, All, arith, refl, inl, pos, String, [], ◌∷◌, List, none, Result, ok, err,
  canceled, ◌==◌, if◌then◌else◌,
}
use chronos_dev.Domain.Event.{Event, job_created}
use chronos_dev.Analytics.Ingest.{
  Answers, Input, tick_over, message_in, new_consumer, turns, EventMessage, turn, take_event,
  buffer_event, flush_if, flush_buffer, flush_list, insert_buffered, commit_buffered,
}
use chronos_dev.Analytics.Ingest.Acknowledged.{IsAccounted, IsKept, seen, turns-new-IsAccounted}
use chronos_dev.Analytics.Ingest.Restart.{AreBefore, IsPosition, IsClean, restart_loses_none}

abbrev decode : String → Result Event
decode text =
    if text == ""
    then err canceled
    else ok (record {
      event_id = text;
      event_type = job_created;
      event_version = pos 1;
      event_time = pos 1;
      job_id = "j1";
      execution_id = "";
      worker_id = "";
      scheduler_id = "s1";
      trace_id = "";
      attempt = pos 0;
      payload = [];
    })

abbrev fine : Answers
fine = record { insert_error = none; commit_error = none }

abbrev inputs : List Input
inputs =
    message_in fine (record { offset = 0; value = "" })
    ∷ message_in fine (record { offset = 1; value = "e1" })
    ∷ tick_over fine
    ∷ []

turns-new-IsAccounted_example : IsAccounted decode (seen inputs) (turns decode inputs new_consumer)
turns-new-IsAccounted_example = turns-new-IsAccounted decode inputs

abbrev larger : ℕ → ℕ → ℕ
larger a b = if leb a b then b else a

larger-le : (a b n : ℕ) → a ≤ n → b ≤ n → larger a b ≤ n
larger-le a b n h k = ground (arith, h, k)

-- The highest place behind a committed message.
abbrev behind : List EventMessage → ℕ
behind [] = 0
behind (m ∷ ms) = larger (suc m.offset) (behind ms)

abbrev position : List (List EventMessage) → ℕ
position [] = 0
position (ms ∷ calls) = larger (behind ms) (position calls)

behind-le : (n : ℕ) (ms : List EventMessage) → AreBefore n ms → behind ms ≤ n
behind-le n [] h = omega arith
behind-le n (m ∷ ms) h = larger-le (suc m.offset) (behind ms) n h.0 (behind-le n ms h.1)

position-le :
    (calls : List (List EventMessage)) (n : ℕ) → All (AreBefore n) calls → position calls ≤ n
position-le [] n h = omega arith
position-le (ms ∷ calls) n h =
    larger-le (behind ms) (position calls) n (behind-le n ms h.0) (position-le calls n h.1)

position-IsPosition : IsPosition position
position-IsPosition = record { bounded = position-le }

-- The second of two messages stays in the buffer, as the commit of the first is over.
abbrev two_inputs : List Input
two_inputs =
    message_in fine (record { offset = 0; value = "e1" })
    ∷ tick_over fine
    ∷ message_in fine (record { offset = 1; value = "e2" })
    ∷ []

two_inputs-IsClean : IsClean decode 0 two_inputs
two_inputs-IsClean = (omega arith, (_, refl, refl), (omega arith, (_, refl, refl), tt))

restart_loses_none_example :
    IsKept decode
      (turns decode two_inputs new_consumer).inserted
      (record { offset = 0; value = "e1" })
unfolding turns new_consumer turn take_event buffer_event flush_if flush_buffer flush_list
    insert_buffered commit_buffered
restart_loses_none_example =
    restart_loses_none decode position two_inputs (record { offset = 0; value = "e1" })
      position-IsPosition two_inputs-IsClean (inl refl) (omega arith)
