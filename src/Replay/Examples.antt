-- ===== src/Replay/Examples.antt =====
-- A topic with two events, and then nothing.
use chronos_dev.Common.{
  pos, String, Bool, true, false, List, [], ◌∷◌, ◌++◌, ◌==◌, if◌then◌else◌, ◌≡◌, refl, ap, subst,
  inl, inr, length, Result, ok, err, canceled,
}
use chronos_dev.Domain.Event.{Event}
use chronos_dev.Analytics.Table.{EventRow, count_events, count_by_type}
use chronos_dev.Analytics.Samples.{done_event, failed_event, sample_writer, sample_rows}
use chronos_dev.Replay.{Moment, Attempt, Replay, finished, replay}
use chronos_dev.Replay.Repeats.{state_of, IsStored, IsRepeat, replay-again}
use chronos_dev.Replay.Completeness.{IsUp, Wrote, due, replayable, replay_writes_all}

abbrev decode : String → Result Event
decode text =
    if text == "done"
    then ok done_event
    else if text == "failed"
    then ok failed_event
    else err canceled

abbrev later : Moment
later = record { writer = sample_writer; now = pos 20 }

abbrev reads : String → Attempt
reads value = record { read = ok value; is_over = false; moment = later }

abbrev waits : Bool → Attempt
waits over = record { read = err canceled; is_over = over; moment = later }

abbrev attempts : List Attempt
attempts = reads "done" ∷ waits false ∷ reads "?" ∷ reads "failed" ∷ waits true ∷ []

sample-IsUp : IsUp sample_writer
sample-IsUp = record { prepares = refl; appends = λ r. refl; sends = refl }

replay_writes_all_example :
    (s : Replay) × (replay decode "clickhouse" 0 attempts later [] ≡ finished s)
    × (s.count ≡ length (due 0 0 (replayable decode attempts)))
    × ((rows : List EventRow) × (s.table ≡ [] ++ rows)
        × Wrote (due 0 0 (replayable decode attempts)) rows)
replay_writes_all_example =
    replay_writes_all decode 0 attempts later []
      (sample-IsUp, (sample-IsUp, (sample-IsUp, (sample-IsUp, (sample-IsUp, tt))))) sample-IsUp
      (inr (inr (inr (inr (inl tt)))))

done-IsStored : IsStored sample_writer (pos 10) sample_rows done_event
done-IsStored = (record { uuid = "e1"; parsed = refl; timed = refl }, inl refl)

failed-IsStored : IsStored sample_writer (pos 10) sample_rows failed_event
failed-IsStored = (record { uuid = "e2"; parsed = refl; timed = refl }, inr (inl refl))

ok-eq : (x y : Event) → ok x ≡ ok y → x ≡ y
ok-eq x y k = cc

-- What is decoded is one of the two events.
tested-IsStored :
    (a b : Bool) (ev : Event)
    → (if a then ok done_event else if b then ok failed_event else err canceled) ≡ ok ev
    → IsStored sample_writer (pos 10) sample_rows ev
tested-IsStored true b ev h =
    subst (IsStored sample_writer (pos 10) sample_rows) (ok-eq done_event ev h) done-IsStored
tested-IsStored false true ev h =
    subst (IsStored sample_writer (pos 10) sample_rows) (ok-eq failed_event ev h) failed-IsStored
tested-IsStored false false ev h = absurd (cc)

later-IsRepeat :
    (a : Attempt) → a.moment ≡ later → IsRepeat decode sample_writer (pos 10) sample_rows a
later-IsRepeat a m = record {
  same = ap (λ (x : Moment). x.writer.parse_uuid) m;
  stored = λ value ev read made. tested-IsStored (value == "done") (value == "failed") ev made;
}

replay-again_example :
    let after = (state_of (replay decode "clickhouse" 3 attempts later sample_rows)).table in
    (count_events after ≡ count_events sample_rows)
    × ((event_type : String)
        → count_by_type event_type after ≡ count_by_type event_type sample_rows)
replay-again_example =
    replay-again decode "clickhouse" 3 sample_writer (pos 10) sample_rows attempts later
      (
        later-IsRepeat (reads "done") refl,
        (
          later-IsRepeat (waits false) refl,
          (
            later-IsRepeat (reads "?") refl,
            (later-IsRepeat (reads "failed") refl, (later-IsRepeat (waits true) refl, tt)),
          ),
        ),
      )
      refl
