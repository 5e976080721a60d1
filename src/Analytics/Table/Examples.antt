-- ===== src/Analytics/Table/Examples.antt =====
-- An event that is written a second time.
use chronos_dev.Common.{pos, String, List, [], ◌∷◌, ◌++◌, ◌≡◌, refl, inl}
use chronos_dev.Analytics.Table.{
  EventRow, row_of_event, batch_rows, insert_events, count_events, count_by_type,
}
use chronos_dev.Analytics.Table.Again.{insert_events-again}
use chronos_dev.Analytics.Samples.{done_event, failed_event, sample_writer, sample_rows}

abbrev twice : List EventRow
twice = (sample_rows ++ []) ++ (row_of_event sample_writer (pos 20) done_event ∷ [])

insert_events-again_example :
    (count_events twice ≡ count_events (sample_rows ++ []))
    × ((event_type : String)
        → count_by_type event_type twice ≡ count_by_type event_type (sample_rows ++ []))
unfolding insert_events batch_rows row_of_event
insert_events-again_example =
    insert_events-again sample_writer sample_writer (pos 10) (pos 20)
      (done_event ∷ failed_event ∷ []) (done_event ∷ []) [] sample_rows [] twice refl refl
      ((record { uuid = "e1"; parsed = refl; timed = refl }, inl refl), tt) refl
