-- ===== src/Analytics/Ingest.antt =====
-- internal/analytics/consumer.go: the loop that takes events from a topic and writes them to ClickHouse
-- in batches. What the database and Kafka answer is an input; the model keeps the events that the
-- database took and the calls of `CommitMessages` that succeeded, with their messages. What Kafka makes
-- of these calls is no part of the loop.
pub mod Acknowledged
pub mod Restart
mod Examples
use chronos_dev.Common.{
  ℕ, String, Bool, true, false, List, [], ◌∷◌, ◌++◌, Option, none, some, ◌==◌, if◌then◌else◌, leb,
  length, Result, ok, err, Error,
}
use chronos_dev.Domain.Event.{Event}

-- A message of the topic, as its place and its text.
pub record EventMessage : Type 0 where
  pub offset : ℕ
  pub value : String

pub record Consumer : Type 0 where
  pub batch : ℕ
  pub buf : List Event
  pub msgs : List EventMessage
  pub inserted : List Event
  pub commits : List (List EventMessage)

unfoldable pub new_consumer : Consumer
new_consumer = record { batch = 100; buf = []; msgs = []; inserted = []; commits = [] }

-- The errors of the insertion and of the commit, if they have one.
pub record Answers : Type 0 where
  pub insert_error : Option Error
  pub commit_error : Option Error

unfoldable pub commit_buffered : Option Error → Consumer → Consumer × Option Error
commit_buffered none c =
    (record c { commits = c.commits ++ (c.msgs ∷ []); buf = []; msgs = [] }, none)
commit_buffered (some e) c = (c, some e)

unfoldable pub insert_buffered : Answers → Option Error → Consumer → Consumer × Option Error
insert_buffered a none c =
    commit_buffered a.commit_error (record c { inserted = c.inserted ++ c.buf })
insert_buffered a (some e) c = (c, some e)

unfoldable pub flush_list : Answers → List Event → Consumer → Consumer × Option Error
flush_list a [] c = (c, none)
flush_list a (e ∷ es) c = insert_buffered a a.insert_error c

unfoldable pub flush_buffer : Answers → Consumer → Consumer × Option Error
flush_buffer a c = flush_list a c.buf c

unfoldable pub flush_if : Bool → Answers → Consumer → Consumer
flush_if false a c = c
flush_if true a c = (flush_buffer a c).0

-- A message that is passed over is committed, whatever comes of that.
unfoldable pub pass_over : Option Error → EventMessage → Consumer → Consumer
pass_over none m c = record c { commits = c.commits ++ ((m ∷ []) ∷ []) }
pass_over (some e) m c = c

unfoldable pub buffer_event : Answers → EventMessage → Event → Consumer → Consumer
buffer_event a m ev c =
    let c' = record c { buf = c.buf ++ (ev ∷ []); msgs = c.msgs ++ (m ∷ []) } in
    flush_if (leb c'.batch (length c'.buf)) a c'

unfoldable pub take_event : Answers → EventMessage → Result Event → Consumer → Consumer
take_event a m (err e) c = pass_over a.commit_error m c
take_event a m (ok ev) c =
    if ev.event_id == "" then pass_over a.commit_error m c else buffer_event a m ev c

-- What a turn of the loop meets: a tick, or a message that was fetched.
pub data Input : Type 0 where
  tick_over : Answers → Input
  message_in : Answers → EventMessage → Input

unfoldable pub turn : (String → Result Event) → Input → Consumer → Consumer
turn decode (tick_over a) c = (flush_buffer a c).0
turn decode (message_in a m) c = take_event a m (decode m.value) c

unfoldable pub turns : (String → Result Event) → List Input → Consumer → Consumer
turns decode [] c = c
turns decode (i ∷ is) c = turns decode is (turn decode i c)
