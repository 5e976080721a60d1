-- ===== src/Kafka/Redelivery.antt =====
-- What becomes of a job whose handler fails.
use chronos_dev.Common.{ℕ, suc, ◌<◌, ◌⊎◌, String, false, [], ◌∷◌, ◌++◌, none, ◌≡◌, refl, ok}
use chronos_dev.Domain.Job.{QueuedJob, Instant}
use chronos_dev.Kafka.{
  JobCodec, KafkaQueue, Fetched, Reader, Handler, goes_on, stamp_job, kafka_message, write_message,
  enqueue_message, after_handler, handle_fetched, on_fetch, consume_one, Round, ended,
}

-- What Kafka documents of a group's reader on one partition: messages are fetched one after the other from
-- its position; what is committed is a position too, the one behind the message, whatever stands before
-- it. A restart goes on from there.
pub record IsKafka {R : Type 0} (reader : Reader R) (position committed : R → ℕ) : Type 0 where
  pub fetch_moves :
      (r r' : R) (m : Fetched)
      → reader.fetch r ≡ ok (m, r')
      → (m.offset ≡ position r) × (position r' ≡ suc (position r)) × (committed r' ≡ committed r)
  pub commit_moves :
      (r r' : R) (m : Fetched)
      → reader.commit m r ≡ ok r'
      → (position r' ≡ position r) × (committed r' ≡ suc m.offset)

-- Behind the place `k`, and if anything was committed since `c`, it stands behind `k` too.
record IsPast (k c position committed : ℕ) : Type 0 where
  moved : k < position
  left : (committed ≡ c) ⊎ (k < committed)

module _ {R S : Type 0} (reader : Reader R) (codec : JobCodec) (handler : Handler S)
    (position committed : R → ℕ) (kafka : IsKafka reader position committed) (k c : ℕ) where
  -- Where a round that goes on leaves the reader.
  abbrev Passed : Round R S → Type 0
  Passed (ended e s) = Unit {0}
  Passed (goes_on r s) = IsPast k c (position r) (committed r)

-- A job that is enqueued is handed to the handler as it was, with its time of enqueueing filled in if that
-- was missing, when a reader fetches the message that was written for it; it is committed exactly if the
-- handler succeeds. The codec must read back the text that it wrote for the job.
pub enqueue-consume :
    {R S : Type 0} (reader : Reader R) (codec : JobCodec) (handler : Handler S) (now : Instant)
    (job : QueuedJob) (q : KafkaQueue) (body : String) (r r' : R) (s : S) (offset : ℕ)
    → q.closed ≡ false
    → codec.encode (stamp_job now job) ≡ ok body
    → codec.decode body ≡ ok (stamp_job now job)
    → reader.fetch r ≡ ok (record { offset = offset; value = body }, r')
    → (enqueue_message codec now none job q
        ≡ ok
            (record q { written = q.written ++ (kafka_message now (stamp_job now job) body ∷ []) }))
      × (consume_one reader codec handler r s
          ≡ after_handler reader codec handler
              (record { offset = offset; value = body })
              r'
              (handler (stamp_job now job) s))
unfolding enqueue_message write_message consume_one on_fetch handle_fetched
enqueue-consume reader codec handler now job q body r r' s offset open_ written back fetched =
    (rw (open_, written) refl, rw (fetched, back) refl)
