-- ===== src/Kafka/Examples.antt =====
-- A partition of like messages, and a handler that fails at first.
use chronos_dev.Common.{ℕ, zero, suc, none, some, ok, err, canceled}
use chronos_dev.Domain.Samples.{sample_message}
use chronos_dev.Kafka.{JobCodec, Fetched, Reader, Handler}

-- The position and what is committed.
abbrev Place : Type 0
Place = ℕ × ℕ

abbrev fetched_at : ℕ → Fetched
fetched_at n = record { offset = n; value = "job" }

abbrev reader : Reader Place
reader = record {
  fetch = λ r. ok (fetched_at r.0, (suc r.0, r.1));
  commit = λ m r. ok (r.0, suc m.offset);
}

-- One job with one text.
abbrev codec : JobCodec
codec = record { encode = λ job. err canceled; decode = λ text. ok (sample_message "j1") }

abbrev fails_first : Handler ℕ
fails_first job zero = (1, some canceled)
fails_first job (suc n) = (suc n, none)
