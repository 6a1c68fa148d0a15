-- ===== src/Kafka/Retrying.antt =====
-- The two loops that wait for Kafka at startup: what ends them, and that they agree.
use air_gap.Common.{
  ℕ, ◌+◌, ◌≡◌, refl, ap, ◌∙◌, List, [], ◌∷◌, ◌++◌, map, true, false, Bool-cases, inl, inr, All,
}
use air_gap.Kafka.{
  Error, retryable_startup_error, AttemptResult, client, create_error, interrupted, Attempt, Start,
  started, gave_up, Retries, attempted, start_with_retry, KafkaStatus, running, unavailable,
  status_attempted, new_kafka_producer_with_retry,
}

-- A round that fails with an error while the context lasts.
abbrev pub failing : Error → Attempt
failing err = record {
  ended_before = false;
  result = create_error err;
  ended_after = false;
  ended_waiting = false;
}

abbrev pub IsRetryable : Error → Type 0
IsRetryable err = retryable_startup_error err ≡ true

-- The errors with the numbers of their attempts.
unfoldable pub numbered_from : ℕ → List Error → Retries
numbered_from n [] = []
numbered_from n (err ∷ errs) = (n, err) ∷ numbered_from (n + 1) errs

-- What follows some failures that may be retried.
after_failures :
    (errs : List Error) (n : ℕ) (a : Attempt) (rest : List Attempt) (outcome : Start)
    → All IsRetryable errs
    → ((m : ℕ) → start_with_retry m (a ∷ rest) ≡ (outcome, []))
    → start_with_retry n (map failing errs ++ (a ∷ rest)) ≡ (outcome, numbered_from n errs)
unfolding start_with_retry numbered_from
after_failures [] n a rest outcome h last = last n
after_failures (err ∷ errs) n a rest outcome h last =
    rw h.0 (ap (λ r. (r.0, (n, err) ∷ r.1)) (after_failures errs (n + 1) a rest outcome h.1 last))

abbrev pub succeeding : Attempt
succeeding = record {
  ended_before = false;
  result = client;
  ended_after = false;
  ended_waiting = false;
}

-- While the context lasts, startWithRetry goes on over any errors that may be retried until the
-- first attempt that succeeds, and calls onRetry once for each error with its number from 1 on.
pub start_with_retry_starts :
    (errs : List Error) (rest : List Attempt)
    → All IsRetryable errs
    → start_with_retry 1 (map failing errs ++ (succeeding ∷ rest)) ≡ (started, numbered_from 1 errs)
unfolding start_with_retry
start_with_retry_starts errs rest h = after_failures errs 1 succeeding rest started h (λ m. refl)

-- While the context lasts, startWithRetry gives up with the first error that may not be retried.
pub start_with_retry_gives_up :
    (errs : List Error) (err : Error) (rest : List Attempt)
    → All IsRetryable errs
    → retryable_startup_error err ≡ false
    → start_with_retry 1 (map failing errs ++ (failing err ∷ rest))
      ≡ (gave_up err, numbered_from 1 errs)
unfolding start_with_retry
start_with_retry_gives_up errs err rest h permanent =
    after_failures errs 1 (failing err) rest (gave_up err) h (λ m. rw permanent refl)

-- The statuses that belong to the retries and the end of a loop.
abbrev end_status : Start → List KafkaStatus
end_status started = running ∷ []
end_status _ = []

unfoldable pub statuses : Start → Retries → List KafkaStatus
statuses outcome [] = end_status outcome
statuses outcome ((n, err) ∷ retries) = unavailable err ∷ statuses outcome retries

abbrev pub with_statuses : Start × Retries → Start × List KafkaStatus
with_statuses r = (r.0, statuses r.0 r.1)

attempted-status_attempted :
    (a : Attempt) (n : ℕ) (result : AttemptResult) (rest : Start × Retries)
    → status_attempted a result (with_statuses rest) ≡ with_statuses (attempted a n result rest)
unfolding statuses
attempted-status_attempted a n client rest = refl
attempted-status_attempted a n interrupted rest = refl
attempted-status_attempted a n (create_error err) rest = elim (Bool-cases a.ended_after) [
  | inl ended ↦ rw ended refl
  | inr lasts ↦ elim (Bool-cases (retryable_startup_error err)) [
    | inr permanent ↦ rw (lasts, permanent) refl
    | inl retryable ↦ elim (Bool-cases a.ended_waiting) [
      | inl ended ↦ rw (lasts, retryable, ended) refl
      | inr timer ↦ rw (lasts, retryable, timer) refl
    ]
  ]
]

-- On the same attempts newKafkaProducerWithRetry ends as startWithRetry does; it sets the status
-- unavailable where that one calls onRetry, and running exactly when it starts.
pub new_kafka_producer_with_retry-start_with_retry :
    (events : List Attempt) (n : ℕ)
    → new_kafka_producer_with_retry events ≡ with_statuses (start_with_retry n events)
unfolding new_kafka_producer_with_retry start_with_retry statuses
new_kafka_producer_with_retry-start_with_retry [] n = refl
new_kafka_producer_with_retry-start_with_retry (a ∷ events) n = elim (Bool-cases a.ended_before) [
  | inl ended ↦ rw ended refl
  | inr lasts ↦ rw lasts (
      ap (status_attempted a a.result)
        (new_kafka_producer_with_retry-start_with_retry events (n + 1))
      ∙ attempted-status_attempted a n a.result (start_with_retry (n + 1) events))
]
