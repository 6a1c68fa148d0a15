-- ===== src/Examples/Retries.antt =====
-- The startup loops with a broker that comes up at the third attempt.
use air_gap.Common.{◌≡◌, refl, List, [], ◌∷◌, ◌++◌, map, false, All}
use air_gap.Kafka.{
  Error, eof, net_error, topic_authorization_failed, retryable_startup_error, any_kind,
  is_permanent, is_transient, started, start_with_retry,
}
use air_gap.Kafka.Retrying.{
  failing, succeeding, IsRetryable, numbered_from, start_with_retry_starts,
}

abbrev two_errors : List Error
two_errors = (net_error ∷ []) ∷ (eof ∷ net_error ∷ []) ∷ []

two_errors-IsRetryable : All IsRetryable two_errors
unfolding retryable_startup_error any_kind is_permanent is_transient
two_errors-IsRetryable = (refl, (refl, tt))

start_with_retry_starts_example :
    start_with_retry 1 (map failing two_errors ++ (succeeding ∷ []))
    ≡ (started, numbered_from 1 two_errors)
start_with_retry_starts_example = start_with_retry_starts two_errors [] two_errors-IsRetryable

abbrev refusal : Error
refusal = net_error ∷ topic_authorization_failed ∷ []

refusal_permanent : retryable_startup_error refusal ≡ false
unfolding retryable_startup_error any_kind is_permanent
refusal_permanent = refl
