-- ===== src/Kafka.antt =====
-- The loops that wait for Kafka at startup: src/kafka/startup_retry.go and
-- src/downstream/kafka_retry.go. An error is the list of the kinds that errors.Is and errors.As
-- find in it. What happens to each attempt comes from the environment.
pub mod Retrying
use air_gap.Common.{ℕ, zero, suc, ◌+◌, List, [], ◌∷◌, Bool, true, false, not, ◌||◌, if◌then◌else◌}

-- The errors that RetryableStartupError looks for, and any other.
pub data ErrorKind : Type 0 where
  configuration_error certificate_error unknown_authority hostname_error invalid_certificate :
      ErrorKind
  sasl_authentication_failed unsupported_sasl_mechanism topic_authorization_failed
        group_authorization_failed cluster_authorization_failed unsupported_version
        invalid_request :
      ErrorKind
  net_error eof unexpected_eof out_of_brokers : ErrorKind
  broker_not_available leader_not_available not_leader_for_partition request_timed_out
        network_exception offsets_load_in_progress consumer_coordinator_not_available
        not_coordinator_for_consumer replica_not_available :
      ErrorKind
  other_error : ErrorKind

-- The kinds for which the answer is false.
unfoldable pub is_permanent : ErrorKind → Bool
is_permanent configuration_error = true
is_permanent certificate_error = true
is_permanent unknown_authority = true
is_permanent hostname_error = true
is_permanent invalid_certificate = true
is_permanent sasl_authentication_failed = true
is_permanent unsupported_sasl_mechanism = true
is_permanent topic_authorization_failed = true
is_permanent group_authorization_failed = true
is_permanent cluster_authorization_failed = true
is_permanent unsupported_version = true
is_permanent invalid_request = true
is_permanent _ = false

-- The kinds for which the answer is true, if no kind before is found.
unfoldable pub is_transient : ErrorKind → Bool
is_transient net_error = true
is_transient eof = true
is_transient unexpected_eof = true
is_transient out_of_brokers = true
is_transient broker_not_available = true
is_transient leader_not_available = true
is_transient not_leader_for_partition = true
is_transient request_timed_out = true
is_transient network_exception = true
is_transient offsets_load_in_progress = true
is_transient consumer_coordinator_not_available = true
is_transient not_coordinator_for_consumer = true
is_transient replica_not_available = true
is_transient _ = false

abbrev pub Error : Type 0
Error = List ErrorKind

unfoldable pub any_kind : (ErrorKind → Bool) → Error → Bool
any_kind test [] = false
any_kind test (kind ∷ kinds) = test kind || any_kind test kinds

-- RetryableStartupError
unfoldable pub retryable_startup_error : Error → Bool
retryable_startup_error err = if any_kind is_permanent err then false else any_kind is_transient err

-- What startupAttempt returns: a client, an error of create, or the end of the context.
pub data AttemptResult : Type 0 where
  client : AttemptResult
  create_error : Error → AttemptResult
  interrupted : AttemptResult

-- One round of a loop: whether the context has ended before the attempt, its result, whether the
-- context has ended after it, and whether it ends before the timer.
pub record Attempt : Type 0 where
  pub ended_before : Bool
  pub result : AttemptResult
  pub ended_after : Bool
  pub ended_waiting : Bool

-- How a loop ends; `pending` is after the rounds given.
pub data Start : Type 0 where
  started cancelled pending : Start
  gave_up : Error → Start

-- The calls of onRetry.
abbrev pub Retries : Type 0
Retries = List (ℕ × Error)

abbrev waited : Bool → ℕ → Error → Start × Retries → Start × Retries
waited true attempt err rest = (cancelled, (attempt, err) ∷ [])
waited false attempt err rest = (rest.0, (attempt, err) ∷ rest.1)

abbrev pub attempted : Attempt → ℕ → AttemptResult → Start × Retries → Start × Retries
attempted a attempt client rest = (started, [])
attempted a attempt interrupted rest = (cancelled, [])
attempted a attempt (create_error err) rest =
    if a.ended_after
    then (cancelled, [])
    else if not (retryable_startup_error err)
    then (gave_up err, [])
    else waited a.ended_waiting attempt err rest

-- The loop of startWithRetry from a number of attempt on.
unfoldable pub start_with_retry : ℕ → List Attempt → Start × Retries
start_with_retry attempt [] = (pending, [])
start_with_retry attempt (a ∷ events) =
    let rest = start_with_retry (attempt + 1) events in
    if a.ended_before then (cancelled, []) else attempted a attempt a.result rest

-- The calls of UpdateKafkaStatus.
pub data KafkaStatus : Type 0 where
  running : KafkaStatus
  unavailable : Error → KafkaStatus

abbrev status_waited : Bool → Error → Start × List KafkaStatus → Start × List KafkaStatus
status_waited true err rest = (cancelled, unavailable err ∷ [])
status_waited false err rest = (rest.0, unavailable err ∷ rest.1)

abbrev pub status_attempted :
    Attempt → AttemptResult → Start × List KafkaStatus → Start × List KafkaStatus
status_attempted a client rest = (started, running ∷ [])
status_attempted a interrupted rest = (cancelled, [])
status_attempted a (create_error err) rest =
    if a.ended_after
    then (cancelled, [])
    else if not (retryable_startup_error err)
    then (gave_up err, [])
    else status_waited a.ended_waiting err rest

-- newKafkaProducerWithRetry
unfoldable pub new_kafka_producer_with_retry : List Attempt → Start × List KafkaStatus
new_kafka_producer_with_retry [] = (pending, [])
new_kafka_producer_with_retry (a ∷ events) =
    let rest = new_kafka_producer_with_retry events in
    if a.ended_before then (cancelled, []) else status_attempted a a.result rest
