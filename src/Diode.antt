-- ===== src/Diode.antt =====
-- The sender (kafkaHandlerWithContext of src/upstream/upstream.go), a transport that reorders, and
-- the receiver (handleUdpMessage of src/downstream/downstream.go).
use air_gap.Common.{◌≡◌, none, false}
use air_gap.Common.Maps.{bytes_eq}
use air_gap.Filter.{Filter}
use air_gap.InputFilter.{InputFilter}
use air_gap.Downstream as Receiver
use air_gap.Upstream.Sending.{Settings}

-- Settings under which a record is sent as it is.
pub record IsPlain {ℓ} {R : Type ℓ} (config : Settings R) : Type ℓ where
  pub no_input_filter : config.input_filter ≡ none
  pub no_deliver_filter : config.deliver_filter ≡ none
  pub no_limit : config.max_event_bytes ≡ 0
  pub no_compression : config.compress_when_length_exceeds ≡ 0
  pub cleartext : config.encryption ≡ false
