-- ===== src/PinnedTls/Rotation/Client.antt =====
-- src/internal/pinnedtls/rotation_exchange.go: RequestRotation against HandleRotation, where the
-- connection itself is without a fault. The encoded key is a parameter, as is the signature of the
-- request, which succeeds.
use air_gap.Common.{
  ℕ, Option, none, some, leb, ◌+◌, Bytes, Bool, true, false, not, ◌&&◌, ◌==◌, length, ℕ, Option,
  leb, some, ◌+◌,
}
use air_gap.Common.Maps.{bytes_eq, bytes_beq}
use air_gap.PinnedTls.Rotation.{Kind, begin_kind, request_kind, accepted_kind, RotationMessage}
use air_gap.PinnedTls.Rotation.Wire.{Codec, carry}
use air_gap.PinnedTls.Rotation.Exchange.{
  RotationSession, empty_message, new_session, is_challenge, is_empty, HandledRotation, begin,
}

abbrev pub is_accepted : Kind → Bool
is_accepted accepted_kind = true
is_accepted other = false

abbrev pub begin_message : Bytes → Bytes → Bytes → RotationMessage
begin_message id old new = record empty_message { kind = begin_kind; id = id; old = old; new = new }

abbrev pub is_same_rotation : RotationMessage → RotationMessage → Bool
is_same_rotation a b = bytes_beq a.id b.id && bytes_beq a.old b.old && bytes_beq a.new b.new

abbrev pub is_good_challenge : RotationMessage → RotationMessage → Bool
is_good_challenge begin challenge =
    is_same_rotation challenge begin
    && is_challenge challenge.kind
    && not (is_empty challenge.peer)
    && length challenge.nonce == 44

abbrev pub request_message : Bytes → (RotationMessage → Bytes) → RotationMessage → RotationMessage
request_message public sign challenge =
    let request = record challenge { kind = request_kind; public = public } in
    record request { proof = sign request }

abbrev pub is_acceptance : RotationMessage → RotationMessage → RotationMessage → Bool
is_acceptance begin challenge response =
    is_accepted response.kind
    && is_same_rotation response begin
    && bytes_beq response.peer challenge.peer
    && is_empty response.reason

-- When, on one clock, RequestRotation sets its deadline, the server handles the begin and the
-- request, and the client has read the challenge and the last response
pub record ExchangeTimes : Type 0 where
  pub began : ℕ
  pub begin_handled : ℕ
  pub challenge_read : ℕ
  pub request_handled : ℕ
  pub response_read : ℕ

module _ (codec : Codec) (server : RotationSession → RotationMessage → HandledRotation) where
  -- The server's answer, as the client reads it
  abbrev pub answer_read : HandledRotation → Option RotationMessage → Option HandledRotation
  answer_read handled none = none
  answer_read handled (some response) = some (record handled { response = response })

  abbrev pub served : RotationSession → Option RotationMessage → Option HandledRotation
  served session none = none
  served session (some message) =
      let handled = server session message in answer_read handled (carry codec handled.response)

  -- One message to the server and its answer; none where one of them is not carried
  abbrev pub round_trip : RotationSession → RotationMessage → Option HandledRotation
  round_trip session message = served session (carry codec message)

-- conn.SetDeadline(time.Now().Add(5 * time.Second)), for reads and writes
abbrev pub is_in_time : ExchangeTimes → ℕ → Bool
is_in_time times now = leb now (times.began + 5000000000)

module _ (codec : Codec) (public : Bytes) (sign : RotationMessage → Bytes)
    (server : RotationSession → RotationMessage → HandledRotation) (times : ExchangeTimes)
    (begin : RotationMessage) where
  abbrev pub on_response : RotationMessage → Option HandledRotation → Bool
  on_response challenge none = false
  on_response challenge (some handled) =
      is_in_time times times.response_read && is_acceptance begin challenge handled.response

  abbrev pub on_challenge : Option HandledRotation → Bool
  on_challenge none = false
  on_challenge (some handled) =
      is_in_time times times.challenge_read
      && is_good_challenge begin handled.response
      && on_response handled.response
          (round_trip codec server handled.session (request_message public sign handled.response))

  -- RequestRotation: whether it returns without an error, over a server that keeps a session
  unfoldable pub request_rotation : Bool
  request_rotation = on_challenge (round_trip codec server new_session begin)
