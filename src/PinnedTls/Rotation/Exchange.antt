-- ===== src/PinnedTls/Rotation/Exchange.antt =====
-- src/internal/pinnedtls/rotation_exchange.go: HandleRotation, one message of a connection. The
-- random bytes, the texts of the errors and the answers of the disk are parameters.
use air_gap.Common.{
  Bytes, ℕ, List, [], ◌∷◌, Bool, true, false, Option, none, some, not, ◌&&◌, ◌+◌, ltb,
  if◌then◌else◌, take,
}
use air_gap.Common.Maps.{bytes_beq}
use air_gap.Common.Text.{codes}
use air_gap.PinnedTls.{Entry, Certificate, Manager, authorize}
use air_gap.PinnedTls.Rotation.{
  Kind, no_kind, begin_kind, challenge_kind, request_kind, accepted_kind, rejected_kind,
  consumed_kind, RotationMessage, CommitError, Disk, Committing, commit_rotation,
}

-- A time that is zero is none.
pub record RotationSession : Type 0 where
  pub challenge : RotationMessage
  pub expires : Option ℕ

abbrev pub is_begin : Kind → Bool
is_begin begin_kind = true
is_begin other = false

abbrev pub is_request : Kind → Bool
is_request request_kind = true
is_request other = false

abbrev pub is_challenge : Kind → Bool
is_challenge challenge_kind = true
is_challenge other = false

abbrev pub is_set : Option ℕ → Bool
is_set none = false
is_set (some time) = true

abbrev pub is_expired : ℕ → Option ℕ → Bool
is_expired now none = true
is_expired now (some time) = ltb time now

abbrev pub is_empty : Bytes → Bool
is_empty [] = true
is_empty (b ∷ bs) = false

abbrev pub empty_message : RotationMessage
empty_message = record {
  kind = no_kind;
  id = [];
  old = [];
  new = [];
  peer = [];
  nonce = [];
  public = [];
  reason = [];
  proof = [];
}

abbrev pub new_session : RotationSession
new_session = record { challenge = empty_message; expires = none }

-- The response, the session behind it, and what CommitRotation came to, if it was called
pub record HandledRotation : Type 0 where
  pub response : RotationMessage
  pub session : RotationSession
  pub commit : Option Committing

-- The reasons of a rejection
abbrev pub no_random : Bytes
no_random = codes "challenge randomness failed"

abbrev pub one_challenge : Bytes
one_challenge = codes "one challenge permitted per connection"

abbrev pub invalid_begin : Bytes
invalid_begin = codes "invalid begin fields"

abbrev pub not_authenticated : Bytes
not_authenticated = codes "old key not authenticated/authorized"

abbrev pub invalid_challenge : Bytes
invalid_challenge = codes "invalid/expired connection challenge"

module _ (message : RotationMessage) (session : RotationSession) (now : ℕ) where
  -- The response of this kind
  abbrev pub respond : Kind → Bytes → RotationMessage
  respond kind peer = record empty_message {
    kind = kind;
    id = message.id;
    old = message.old;
    new = message.new;
    peer = peer;
  }

  abbrev pub reject : Bytes → Bytes → RotationMessage
  reject peer reason = record (respond rejected_kind peer) { reason = take 256 reason }

  abbrev pub reject_message : Bytes → Bytes → HandledRotation
  reject_message peer reason = record {
    response = reject peer reason;
    session = session;
    commit = none;
  }

  abbrev pub challenged : Bytes → Option Bytes → HandledRotation
  challenged peer none = reject_message peer no_random
  challenged peer (some nonce) =
      let response = record (respond challenge_kind peer) { nonce = nonce } in
      record {
        response = response;
        session = record { challenge = response; expires = some (now + 30000000000) };
        commit = none;
      }

  abbrev pub begin : Bytes → Option Bytes → HandledRotation
  begin peer random =
      if is_set session.expires
      then reject_message peer one_challenge
      else if not (
          is_empty message.proof
          && is_empty message.public
          && is_empty message.peer
          && is_empty message.nonce
          && is_empty message.reason)
      then reject_message peer invalid_begin
      else challenged peer random

  abbrev pub is_answer : Bytes → Bool
  is_answer peer =
      is_request message.kind
      && is_challenge session.challenge.kind
      && not (is_expired now session.expires)
      && bytes_beq message.id session.challenge.id
      && bytes_beq message.new session.challenge.new
      && bytes_beq message.peer peer
      && bytes_beq message.nonce session.challenge.nonce

  -- A challenge is used up before the commit.
  abbrev pub consumed : RotationSession
  consumed = record session { challenge = record session.challenge { kind = consumed_kind } }

  abbrev pub committed_response :
      (CommitError → Bytes) → Bytes → Option CommitError → RotationMessage
  committed_response text peer none = respond accepted_kind peer
  committed_response text peer (some e) = reject peer (text e)

  abbrev pub request : (CommitError → Bytes) → Bytes → Committing → HandledRotation
  request text peer committing =
      if is_answer peer
      then record {
        response = committed_response text peer committing.error;
        session = consumed;
        commit = some committing;
      }
      else reject_message peer invalid_challenge

  abbrev pub handle_known :
      (CommitError → Bytes) → Option Bytes → Committing → Option (Bytes × Entry) → HandledRotation
  handle_known text random committing none = reject_message [] not_authenticated
  handle_known text random committing (some (fp, entry)) =
      if not (bytes_beq message.old fp)
      then reject_message [] not_authenticated
      else if is_begin message.kind
      then begin entry.peer random
      else request text entry.peer committing

-- What a message comes with
pub record Arrival : Type 0 where
  pub message : RotationMessage
  pub manager : Manager
  pub random : Option Bytes
  pub disk : Disk
  pub automatic : Bool
  pub now : ℕ

module _ (fingerprint_of : Bytes → Bytes) (verify : RotationMessage → Option Entry)
    (text : CommitError → Bytes) (certificate : Option Certificate) where
  -- HandleRotation; commit_rotation is looked at only for a request.
  unfoldable pub handle_rotation : RotationSession → Arrival → HandledRotation
  handle_rotation session a =
      handle_known a.message session a.now text a.random
        (commit_rotation verify a.message a.disk a.automatic a.now a.manager)
        (authorize fingerprint_of a.manager.pins certificate)

  -- The messages of a connection, between which the manager can change
  unfoldable pub handle_rotations : RotationSession → List Arrival → List HandledRotation
  handle_rotations session [] = []
  handle_rotations session (a ∷ arrivals) =
      let answer = handle_rotation session a in answer ∷ handle_rotations answer.session arrivals
