-- ===== src/PinnedTls/Rotation/OneUse.antt =====
-- src/internal/pinnedtls/rotation_exchange.go: a connection commits one rotation at most.
use air_gap.Common.{
  Bytes, ℕ, ◌≡◌, ◌≤◌, ◌+◌, List, [], ◌∷◌, Bool, true, false, Option, none, some, not, ◌&&◌,
  if_cases, arith,
}
use air_gap.PinnedTls.{Entry, Certificate, authorize, bytes_beq}
use air_gap.PinnedTls.Rotation.{RotationMessage, CommitError, Committing, commit_rotation}
use air_gap.PinnedTls.Rotation.Exchange.{
  no_random, one_challenge, invalid_begin, not_authenticated, invalid_challenge, RotationSession,
  is_begin, is_challenge, is_set, is_empty, new_session, HandledRotation, reject_message,
  challenged, begin, is_answer, consumed, committed_response, request, handle_known, Arrival,
  handle_rotation, handle_rotations,
}

abbrev one_if : Bool → ℕ
one_if true = 1
one_if false = 0

abbrev is_commit : Option Committing → Bool
is_commit none = false
is_commit (some c) = true

-- The calls of CommitRotation among some answers
unfoldable pub commits : List HandledRotation → ℕ
commits [] = 0
commits (a ∷ answers) = one_if (is_commit a.commit) + commits answers

-- The challenges among some answers
unfoldable pub challenges : List HandledRotation → ℕ
challenges [] = 0
challenges (a ∷ answers) = one_if (is_challenge a.response.kind) + challenges answers

-- A challenge of the session can still be used.
abbrev open_challenge : RotationSession → ℕ
open_challenge s = one_if (is_challenge s.challenge.kind)

abbrev has_expiry : RotationSession → ℕ
has_expiry s = one_if (is_set s.expires)

-- A commit uses up a challenge, and only a session without one gets one.
record IsStep (s : RotationSession) (a : HandledRotation) : Type 0 where
  uses :
      one_if (is_commit a.commit) + open_challenge a.session
      ≤ open_challenge s + one_if (is_challenge a.response.kind)
  opens : one_if (is_challenge a.response.kind) + has_expiry s ≤ has_expiry a.session

module _ (message : RotationMessage) (s : RotationSession) (now : ℕ) where
  reject_message-IsStep :
      (peer reason : Bytes) → IsStep s (reject_message message s now peer reason)
  reject_message-IsStep peer reason = record { uses = omega arith; opens = omega arith }

  challenged-IsStep :
      (peer : Bytes) (random : Option Bytes)
      → is_set s.expires ≡ false
      → IsStep s (challenged message s now peer random)
  challenged-IsStep peer none fresh = reject_message-IsStep peer no_random
  challenged-IsStep peer (some nonce) fresh = record { uses = omega arith; opens = ground arith }

  begin-IsStep : (peer : Bytes) (random : Option Bytes) → IsStep s (begin message s now peer random)
  begin-IsStep peer random =
      if_cases (IsStep s) (is_set s.expires) (λ _. reject_message-IsStep peer one_challenge)
        (λ fresh.
          if_cases (IsStep s)
            (not (
              is_empty message.proof
              && is_empty message.public
              && is_empty message.peer
              && is_empty message.nonce
              && is_empty message.reason))
            (λ _. reject_message-IsStep peer invalid_begin)
            (λ _. challenged-IsStep peer random fresh))

  answered-IsStep :
      (text : CommitError → Bytes) (peer : Bytes) (c : Committing) (o : Option CommitError)
      → is_challenge s.challenge.kind ≡ true
      → IsStep s (record {
        response = committed_response message s now text peer o;
        session = consumed message s now;
        commit = some c;
      })
  answered-IsStep text peer c none unused = record { uses = ground arith; opens = omega arith }
  answered-IsStep text peer c (some e) unused = record { uses = ground arith; opens = omega arith }

  request-IsStep :
      (text : CommitError → Bytes) (peer : Bytes) (c : Committing)
      → IsStep s (request message s now text peer c)
  request-IsStep text peer c =
      if_cases (IsStep s) (is_answer message s now peer)
        (λ answers. answered-IsStep text peer c c.error (ground (arith, answers)))
        (λ _. reject_message-IsStep peer invalid_challenge)

  handle_known-IsStep :
      (text : CommitError → Bytes) (random : Option Bytes) (c : Committing)
      (o : Option (Bytes × Entry))
      → IsStep s (handle_known message s now text random c o)
  handle_known-IsStep text random c none = reject_message-IsStep [] not_authenticated
  handle_known-IsStep text random c (some (fp, entry)) =
      if_cases (IsStep s) (not (bytes_beq message.old fp))
        (λ _. reject_message-IsStep [] not_authenticated)
        (λ _.
          if_cases (IsStep s) (is_begin message.kind) (λ _. begin-IsStep entry.peer random)
            (λ _. request-IsStep text entry.peer c))

expiry_bound : (s : RotationSession) → has_expiry s ≤ 1
expiry_bound s = ground arith

module _ (fingerprint_of : Bytes → Bytes) (verify : RotationMessage → Option Entry)
    (text : CommitError → Bytes) (certificate : Option Certificate) where
  handle_rotation-IsStep :
      (s : RotationSession) (a : Arrival)
      → IsStep s (handle_rotation fingerprint_of verify text certificate s a)
  unfolding handle_rotation
  handle_rotation-IsStep s a =
      handle_known-IsStep a.message s a.now text a.random
        (commit_rotation verify a.message a.disk a.automatic a.now a.manager)
        (authorize fingerprint_of a.manager.pins certificate)

  run_bound :
      (s : RotationSession) (arrivals : List Arrival)
      → let answers = handle_rotations fingerprint_of verify text certificate s arrivals in
        (challenges answers + has_expiry s ≤ 1)
        × (commits answers ≤ open_challenge s + challenges answers)
  unfolding handle_rotations commits challenges
  run_bound s [] = (omega (arith, expiry_bound s), omega arith)
  run_bound s (a ∷ arrivals) =
      let answer = handle_rotation fingerprint_of verify text certificate s a in
      let step = handle_rotation-IsStep s a in
      let rest = run_bound answer.session arrivals in
      (omega (arith, step.opens, rest.0), omega (arith, step.uses, rest.1))

-- Whatever messages a connection sends, and however the manager and the disk change between them:
-- CommitRotation is called at most as often as a challenge has been given, and that is once at most.
pub commits_once :
    (fingerprint_of : Bytes → Bytes) (verify : RotationMessage → Option Entry)
    (text : CommitError → Bytes) (certificate : Option Certificate) (arrivals : List Arrival)
    → (commits (handle_rotations fingerprint_of verify text certificate new_session arrivals)
        ≤ challenges (handle_rotations fingerprint_of verify text certificate new_session arrivals))
      × (challenges (handle_rotations fingerprint_of verify text certificate new_session arrivals)
          ≤ 1)
commits_once fingerprint_of verify text certificate arrivals =
    let bound = run_bound fingerprint_of verify text certificate new_session arrivals in
    (omega (arith, bound.1), omega (arith, bound.0))
