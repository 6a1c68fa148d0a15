-- ===== src/PinnedTls/Rotation/Completing.antt =====
-- src/internal/pinnedtls/rotation_exchange.go: RequestRotation and HandleRotation complete a rotation.
use air_gap.Common.{
  Bytes, ℕ, ◌≡◌, ◌≤◌, ◌+◌, refl, [], Bool, true, false, Option, none, some, not, ◌&&◌, ◌∙◌, ap,
  length, if◌then◌else◌, arith, leb,
}
use air_gap.Common.Maps.{bytes_eq, beq_refl, bytes_beq}
use air_gap.Common.Members.{any}
use air_gap.PinnedTls.{Entry}
use air_gap.PinnedTls.Rotation.{
  Kind, request_kind, challenge_kind, RotationMessage, CommitError, Committing, rejected_kind,
  accepted_kind,
}
use air_gap.PinnedTls.Rotation.Exchange.{
  RotationSession, empty_message, new_session, is_empty, HandledRotation, handle_known, request,
  committed_response, is_answer, reject_message, begin, consumed, not_authenticated,
  invalid_challenge,
}
use air_gap.PinnedTls.Rotation.Wire.{
  Codec, carry, is_decoded, is_sound_peer, is_binding, has_32_bytes,
}
use air_gap.PinnedTls.Rotation.Client.{
  round_trip, on_challenge, served, begin_message, is_good_challenge, request_message,
  request_rotation, ExchangeTimes, on_response, answer_read, is_in_time, is_accepted,
  is_same_rotation,
}

abbrev pub has_no_error : Option CommitError → Bool
has_no_error none = true
has_no_error (some e) = false

abbrev pub handled_at : ExchangeTimes → Kind → ℕ
handled_at times request_kind = times.request_handled
handled_at times other = times.begin_handled

-- The server of one connection whose manager knows the key
abbrev pub serve :
    (CommitError → Bytes)
    → (RotationMessage → Committing)
    → Bytes × Entry
    → Bytes
    → ExchangeTimes
    → RotationSession
    → RotationMessage
    → HandledRotation
serve text commit own nonce times session message =
    handle_known message session (handled_at times message.kind) text (some nonce) (commit message)
      (some own)

abbrev pub challenge_message : Bytes → Bytes → Bytes → Bytes → Bytes → RotationMessage
challenge_message id old new peer nonce = record empty_message {
  kind = challenge_kind;
  id = id;
  old = old;
  new = new;
  peer = peer;
  nonce = nonce;
}

abbrev pub accepted_message : Bytes → Bytes → Bytes → Bytes → RotationMessage
accepted_message id old new peer = record empty_message {
  kind = accepted_kind;
  id = id;
  old = old;
  new = new;
  peer = peer;
}

module _ (text : CommitError → Bytes) (id old new nonce : Bytes) (entry : Entry) where
  abbrev challenge : RotationMessage
  challenge = challenge_message id old new entry.peer nonce

  abbrev challenged_session : ℕ → RotationSession
  challenged_session expires = record { challenge = challenge; expires = some expires }

  handle_begin :
      (now : ℕ) (c : Committing)
      → handle_known
          (begin_message id old new)
          new_session
          now
          text
          (some nonce)
          c
          (some (old, entry))
        ≡ record {
          response = challenge;
          session = challenged_session (now + 30000000000);
          commit = none;
        }
  handle_begin now c =
      ap
        (λ b.
          if not b
          then reject_message (begin_message id old new) new_session now [] not_authenticated
          else begin (begin_message id old new) new_session now entry.peer (some nonce))
        (beq_refl {K = Bytes} old)

  module _ (public : Bytes) (sign : RotationMessage → Bytes) where
    abbrev answering : RotationMessage
    answering = request_message public sign challenge

    answer_fits :
        (expires now : ℕ)
        → now ≤ expires
        → is_answer answering (challenged_session expires) now entry.peer ≡ true
    answer_fits expires now soon = ground (
      arith,
      beq_refl {K = Bytes} id,
      beq_refl {K = Bytes} new,
      beq_refl {K = Bytes} entry.peer,
      beq_refl {K = Bytes} nonce,
    )

    -- What the server comes to on the answer to its challenge
    abbrev completed : ℕ → ℕ → Committing → HandledRotation
    completed expires now c = record {
      response =
          committed_response answering (challenged_session expires) now text entry.peer c.error;
      session = consumed answering (challenged_session expires) now;
      commit = some c;
    }

    handle_request :
        (expires now : ℕ) (c : Committing)
        → now ≤ expires
        → handle_known answering
            (challenged_session expires)
            now
            text
            (some nonce)
            c
            (some (old, entry))
          ≡ completed expires now c
    handle_request expires now c soon =
        ap
          (λ b.
            if not b
            then reject_message answering (challenged_session expires) now [] not_authenticated
            else request answering (challenged_session expires) now text entry.peer c)
          (beq_refl {K = Bytes} old)
        ∙ ap
            (λ b.
              if b
              then completed expires now c
              else reject_message answering (challenged_session expires) now entry.peer
                  invalid_challenge)
            (answer_fits expires now soon)

    good_challenge :
        is_empty entry.peer ≡ false
        → length nonce ≡ 44
        → is_good_challenge (begin_message id old new) challenge ≡ true
    good_challenge named long =
        ground (arith, beq_refl {K = Bytes} id, beq_refl {K = Bytes} old, beq_refl {K = Bytes} new)

-- The message is small enough, and its texts are UTF-8, which JSON keeps.
abbrev pub IsCarried : Codec → RotationMessage → Type 0
IsCarried codec m = (codec.payload_size m ≤ 8192) × (codec.read_json m ≡ m)

both : (a b : Bool) → a ≡ true → b ≡ true → a && b ≡ true
both a b = ground arith

empty_peer : (codec : Codec) → is_sound_peer codec [] ≡ true
unfolding is_sound_peer any
empty_peer codec = refl

module _ (codec : Codec) where
  carry-IsCarried :
      (m : RotationMessage) → IsCarried codec m → is_decoded codec m ≡ true → carry codec m ≡ some m
  carry-IsCarried m (small, kept) good =
      ap (λ r. if leb (codec.payload_size m) 8192 && is_decoded codec r then some r else none) kept
      ∙ ap (λ b. if b then some m else none)
          (both (leb (codec.payload_size m) 8192) (is_decoded codec m) (ground (arith, small)) good)

  module _ (public : Bytes) (sign : RotationMessage → Bytes)
      (server : RotationSession → RotationMessage → HandledRotation) (times : ExchangeTimes)
      (begin challenge : RotationMessage) (handled : HandledRotation) where
    -- What the client makes of a last response
    abbrev outcome : Option RotationMessage → Bool
    outcome o =
        on_response codec public sign server times begin challenge
          (answer_read codec server handled o)

    outcome-rejected :
        (r : RotationMessage) (is_read : Bool)
        → r.kind ≡ rejected_kind
        → outcome (if is_read then some r else none) ≡ false
    outcome-rejected r false rejected = refl
    outcome-rejected r true rejected =
        ap
          (λ k.
            is_in_time times times.response_read
            && (is_accepted k
                && is_same_rotation r begin
                && bytes_beq r.peer challenge.peer
                && is_empty r.reason))
          rejected
        ∙ ground arith

in_time :
    (times : ExchangeTimes) (now : ℕ) → now ≤ times.began + 5000000000 → is_in_time times now ≡ true
in_time times now soon = ground (arith, soon)

module _ (codec : Codec) (text : CommitError → Bytes) (id old new nonce public : Bytes)
    (entry : Entry) (sign : RotationMessage → Bytes) (times : ExchangeTimes) where
  -- The answer to the request decides.
  outcome-committed :
      (server : RotationSession → RotationMessage → HandledRotation) (handled : HandledRotation)
      (session : RotationSession) (now : ℕ) (o : Option CommitError)
      → ((m : RotationMessage) → (codec.read_json m).kind ≡ m.kind)
      → carry codec (accepted_message id old new entry.peer)
        ≡ some (accepted_message id old new entry.peer)
      → times.response_read ≤ times.began + 5000000000
      → outcome codec public sign server times
          (begin_message id old new)
          (challenge_message id old new entry.peer nonce)
          handled
          (carry codec (
            committed_response
              (answering text id old new nonce entry public sign)
              session
              now
              text
              entry.peer
              o))
        ≡ has_no_error o
  outcome-committed server handled session now none kinds carried soon =
      ap
        (outcome codec public sign server times (begin_message id old new)
          (challenge_message id old new entry.peer nonce) handled)
        carried
      ∙ ground (
        arith,
        soon,
        beq_refl {K = Bytes} id,
        beq_refl {K = Bytes} old,
        beq_refl {K = Bytes} new,
        beq_refl {K = Bytes} entry.peer,
      )
  outcome-committed server handled session now (some e) kinds carried soon =
      outcome-rejected codec public sign server times (begin_message id old new)
        (challenge_message id old new entry.peer nonce) handled _ _ (kinds _)

-- Over a connection without a fault, where the old key is pinned for a peer with a name of at most
-- 128 bytes in one line, the fingerprints are two different valid ones and the ID is theirs, a nonce
-- is 44 characters for 32 bytes, there are a public key and a signature, the payload of each message
-- has at most 8192 bytes and JSON keeps its texts and the kind of every message, and, all on one
-- clock, nothing is handled or read behind the last response, which is read within 5 seconds of the
-- begin: RequestRotation succeeds exactly when CommitRotation does.
pub request_rotation-commits :
    (codec : Codec) (text : CommitError → Bytes) (commit : RotationMessage → Committing)
    (id old new nonce public : Bytes) (entry : Entry) (sign : RotationMessage → Bytes)
    (times : ExchangeTimes)
    → is_binding codec id old new ≡ true
    → is_sound_peer codec entry.peer ≡ true
    → is_empty entry.peer ≡ false
    → length nonce ≡ 44
    → has_32_bytes (codec.decode_base64 nonce) ≡ true
    → is_empty public ≡ false
    → is_empty (request_message public sign (challenge_message id old new entry.peer nonce)).proof
      ≡ false
    → ((m : RotationMessage) → (codec.read_json m).kind ≡ m.kind)
    → IsCarried codec (begin_message id old new)
    → IsCarried codec (challenge_message id old new entry.peer nonce)
    → IsCarried codec (request_message public sign (challenge_message id old new entry.peer nonce))
    → IsCarried codec (accepted_message id old new entry.peer)
    → times.began ≤ times.begin_handled
    → times.request_handled ≤ times.response_read
    → times.challenge_read ≤ times.response_read
    → times.response_read ≤ times.began + 5000000000
    → request_rotation codec public sign
        (serve text commit (old, entry) nonce times)
        times
        (begin_message id old new)
      ≡ has_no_error
          (commit
            (request_message public sign (challenge_message id old new entry.peer nonce))).error
unfolding request_rotation
request_rotation-commits codec text commit id old new nonce public entry sign times bound sound
      named long decodes keyed signed kinds begins challenges requests accepts started last first
      soon =
    let begun = begin_message id old new in
    let server = serve text commit (old, entry) nonce times in
    let ch = challenge_message id old new entry.peer nonce in
    let sent = answering text id old new nonce entry public sign in
    let expires = times.begin_handled + 30000000000 in
    let session = challenged_session text id old new nonce entry expires in
    let a : HandledRotation = record { response = ch; session = session; commit = none } in
    let last_step = on_response codec public sign server times begun ch in
    let rest = last_step (round_trip codec server session sent) in
    let whole = on_challenge codec public sign server times begun in
    ap (λ o. whole (served codec server new_session o))
      (carry-IsCarried codec begun begins (ground (arith, bound, empty_peer codec)))
    ∙ ap (λ h. whole (answer_read codec server h (carry codec h.response)))
        (handle_begin text id old new nonce entry times.begin_handled (commit begun))
    ∙ ap (λ o. whole (answer_read codec server a o))
        (carry-IsCarried codec ch challenges (ground (arith, bound, sound, named, decodes)))
    ∙ ap (λ b. b && is_good_challenge begun ch && rest)
        (in_time times times.challenge_read (omega (arith, first, soon)))
    ∙ ap (λ b. b && rest) (good_challenge text id old new nonce entry public sign named long)
    ∙ ap (λ o. last_step (served codec server session o))
        (carry-IsCarried codec sent requests
          (ground (arith, bound, sound, named, decodes, keyed, signed)))
    ∙ ap (λ h. last_step (answer_read codec server h (carry codec h.response)))
        (handle_request text id old new nonce entry public sign expires times.request_handled
          (commit sent) (omega (arith, started, last, soon)))
    ∙ outcome-committed codec text id old new nonce public entry sign times server
        (completed text id old new nonce entry public sign expires times.request_handled
          (commit sent))
        session times.request_handled (commit sent).error kinds
        (carry-IsCarried codec (accepted_message id old new entry.peer) accepts
          (ground (arith, bound, sound, named)))
        soon
