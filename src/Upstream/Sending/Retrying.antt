-- ===== src/Upstream/Sending/Retrying.antt =====
-- The loop of retries in kafkaHandlerWithContext of src/upstream/upstream.go.
use air_gap.Common.{
  Bytes, ℕ, suc, ◌+◌, List, [], ◌∷◌, ◌++◌, ◌≡◌, refl, ap, ◌∙◌, Bool, true, false, length, map,
  replicate, Option, none, some, arith, ◌<◌, lt→leb, le→leb,
}
use air_gap.Upstream.Sending.{
  Attempt, delivered, refused, answered, State, within, count_sent, called, gave_up, send_loop,
  broken, raise,
}

-- An error after which the loop waits.
abbrev pub refusal : Bytes → Attempt
refusal error = refused error false

within_mono :
    (limit : Option ℕ) (attempt n : ℕ)
    → within limit (attempt + n) ≡ true
    → within limit attempt ≡ true
within_mono none attempt n h = refl
within_mono (some l) attempt n h = ground arith

module _ (keep : Bool) (limit : Option ℕ) (s : State) (messages : List Bytes) where
  send_loop-refusals :
      (errors : List Bytes) (attempt : ℕ) (error : Option Bytes) (rest : List Attempt)
      → within limit (attempt + length errors) ≡ true
      → send_loop keep limit s messages attempt error (map refusal errors ++ (delivered ∷ rest))
        ≡ answered keep (count_sent s (length messages)) (replicate (suc (length errors)) messages)
  unfolding send_loop
  send_loop-refusals [] attempt error rest h = rw (within_mono limit attempt 0 h) refl
  send_loop-refusals (e ∷ errors) attempt error rest h =
      let next : attempt + 1 + length errors ≡ attempt + suc (length errors) = omega arith in
      rw (within_mono limit attempt (suc (length errors)) h) (
        ap (called messages)
          (send_loop-refusals errors (attempt + 1) (some e) rest (ap (within limit) next ∙ h)))

  -- While the context lasts and the limit allows one attempt more than the errors, the loop goes on
  -- over any errors to the first success: it has called SendMessages with the same packets once for
  -- each error and once more, counts the packets and the message, and the status is running.
  pub send_loop_delivers :
      (errors : List Bytes) (rest : List Attempt)
      → within limit (1 + length errors) ≡ true
      → send_loop keep limit s messages 1 none (map refusal errors ++ (delivered ∷ rest))
        ≡ answered keep (count_sent s (length messages)) (replicate (suc (length errors)) messages)
  send_loop_delivers errors rest h = send_loop-refusals errors 1 none rest h

module _ (keep : Bool) (l : ℕ) (s : State) (messages : List Bytes) where
  send_loop-past :
      (attempt : ℕ) (error : Option Bytes) (attempts : List Attempt)
      → l < attempt
      → send_loop keep (some l) s messages attempt error attempts ≡ gave_up s error
  unfolding send_loop
  send_loop-past attempt error [] h = rw (lt→leb attempt l h)
  send_loop-past attempt error (a ∷ attempts) h = rw (lt→leb attempt l h)

  give_up_from :
      (errors : List Bytes) (attempt : ℕ) (error : Option Bytes) (last : Bytes)
      (rest : List Attempt)
      → attempt + length errors ≡ l
      → send_loop keep
          (some l)
          s
          messages
          attempt
          error
          (map refusal (errors ++ (last ∷ [])) ++ rest)
        ≡ answered false
            (record s {
              transport_status = broken last;
              messages_dropped = raise 1 s.messages_dropped;
            })
            (replicate (suc (length errors)) messages)
  unfolding send_loop
  give_up_from [] attempt error last rest e =
      rw (le→leb attempt l (omega arith))
        (ap (called messages) (send_loop-past (attempt + 1) (some last) rest (omega arith)))
  give_up_from (x ∷ errors) attempt error last rest e =
      rw (le→leb attempt l (omega arith))
        (ap (called messages) (give_up_from errors (attempt + 1) (some x) last rest (omega arith)))

  -- With a limit of at least one, as many errors as the limit make the loop give up: it has called
  -- SendMessages as often as the limit says, the status is the last error, the message counts as
  -- dropped, and the answer false leaves the record to Kafka.
  pub send_loop_gives_up :
      (errors : List Bytes) (last : Bytes) (rest : List Attempt)
      → 1 + length errors ≡ l
      → send_loop keep (some l) s messages 1 none (map refusal (errors ++ (last ∷ [])) ++ rest)
        ≡ answered false
            (record s {
              transport_status = broken last;
              messages_dropped = raise 1 s.messages_dropped;
            })
            (replicate l messages)
  send_loop_gives_up errors last rest e =
      give_up_from errors 1 none last rest e
      ∙ ap
          (λ n.
            answered false
              (record s {
                transport_status = broken last;
                messages_dropped = raise 1 s.messages_dropped;
              })
              (replicate n messages))
          (let f : suc (length errors) ≡ l = omega arith in f)
