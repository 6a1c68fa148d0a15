-- ===== src/Upstream/Sending/Accounting.antt =====
-- What becomes of a record that kafkaHandlerWithContext of src/upstream/upstream.go gets.
use air_gap.Common.{
  Bytes, ℕ, suc, ◌+◌, ◌<◌, ◌≤◌, List, [], ◌∷◌, ◌++◌, map, replicate, length, sym, ◌≡◌, refl, Bool,
  true, false, inl, inr, ◌⊎◌, Option, none, some, arith, Outcome, returned, panicked, stuck,
  if_cases, ltb, ap,
}
use mathlib.Core.Path.{subst}
use air_gap.InputFilter.{Matching, MatchError, match_panic, match_timeout, InputFilter}
use air_gap.Upstream.Templates.{Fields}
use air_gap.Upstream.Sending.Retrying.{refusal}
use air_gap.Upstream.Sending.{
  Settings, State, Counter, raise, Attempt, delivered, refused, Handled, answered, sending, fatal,
  crashed, count_sent, within, called, gave_up, attempted, last_error, send_loop, max_retries,
  input_filtered, apply_input_filter, delivers, encode_for_transport, count_lost, send, send_guard,
  guarded, encoded, encode, or_guard, too_large, sized, deliver_filtered, kafka_handler,
}

-- What becomes of packets: some calls of SendMessages refused them with an error, while the context
-- lasted, and the next one delivered them; all calls had the same packets, and the message counts as
-- sent, once. Or it does not count and the answer is false; or the handler waits or ends.
pub data SendFate (keep : Bool) (sent_before : ℕ) (attempts : List Attempt) : Handled → Type 0 where
  is_sent :
      (s : State) (messages : List Bytes) (errors : List Bytes) (rest : List Attempt)
      → attempts ≡ map refusal errors ++ (delivered ∷ rest)
      → s.messages_sent.total ≡ sent_before + 1
      → SendFate keep sent_before attempts
          (answered keep s (replicate (suc (length errors)) messages))
  is_left :
      (s : State) (calls : List (List Bytes))
      → s.messages_sent.total ≡ sent_before
      → SendFate keep sent_before attempts (answered false s calls)
  is_sending :
      (s : State) (calls : List (List Bytes)) → SendFate keep sent_before attempts (sending s calls)
  fails : SendFate keep sent_before attempts crashed

-- What becomes of a record: its packets, or it is let go without a call of SendMessages, for the
-- reason given or as a lost event.
pub data Fate (keep : Bool) (sent_before lost_before : ℕ) (attempts : List Attempt)
    (let_go : Type 0) : Handled → Type 0 where
  by_sending :
      (h : Handled)
      → SendFate keep sent_before attempts h
      → Fate keep sent_before lost_before attempts let_go h
  is_let_go :
      (s : State)
      → s.messages_sent.total ≡ sent_before
      → let_go ⊎ (lost_before < s.lost.total)
      → Fate keep sent_before lost_before attempts let_go (answered keep s [])
  ends : Fate keep sent_before lost_before attempts let_go fatal

module _ (keep : Bool) (limit : Option ℕ) (s : State) (messages : List Bytes) where
  -- What the calls of SendMessages have been: the packets each time, and no more of them is known.
  abbrev LoopFate : List Attempt → Handled → Type 0
  LoopFate attempts h =
      ((errors : List Bytes) × (rest : List Attempt) × (attempts
          ≡ map refusal errors ++ (delivered ∷ rest))
        × (h
            ≡ answered keep (count_sent s (length messages))
                (replicate (suc (length errors)) messages)))
      ⊎ ((s' : State) × (calls : List (List Bytes)) × (s'.messages_sent.total
            ≡ s.messages_sent.total)
          × ((h ≡ answered false s' calls) ⊎ ((h ≡ sending s' calls) ⊎ (h ≡ crashed))))

  gave_up-LoopFate :
      (attempts : List Attempt) (error : Option Bytes) → LoopFate attempts (gave_up s error)
  gave_up-LoopFate attempts none = inr (s, [], refl, inr (inr refl))
  gave_up-LoopFate attempts (some error) = inr (_, [], refl, inl refl)

  -- One more refusal before the rest
  refused-LoopFate :
      (error : Bytes) (attempts : List Attempt) (h : Handled)
      → LoopFate attempts h
      → LoopFate (refused error false ∷ attempts) (called messages h)
  refused-LoopFate error attempts h (inl (errors, rest, e, r)) =
      inl (error ∷ errors, rest, ap (λ xs. refused error false ∷ xs) e, ap (called messages) r)
  refused-LoopFate error attempts h (inr (s', calls, same, inl r)) =
      inr (s', messages ∷ calls, same, inl (ap (called messages) r))
  refused-LoopFate error attempts h (inr (s', calls, same, inr (inl r))) =
      inr (s', messages ∷ calls, same, inr (inl (ap (called messages) r)))
  refused-LoopFate error attempts h (inr (s', calls, same, inr (inr r))) =
      inr (s', calls, same, inr (inr (ap (called messages) r)))

  attempted-LoopFate :
      (a : Attempt) (attempts : List Attempt) (rest : Handled)
      → LoopFate attempts rest
      → LoopFate (a ∷ attempts) (called messages (attempted keep s messages a rest))
  attempted-LoopFate delivered attempts rest h = inl ([], attempts, refl, refl)
  attempted-LoopFate (refused error true) attempts rest h = inr (s, messages ∷ [], refl, inl refl)
  attempted-LoopFate (refused error false) attempts rest h = refused-LoopFate error attempts rest h

  send_loop-LoopFate :
      (attempts : List Attempt) (attempt : ℕ) (error : Option Bytes)
      → LoopFate attempts (send_loop keep limit s messages attempt error attempts)
  unfolding send_loop
  send_loop-LoopFate [] attempt error =
      if_cases (LoopFate []) (within limit attempt) (λ _. inr (s, [], refl, inr (inl refl)))
        (λ _. gave_up-LoopFate [] error)
  send_loop-LoopFate (a ∷ attempts) attempt error =
      if_cases (LoopFate (a ∷ attempts)) (within limit attempt)
        (λ _.
          attempted-LoopFate a attempts _
            (send_loop-LoopFate attempts (attempt + 1) (last_error a)))
        (λ _. gave_up-LoopFate (a ∷ attempts) error)

  LoopFate-SendFate :
      (attempts : List Attempt) (h : Handled)
      → LoopFate attempts h
      → SendFate keep s.messages_sent.total attempts h
  LoopFate-SendFate attempts h (inl (errors, rest, e, r)) =
      subst (SendFate keep s.messages_sent.total attempts) (sym r)
        (is_sent (count_sent s (length messages)) messages errors rest e refl)
  LoopFate-SendFate attempts h (inr (s', calls, same, inl r)) =
      subst (SendFate keep s.messages_sent.total attempts) (sym r) (is_left s' calls same)
  LoopFate-SendFate attempts h (inr (s', calls, same, inr (inl r))) =
      subst (SendFate keep s.messages_sent.total attempts) (sym r) (is_sending s' calls)
  LoopFate-SendFate attempts h (inr (s', calls, same, inr (inr r))) =
      subst (SendFate keep s.messages_sent.total attempts) (sym r) fails

-- A record is let go before it is packed if it is older than the start or the deliver filter is
-- against it.
abbrev pub LetGo : ℕ → ℕ → Outcome Bool → Type 0
LetGo time_from t passes = (ltb t time_from ≡ true) ⊎ (passes ≡ returned false)

module _ {ℓ} {R : Type ℓ} (config : Settings R) (encrypt : Bytes → Bytes → Bytes ⊎ Bytes)
    (md5_hex : Bytes → Bytes) (decode_json : Bytes → Option Fields)
    (encode_json : Fields → Option Bytes) (write_lost_event : Bytes → Bytes → Bytes)
    (attempts : List Attempt) (compress : Bytes → Option Bytes) (n lost : ℕ) (let_go : Type 0) where
  send-Fate :
      (s : State) (messages : Outcome (List Bytes))
      → s.messages_sent.total ≡ n
      → Fate config.keep_running n lost attempts let_go
          (send config encrypt md5_hex decode_json encode_json write_lost_event attempts s messages)
  send-Fate s panicked e = by_sending _ fails
  send-Fate s stuck e = by_sending _ fails
  send-Fate s (returned messages) e = by_sending _ (
      subst
        (λ k.
          SendFate config.keep_running k attempts
            (send_loop config.keep_running (max_retries config) s messages 1 none attempts))
        e
        (LoopFate-SendFate config.keep_running (max_retries config) s messages attempts _
          (send_loop-LoopFate config.keep_running (max_retries config) s messages attempts 1 none)))

  send_guard-Fate :
      (s : State) (messages : Bytes ⊎ Outcome (List Bytes))
      → s.messages_sent.total ≡ n
      → Fate config.keep_running n lost attempts let_go (
          send_guard config encrypt md5_hex decode_json encode_json write_lost_event attempts s
            messages)
  send_guard-Fate s (inl error) e = by_sending _ (is_left s [] e)
  send_guard-Fate s (inr messages) e = send-Fate s messages e

  guarded-Fate :
      (s : State) (id : Bytes) (guard : Option Bytes)
      → s.messages_sent.total ≡ n
      → lost < s.lost.total
      → Fate config.keep_running n lost attempts let_go (
          guarded config encrypt md5_hex decode_json encode_json write_lost_event attempts s id
            guard)
  guarded-Fate s id none e l = is_let_go s e (inr l)
  guarded-Fate s id (some guard) e l =
      send_guard-Fate s (encode_for_transport config encrypt md5_hex id guard false) e

  encoded-Fate :
      (s : State) (id received : Bytes) (messages : Bytes ⊎ Outcome (List Bytes))
      → s.messages_sent.total ≡ n
      → lost ≤ s.lost.total
      → Fate config.keep_running n lost attempts let_go (
          encoded config encrypt md5_hex decode_json encode_json write_lost_event attempts s id
            received messages)
  encoded-Fate s id received (inr messages) e l = send-Fate s messages e
  encoded-Fate s id received (inl error) e l =
      guarded-Fate
        (count_lost config encrypt md5_hex decode_json encode_json write_lost_event attempts s) id _
        e (omega arith)

  encode-Fate :
      (s : State) (id received : Bytes)
      → s.messages_sent.total ≡ n
      → lost ≤ s.lost.total
      → Fate config.keep_running n lost attempts let_go (
          encode config encrypt md5_hex decode_json encode_json write_lost_event attempts compress s
            id received)
  encode-Fate s id received e l = encoded-Fate s id _ _ e l

  or_guard-Fate :
      (s : State) (id : Bytes) (guard : Option Bytes)
      → s.messages_sent.total ≡ n
      → lost < s.lost.total
      → Fate config.keep_running n lost attempts let_go (
          or_guard config encrypt md5_hex decode_json encode_json write_lost_event attempts compress
            s id guard)
  or_guard-Fate s id none e l = is_let_go s e (inr l)
  or_guard-Fate s id (some guard) e l = encode-Fate s id guard e (omega arith)

  sized-Fate :
      (s : State) (received : Bytes) (id : Option Bytes)
      → s.messages_sent.total ≡ n
      → lost ≤ s.lost.total
      → Fate config.keep_running n lost attempts let_go (
          sized config encrypt md5_hex decode_json encode_json write_lost_event attempts compress s
            received id)
  sized-Fate s received none e l = ends
  sized-Fate s received (some id) e l =
      if_cases (Fate config.keep_running n lost attempts let_go)
        (too_large config encrypt md5_hex decode_json encode_json write_lost_event attempts compress
          received)
        (λ _.
          or_guard-Fate
            (count_lost config encrypt md5_hex decode_json encode_json write_lost_event attempts s)
            id _ e (omega arith))
        (λ _. encode-Fate s id received e l)

  deliver_filtered-Fate :
      (s : State) (id received : Bytes) (passes : Outcome Bool)
      → (passes ≡ returned false → let_go)
      → s.messages_sent.total ≡ n
      → lost ≤ s.lost.total
      → Fate config.keep_running n lost attempts let_go (
          deliver_filtered config encrypt md5_hex decode_json encode_json write_lost_event attempts
            compress s id received passes)
  deliver_filtered-Fate s id received panicked f e l = by_sending _ fails
  deliver_filtered-Fate s id received stuck f e l = by_sending _ fails
  deliver_filtered-Fate s id received (returned false) f e l = is_let_go s e (inl (f refl))
  deliver_filtered-Fate s id received (returned true) f e l = sized-Fate s received _ e l

-- The input filter changes neither of the two counts.
filtered_counts {ℓ} :
    {R : Type ℓ} (config : Settings R) (s : State) (received : Bytes) (o : Bool × Option MatchError)
    → ((input_filtered config s received o).0.messages_sent ≡ s.messages_sent)
      × ((input_filtered config s received o).0.lost ≡ s.lost)
filtered_counts config s received (out, some match_timeout) = (refl, refl)
filtered_counts config s received (out, some match_panic) = (refl, refl)
filtered_counts config s received (true, none) = (refl, refl)
filtered_counts config s received (false, none) = (refl, refl)

apply_filter_counts {ℓ} :
    {R : Type ℓ} (config : Settings R) (matching : R → Bytes → Matching) (s : State)
    (received : Bytes) (f : Option (InputFilter R))
    → ((apply_input_filter config matching s received f).0.messages_sent ≡ s.messages_sent)
      × ((apply_input_filter config matching s received f).0.lost ≡ s.lost)
apply_filter_counts config matching s received none = (refl, refl)
apply_filter_counts config matching s received (some f) = filtered_counts config s received _

-- Whatever the record, the settings and the attempts, the handler ends in one of these ways. It
-- answers keepRunning behind calls of SendMessages with the same packets, of which the last one
-- delivered them and those before, if any, gave an error, and the message counts as sent exactly
-- once. It answers keepRunning without a call of SendMessages and without counting the message as
-- sent, because the record is older than the start, because the deliver filter is against it, or as
-- a lost event that is counted. It answers false and does not count the message as sent. Or it is
-- still sending, ends the program or panics.
pub kafka_handler-Fate {ℓ} :
    {R : Type ℓ} (config : Settings R) (encrypt : Bytes → Bytes → Bytes ⊎ Bytes)
    (md5_hex : Bytes → Bytes) (decode_json : Bytes → Option Fields)
    (encode_json : Fields → Option Bytes) (write_lost_event : Bytes → Bytes → Bytes)
    (attempts : List Attempt) (compress : Bytes → Option Bytes) (matching : R → Bytes → Matching)
    (s : State) (time_from : ℕ) (id : Bytes) (t : ℕ) (received : Bytes)
    → Fate config.keep_running s.messages_sent.total s.lost.total attempts
        (LetGo time_from t (delivers config config.deliver_filter id))
        (kafka_handler config encrypt md5_hex decode_json encode_json write_lost_event attempts
          compress matching s time_from id t received)
unfolding kafka_handler
kafka_handler-Fate config encrypt md5_hex decode_json encode_json write_lost_event attempts compress
      matching s time_from id t received =
    let s' = record s { received = raise 1 s.received } in
    let counts = apply_filter_counts config matching s' received config.input_filter in
    if_cases
      (Fate config.keep_running s.messages_sent.total s.lost.total attempts
        (LetGo time_from t (delivers config config.deliver_filter id)))
      (ltb t time_from) (λ old. is_let_go _ refl (inl (inl old)))
      (λ _.
        deliver_filtered-Fate config encrypt md5_hex decode_json encode_json write_lost_event
          attempts compress s.messages_sent.total s.lost.total
          (LetGo time_from t (delivers config config.deliver_filter id)) _ id _
          (delivers config config.deliver_filter id) (λ e. inr e)
          (ap (λ (c : Counter). c.total) counts.0)
          (omega (arith, ap (λ (c : Counter). c.total) counts.1)))
