-- ===== src/Downstream/Branches.antt =====
-- The ways in which handleUdpMessage of src/downstream/downstream.go can end, as cases for proofs.
use air_gap.Downstream.Keys.{KeyDisk, KeyUpdate, read_new_key}
use air_gap.Common.{
  refl, inl, inr, Option-cases, true, false, Bytes, ℕ, List, [], ◌∷◌, Bool, Option, none, some,
  if_cases, ltb, ◌≡◌, true, false, ◌++◌, All,
}
use air_gap.Common.Integers.{ℤ, pos, negsuc}
use air_gap.Protocol.Types.{
  is_message_type, type_message, type_error, type_key_exchange, type_multipart, type_cleartext,
  type_status,
}
use air_gap.Common.{Outcome, returned, panicked, stuck, ◌/◌}
use air_gap.Protocol.Cache.{MessageCache}
use air_gap.Protocol.Parse.{Reply, failed, accepted, ParseError, parse_message}
use air_gap.Downstream.{TransportStatus, parse_error, running, is_rotation_frame}
use air_gap.Protocol.Gzip.{Unzipped, unzipped, refused}
use air_gap.Downstream.{
  Settings, State, Body, content, gzip_failed, decrypt_failed, written, send_message, updating_key,
  send_reports,
}
use air_gap.Downstream.Handling.{
  Handled, going, fatal, count_write, write_record, unpack, unpacked, decrypted, exchange_key,
  dispatch, too_soon, crashed, handle_udp_message, handle_reply, handle_parsed, and_then,
  handle_all,
}

module _ (decrypt : Bytes → Bytes → Option Bytes) (gunzip : Bytes → Option (Bytes × Bool))
    (keys : KeyDisk) (config : Settings) where
  -- A predicate that holds however the handler leaves the state `s`.
  pub record HoldsOfBranches {ℓ} (P : Handled → Type ℓ) (s : State) (now : ℕ) : Type ℓ where
    pub report :
        (t : ℕ) (id : Bytes) (body : Body) → P (going s (send_message t id config.topic body))
    pub silent : P (going s [])
    pub write :
        (id topic : Bytes) (n : ℕ) (payload : Bytes)
        → P (going (count_write s) (written id topic n payload ∷ []))
    pub out_of_range : P fatal
    pub exchange : (payload : Bytes) → P (exchange_key decrypt gunzip keys config s now payload)

  module _ {ℓ} (P : Handled → Type ℓ) (s : State) (now : ℕ) (b : HoldsOfBranches P s now) where
    write_record-branch :
        (id topic : Bytes) (partition : ℤ) (payload : Bytes)
        → P (write_record s id topic partition payload)
    write_record-branch id topic (negsuc n) payload = b.out_of_range
    write_record-branch id topic (pos n) payload =
        if_cases P (ltb 2147483647 n) (λ _. b.out_of_range) (λ _. b.write id topic n payload)

    unpacked-branch :
        (id topic : Bytes) (partition : ℤ) (u : Unzipped)
        → P (unpacked decrypt gunzip keys config s id topic partition u)
    unpacked-branch id topic partition (refused e) = b.report type_error id (gzip_failed e)
    unpacked-branch id topic partition (unzipped payload) =
        write_record-branch id topic partition payload

    decrypted-branch :
        (t : ℕ) (id topic : Bytes) (partition : ℤ) (o : Option Bytes)
        → P (decrypted decrypt gunzip keys config t s id topic partition o)
    decrypted-branch t id topic partition none = b.report type_error id decrypt_failed
    decrypted-branch t id topic partition (some payload) =
        unpacked-branch id topic partition (unpack decrypt gunzip keys config t payload)

    -- Such a predicate holds of the switch on the type of the message.
    pub dispatch-branch :
        (t : ℕ) (id payload topic : Bytes) (partition : ℤ)
        → P (dispatch decrypt gunzip keys config s now t id payload topic partition)
    unfolding dispatch
    dispatch-branch t id payload topic partition =
        if_cases P (is_message_type t type_cleartext)
          (λ _. unpacked-branch id topic partition (unpack decrypt gunzip keys config t payload))
          (λ _.
            if_cases P (is_message_type t type_message)
              (λ _. decrypted-branch t id topic partition (decrypt payload s.key))
              (λ _.
                if_cases P (is_message_type t type_key_exchange) (λ _. b.exchange payload)
                  (λ _.
                    if_cases P (is_message_type t type_error)
                      (λ _. b.report type_error id (content payload))
                      (λ _.
                        if_cases P (is_message_type t type_multipart) (λ _. b.silent)
                          (λ _. b.report type_message [] (content payload))))))

  -- A predicate of the ways in which a key exchange ends.
  pub exchange_key-branch {ℓ} :
      (P : Handled → Type ℓ) (s : State) (now : ℕ) (payload : Bytes)
      → (too_soon config s now ≡ true → P (going s []))
      → (read_new_key keys s.key s.key_infos payload ≡ none → P crashed)
      → (too_soon config s now ≡ false
          → (u : KeyUpdate) → read_new_key keys s.key s.key_infos payload ≡ some u
          → P (
              going
                (record s { last_key_exchange_nano = now; key = u.key; key_infos = u.key_infos })
                (send_reports config.topic u.reports
                  ++ send_message type_status [] config.topic (updating_key u.file))))
      → P (exchange_key decrypt gunzip keys config s now payload)
  exchange_key-branch P s now payload soon short new =
      if_cases P (too_soon config s now) soon (λ late.
        elim (Option-cases (read_new_key keys s.key s.key_infos payload)) [
          | inl e ↦ rw e (short e)
          | inr (u, e) ↦ rw e (new late u e)
        ])

  abbrev pub with_cache : State → MessageCache → TransportStatus → State
  with_cache s c status = record s { cache = c; transport_status = status }

  module _ {ℓ} (P : Handled → Type ℓ) (s : State) (now : ℕ) where
    -- The outcomes of ParseMessage for which the handler goes on.
    pub record HoldsOfReplies (o : Outcome (Reply × MessageCache)) : Type ℓ where
      pub ends : o ≡ panicked → P crashed
      pub loops : o ≡ stuck → P crashed
      pub rejected :
          (e : ParseError) (c : MessageCache)
          → o ≡ returned (failed e, c)
          → P (going (with_cache s c (parse_error e)) [])
      pub received :
          (r : Reply) (c : MessageCache)
          → o ≡ returned (r, c)
          → HoldsOfBranches P (with_cache s c running) now

    handle_parsed-branch :
        (o : Outcome (Reply × MessageCache))
        → HoldsOfReplies o
        → P (handle_parsed decrypt gunzip keys config s now o)
    unfolding handle_reply
    handle_parsed-branch panicked b = b.ends refl
    handle_parsed-branch stuck b = b.loops refl
    handle_parsed-branch (returned (failed e, c)) b = b.rejected e c refl
    handle_parsed-branch (returned (accepted t id payload, c)) b =
        dispatch-branch P (with_cache s c running) now (b.received (accepted t id payload) c refl) t
          id payload _ _

    -- A predicate that holds of every way in which one packet can be handled.
    pub handle_udp_message-branch :
        (md5_hex : Bytes → Bytes) (msg : Bytes)
        → P (going s [])
        → HoldsOfReplies (parse_message md5_hex s.cache (now / 1000000) msg)
        → P (handle_udp_message decrypt gunzip keys config md5_hex s now msg)
    unfolding handle_udp_message
    handle_udp_message-branch md5_hex msg silent b =
        if_cases P (is_rotation_frame msg) (λ _. silent) (λ _. handle_parsed-branch _ b)

  -- A relation between the state before a run and how the run ends, which holds of a run if it
  -- holds of each packet.
  pub record IsRunRelation {ℓ} (I : State → Handled → Type ℓ) : Type ℓ where
    pub start : (s : State) → I s (going s [])
    pub compose :
        (s : State) (h : Handled) (k : State → Handled)
        → I s h
        → ((s' : State) → I s' (k s'))
        → I s (and_then h k)

  pub handle_all-relation {ℓ} :
      (I : State → Handled → Type ℓ) (md5_hex : Bytes → Bytes)
      → IsRunRelation I
      → (packets : List (ℕ × Bytes))
      → All
          (λ p. (s : State) → I s (handle_udp_message decrypt gunzip keys config md5_hex s p.0 p.1))
          packets
      → (s : State) → I s (handle_all decrypt gunzip keys config md5_hex s packets)
  unfolding handle_all
  handle_all-relation I md5_hex r [] h s = r.start s
  handle_all-relation I md5_hex r ((now, msg) ∷ rest) h s =
      r.compose s _ _ (h.0 s) (handle_all-relation I md5_hex r rest h.1)
