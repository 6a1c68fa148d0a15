-- ===== src/Downstream/Delivery.antt =====
-- From FormatMessage to the record for Kafka: handleUdpMessage of src/downstream/downstream.go on
-- the packets of a message.
use air_gap.Downstream.Keys.{KeyDisk}
use air_gap.Common.{
  zero, suc, append-nil, Bytes, ℕ, ◌+◌, ◌/◌, ◌<◌, List, [], ◌∷◌, ◌++◌, ◌≡◌, ◌≢◌, refl, ap, ◌∙◌,
  Option, length, map, replicate, All, arith, Bool, false, returned, u16, ◌%◌, ◌*◌, le→ltb,
  take-append, suc,
}
use air_gap.Protocol.MessageId.{parse_message_id}
use air_gap.Common.Results.{bind-returned}
use air_gap.Common.Text.{codes, has_prefix, split}
use air_gap.Common.Slices.{be16, put16}
use air_gap.Protocol.Checksum.{IsDigest}
use air_gap.Protocol.Format.{packet}
use air_gap.Protocol.Cache.{MessageCache}
use air_gap.Protocol.Parse.{Reply, accepted, parse_message}
use air_gap.Protocol.Parse.RoundTrip.{length-packet}
use air_gap.Protocol.Parse.Reassembly.{kept, receive_all}
use air_gap.Protocol.Types.{is_message_type}
use air_gap.Downstream.{Settings, State, is_rotation_frame, running}
use air_gap.Downstream.Handling.{
  Handled, going, fatal, crashed, prepend, handle_reply, handle_udp_message, handle_all, dispatch,
  and_then,
}

-- Only the id of a packet can make it look like a rotation frame.
pub is_rotation_frame-packet :
    (md5_hex : Bytes → Bytes) (digest : IsDigest md5_hex) (t n nr : ℕ) (id p : Bytes)
    → 13 + length id + length p < 65536
    → is_rotation_frame (packet md5_hex t n nr id p) ≡ has_prefix id (codes "PIN_TLS")
unfolding is_rotation_frame packet put16 be16
is_rotation_frame-packet md5_hex digest t n nr id p w =
    let long = length-packet md5_hex digest t n nr id p in
    let size : u16 (length id) ≡ length id = omega arith in
    let number : length id / 256 % 256 * 256 + length id % 256 ≡ length id = omega arith in
    rw (
      le→ltb (length (packet md5_hex t n nr id p)) 7 (omega (arith, long)),
      size,
      number,
      le→ltb (length (packet md5_hex t n nr id p)) (7 + length id) (omega (arith, long)),
      take-append,
    )

module _ (md5_hex : Bytes → Bytes) where
  -- The first packet of a sequence that ParseMessage returns from.
  receive_all-first :
      (c : MessageCache) (now : ℕ) (msg : Bytes) (rest : List (ℕ × Bytes)) (r : Reply)
      (rs : List Reply) (last : MessageCache)
      → receive_all md5_hex c ((now, msg) ∷ rest) ≡ returned (r ∷ rs, last)
      → (c' : MessageCache) × (parse_message md5_hex c now msg ≡ returned (r, c'))
        × (receive_all md5_hex c' rest ≡ returned (rs, last))
  unfolding receive_all
  receive_all-first c now msg rest r rs last e =
      let ((r', c'), (parsed, others)) = bind-returned _ _ _ e in
      let ((rs', end), (replies, same)) = bind-returned _ _ _ others in
      (c', parsed ∙ ap (λ x. returned (x, c')) (cc same), replies ∙ cc same)

  -- ParseMessage gives one result for each packet.
  receive_all-none :
      (c : MessageCache) (p : ℕ × Bytes) (rest : List (ℕ × Bytes)) (last : MessageCache)
      → receive_all md5_hex c (p ∷ rest) ≢ returned ([], last)
  unfolding receive_all
  receive_all-none c p rest last e =
      let ((r, c'), (parsed, others)) =
        bind-returned (parse_message md5_hex c p.0 p.1) _ ([], last) e in
      let ((rs, end), (replies, same)) =
        bind-returned (receive_all md5_hex c' rest) (λ q. returned (r ∷ q.0, q.1)) ([], last)
          others in
      cc same

module _ (decrypt : Bytes → Bytes → Option Bytes) (gunzip : Bytes → Option (Bytes × Bool))
    (keys : KeyDisk) (config : Settings) (md5_hex : Bytes → Bytes) where
  -- The times of the packets as the cache counts them.
  abbrev pub in_milliseconds : List (ℕ × Bytes) → List (ℕ × Bytes)
  in_milliseconds packets = map (λ p. (p.0 / 1000000, p.1)) packets

  handle_reply-kept :
      (s : State) (now : ℕ)
      → handle_reply decrypt gunzip keys config s now kept
        ≡ going (record s { transport_status = running }) []
  unfolding handle_reply dispatch parse_message_id split is_message_type
  handle_reply-kept s now = refl

  prepend_nothing : (h : Handled) → prepend [] h ≡ h
  prepend_nothing (going s effects) = refl
  prepend_nothing fatal = refl
  prepend_nothing crashed = refl

  and_then_nothing : (h : Handled) → and_then h (λ s. going s []) ≡ h
  and_then_nothing (going s effects) = ap (λ es. going s es) (append-nil effects)
  and_then_nothing fatal = refl
  and_then_nothing crashed = refl

  handle_udp_message-returned :
      (s : State) (now : ℕ) (msg : Bytes) (r : Reply) (c : MessageCache)
      → is_rotation_frame msg ≡ false
      → parse_message md5_hex s.cache (now / 1000000) msg ≡ returned (r, c)
      → handle_udp_message decrypt gunzip keys config md5_hex s now msg
        ≡ handle_reply decrypt gunzip keys config (record s { cache = c }) now r
  unfolding handle_udp_message
  handle_udp_message-returned s now msg r c plain parsed = rw (plain, parsed)

  -- The times and the status that the handler sets again do not matter to its next call.
  handle_reply-again :
      (s : State) (c last : MessageCache) (now t : ℕ) (id m : Bytes)
      → handle_reply decrypt gunzip keys config
          (record s { cache = last; transport_status = running })
          now
          (accepted t id m)
        ≡ handle_reply decrypt gunzip keys config (record s { cache = last }) now (accepted t id m)
  unfolding handle_reply
  handle_reply-again s c last now t id m = refl

  -- Packets of which ParseMessage keeps all but the last: the run does what the handler does with
  -- the result of the last, and nothing else.
  pub handle_all-last :
      (k : ℕ) (s : State) (packets : List (ℕ × Bytes)) (t : ℕ) (id m : Bytes) (last : MessageCache)
      → All (λ p. is_rotation_frame p.1 ≡ false) packets
      → receive_all md5_hex s.cache (in_milliseconds packets)
        ≡ returned (replicate k kept ++ (accepted t id m ∷ []), last)
      → (now : ℕ) × (handle_all decrypt gunzip keys config md5_hex s packets
          ≡ handle_reply decrypt gunzip keys config
              (record s { cache = last })
              now
              (accepted t id m))
  unfolding receive_all handle_all
  handle_all-last zero s [] t id m last plain e = absurd (cc e)
  handle_all-last (suc k) s [] t id m last plain e = absurd (cc e)
  handle_all-last zero s ((now, msg) ∷ []) t id m last plain e =
      let (c', parsed, others) =
        receive_all-first md5_hex s.cache (now / 1000000) msg [] _ _ last e in
      let same : c' ≡ last = cc others in
      (
        now,
        and_then_nothing _
            ∙ handle_udp_message-returned s now msg (accepted t id m) last plain.0
                (parsed ∙ ap (λ c. returned (accepted t id m, c)) same),
      )
  handle_all-last zero s ((now, msg) ∷ p ∷ packets) t id m last plain e =
      let (c', parsed, others) =
        receive_all-first md5_hex s.cache (now / 1000000) msg (in_milliseconds (p ∷ packets))
          (accepted t id m) [] last e in
      absurd (receive_all-none md5_hex c' _ _ last others)
  handle_all-last (suc k) s ((now, msg) ∷ packets) t id m last plain e =
      let (c', parsed, others) =
        receive_all-first md5_hex s.cache (now / 1000000) msg (in_milliseconds packets) _ _ last
          e in
      let s' = record s { cache = c'; transport_status = running } in
      let (when, done) = handle_all-last k s' packets t id m last plain.1 others in
      (
        when,
        rw
            (
              handle_udp_message-returned s now msg kept c' plain.0 parsed,
              handle_reply-kept (record s { cache = c' }) now,
            )
            (prepend_nothing _ ∙ done ∙ handle_reply-again s c' last when t id m),
      )
