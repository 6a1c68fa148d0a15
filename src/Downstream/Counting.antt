-- ===== src/Downstream/Counting.antt =====
-- The counters of src/downstream/downstream.go against its calls of kafkaWriter.Write.
use air_gap.Downstream.Keys.{KeyDisk, KeyInfo, KeyUpdate, KeyReport}
use air_gap.Common.{Bytes, ℕ, ◌+◌, List, [], ◌∷◌, ◌++◌, ◌≡◌, refl, Option, Bool, arith, All_each}
use air_gap.Downstream.{
  Settings, State, Body, Effect, written, sent, send_message, send_reports, key_report, running,
  type_status, updating_key, MessageCache, parse_error, TransportStatus,
}
use air_gap.Downstream.Handling.{
  Handled, going, fatal, crashed, handle_udp_message, prepend, and_then, handle_all,
}
use mathlib.Core.Path.{subst}
use air_gap.Downstream.Branches.{
  HoldsOfBranches, exchange_key-branch, handle_udp_message-branch, with_cache, IsRunRelation,
  handle_all-relation,
}

-- The calls of kafkaWriter.Write in handleUdpMessage among the effects.
unfoldable pub count_written : List Effect → ℕ
count_written [] = 0
count_written (written id topic partition payload ∷ effects) = 1 + count_written effects
count_written (sent id topic stamped body ∷ effects) = count_written effects

count_written-append :
    (xs ys : List Effect) → count_written (xs ++ ys) ≡ count_written xs + count_written ys
unfolding count_written
count_written-append [] ys = omega arith
count_written-append (written id topic partition payload ∷ xs) ys =
    omega (arith, count_written-append xs ys)
count_written-append (sent id topic stamped body ∷ xs) ys = count_written-append xs ys

count_written-send_message :
    (t : ℕ) (id topic : Bytes) (body : Body) → count_written (send_message t id topic body) ≡ 0
unfolding count_written send_message
count_written-send_message t id [] body = refl
count_written-send_message t id (b ∷ topic) body = refl

-- All four counters of the state `s'` are those of `s` and `n` more.
pub record AreCounted (s : State) (n : ℕ) (s' : State) : Type 0 where
  pub received : s'.received_events ≡ s.received_events + n
  pub sent : s'.sent_events ≡ s.sent_events + n
  pub total_received : s'.total_received ≡ s.total_received + n
  pub total_sent : s'.total_sent ≡ s.total_sent + n

abbrev pub IsCounted : State → Handled → Type 0
IsCounted s (going s' effects) = AreCounted s (count_written effects) s'
IsCounted s fatal = Unit
IsCounted s crashed = Unit

-- A packet from which nothing is written leaves the counters alone.
none-AreCounted :
    (s : State) (c : MessageCache) (status : TransportStatus) (last : ℕ) (key : Bytes)
    (infos : List KeyInfo) (effects : List Effect)
    → count_written effects ≡ 0
    → AreCounted s (count_written effects) (record s {
      cache = c;
      transport_status = status;
      last_key_exchange_nano = last;
      key = key;
      key_infos = infos;
    })
none-AreCounted s c status last key infos effects e = record {
  received = omega arith;
  sent = omega arith;
  total_received = omega arith;
  total_sent = omega arith;
}

nothing-AreCounted : (s : State) → AreCounted s 0 s
nothing-AreCounted s = record {
  received = omega arith;
  sent = omega arith;
  total_received = omega arith;
  total_sent = omega arith;
}

module _ (decrypt : Bytes → Bytes → Option Bytes) (gunzip : Bytes → Option (Bytes × Bool))
    (keys : KeyDisk) (config : Settings) where
  count_written-send_reports :
      (reports : List (ℕ × KeyReport)) → count_written (send_reports config.topic reports) ≡ 0
  unfolding send_reports count_written
  count_written-send_reports [] = refl
  count_written-send_reports ((t, r) ∷ reports) = omega (
    arith,
    count_written-append (send_message t [] config.topic (key_report r))
        (send_reports config.topic reports),
    count_written-send_message t [] config.topic (key_report r),
    count_written-send_reports reports,
  )

  update_writes_none :
      (u : KeyUpdate) (file : Bytes)
      → count_written (
          send_reports config.topic u.reports
          ++ send_message type_status [] config.topic (updating_key file))
        ≡ 0
  update_writes_none u file = omega (
    arith,
    count_written-append (send_reports config.topic u.reports)
        (send_message type_status [] config.topic (updating_key file)),
    count_written-send_reports u.reports,
    count_written-send_message type_status [] config.topic (updating_key file),
  )

  branches-IsCounted :
      (s : State) (c : MessageCache) (now : ℕ)
      → HoldsOfBranches decrypt gunzip keys config
          (IsCounted s)
          (with_cache decrypt gunzip keys config s c running)
          now
  unfolding count_written
  branches-IsCounted s c now = record {
    report = λ t id body.
        none-AreCounted s c running s.last_key_exchange_nano s.key s.key_infos
          (send_message t id config.topic body) (count_written-send_message t id config.topic body);
    silent = none-AreCounted s c running s.last_key_exchange_nano s.key s.key_infos [] refl;
    write = λ id topic n payload. record {
      received = refl;
      sent = refl;
      total_received = refl;
      total_sent = refl;
    };
    out_of_range = tt;
    exchange = λ payload.
        exchange_key-branch decrypt gunzip keys config (IsCounted s)
          (with_cache decrypt gunzip keys config s c running) now payload
          (λ _. none-AreCounted s c running s.last_key_exchange_nano s.key s.key_infos [] refl)
          (λ _. tt)
          (λ late u r.
            none-AreCounted s c running now u.key u.key_infos
              (send_reports config.topic u.reports
                ++ send_message type_status [] config.topic (updating_key u.file))
              (update_writes_none u u.file));
  }

  handle_udp_message-IsCounted :
      (md5_hex : Bytes → Bytes) (s : State) (now : ℕ) (msg : Bytes)
      → IsCounted s (handle_udp_message decrypt gunzip keys config md5_hex s now msg)
  unfolding count_written
  handle_udp_message-IsCounted md5_hex s now msg =
      handle_udp_message-branch decrypt gunzip keys config (IsCounted s) s now md5_hex msg
        (nothing-AreCounted s)
        (record {
          ends = λ _. tt;
          loops = λ _. tt;
          rejected = λ e c _.
              none-AreCounted s c (parse_error e) s.last_key_exchange_nano s.key s.key_infos []
                refl;
          received = λ r c _. branches-IsCounted s c now;
        })

prepend-IsCounted :
    (s s' : State) (effects : List Effect) (h : Handled)
    → AreCounted s (count_written effects) s'
    → IsCounted s' h
    → IsCounted s (prepend effects h)
prepend-IsCounted s s' effects fatal a b = tt
prepend-IsCounted s s' effects crashed a b = tt
prepend-IsCounted s s' effects (going s'' more) a b = record {
  received = omega (arith, a.received, b.received, count_written-append effects more);
  sent = omega (arith, a.sent, b.sent, count_written-append effects more);
  total_received =
      omega (arith, a.total_received, b.total_received, count_written-append effects more);
  total_sent = omega (arith, a.total_sent, b.total_sent, count_written-append effects more);
}

IsCounted-relation :
    (decrypt : Bytes → Bytes → Option Bytes) (gunzip : Bytes → Option (Bytes × Bool))
    (keys : KeyDisk) (config : Settings)
    → IsRunRelation decrypt gunzip keys config IsCounted
unfolding count_written
IsCounted-relation decrypt gunzip keys config = record {
  start = nothing-AreCounted;
  compose = next;
}
  where
    next :
        (s : State) (h : Handled) (k : State → Handled)
        → IsCounted s h
        → ((s' : State) → IsCounted s' (k s'))
        → IsCounted s (and_then h k)
    next s fatal k c rest = tt
    next s crashed k c rest = tt
    next s (going s' effects) k c rest = prepend-IsCounted s s' effects (k s') c (rest s')

-- In a run of packets that comes to its end, each of the four counters of the receiver grows by
-- exactly the number of records that handleUdpMessage gives to kafkaWriter.Write. The messages of
-- sendMessage, which go to Kafka as well with that target, are not counted.
pub handle_all_counts :
    (decrypt : Bytes → Bytes → Option Bytes) (gunzip : Bytes → Option (Bytes × Bool))
    (keys : KeyDisk) (config : Settings) (md5_hex : Bytes → Bytes) (packets : List (ℕ × Bytes))
    (s s' : State) (effects : List Effect)
    → handle_all decrypt gunzip keys config md5_hex s packets ≡ going s' effects
    → AreCounted s (count_written effects) s'
handle_all_counts decrypt gunzip keys config md5_hex packets s s' effects e =
    subst (IsCounted s) e (
      handle_all-relation decrypt gunzip keys config IsCounted md5_hex
        (IsCounted-relation decrypt gunzip keys config) packets
        (All_each _ packets
          (λ p s. handle_udp_message-IsCounted decrypt gunzip keys config md5_hex s p.0 p.1))
        s)
