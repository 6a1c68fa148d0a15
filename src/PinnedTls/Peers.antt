-- ===== src/PinnedTls/Peers.antt =====
-- src/internal/pinnedtls/aging.go: no peer loses its last key by age.
use air_gap.Common.{
  Bytes, ℕ, ◌≡◌, refl, List, [], ◌∷◌, Bool, true, false, Option, none, some, ◌&&◌, ◌||◌, ◌==◌,
  if◌then◌else◌, if_cases, Bool-cases, inl, inr, arith, ap, sym, ◌∙◌,
}
use air_gap.Common.Members.{any}
use air_gap.Common.Maps.{bytes_eq, lookup, bytes_beq, bytes_beq_iff, lookup-insert}
use air_gap.PinnedTls.{Entry, Pins, Manager}
use air_gap.PinnedTls.Aging.{
  is_later, with_latest, latest_keys, is_key, is_idle, fresh_pins, purge_idle,
}

-- A peer has a key among the pins.
abbrev pub has_key : Bytes → Pins → Bool
has_key peer pins = any (λ pin. bytes_beq pin.1.peer peer) pins

-- This key is a pin of the peer.
abbrev is_pin_of : Bytes → Bytes → Pins → Bool
is_pin_of fp peer pins = any (λ pin. bytes_beq pin.0 fp && bytes_beq pin.1.peer peer) pins

-- The latest key of a peer is its first one or the one of the other pins.
lookup-with_latest :
    (last_used : List (Bytes × ℕ)) (fp peer k : Bytes) (o : Option Bytes)
    (latest : List (Bytes × Bytes))
    → bytes_beq peer k ≡ false
    → lookup k (with_latest last_used fp peer o latest) ≡ lookup k latest
lookup-with_latest last_used fp peer k none latest other =
    lookup-insert peer k fp latest ∙ ap (λ b. if b then some fp else lookup k latest) other
lookup-with_latest last_used fp peer k (some previous) latest other =
    if_cases (λ m. lookup k m ≡ lookup k latest) (is_later last_used fp previous)
      (λ _. lookup-insert peer k fp latest ∙ ap (λ b. if b then some fp else lookup k latest) other)
      (λ _. refl)

-- What a peer has behind its key: this one or the one from before.
data Chosen (fp : Bytes) (before behind : Option Bytes) : Type 0 where
  new : behind ≡ some fp → Chosen fp before behind
  old :
      (previous : Bytes) → before ≡ some previous → behind ≡ some previous → Chosen fp before behind

own_latest :
    (last_used : List (Bytes × ℕ)) (fp peer k : Bytes) (o : Option Bytes)
    (latest : List (Bytes × Bytes))
    → bytes_beq peer k ≡ true
    → lookup k latest ≡ o
    → Chosen fp (lookup k latest) (lookup k (with_latest last_used fp peer o latest))
own_latest last_used fp peer k none latest same known =
    new (lookup-insert peer k fp latest ∙ ap (λ b. if b then some fp else lookup k latest) same)
own_latest last_used fp peer k (some previous) latest same known =
    if_cases (λ m. Chosen fp (lookup k latest) (lookup k m)) (is_later last_used fp previous)
      (λ _.
        new
          (lookup-insert peer k fp latest ∙ ap (λ b. if b then some fp else lookup k latest) same))
      (λ _. old previous known known)

own_latest_key :
    (last_used : List (Bytes × ℕ)) (fp : Bytes) (entry : Entry) (pins : Pins) (peer : Bytes)
    → bytes_beq entry.peer peer ≡ true
    → Chosen fp
        (lookup peer (latest_keys last_used pins))
        (lookup peer (latest_keys last_used ((fp, entry) ∷ pins)))
unfolding latest_keys
own_latest_key last_used fp entry pins peer same =
    let rest = latest_keys last_used pins in
    own_latest last_used fp entry.peer peer (lookup entry.peer rest) rest same
      (ap (λ k. lookup k rest) (sym ((bytes_beq_iff entry.peer peer).0 same)))

-- The latest key of a peer is one of its pins.
latest_is_pin :
    (last_used : List (Bytes × ℕ)) (pins : Pins) (peer fp : Bytes)
    → lookup peer (latest_keys last_used pins) ≡ some fp
    → is_pin_of fp peer pins ≡ true
unfolding latest_keys any lookup
latest_is_pin last_used [] peer fp h = cc
latest_is_pin last_used ((k, entry) ∷ pins) peer fp h =
    let rest = latest_keys last_used pins in
    elim (Bool-cases (bytes_beq entry.peer peer)) [
      | inl same ↦ elim (own_latest_key last_used k entry pins peer same) [
        | new behind ↦
            let chosen : some k ≡ some fp = sym behind ∙ h in
            let name : k ≡ fp = cc in ground (arith, (bytes_beq_iff k fp).1 name)
        | old previous before behind ↦
            ground (arith, latest_is_pin last_used pins peer fp (before ∙ sym behind ∙ h))
      ]
      | inr other ↦ ground (
        arith,
        latest_is_pin last_used pins peer fp (
            sym (lookup-with_latest last_used k entry.peer peer (lookup entry.peer rest) rest other)
            ∙ h),
      )
    ]

-- A peer with a pin has a latest key.
latest_found :
    (last_used : List (Bytes × ℕ)) (pins : Pins) (peer : Bytes)
    → has_key peer pins ≡ true
    → (fp : Bytes) × (lookup peer (latest_keys last_used pins) ≡ some fp)
unfolding latest_keys any
latest_found last_used [] peer h = cc
latest_found last_used ((k, entry) ∷ pins) peer h =
    let rest = latest_keys last_used pins in
    elim (Bool-cases (bytes_beq entry.peer peer)) [
      | inl same ↦ elim (own_latest_key last_used k entry pins peer same) [
        | new behind ↦ (k, behind)
        | old previous before behind ↦ (previous, behind)
      ]
      | inr other ↦
          let later = latest_found last_used pins peer (ground arith) in
          (
            later.0,
            lookup-with_latest last_used k entry.peer peer (lookup entry.peer rest) rest other
                ∙ later.1,
          )
    ]

-- The latest key of a peer stays.
fresh_pins-has_key :
    (m : Manager) (latest : List (Bytes × Bytes)) (now : ℕ) (peer fp : Bytes) (pins : Pins)
    → lookup peer latest ≡ some fp
    → is_pin_of fp peer pins ≡ true
    → has_key peer (fresh_pins m latest now pins) ≡ true
unfolding fresh_pins any
fresh_pins-has_key m latest now peer fp [] known h = cc
fresh_pins-has_key m latest now peer fp ((k, entry) ∷ pins) known h =
    elim (Bool-cases (bytes_beq k fp && bytes_beq entry.peer peer)) [
      | inl own ↦
          let name : k ≡ fp = (bytes_beq_iff k fp).0 (ground arith) in
          let same : bytes_beq entry.peer peer ≡ true = ground arith in
          let chosen : is_key k (lookup entry.peer latest) ≡ true =
            ap (λ p. is_key k (lookup p latest)) ((bytes_beq_iff entry.peer peer).0 same)
            ∙ ap (is_key k) known
            ∙ (bytes_beq_iff fp k).1 (sym name) in
          let stays : is_idle m latest now k entry ≡ false = ground arith in
          ap
            (λ b. has_key peer (
              if b
              then fresh_pins m latest now pins
              else (k, entry) ∷ fresh_pins m latest now pins))
            stays
          ∙ ap (λ b. b || has_key peer (fresh_pins m latest now pins)) same
      | inr other ↦
          let rest : has_key peer (fresh_pins m latest now pins) ≡ true =
            fresh_pins-has_key m latest now peer fp pins known (ground arith) in
          if_cases (λ ps. has_key peer ps ≡ true) (is_idle m latest now k entry) (λ _. rest)
            (λ _. ground arith)
    ]

-- Whatever the times of use, a peer with a pinned key has one behind a purge of idle keys.
pub purge_keeps_peers :
    (now : ℕ) (m : Manager) (peer : Bytes)
    → has_key peer m.pins ≡ true
    → has_key peer (purge_idle now m).1.pins ≡ true
unfolding purge_idle
purge_keeps_peers now m peer h =
    let latest = latest_keys m.last_used m.pins in
    let chosen = latest_found m.last_used m.pins peer h in
    if_cases (λ (r : List Bytes × Manager). has_key peer r.1.pins ≡ true) (m.idle_timeout == 0)
      (λ _. h)
      (λ _.
        fresh_pins-has_key m latest now peer chosen.0 m.pins chosen.1
          (latest_is_pin m.last_used m.pins peer chosen.0 chosen.1))
