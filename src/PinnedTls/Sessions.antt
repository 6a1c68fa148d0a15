-- ===== src/PinnedTls/Sessions.antt =====
-- src/internal/pinnedtls: an open session has a key that is pinned for its peer.
use air_gap.Common.{
  Bytes, ℕ, ◌≡◌, refl, List, [], ◌∷◌, true, false, Option, none, some, not, ◌&&◌, ◌==◌,
  if◌then◌else◌, if_cases, Bool-cases, inl, inr, arith, ap, sym, ◌∙◌,
}
use air_gap.Common.Members.{any}
use air_gap.Common.Maps.{
  nat_eq, bytes_eq, lookup, delete, bytes_beq, bytes_beq_iff, beq_refl, lookup-insert,
  lookup-delete,
}
use air_gap.PinnedTls.{
  Entry, Pins, Certificate, Authorization, Manager, authorized, authorize, admit_authorized, admit,
  forgotten, forget, reset_idle, is_of, is_pinned, is_connected, is_authorized, still_authorized,
  activate,
}
use air_gap.PinnedTls.Aging.{
  latest_keys, is_idle, fresh_pins, purge_idle, Call, admits, forgets, activates, starts_aging,
  ticks, call, call_all, new_manager,
}

-- The key of every session is pinned, and for the peer that the session was admitted as.
abbrev pub AreAuthorized : Manager → Type 0
AreAuthorized m =
    (conn : ℕ) (auth : Authorization)
    → lookup conn m.sessions ≡ some auth
    → is_authorized m.pins auth ≡ true

lookup-authorized :
    (pins : Pins) (k fp : Bytes) (o : Option Entry) (entry : Entry)
    → lookup k pins ≡ o
    → authorized k o ≡ some (fp, entry)
    → lookup fp pins ≡ some entry
lookup-authorized pins k fp none entry known h = cc
lookup-authorized pins k fp (some found) entry known h =
    let own : (k, found) ≡ (fp, entry) = cc in
    sym (ap (λ (p : Bytes × Entry). lookup p.0 pins) own)
    ∙ known
    ∙ ap (λ (p : Bytes × Entry). some p.1) own

lookup-authorize :
    (fingerprint_of : Bytes → Bytes) (pins : Pins) (c : Option Certificate) (fp : Bytes)
    (entry : Entry)
    → authorize fingerprint_of pins c ≡ some (fp, entry)
    → lookup fp pins ≡ some entry
lookup-authorize fingerprint_of pins none fp entry h = cc
lookup-authorize fingerprint_of pins (some c) fp entry h = elim (Bool-cases c.is_valid) [
  | inl valid ↦
      lookup-authorized pins (fingerprint_of c.spki) fp (lookup (fingerprint_of c.spki) pins) entry
        refl
        (sym (
            ap
              (λ b.
                if b
                then authorized (fingerprint_of c.spki) (lookup (fingerprint_of c.spki) pins)
                else none)
              valid)
          ∙ h)
  | inr other ↦
      let clash : none ≡ some (fp, entry) =
        sym (
          ap
            (λ b.
              if b
              then authorized (fingerprint_of c.spki) (lookup (fingerprint_of c.spki) pins)
              else none)
            other)
        ∙ h in
      cc
]

admit_authorized-AreAuthorized :
    (conn now : ℕ) (o : Option (Bytes × Entry)) (m : Manager)
    → ((fp : Bytes) (entry : Entry) → o ≡ some (fp, entry) → lookup fp m.pins ≡ some entry)
    → AreAuthorized m
    → AreAuthorized (admit_authorized conn now o m).1
admit_authorized-AreAuthorized conn now none m known inv = inv
admit_authorized-AreAuthorized conn now (some (fp, entry)) m known inv = λ k auth h.
    let new : Authorization = record { fingerprint = fp; peer = entry.peer } in
    let found : (if conn == k then some new else lookup k m.sessions) ≡ some auth =
      sym (lookup-insert conn k new m.sessions) ∙ h in
    elim (Bool-cases (conn == k)) [
      | inl same ↦
          let own : some new ≡ some auth =
            sym (ap (λ b. if b then some new else lookup k m.sessions) same) ∙ found in
          let it : new ≡ auth = cc in
          sym (ap (λ a. is_authorized m.pins a) it)
          ∙ ap (is_of entry.peer) (known fp entry refl)
          ∙ beq_refl {K = Bytes} entry.peer
      | inr other ↦
          inv k auth (sym (ap (λ b. if b then some new else lookup k m.sessions) other) ∙ found)
    ]

admit-AreAuthorized :
    (fingerprint_of : Bytes → Bytes) (conn : ℕ) (c : Option Certificate) (now : ℕ) (m : Manager)
    → AreAuthorized m
    → AreAuthorized (admit fingerprint_of conn c now m).1
unfolding admit
admit-AreAuthorized fingerprint_of conn c now m inv =
    admit_authorized-AreAuthorized conn now (authorize fingerprint_of m.pins c) m
      (lookup-authorize fingerprint_of m.pins c) inv

forgotten-AreAuthorized :
    (now : ℕ) (o : Option Authorization) (m : Manager)
    → AreAuthorized m
    → AreAuthorized (forgotten now o m)
forgotten-AreAuthorized now none m inv = inv
forgotten-AreAuthorized now (some auth) m inv =
    if_cases AreAuthorized
      (not (is_connected m.sessions auth.fingerprint)
        && is_pinned auth.fingerprint (lookup auth.fingerprint m.pins))
      (λ _. inv) (λ _. inv)

forget-AreAuthorized :
    (conn now : ℕ) (m : Manager) → AreAuthorized m → AreAuthorized (forget conn now m)
unfolding forget
forget-AreAuthorized conn now m inv =
    forgotten-AreAuthorized now (lookup conn m.sessions)
      (record m { sessions = delete conn m.sessions })
      (λ k auth h.
        let found : (if conn == k then none else lookup k m.sessions) ≡ some auth =
          sym (lookup-delete conn k m.sessions) ∙ h in
        inv k auth (ground arith))

lookup-still_authorized :
    (pins : Pins) (sessions : List (ℕ × Authorization)) (conn : ℕ) (auth : Authorization)
    → lookup conn (still_authorized pins sessions) ≡ some auth
    → is_authorized pins auth ≡ true
unfolding still_authorized lookup
lookup-still_authorized pins [] conn auth h = cc
lookup-still_authorized pins ((c, a) ∷ sessions) conn auth h =
    grind (arith, lookup-still_authorized pins sessions conn auth)

is_connected-lookup :
    (sessions : List (ℕ × Authorization)) (conn : ℕ) (auth : Authorization)
    → lookup conn sessions ≡ some auth
    → is_connected sessions auth.fingerprint ≡ true
unfolding lookup any
is_connected-lookup [] conn auth h = cc
is_connected-lookup ((c, a) ∷ sessions) conn auth h = elim (Bool-cases (c == conn)) [
  | inl same ↦
      let own : some a ≡ some auth =
        sym (ap (λ b. if b then some a else lookup conn sessions) same) ∙ h in
      let fp : a.fingerprint ≡ auth.fingerprint = cc in
      ground (arith, (bytes_beq_iff a.fingerprint auth.fingerprint).1 fp)
  | inr other ↦
      let later : lookup conn sessions ≡ some auth =
        sym (ap (λ b. if b then some a else lookup conn sessions) other) ∙ h in
      ground (arith, is_connected-lookup sessions conn auth later)
]

-- A key with an open session does not age out.
lookup-fresh_pins :
    (m : Manager) (latest : List (Bytes × Bytes)) (now : ℕ) (fp : Bytes) (pins : Pins)
    → is_connected m.sessions fp ≡ true
    → lookup fp (fresh_pins m latest now pins) ≡ lookup fp pins
unfolding fresh_pins lookup
lookup-fresh_pins m latest now fp [] connected = refl
lookup-fresh_pins m latest now fp ((k, entry) ∷ pins) connected =
    let rest = lookup-fresh_pins m latest now fp pins connected in
    elim (Bool-cases (bytes_beq k fp)) [
      | inl same ↦
          let used : is_connected m.sessions k ≡ true =
            ap (is_connected m.sessions) ((bytes_beq_iff k fp).0 same) ∙ connected in
          let stays : is_idle m latest now k entry ≡ false = ground arith in
          ap
            (λ b. lookup fp (
              if b
              then fresh_pins m latest now pins
              else (k, entry) ∷ fresh_pins m latest now pins))
            stays
          ∙ ap (λ o. if bytes_beq k fp then some entry else o) rest
      | inr other ↦
          if_cases (λ ps. lookup fp ps ≡ (if bytes_beq k fp then some entry else lookup fp pins))
            (is_idle m latest now k entry)
            (λ _. rest ∙ sym (ap (λ b. if b then some entry else lookup fp pins) other))
            (λ _. ap (λ o. if bytes_beq k fp then some entry else o) rest)
    ]

call-AreAuthorized :
    (fingerprint_of : Bytes → Bytes) (c : Call) (m : Manager)
    → AreAuthorized m
    → AreAuthorized (call fingerprint_of c m)
unfolding activate reset_idle purge_idle
call-AreAuthorized fingerprint_of (admits conn c now) m inv =
    admit-AreAuthorized fingerprint_of conn c now m inv
call-AreAuthorized fingerprint_of (forgets conn now) m inv = forget-AreAuthorized conn now m inv
call-AreAuthorized fingerprint_of (activates closes pins now) m inv =
    lookup-still_authorized pins m.sessions
call-AreAuthorized fingerprint_of (starts_aging seconds) m inv = inv
call-AreAuthorized fingerprint_of (ticks now) m inv =
    let latest = latest_keys m.last_used m.pins in
    if_cases (λ (r : List Bytes × Manager). AreAuthorized r.1) (m.idle_timeout == 0) (λ _. inv)
      (λ _ conn auth h.
        ap (is_of auth.peer) (
          lookup-fresh_pins m latest now auth.fingerprint m.pins
            (is_connected-lookup m.sessions conn auth h))
        ∙ inv conn auth h)

call_all-AreAuthorized :
    (fingerprint_of : Bytes → Bytes) (cs : List Call) (m : Manager)
    → AreAuthorized m
    → AreAuthorized (call_all fingerprint_of cs m)
unfolding call_all
call_all-AreAuthorized fingerprint_of [] m inv = inv
call_all-AreAuthorized fingerprint_of (c ∷ cs) m inv =
    call_all-AreAuthorized fingerprint_of cs (call fingerprint_of c m)
      (call-AreAuthorized fingerprint_of c m inv)

-- From a new manager, in every run of admissions, ends of connections, reloads and purges of idle
-- keys, whatever the times and certificates: each open session has a key that is pinned now, for the
-- peer that the session was admitted as.
pub sessions-AreAuthorized :
    (fingerprint_of : Bytes → Bytes) (pins : Pins) (now : ℕ) (cs : List Call)
    → AreAuthorized (call_all fingerprint_of cs (new_manager pins now))
unfolding lookup reset_idle
sessions-AreAuthorized fingerprint_of pins now cs =
    call_all-AreAuthorized fingerprint_of cs (new_manager pins now) (λ conn auth h. cc)
