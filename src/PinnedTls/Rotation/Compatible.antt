-- ===== src/PinnedTls/Rotation/Compatible.antt =====
-- src/internal/pinnedtls/rotation_store.go: pins that compatibleRotationPins lets pass have the same
-- peers.
use air_gap.Common.{
  Bytes, ◌≡◌, refl, [], ◌∷◌, true, false, Option, none, some, ◌||◌, if◌then◌else◌, Bool-cases, inl,
  inr, arith, ap, sym, ◌∙◌,
}
use air_gap.Common.Maps.{bytes_eq, lookup, bytes_beq, bytes_beq_iff}
use air_gap.PinnedTls.{Entry, Pins, Manager, is_of}
use air_gap.PinnedTls.Rotation.{is_known, keeps_active, adds_nothing, are_compatible}

-- The peer that a key is pinned for
abbrev pub peer_of : Option Entry → Option Bytes
peer_of none = none
peer_of (some entry) = some entry.peer

abbrev pub peer_at : Bytes → Manager → Option Bytes
peer_at fp m = peer_of (lookup fp m.pins)

pub peer_of-is_of : (peer : Bytes) (o : Option Entry) → is_of peer o ≡ true → peer_of o ≡ some peer
peer_of-is_of peer none h = cc
peer_of-is_of peer (some entry) h = ap (λ p. some p) ((bytes_beq_iff entry.peer peer).0 h)

lookup-keeps_active :
    (r : Bytes) (disk active : Pins) (fp : Bytes) (entry : Entry)
    → keeps_active r disk active ≡ true
    → bytes_beq fp r ≡ false
    → lookup fp active ≡ some entry
    → is_of entry.peer (lookup fp disk) ≡ true
unfolding keeps_active lookup
lookup-keeps_active r disk [] fp entry kept other h = cc
lookup-keeps_active r disk ((k, e) ∷ active) fp entry kept other h =
    elim (Bool-cases (bytes_beq k fp)) [
      | inl same ↦
          let name : k ≡ fp = (bytes_beq_iff k fp).0 same in
          let own : some e ≡ some entry =
            sym (ap (λ b. if b then some e else lookup fp active) same) ∙ h in
          let it : e ≡ entry = cc in
          let first : bytes_beq k r || is_of e.peer (lookup k disk) ≡ true = ground arith in
          let unlike : bytes_beq k r ≡ false = ap (λ n. bytes_beq n r) name ∙ other in
          let found : is_of e.peer (lookup k disk) ≡ true =
            sym (ap (λ b. b || is_of e.peer (lookup k disk)) unlike) ∙ first in
          sym (ap (λ (x : Entry). is_of x.peer (lookup fp disk)) it)
          ∙ sym (ap (λ n. is_of e.peer (lookup n disk)) name)
          ∙ found
      | inr differs ↦
          lookup-keeps_active r disk active fp entry (ground arith) other
            (sym (ap (λ b. if b then some e else lookup fp active) differs) ∙ h)
    ]

lookup-adds_nothing :
    (r : Bytes) (active disk : Pins) (fp : Bytes) (entry : Entry)
    → adds_nothing r active disk ≡ true
    → bytes_beq fp r ≡ false
    → lookup fp disk ≡ some entry
    → is_known (lookup fp active) ≡ true
unfolding adds_nothing lookup
lookup-adds_nothing r active [] fp entry added other h = cc
lookup-adds_nothing r active ((k, e) ∷ disk) fp entry added other h =
    elim (Bool-cases (bytes_beq k fp)) [
      | inl same ↦
          let name : k ≡ fp = (bytes_beq_iff k fp).0 same in
          let first : bytes_beq k r || is_known (lookup k active) ≡ true = ground arith in
          let unlike : bytes_beq k r ≡ false = ap (λ n. bytes_beq n r) name ∙ other in
          sym (ap (λ n. is_known (lookup n active)) name)
          ∙ sym (ap (λ b. b || is_known (lookup k active)) unlike)
          ∙ first
      | inr differs ↦
          lookup-adds_nothing r active disk fp entry (ground arith) other
            (sym (ap (λ b. if b then some e else lookup fp disk) differs) ∙ h)
    ]

-- Compatible pins have the same peers for all keys but the replacement.
pub compatible_peers :
    (r : Bytes) (active disk : Pins) (fp : Bytes) (a d : Option Entry)
    → are_compatible active disk r ≡ true
    → bytes_beq fp r ≡ false
    → lookup fp active ≡ a
    → lookup fp disk ≡ d
    → peer_of d ≡ peer_of a
compatible_peers r active disk fp (some e) d h other in_active in_disk = peer_of-is_of e.peer d (
    sym (ap (is_of e.peer) in_disk)
    ∙ lookup-keeps_active r disk active fp e (ground arith) other in_active)
compatible_peers r active disk fp none none h other in_active in_disk = refl
compatible_peers r active disk fp none (some d) h other in_active in_disk =
    let clash : false ≡ true =
      ap is_known (sym in_active)
      ∙ lookup-adds_nothing r active disk fp d (ground arith) other in_disk in
    cc
