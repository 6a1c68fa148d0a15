-- ===== src/Logging/Integrity/Anchors.antt =====
-- The ranges of the anchors in src/logging/integrity.go.
use air_gap.Common.{
  Bytes, ℕ, ◌+◌, ◌*◌, ◌≤◌, ◌<◌, List, [], ◌∷◌, ◌++◌, ◌≡◌, refl, true, false, Option, none, some,
  length, arith, if_cases,
}
use mathlib.Core.Path.{subst}
use air_gap.Logging.Integrity.{
  and_anchor, Event, IntegrityState, Line, u64, chaining_enabled, linked, anchor_due, anchor_event,
  write_anchor, write_event, write_events, reset_chain,
}
use air_gap.Logging.Integrity.Chain.{stamp-linked}

-- A window is open: its first number, and how far it has come.
pub record IsOpen (s : IntegrityState) : Type 0 where
  pub place : s.seq ≡ s.anchor_from + s.since_anchor
  pub room : s.since_anchor < s.chain_len

-- The ranges follow one another from the number `n` on, and each has as many numbers before the
-- anchor's own as the chain is long.
pub Covers : ℕ → ℕ → List (ℕ × ℕ) → Type 0
Covers width n [] = Unit
Covers width n ((from, to) ∷ ranges) =
    ((from ≡ n) × (to ≡ n + width)) × Covers width (n + width + 1) ranges

abbrev push_range : Option (ℕ × ℕ) → List (ℕ × ℕ) → List (ℕ × ℕ)
push_range none ranges = ranges
push_range (some range) ranges = range ∷ ranges

-- The ranges of the anchors among the lines.
pub ranges_of : List Line → List (ℕ × ℕ)
ranges_of [] = []
ranges_of (l ∷ lines) = push_range l.range (ranges_of lines)

-- What one record does to the window: it leaves it open, or an anchor closes it and opens the next.
record StepsOn (s : IntegrityState) (r : List Line × IntegrityState) : Type 0 where
  window : IsOpen r.1
  on : chaining_enabled r.1 ≡ true
  width : r.1.chain_len ≡ s.chain_len
  seq : r.1.seq ≤ s.seq + 2
  closes :
      (rest : List Line)
      → Covers s.chain_len r.1.anchor_from (ranges_of rest)
      → Covers s.chain_len s.anchor_from (ranges_of (r.0 ++ rest))

due-reached : (s : IntegrityState) → anchor_due s ≡ true → s.chain_len ≤ s.since_anchor
unfolding anchor_due
due-reached s due = ground arith

not_due-below :
    (s : IntegrityState)
    → chaining_enabled s ≡ true
    → anchor_due s ≡ false
    → s.since_anchor < s.chain_len
unfolding anchor_due
not_due-below s chaining early = ground arith

chain_len_positive : (s : IntegrityState) → chaining_enabled s ≡ true → 0 < s.chain_len
unfolding chaining_enabled
chain_len_positive s chaining = ground arith

anchor-StepsOn :
    (s : IntegrityState) (e : Event)
    → chaining_enabled s ≡ true
    → IsOpen s
    → s.seq + 2 < 18446744073709551616
    → s.chain_len ≤ s.since_anchor + 1
    → StepsOn s (
        and_anchor
          (record { event = e; stamped = some (linked s e).0; range = none })
          (write_anchor e.time (linked s e).1))
unfolding write_anchor Covers ranges_of
anchor-StepsOn s e chaining window few due =
    let t = (linked s e).1 in
    let t' = record t { anchor_from = u64 (t.seq + 1) } in
    let on : chaining_enabled t' ≡ true = unfold chaining_enabled in chaining in
    rw (stamp-linked t' (anchor_event e.time) on) (record {
      window = record {
        place = omega (arith, window.place, window.room);
        room = chain_len_positive s chaining;
      };
      on = unfold chaining_enabled in chaining;
      width = refl;
      seq = omega arith;
      closes = λ rest c. (
        (refl, omega (arith, window.place, window.room)),
        subst (λ n. Covers s.chain_len n (ranges_of rest))
            (let same : u64 (u64 (s.seq + 1) + 1) ≡ s.anchor_from + s.chain_len + 1 =
                omega (arith, window.place, window.room) in
              same)
            c,
      );
    })

write_event-StepsOn :
    (s : IntegrityState) (e : Event)
    → chaining_enabled s ≡ true
    → IsOpen s
    → s.seq + 2 < 18446744073709551616
    → StepsOn s (write_event s e)
unfolding write_event ranges_of
write_event-StepsOn s e chaining window few =
    let t = (linked s e).1 in
    let on : chaining_enabled t ≡ true = unfold chaining_enabled in chaining in
    rw (stamp-linked s e chaining) (
      if_cases (StepsOn s) (anchor_due t)
        (λ due. anchor-StepsOn s e chaining window few (due-reached t due))
        (λ early. record {
          window = record { place = omega (arith, window.place); room = not_due-below t on early };
          on = on;
          width = refl;
          seq = omega arith;
          closes = λ rest c. c;
        }))

-- While chaining is on and the numbers do not wrap, the anchors of a run from an open window cover
-- all numbers from the first of the window on, without a gap or an overlap: each one names the number
-- behind the anchor before it and its own number, and there are as many records between as the
-- chain is long.
pub write_events-Covers :
    (events : List Event) (s : IntegrityState)
    → chaining_enabled s ≡ true
    → IsOpen s
    → s.seq + 2 * length events < 18446744073709551616
    → Covers s.chain_len s.anchor_from (ranges_of (write_events s events).0)
unfolding write_events Covers ranges_of
write_events-Covers [] s on window few = tt
write_events-Covers (e ∷ events) s on window few =
    let step = write_event-StepsOn s e on window (omega arith) in
    step.closes (write_events (write_event s e).1 events).0 (
      subst
        (λ w.
          Covers w (write_event s e).1.anchor_from
            (ranges_of (write_events (write_event s e).1 events).0))
        step.width
        (write_events-Covers events (write_event s e).1 step.on step.window
          (omega (arith, step.seq))))

-- resetChain opens a window, whatever was before.
pub reset_chain-IsOpen :
    (first : Bytes) (s : IntegrityState) → 0 < s.chain_len → IsOpen (reset_chain first s)
unfolding reset_chain
reset_chain-IsOpen first s long = record { place = omega arith; room = long }
