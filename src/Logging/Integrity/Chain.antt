-- ===== src/Logging/Integrity/Chain.antt =====
-- The log that writeEventLocked of src/logging/logging.go writes is one that a reader can verify.
use air_gap.Common.{
  if◌then◌else◌, Bytes, ℕ, suc, ◌+◌, ◌*◌, ◌≤◌, ◌<◌, List, [], ◌∷◌, ◌++◌, ◌≡◌, refl, sym, ap, ◌∙◌,
  true, Option, none, some, length, map, length-append, arith, if_cases,
}
use mathlib.Core.Path.{subst}
use air_gap.Logging.Integrity.{
  Event, IntegrityState, Link, Stamp, Line, u64, advance_chain, chaining_enabled, linked, unlinked,
  with_some, stamp, anchor_due, anchor_event, finish_anchor, write_anchor, write_event,
  write_events,
}

-- A line that a reader accepts behind the chain value `c` and under the number `n`.
pub record IsLinked (hash : Bytes → Bytes) (c : Bytes) (n : ℕ) (l : Line) : Type 0 where
  pub the_stamp : Stamp
  pub the_link : Link
  pub stamped : l.stamped ≡ some the_stamp
  pub number : the_stamp.seq ≡ n
  pub body : the_stamp.hash ≡ hash l.event.body
  pub linked : the_stamp.link ≡ some the_link
  pub behind : the_link.previous ≡ c
  pub value : the_link.chain ≡ advance_chain hash c n l.event

-- The lines follow one another: each number is one more, and each line links to the one before.
pub Verifies : (Bytes → Bytes) → Bytes → ℕ → List Line → Type 0
Verifies hash c n [] = Unit
Verifies hash c n (l ∷ lines) =
    IsLinked hash c n l × Verifies hash (advance_chain hash c n l.event) (n + 1) lines

-- The chain value behind records that begin with the number `n`.
unfoldable pub chain_after : (Bytes → Bytes) → Bytes → ℕ → List Event → Bytes
chain_after hash c n [] = c
chain_after hash c n (e ∷ events) = chain_after hash (advance_chain hash c n e) (n + 1) events

abbrev pub event_of : Line → Event
event_of l = l.event

-- What a run from `s` to `t` has written.
pub record HasWritten (s : IntegrityState) (lines : List Line) (t : IntegrityState) : Type 0 where
  pub verifies : Verifies s.hash s.chain s.seq lines
  pub chain : t.chain ≡ chain_after s.hash s.chain s.seq (map event_of lines)
  pub seq : t.seq ≡ s.seq + length lines
  pub hash : t.hash ≡ s.hash
  pub enabled : t.enabled ≡ s.enabled
  pub chain_len : t.chain_len ≡ s.chain_len

Verifies-append :
    (hash : Bytes → Bytes) (xs ys : List Line) (c : Bytes) (n : ℕ)
    → Verifies hash c n xs
    → Verifies hash (chain_after hash c n (map event_of xs)) (n + length xs) ys
    → Verifies hash c n (xs ++ ys)
unfolding Verifies chain_after
Verifies-append hash [] ys c n v w =
    subst (λ k. Verifies hash c k ys) (let e : n + 0 ≡ n = omega arith in e) w
Verifies-append hash (x ∷ xs) ys c n v w = (
  v.0,
  Verifies-append hash xs ys _ (n + 1) v.1 (
      subst (λ k. Verifies hash (chain_after hash c n (map event_of (x ∷ xs))) k ys)
        (let e : n + suc (length xs) ≡ n + 1 + length xs = omega arith in e) w),
)

chain_after-append :
    (hash : Bytes → Bytes) (xs ys : List Line) (c : Bytes) (n : ℕ)
    → chain_after hash c n (map event_of (xs ++ ys))
      ≡ chain_after hash (chain_after hash c n (map event_of xs)) (n + length xs) (map event_of ys)
unfolding chain_after
chain_after-append hash [] ys c n =
    ap (λ k. chain_after hash c k (map event_of ys)) (let e : n ≡ n + 0 = omega arith in e)
chain_after-append hash (x ∷ xs) ys c n =
    chain_after-append hash xs ys _ (n + 1)
    ∙ ap (λ k. chain_after hash (chain_after hash c n (map event_of (x ∷ xs))) k (map event_of ys))
        (let e : n + 1 + length xs ≡ n + suc (length xs) = omega arith in e)

HasWritten-append :
    (s t u : IntegrityState) (xs ys : List Line)
    → HasWritten s xs t
    → HasWritten t ys u
    → HasWritten s (xs ++ ys) u
HasWritten-append s t u xs ys a b =
    let with_hash = subst (λ h. Verifies h t.chain t.seq ys) a.hash b.verifies in
    let with_chain = subst (λ c. Verifies s.hash c t.seq ys) a.chain with_hash in
    let with_seq =
      subst (λ n. Verifies s.hash (chain_after s.hash s.chain s.seq (map event_of xs)) n ys) a.seq
        with_chain in
    record {
      verifies = Verifies-append s.hash xs ys s.chain s.seq a.verifies with_seq;
      chain =
          b.chain
          ∙ ap (λ h. chain_after h t.chain t.seq (map event_of ys)) a.hash
          ∙ ap (λ c. chain_after s.hash c t.seq (map event_of ys)) a.chain
          ∙ ap
              (λ n.
                chain_after s.hash (chain_after s.hash s.chain s.seq (map event_of xs)) n
                  (map event_of ys))
              a.seq
          ∙ sym (chain_after-append s.hash xs ys s.chain s.seq);
      seq = omega (arith, a.seq, b.seq, length-append xs ys);
      hash = b.hash ∙ a.hash;
      enabled = b.enabled ∙ a.enabled;
      chain_len = b.chain_len ∙ a.chain_len;
    }

HasWritten-one :
    (s t : IntegrityState) (e : Event) (range : Option (ℕ × ℕ)) (stamped : Option Stamp)
    → stamped ≡ some (linked s e).0
    → t.hash ≡ s.hash
    → t.enabled ≡ s.enabled
    → t.chain_len ≡ s.chain_len
    → t.seq ≡ s.seq + 1
    → t.chain ≡ advance_chain s.hash s.chain s.seq e
    → HasWritten s (record { event = e; stamped = stamped; range = range } ∷ []) t
unfolding Verifies chain_after
HasWritten-one s t e range stamped is h en len seq chain = record {
  verifies = (
    record {
      the_stamp = (linked s e).0;
      the_link = record {
        previous = s.chain;
        chain = advance_chain s.hash s.chain s.seq e;
        restart = s.restart_pending;
      };
      stamped = is;
      number = refl;
      body = refl;
      linked = refl;
      behind = refl;
      value = refl;
    },
    tt,
  );
  chain = chain;
  seq = seq;
  hash = h;
  enabled = en;
  chain_len = len;
}

chaining_enabled-true : (s : IntegrityState) → chaining_enabled s ≡ true → s.enabled ≡ true
unfolding chaining_enabled
chaining_enabled-true s chaining = ground arith

pub stamp-linked :
    (s : IntegrityState) (e : Event)
    → chaining_enabled s ≡ true
    → stamp s e ≡ (some (linked s e).0, (linked s e).1)
unfolding stamp
stamp-linked s e chaining =
    ap
      (λ b.
        if b
        then with_some (if chaining_enabled s then linked s e else unlinked s e)
        else (none, s))
      (chaining_enabled-true s chaining)
    ∙ ap (λ b. with_some (if b then linked s e else unlinked s e)) chaining

write_anchor-HasWritten :
    (s : IntegrityState) (now : ℕ)
    → chaining_enabled s ≡ true
    → s.seq + 1 < 18446744073709551616
    → HasWritten s ((write_anchor now s).0 ∷ []) (write_anchor now s).1
unfolding write_anchor chaining_enabled
write_anchor-HasWritten s now chaining few =
    let s' = record s { anchor_from = u64 (s.seq + 1) } in
    let same = stamp-linked s' (anchor_event now) chaining in
    rw same (
      HasWritten-one s (finish_anchor (linked s' (anchor_event now)).1) (anchor_event now)
        (some (s.anchor_from, s.seq)) _ refl refl refl refl (omega arith) refl)

stamp-HasWritten :
    (s : IntegrityState) (e : Event)
    → s.seq + 1 < 18446744073709551616
    → HasWritten s
        (record { event = e; stamped = some (linked s e).0; range = none } ∷ [])
        (linked s e).1
stamp-HasWritten s e few =
    HasWritten-one s (linked s e).1 e none _ refl refl refl refl (omega arith) refl

write_event-HasWritten :
    (s : IntegrityState) (e : Event)
    → chaining_enabled s ≡ true
    → s.seq + 2 < 18446744073709551616
    → HasWritten s (write_event s e).0 (write_event s e).1
unfolding write_event
write_event-HasWritten s e chaining few =
    let t = (linked s e).1 in
    let one = stamp-HasWritten s e (omega arith) in
    rw (stamp-linked s e chaining) (
      if_cases (λ (r : List Line × IntegrityState). HasWritten s r.0 r.1) (anchor_due t)
        (λ _. HasWritten-append s t _ _ _ one (
          write_anchor-HasWritten t e.time (unfold chaining_enabled in chaining)
            (omega (arith, one.seq))))
        (λ _. one))

pub length-write_event : (s : IntegrityState) (e : Event) → length (write_event s e).0 ≤ 2
unfolding write_event
length-write_event s e =
    if_cases (λ (r : List Line × IntegrityState). length r.0 ≤ 2) (anchor_due (stamp s e).1)
      (λ _. omega arith) (λ _. omega arith)

pub length-write_events :
    (events : List Event) (s : IntegrityState)
    → length (write_events s events).0 ≤ 2 * length events
unfolding write_events
length-write_events [] s = omega arith
length-write_events (e ∷ events) s = omega (
  arith,
  length-append (write_event s e).0 (write_events (write_event s e).1 events).0,
  length-write_event s e,
  length-write_events events (write_event s e).1,
)

-- While chaining is on and the numbers do not wrap, the lines of a run, anchors included, can be
-- verified: the numbers go on by one from that of the state, each line has the hash of its body,
-- links to the chain value of the line before, and carries the next value; the state holds the last.
pub write_events-HasWritten :
    (events : List Event) (s : IntegrityState)
    → chaining_enabled s ≡ true
    → s.seq + 2 * length events < 18446744073709551616
    → HasWritten s (write_events s events).0 (write_events s events).1
unfolding write_events Verifies chain_after
write_events-HasWritten [] s chaining few = record {
  verifies = tt;
  chain = refl;
  seq = omega arith;
  hash = refl;
  enabled = refl;
  chain_len = refl;
}
write_events-HasWritten (e ∷ events) s chaining few =
    let one = write_event-HasWritten s e chaining (omega arith) in
    let on : chaining_enabled (write_event s e).1 ≡ true =
      unfold chaining_enabled in rw (one.enabled, one.chain_len) chaining in
    HasWritten-append s (write_event s e).1 _ _ _ one (
      write_events-HasWritten events (write_event s e).1 on
        (omega (arith, one.seq, length-write_event s e)))
