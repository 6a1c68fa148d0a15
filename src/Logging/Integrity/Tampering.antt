-- ===== src/Logging/Integrity/Tampering.antt =====
-- The chain of src/logging/integrity.go commits to the records: another log with the same last value
-- needs a collision of the hash.
use air_gap.Common.{
  All-append, Bytes, ℕ, zero, suc, ◌+◌, ◌*◌, ◌/◌, ◌%◌, ◌<◌, List, [], ◌∷◌, ◌++◌, ◌≡◌, ◌≢◌, ◌⊎◌,
  refl, sym, ap, ◌∙◌, true, Bool-cases, inl, inr, length, length-append, All, arith, ◌==◌,
  if◌then◌else◌, ap₂, map, if_cases,
}
use air_gap.Common.Maps.{bytes_beq, bytes_beq_iff}
use air_gap.Logging.Integrity.{
  LogLevel, trace, debug, info, warn, error, fatal, severity_number, severity_text, Event,
  put_bytes, chain_domain, framed, chain_input, advance_chain, IntegrityState, Line, write_events,
  chaining_enabled, write_event, write_anchor, anchor_due, stamp,
}
use air_gap.Logging.Integrity.Chain.{
  chain_after, event_of, write_events-HasWritten, length-write_events,
}

-- Two texts with the same hash.
pub record Collision (hash : Bytes → Bytes) : Type 0 where
  pub one : Bytes
  pub other : Bytes
  pub differ : one ≢ other
  pub collide : hash one ≡ hash other

same_or_Collision :
    (hash : Bytes → Bytes) (x y : Bytes) → hash x ≡ hash y → (x ≡ y) ⊎ Collision hash
same_or_Collision hash x y e = elim (Bool-cases (bytes_beq x y)) [
  | inl same ↦ inl ((bytes_beq_iff x y).0 same)
  | inr differ ↦ inr (record {
    one = x;
    other = y;
    differ = λ s. absurd (cc ((bytes_beq_iff x y).1 s, differ));
    collide = e;
  })
]

append_split : (a b c d : Bytes) → length a ≡ length b → a ++ c ≡ b ++ d → (a ≡ b) × (c ≡ d)
append_split [] [] c d l e = (refl, e)
append_split [] (y ∷ b) c d l e = absurd (omega arith)
append_split (x ∷ a) [] c d l e = absurd (omega arith)
append_split (x ∷ a) (y ∷ b) c d l e =
    let head : x ≡ y = cc e in
    let tail : a ++ c ≡ b ++ d = cc e in
    let (same, rest) = append_split a b c d (omega arith) tail in (rw (head, same), rest)

-- The numbers that fit the width.
abbrev range_of : ℕ → ℕ
range_of zero = 1
range_of (suc width) = 256 * range_of width

length-put_bytes : (width n : ℕ) → length (put_bytes width n) ≡ width
unfolding put_bytes
length-put_bytes ℕ.zero n = refl
length-put_bytes (suc width) n = omega (
  arith,
  length-append (put_bytes width (n / 256)) ((n % 256) ∷ []),
  length-put_bytes width (n / 256),
)

put_bytes-same :
    (width n m : ℕ)
    → n < range_of width
    → m < range_of width
    → put_bytes width n ≡ put_bytes width m
    → n ≡ m
unfolding put_bytes
put_bytes-same ℕ.zero n m h k e = omega arith
put_bytes-same (suc width) n m h k e =
    let (high, low) =
      append_split (put_bytes width (n / 256)) (put_bytes width (m / 256)) _ _
        (length-put_bytes width (n / 256) ∙ sym (length-put_bytes width (m / 256))) e in
    let last : n % 256 ≡ m % 256 = cc low in
    let first = put_bytes-same width (n / 256) (m / 256) (omega arith) (omega arith) high in
    omega arith

abbrev level_of : ℕ → LogLevel
level_of n =
    if n == 1
    then trace
    else if n == 5
    then debug
    else if n == 9
    then info
    else if n == 13
    then warn
    else if n == 17
    then error
    else fatal

level_of-severity_number : (l : LogLevel) → level_of (severity_number l) ≡ l
unfolding severity_number
level_of-severity_number trace = refl
level_of-severity_number debug = refl
level_of-severity_number info = refl
level_of-severity_number warn = refl
level_of-severity_number error = refl
level_of-severity_number fatal = refl

severity_number_small : (l : LogLevel) → severity_number l < 256
unfolding severity_number
severity_number_small trace = omega arith
severity_number_small debug = omega arith
severity_number_small info = omega arith
severity_number_small warn = omega arith
severity_number_small error = omega arith
severity_number_small fatal = omega arith

-- A time that fits a uint64.
abbrev pub IsTimed : Event → Type 0
IsTimed e = e.time < 18446744073709551616

-- What the bytes of two records tell when they are the same.
record SameInput (p q : Bytes) (n m : ℕ) (d e : Event) (hd he : Bytes) : Type 0 where
  previous : p ≡ q
  seq : n ≡ m
  time : d.time ≡ e.time
  level : d.level ≡ e.level
  payload : hd ≡ he

module _ (p q : Bytes) (n m : ℕ) (d e : Event) (hd he : Bytes) where
  abbrev input : Bytes → ℕ → Event → Bytes → Bytes
  input p n d hd = chain_input p n d.time (severity_number d.level) (severity_text d.level) hd

  chain_input-same :
      length p ≡ length q
      → n < 18446744073709551616
      → m < 18446744073709551616
      → IsTimed d
      → IsTimed e
      → input p n d hd ≡ input q m e he
      → SameInput p q n m d e hd he
  unfolding chain_input framed
  chain_input-same l wn wm wd we same =
      let (_, behind) = append_split chain_domain chain_domain _ _ refl same in
      let (_, rest) = append_split (0 ∷ []) (0 ∷ []) _ _ refl behind in
      let (previous, rest) = append_split p q _ _ l rest in
      let (numbers, rest) =
        append_split (put_bytes 8 n) (put_bytes 8 m) _ _
          (length-put_bytes 8 n ∙ sym (length-put_bytes 8 m)) rest in
      let (times, rest) =
        append_split (put_bytes 8 d.time) (put_bytes 8 e.time) _ _
          (length-put_bytes 8 d.time ∙ sym (length-put_bytes 8 e.time)) rest in
      let (severities, rest) =
        append_split (put_bytes 4 (severity_number d.level)) (put_bytes 4 (severity_number e.level))
          _ _
          (length-put_bytes 4 (severity_number d.level)
            ∙ sym (length-put_bytes 4 (severity_number e.level)))
          rest in
      let number =
        put_bytes-same 4 (severity_number d.level) (severity_number e.level)
          (omega (arith, severity_number_small d.level))
          (omega (arith, severity_number_small e.level)) severities in
      let level : d.level ≡ e.level =
        sym (level_of-severity_number d.level)
        ∙ ap level_of number
        ∙ level_of-severity_number e.level in
      let text = ap (λ v. length (framed (severity_text v))) level in
      let (_, payload) =
        append_split (framed (severity_text d.level)) (framed (severity_text e.level)) _ _ text
          rest in
      record {
        previous = previous;
        seq = put_bytes-same 8 n m (omega arith) (omega arith) numbers;
        time = put_bytes-same 8 d.time e.time (omega arith) (omega arith) times;
        level = level;
        payload = payload;
      }

Event-same : (d e : Event) → d.time ≡ e.time → d.level ≡ e.level → d.body ≡ e.body → d ≡ e
Event-same d e t l b = λ i. record { time = t i; level = l i; body = b i }

module _ (hash : Bytes → Bytes) (size : ℕ) (sized : (x : Bytes) → length (hash x) ≡ size) where
  advance_chain-same :
      (p q : Bytes) (n : ℕ) (d e : Event)
      → length p ≡ length q
      → n < 18446744073709551616
      → IsTimed d
      → IsTimed e
      → advance_chain hash p n d ≡ advance_chain hash q n e
      → ((p ≡ q) × (d ≡ e)) ⊎ Collision hash
  unfolding advance_chain
  advance_chain-same p q n d e l w wd we same =
      elim (same_or_Collision hash
        (chain_input p n d.time (severity_number d.level) (severity_text d.level) (hash d.body))
        (chain_input q n e.time (severity_number e.level) (severity_text e.level) (hash e.body))
        same) [
          | inr found ↦ inr found
          | inl inputs ↦
              let parts =
                chain_input-same p q n n d e (hash d.body) (hash e.body) l w w wd we inputs in
              elim (same_or_Collision hash d.body e.body parts.payload) [
                | inr found ↦ inr found
                | inl bodies ↦ inl (parts.previous, Event-same d e parts.time parts.level bodies)
              ]
        ]

  -- Two sequences of as many records, behind chain values of the same size and under the same first
  -- number, that end in the same chain value are the same, behind the same value; or the proof gives
  -- two different texts with the same hash. The hash has a fixed size and no other assumption.
  pub chain_commits :
      (ds es : List Event) (p q : Bytes) (n : ℕ)
      → length ds ≡ length es
      → length p ≡ length q
      → n + length ds < 18446744073709551616
      → All IsTimed ds
      → All IsTimed es
      → chain_after hash p n ds ≡ chain_after hash q n es
      → ((p ≡ q) × (ds ≡ es)) ⊎ Collision hash
  unfolding chain_after advance_chain
  chain_commits [] [] p q n l k w td te same = inl (same, refl)
  chain_commits [] (e ∷ es) p q n l k w td te same = absurd (omega arith)
  chain_commits (d ∷ ds) [] p q n l k w td te same = absurd (omega arith)
  chain_commits (d ∷ ds) (e ∷ es) p q n l k w td te same =
      elim (chain_commits ds es (advance_chain hash p n d) (advance_chain hash q n e) (n + 1)
        (omega arith) (sized _ ∙ sym (sized _)) (omega arith) td.1 te.1 same) [
          | inr found ↦ inr found
          | inl (value, rest) ↦
              elim (advance_chain-same p q n d e k (omega arith) td.0 te.0 value) [
                | inr found ↦ inr found
                | inl (before, first) ↦ inl (before, ap₂ (λ x xs. x ∷ xs) first rest)
              ]
        ]

abbrev IsTimedLine : Line → Type 0
IsTimedLine l = IsTimed l.event

-- An anchor has the time of the record before it.
write_events-IsTimed :
    (events : List Event) (s : IntegrityState)
    → All IsTimed events
    → All IsTimedLine (write_events s events).0
unfolding write_events write_event write_anchor
write_events-IsTimed [] s t = tt
write_events-IsTimed (e ∷ events) s t =
    All-append IsTimedLine (write_event s e).0 _
      (if_cases (λ (r : List Line × IntegrityState). All IsTimedLine r.0) (anchor_due (stamp s e).1)
        (λ _. (t.0, (t.0, tt))) (λ _. (t.0, tt)))
      (write_events-IsTimed events (write_event s e).1 t.1)

All-map {ℓ κ μ} :
    {A : Type ℓ} {B : Type κ} (f : A → B) (P : B → Type μ) (xs : List A)
    → All (λ x. P (f x)) xs
    → All P (map f xs)
All-map f P [] h = tt
All-map f P (x ∷ xs) h = (h.0, All-map f P xs h.1)

length-map {ℓ κ} :
    {A : Type ℓ} {B : Type κ} (f : A → B) (xs : List A) → length (map f xs) ≡ length xs
length-map f [] = refl
length-map f (x ∷ xs) = ap suc (length-map f xs)

-- Two runs with the same hash and the same first number, chaining on and without a wrap of the
-- numbers, that write as many lines and end in the same chain value have written the same records
-- with the same times, levels and bodies, anchors included; or the proof gives two different texts
-- with the same hash.
pub log_commits :
    (s t : IntegrityState) (ds es : List Event) (size : ℕ)
    → ((x : Bytes) → length (s.hash x) ≡ size)
    → t.hash ≡ s.hash
    → t.seq ≡ s.seq
    → length s.chain ≡ length t.chain
    → chaining_enabled s ≡ true
    → chaining_enabled t ≡ true
    → s.seq + 2 * length ds < 18446744073709551616
    → t.seq + 2 * length es < 18446744073709551616
    → All IsTimed ds
    → All IsTimed es
    → length (write_events s ds).0 ≡ length (write_events t es).0
    → (write_events s ds).1.chain ≡ (write_events t es).1.chain
    → (map event_of (write_events s ds).0 ≡ map event_of (write_events t es).0) ⊎ Collision s.hash
log_commits s t ds es size sized hash seq chains on on' few few' td te count same =
    let a = write_events-HasWritten ds s on few in
    let b = write_events-HasWritten es t on' few' in
    let xs = (write_events s ds).0 in
    let ys = (write_events t es).0 in
    let end =
      sym a.chain
      ∙ same
      ∙ b.chain
      ∙ ap (λ h. chain_after h t.chain t.seq (map event_of ys)) hash
      ∙ ap (λ n. chain_after s.hash t.chain n (map event_of ys)) seq in
    elim (chain_commits s.hash size sized (map event_of xs) (map event_of ys) s.chain t.chain s.seq
      (length-map event_of xs ∙ count ∙ sym (length-map event_of ys)) chains
      (omega (arith, length-map event_of xs, length-write_events ds s))
      (All-map event_of IsTimed xs (write_events-IsTimed ds s td))
      (All-map event_of IsTimed ys (write_events-IsTimed es t te)) end) [
        | inl (before, records) ↦ inl records
        | inr found ↦ inr found
      ]
