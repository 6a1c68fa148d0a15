-- ===== src/Protocol/Parse/Joining.antt =====
-- assembleMessage of src/protocol/parser.go: it ends, and it joins the parts in their order.
use air_gap.Common.{
  Bytes, ℕ, zero, suc, ◌+◌, ◌≤◌, ◌<◌, some, [], ◌++◌, append_assoc, append-nil, ◌≡◌, ◌≢◌, ltb, true,
  false, u16, lt→ltb, le→ltb, List, inl, inr, Option-cases, Bool-cases, arith,
}
use air_gap.Common.Maps.{lookup, nat_eq}
use air_gap.Protocol.Cache.{MessageCacheEntry}
use air_gap.Protocol.Cache.Fragments.{Collected}
use air_gap.Common.Members.{contains}
use air_gap.Protocol.Parse.{assembled, endless, assemble_loop, assemble_message}

-- The parts from number `i` on, `left` of them.
unfoldable pub joined : (ℕ → Bytes) → ℕ → ℕ → Bytes
joined part i zero = []
joined part i (suc left) = part i ++ joined part (suc i) left

module _ (nr : ℕ) (part : ℕ → Bytes) (seen : List ℕ) (e : MessageCacheEntry) where
  assemble_loop-joined :
      (left i fuel : ℕ) (result : Bytes)
      → Collected nr part seen e
      → ((k : ℕ) → 1 ≤ k → k ≤ nr → contains k seen ≡ true)
      → nr < 65535
      → i + left ≡ nr + 1
      → 1 ≤ i
      → left < fuel
      → assemble_loop fuel e i result ≡ assembled (result ++ joined part i left)
  unfolding assemble_loop joined
  assemble_loop-joined left i zero result c all few range start f = absurd (omega arith)
  assemble_loop-joined zero i (suc fuel) result c all few range start f =
      let past : ltb e.len i ≡ true = lt→ltb e.len i (omega (arith, c.len)) in rw (past, append-nil)
  assemble_loop-joined (suc left) i (suc fuel) result c all few range start f =
      let more : ltb e.len i ≡ false = le→ltb e.len i (omega (arith, c.len)) in
      let held : lookup i e.val ≡ some (part i) = rw (c.parts i, all i start (omega arith)) in
      let small : u16 (i + 1) ≡ suc i = omega arith in
      rw (more, held, small)
        (rw (
          assemble_loop-joined left (suc i) fuel (result ++ part i) c all few (omega arith)
              (omega arith) (omega arith),
          append_assoc,
        ))

  -- With all parts from 1 to `nr` collected, the result is their concatenation in that order.
  pub assemble_message-joined :
      Collected nr part seen e
      → ((k : ℕ) → 1 ≤ k → k ≤ nr → contains k seen ≡ true)
      → nr < 65535
      → assemble_message e ≡ assembled (joined part 1 nr)
  unfolding assemble_message
  assemble_message-joined c all few =
      assemble_loop-joined nr 1 (suc e.len) [] c all few (omega arith) (omega arith)
        (omega (arith, c.len))

assemble_loop_ends :
    (e : MessageCacheEntry) (fuel i : ℕ) (result : Bytes)
    → e.len < 65535
    → i ≤ e.len + 1
    → e.len + 1 < i + fuel
    → assemble_loop fuel e i result ≢ endless
unfolding assemble_loop
assemble_loop_ends e zero i result few range f = absurd (omega arith)
assemble_loop_ends e (suc fuel) i result few range f = elim (Bool-cases (ltb e.len i)) [
  | inl past ↦ rw past (λ h. cc)
  | inr more ↦ elim (Option-cases (lookup i e.val)) [
    | inl gone ↦ rw (more, gone) (λ h. cc)
    | inr (part, held) ↦
        let small : u16 (i + 1) ≡ suc i = ground arith in
        rw (more, held, small)
          (assemble_loop_ends e fuel (suc i) (result ++ part) few (ground arith) (omega arith))
  ]
]

-- The loop ends for every entry of fewer than 65535 parts.
pub assemble_message_ends : (e : MessageCacheEntry) → e.len < 65535 → assemble_message e ≢ endless
unfolding assemble_message
assemble_message_ends e few = assemble_loop_ends e (suc e.len) 1 [] few (omega arith) (omega arith)

assemble_loop_wraps :
    (e : MessageCacheEntry) (fuel i : ℕ) (result b : Bytes)
    → e.len ≡ 65535
    → i < 65536
    → assemble_loop fuel e i result ≢ assembled b
unfolding assemble_loop
assemble_loop_wraps e zero i result b full range = λ h. cc
assemble_loop_wraps e (suc fuel) i result b full range =
    let more : ltb e.len i ≡ false = ground arith in
    elim (Option-cases (lookup i e.val)) [
      | inl gone ↦ rw (more, gone) (λ h. cc)
      | inr (part, held) ↦
          rw (more, held)
            (assemble_loop_wraps e fuel (u16 (i + 1)) (result ++ part) b full (omega arith))
    ]

-- A message that announces 65535 parts is never assembled, whatever parts have come: the counter
-- is a uint16 and cannot pass 65535, so part 0 is asked for as well.
pub assemble_message_wraps :
    (e : MessageCacheEntry) (b : Bytes) → e.len ≡ 65535 → assemble_message e ≢ assembled b
unfolding assemble_message
assemble_message_wraps e b full = assemble_loop_wraps e (suc e.len) 1 [] b full (omega arith)
