-- ===== src/Resend/Partitions.antt =====
-- The partitions of src/resend/resend.go: the two numberings and the configured range.
use air_gap.Common.{
  ℕ, zero, suc, ◌+◌, ◌-◌, ◌≤◌, ◌<◌, ◌≡◌, refl, ap, ◌∙◌, true, Bool-cases, inl, inr, arith, none,
  some, ltb,
}
use air_gap.Common.Integers.{pos, negsuc, ◌+ℤ◌, ◌-ℤ◌, negℤ, difference, eqℤ, ltℤ, sub-pos, abs}
use air_gap.Resend.{map_downstream_to_upstream_partition, map_upstream_to_downstream_partition}

minus_above : (p start : ℕ) → start ≤ p → pos p -ℤ pos start ≡ pos (p - start)
minus_above p start h =
    let e : p ≡ start + (p - start) = omega arith in
    ap (λ n. pos n -ℤ pos start) e ∙ sub-pos start (p - start)

minus_below : (p start : ℕ) → p < start → pos p -ℤ pos start ≡ negsuc (start - p - 1)
unfolding ◌-ℤ◌ ◌+ℤ◌ negℤ difference
minus_below p zero h = absurd (omega arith)
minus_below p (suc start) h =
    let below : ltb p (start + 1) ≡ true = ground arith in rw below (ap negsuc (omega arith))

-- mapDownstreamToUpstreamPartition takes the start off a partition from it on, and refuses one
-- below it.
pub map_downstream_lem :
    (p start : ℕ)
    → (start ≤ p
        → map_downstream_to_upstream_partition (pos p) (pos start) ≡ some (pos (p - start)))
      × (p < start → map_downstream_to_upstream_partition (pos p) (pos start) ≡ none)
unfolding map_downstream_to_upstream_partition eqℤ ltℤ
map_downstream_lem p start =
    (λ h. rw (minus_above p start h) (ground arith), λ h. rw (minus_below p start h) refl)

-- The downstream partition of an upstream one maps back to it, and a downstream partition that maps
-- to an upstream one is its downstream partition again.
pub map_upstream-map_downstream :
    (p start u : ℕ)
    → (map_downstream_to_upstream_partition
          (map_upstream_to_downstream_partition (pos u) (pos start))
          (pos start)
        ≡ some (pos u))
      × (map_downstream_to_upstream_partition (pos p) (pos start) ≡ some (pos u)
          → map_upstream_to_downstream_partition (pos u) (pos start) ≡ pos p)
unfolding map_upstream_to_downstream_partition eqℤ ◌+ℤ◌ abs
map_upstream-map_downstream p start u = (
  (map_downstream_lem (u + start) start).0 (omega arith) ∙ ap (λ n. some (pos n)) (omega arith),
  λ h. elim (Bool-cases (ltb p start)) [
    | inl below ↦ let refused = (map_downstream_lem p start).1 (ground arith) in cc
    | inr above ↦
        let mapped = (map_downstream_lem p start).0 (ground arith) in
        let same : pos (p - start) ≡ pos u = cc in
        let value : p - start ≡ u = ap abs same in ap pos (ground arith)
  ],
)
