-- ===== src/Protocol/Delivery/Numbered.antt =====
-- The pieces of FormatMessage (src/protocol/formatter.go) by their numbers.
use air_gap.Common.{
  Bytes, ℕ, zero, suc, ◌+◌, ◌-◌, ◌≤◌, ◌<◌, List, [], ◌∷◌, ◌≡◌, refl, ap, ◌∙◌, length, get_or, u16,
  arith,
}
use mathlib.Core.List.{flatten}
use air_gap.Common.Maps.{bytes_eq}
use air_gap.Protocol.Format.{packet}
use air_gap.Protocol.Format.Chunks.{packets}
use air_gap.Protocol.Parse.Joining.{joined}

-- The piece with number `j`, counted from 1.
abbrev pub numbered : List Bytes → ℕ → Bytes
numbered ps j = get_or ps (j - 1) []

joined-flatten :
    (part : ℕ → Bytes) (ps : List Bytes) (i : ℕ)
    → ((k : ℕ) → part (i + k) ≡ get_or ps k [])
    → joined part i (length ps) ≡ flatten ps
unfolding joined flatten
joined-flatten part [] i h = refl
joined-flatten part (p ∷ ps) i h =
    let first : part i ≡ p = ap part (let e : i ≡ i + 0 = omega arith in e) ∙ h 0 in
    rw (
      first,
      joined-flatten part ps (suc i)
          (λ k. ap part (let e : suc i + k ≡ i + suc k = omega arith in e) ∙ h (suc k)),
    )

pub joined-numbered : (ps : List Bytes) → joined (numbered ps) 1 (length ps) ≡ flatten ps
joined-numbered ps =
    joined-flatten (numbered ps) ps 1
      (λ k. ap (λ i. get_or ps i []) (let e : 1 + k - 1 ≡ k = omega arith in e))

pub packets-get_or :
    (md5_hex : Bytes → Bytes) (t nr : ℕ) (id : Bytes) (number : ℕ) (ps : List Bytes) (i : ℕ)
    → i < length ps
    → number + length ps ≤ 65536
    → get_or (packets md5_hex t nr id number ps) i []
      ≡ packet md5_hex t (number + i) nr id (get_or ps i [])
unfolding packets
packets-get_or md5_hex t nr id number [] i h w = absurd (omega arith)
packets-get_or md5_hex t nr id number (p ∷ ps) zero h w =
    ap (λ n. packet md5_hex t n nr id p) (let e : number ≡ number + 0 = omega arith in e)
packets-get_or md5_hex t nr id number (p ∷ ps) (suc i) h w =
    let next : u16 (number + 1) ≡ number + 1 = omega arith in
    rw next (
      packets-get_or md5_hex t nr id (number + 1) ps i (omega arith) (omega arith)
      ∙ ap (λ n. packet md5_hex t n nr id (get_or ps i []))
          (let e : number + 1 + i ≡ number + suc i = omega arith in e))
