-- ===== src/WrappingInt32/Nearest.antt =====
-- How far `unwrap` inverts `wrap` and picks the candidate that is nearest to the checkpoint.
use sponge_fa.Prelude.{ℕ, ◌+◌, ◌-◌, ◌%◌, ◌^◌, ◌≤◌, ◌<◌, ◌≡◌, ◌≢◌, ◌⊎◌, inl, inr, arith, sub32}
use sponge_fa.WrappingInt32.{wrap, unwrap, unwrap_above, unwrap_choose}

-- How far two absolute numbers are apart.
abbrev pub distance : ℕ → ℕ → ℕ
distance a b = (a - b) + (b - a)

-- The one absolute number that `unwrap` misjudges: zero, from a checkpoint in the lower half of
-- the first 2 ^ 32 numbers but not zero itself.
abbrev pub IsMisjudged : ℕ → ℕ → ℕ → Type 0
IsMisjudged n isn checkpoint = (n ≡ isn) × (0 < checkpoint) × (checkpoint < 2 ^ 31)

unwrap_above_lem :
    (d c : ℕ)
    → d < 2 ^ 32
    → c < 2 ^ 64 - 2 ^ 32
    → (c ≤ unwrap_above d c)
      × (unwrap_above d c < 2 ^ 64)
      × (unwrap_above d c % 2 ^ 32 ≡ d)
      × ((unwrap_above d c < c + 2 ^ 32) ⊎ (unwrap_above d c ≡ d))
unfolding unwrap_above
unwrap_above_lem d c hd hc = ground arith

unwrap_choose_lem :
    (a c d : ℕ)
    → d < 2 ^ 32
    → c < 2 ^ 64 - 2 ^ 32
    → c ≤ a
    → a < 2 ^ 64
    → a % 2 ^ 32 ≡ d
    → (a < c + 2 ^ 32) ⊎ (a ≡ d)
    → ¬ IsMisjudged d 0 c
    → (unwrap_choose a c % 2 ^ 32 ≡ d)
      × (unwrap_choose a c < 2 ^ 64)
      × ((distance (unwrap_choose a c) c ≤ 2 ^ 31) ⊎ ((unwrap_choose a c ≡ d) × (c ≤ d)))
unfolding unwrap_choose
unwrap_choose_lem a c d hd hc above small residue near fair = ground arith

nearest_of_residue :
    (u m c d : ℕ)
    → d < 2 ^ 32
    → u % 2 ^ 32 ≡ d
    → m % 2 ^ 32 ≡ d
    → (distance u c ≤ 2 ^ 31) ⊎ ((u ≡ d) × (c ≤ d))
    → distance u c ≤ distance m c
nearest_of_residue u m c d hd hu hm near = omega arith

wrap_residue :
    (m n isn : ℕ)
    → n < 2 ^ 32
    → isn < 2 ^ 32
    → m < 2 ^ 64
    → (wrap m isn ≡ n) ⊎ (m % 2 ^ 32 ≡ sub32 n isn)
    → (wrap m isn ≡ n) × (m % 2 ^ 32 ≡ sub32 n isn)
unfolding wrap
wrap_residue m n isn hn hi hm h = omega arith

-- What `unwrap` returns, seen through the residue of the relative number.
unwrap_residue :
    (n isn c : ℕ)
    → n < 2 ^ 32
    → isn < 2 ^ 32
    → c < 2 ^ 64 - 2 ^ 32
    → ¬ IsMisjudged n isn c
    → (unwrap n isn c % 2 ^ 32 ≡ sub32 n isn)
      × (unwrap n isn c < 2 ^ 64)
      × ((distance (unwrap n isn c) c ≤ 2 ^ 31)
          ⊎ ((unwrap n isn c ≡ sub32 n isn) × (c ≤ sub32 n isn)))
unfolding unwrap
unwrap_residue n isn c hn hi hc fair =
    let d : ℕ = sub32 n isn in
    let above = unwrap_above_lem d c (omega arith) hc in
    unwrap_choose_lem (unwrap_above d c) c d (omega arith) hc above.0 above.1 above.2 above.3
      (λ bad. fair (omega arith))

-- `unwrap` gives an absolute number that wraps to `n`, and no 64-bit number that wraps to `n` is
-- nearer to the checkpoint: for 32-bit `n` and `isn`, a checkpoint below 2 ^ 64 - 2 ^ 32, and unless
-- `n` is `isn` and the checkpoint lies strictly between 0 and 2 ^ 31.
pub unwrap_nearest :
    (n isn c : ℕ)
    → n < 2 ^ 32
    → isn < 2 ^ 32
    → c < 2 ^ 64 - 2 ^ 32
    → ¬ IsMisjudged n isn c
    → (wrap (unwrap n isn c) isn ≡ n)
      × ((m : ℕ) → m < 2 ^ 64 → wrap m isn ≡ n → distance (unwrap n isn c) c ≤ distance m c)
unwrap_nearest n isn c hn hi hc fair =
    let r = unwrap_residue n isn c hn hi hc fair in
    (
      (wrap_residue (unwrap n isn c) n isn hn hi r.1 (inr r.0)).0,
      λ m hm e.
          nearest_of_residue (unwrap n isn c) m c (sub32 n isn) (omega arith) r.0
            (wrap_residue m n isn hn hi hm (inl e)).1 r.2,
    )

-- Within 2 ^ 31 of the checkpoint `unwrap` recovers exactly the absolute number that was wrapped,
-- zero excepted where the checkpoint is not zero.
pub unwrap-wrap :
    (m isn c : ℕ)
    → isn < 2 ^ 32
    → c < 2 ^ 64 - 2 ^ 32
    → distance m c < 2 ^ 31
    → (m ≢ 0) ⊎ (c ≡ 0)
    → unwrap (wrap m isn) isn c ≡ m
unfolding wrap
unwrap-wrap m isn c hi hc near nonzero =
    let r = unwrap_residue (wrap m isn) isn c (omega arith) hi hc (λ bad. omega arith) in
    omega arith

-- The exception is real: for every initial number and every checkpoint strictly between 0 and
-- 2 ^ 31, `unwrap` takes the initial number itself for 2 ^ 32, though zero wraps to it and is nearer.
pub unwrap_misjudged :
    (isn c : ℕ)
    → isn < 2 ^ 32
    → 0 < c
    → c < 2 ^ 31
    → (unwrap isn isn c ≡ 2 ^ 32)
      × (wrap 0 isn ≡ isn)
      × (distance 0 c < distance (unwrap isn isn c) c)
unfolding unwrap unwrap_above unwrap_choose wrap
unwrap_misjudged isn c hi pos low = ground arith
