-- ===== src/WrappingInt32/Tests.antt =====
-- Runs of the sequence-number conversions, and the theorems at concrete numbers.
use sponge_fa.Prelude.{ℕ, ◌+◌, ◌*◌, ◌^◌, ◌≤◌, ◌<◌, ◌≡◌, refl, inl, arith}
use sponge_fa.WrappingInt32.{wrap, unwrap, minus}
use sponge_fa.WrappingInt32.Nearest.{distance, unwrap_nearest, unwrap-wrap, unwrap_misjudged}

wrap_runs : wrap (3 * 2 ^ 32 + 17) 15 ≡ 32
unfolding wrap
wrap_runs = refl

unwrap_runs :
    (unwrap 1 0 0 ≡ 1)
    × (unwrap 1 0 0xffff_ffff ≡ 2 ^ 32 + 1)
    × (unwrap 0xffff_ffff 10 0 ≡ 0xffff_fff5)
unfolding unwrap
unwrap_runs = (refl, refl, refl)

minus_wraps : minus 0 1 ≡ 0xffff_ffff
unfolding minus
minus_wraps = refl

unwrap_nearest_example :
    (wrap (unwrap 15 16 (2 ^ 33)) 16 ≡ 15)
    × ((m : ℕ)
        → m < 2 ^ 64
        → wrap m 16 ≡ 15
        → distance (unwrap 15 16 (2 ^ 33)) (2 ^ 33) ≤ distance m (2 ^ 33))
unwrap_nearest_example =
    unwrap_nearest 15 16 (2 ^ 33) (omega arith) (omega arith) (omega arith) (λ bad. omega arith)

unwrap-wrap_example : unwrap (wrap (2 ^ 40) 77) 77 (2 ^ 40 + 5) ≡ 2 ^ 40
unwrap-wrap_example =
    unwrap-wrap (2 ^ 40) 77 (2 ^ 40 + 5) (omega arith) (omega arith) (omega arith)
      (inl (omega arith))

unwrap_misjudged_example :
    (unwrap 9 9 1 ≡ 2 ^ 32) × (wrap 0 9 ≡ 9) × (distance 0 1 < distance (unwrap 9 9 1) 1)
unwrap_misjudged_example = unwrap_misjudged 9 1 (omega arith) (omega arith) (omega arith)
