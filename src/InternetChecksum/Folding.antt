-- ===== src/InternetChecksum/Folding.antt =====
-- The checksum is the complement of the sum in arithmetic modulo 2 ^ 16 - 1.
use sponge_fa.Prelude.{ℕ, ◌+◌, ◌/◌, ◌%◌, ◌^◌, ◌<◌, ◌≡◌, arith}
use sponge_fa.InternetChecksum.{InternetChecksum, fold_loop, value}

fold_round : (ret : ℕ) → ret < 2 ^ 32 → (ret / 2 ^ 16 + ret % 2 ^ 16) % 65535 ≡ ret % 65535
fold_round ret small = omega arith

fold_loop_lem :
    (ret : ℕ) → ret < 2 ^ 32 → (fold_loop 2 ret < 2 ^ 16) × (fold_loop 2 ret % 65535 ≡ ret % 65535)
unfolding fold_loop
fold_loop_lem ret small = ground arith

-- The loop of `value` ends with 16 bits, and `value` is the number below 2 ^ 16 that complements
-- the sum: together they are a multiple of 2 ^ 16 - 1, as the protocol's checksum wants.
pub value_lem :
    (c : InternetChecksum)
    → c.sum < 2 ^ 32
    → (fold_loop 2 c.sum < 2 ^ 16) × (value c < 2 ^ 16) × ((value c + c.sum) % 65535 ≡ 0)
unfolding value
value_lem c small = let f = fold_loop_lem c.sum small in (f.0, omega arith, omega (arith, f))

-- The loop ends with zero only for zero.
pub fold_loop-positive : (ret : ℕ) → ret < 2 ^ 32 → 0 < ret → 0 < fold_loop 2 ret
unfolding fold_loop
fold_loop-positive ret small h = ground arith

pub value-zero : (c : InternetChecksum) → c.sum ≡ 0 → value c ≡ 65535
unfolding value fold_loop
value-zero c e = ground arith

-- A sum that is a multiple of 2 ^ 16 - 1, but not zero, has the checksum zero.
pub value-multiple :
    (c : InternetChecksum) → c.sum < 2 ^ 32 → 0 < c.sum → c.sum % 65535 ≡ 0 → value c ≡ 0
unfolding value
value-multiple c small positive e =
    omega (arith, fold_loop_lem c.sum small, fold_loop-positive c.sum small positive)
