-- ===== src/InternetChecksum.antt =====
-- libsponge/util/util.hh and util.cc: the class InternetChecksum.
pub mod Folding
pub mod Sum
mod Tests
use sponge_fa.Prelude.{
  ℕ, zero, suc, ◌+◌, ◌*◌, ◌/◌, ◌%◌, ◌-◌, ◌^◌, Bool, true, false, not, List, [], ◌∷◌, ltb,
  if◌then◌else◌, u16, u32, add32,
}

-- `_sum` is a `uint32_t`.
pub record InternetChecksum : Type 0 where
  pub sum : ℕ
  pub parity : Bool

abbrev pub new : ℕ → InternetChecksum
new initial_sum = record { sum = initial_sum; parity = false }

-- One byte: the upper half of a 16-bit word, or the lower one.
abbrev pub add_byte : InternetChecksum → ℕ → InternetChecksum
add_byte c byte = record {
  sum = add32 c.sum (if c.parity then byte % 2 ^ 8 else u16 (byte % 2 ^ 8 * 2 ^ 8));
  parity = not c.parity;
}

unfoldable pub add : InternetChecksum → List ℕ → InternetChecksum
add c [] = c
add c (byte ∷ bytes) = add (add_byte c byte) bytes

-- The loop of `value`. Two rounds are enough for 32 bits (`fold_loop_lem`).
unfoldable pub fold_loop : ℕ → ℕ → ℕ
fold_loop zero ret = ret
fold_loop (suc fuel) ret =
    let later = fold_loop fuel (add32 (ret / 2 ^ 16) (ret % 2 ^ 16)) in
    if ltb 0xffff ret then later else ret

-- `~ret`, cut to 16 bits.
unfoldable pub value : InternetChecksum → ℕ
unfolding fold_loop
value c = u16 (2 ^ 32 - 1 - fold_loop 2 c.sum)
