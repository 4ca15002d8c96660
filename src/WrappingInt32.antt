-- ===== src/WrappingInt32.antt =====
-- libsponge/wrapping_integers.hh and wrapping_integers.cc: 32-bit sequence numbers relative to an
-- initial one, and their conversion to and from absolute 64-bit sequence numbers.
pub mod Nearest
mod Tests
use sponge_fa.Prelude.{
  ℕ, ◌+◌, ◌*◌, ◌/◌, ◌%◌, ◌^◌, Bool, not, ltb, ◌==◌, if◌then◌else◌, u32, add32, sub32, add64, sub64,
  mul64,
}

-- A `WrappingInt32` is its `_raw_value`.
abbrev pub WrappingInt32 : Type 0
WrappingInt32 = ℕ

abbrev pub max_u32 : ℕ
max_u32 = 2 ^ 32

unfoldable pub wrap : ℕ → WrappingInt32 → WrappingInt32
wrap n isn = u32 (add64 n isn)

-- The candidate that `unwrap` starts from: the absolute number at or above the checkpoint.
unfoldable pub unwrap_above : ℕ → ℕ → ℕ
unwrap_above abs_seqno checkpoint =
    let index_diff = sub64 checkpoint abs_seqno in
    if ltb abs_seqno checkpoint
    then (if index_diff % max_u32 == 0
        then checkpoint
        else add64 abs_seqno (mul64 max_u32 (add64 (index_diff / max_u32) 1)))
    else abs_seqno

unfoldable pub unwrap_choose : ℕ → ℕ → ℕ
unwrap_choose abs_seqno checkpoint =
    if ltb (sub64 abs_seqno checkpoint) (max_u32 / 2)
    then abs_seqno
    else (if ltb max_u32 abs_seqno then sub64 abs_seqno max_u32 else abs_seqno)

-- `n.raw_value() - isn.raw_value()` is a subtraction of `uint32_t`.
unfoldable pub unwrap : WrappingInt32 → WrappingInt32 → ℕ → ℕ
unfolding unwrap_above unwrap_choose
unwrap n isn checkpoint = unwrap_choose (unwrap_above (sub32 n isn) checkpoint) checkpoint

-- `operator+` and the `operator-` that takes a number: `a + -b` on `uint32_t`.
unfoldable pub plus : WrappingInt32 → ℕ → WrappingInt32
plus a b = add32 a b

unfoldable pub minus : WrappingInt32 → ℕ → WrappingInt32
unfolding plus
minus a b = plus a (sub32 0 b)

-- `operator==` and `operator!=`.
unfoldable pub equal : WrappingInt32 → WrappingInt32 → Bool
equal a b = a == b

unfoldable pub differ : WrappingInt32 → WrappingInt32 → Bool
unfolding equal
differ a b = not (equal a b)
