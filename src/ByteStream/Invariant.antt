-- ===== src/ByteStream/Invariant.antt =====
-- What every method of `ByteStream` keeps: the capacity bounds the buffer, and the two counters
-- account for what is buffered, also after they have wrapped.
use sponge_fa.Prelude.{
  ◌++◌, ◌+◌, take-all, false, ℕ, ◌-◌, ◌^◌, ◌≤◌, ◌<◌, min, ◌≡◌, List, length, take, length-append,
  length-take, length-drop, add64, arith,
}
use sponge_fa.ByteStream.{
  ByteStream, new, write, pop_output, end_input, set_error, remaining_capacity,
}

pub record IsValid (s : ByteStream) : Type 0 where
  pub sized : s.capacity < 2 ^ 64
  pub bounded : length s.buffer ≤ s.capacity
  pub counted : s.bytes_written < 2 ^ 64
  pub accounted : s.bytes_written ≡ add64 s.bytes_read (length s.buffer)

pub new-IsValid : (capacity : ℕ) → capacity < 2 ^ 64 → IsValid (new capacity)
unfolding new
new-IsValid capacity h = omega arith

-- `remaining_capacity` is the exact difference: its subtraction does not wrap.
pub remaining_capacity_lem :
    {s : ByteStream} → IsValid s → remaining_capacity s ≡ s.capacity - length s.buffer
unfolding remaining_capacity
remaining_capacity_lem v = omega arith

pub write-IsValid : {s : ByteStream} (bytes : List ℕ) → IsValid s → IsValid (write s bytes).0
unfolding write
write-IsValid {s} bytes v =
    let n = min (length bytes) (remaining_capacity s) in
    ground
      (arith, remaining_capacity_lem v, length-append s.buffer (take n bytes), length-take n bytes)

pub pop_output-IsValid : {s : ByteStream} (len : ℕ) → IsValid s → IsValid (pop_output s len)
unfolding pop_output
pop_output-IsValid {s} len v = ground (arith, length-drop (min len (length s.buffer)) s.buffer)

pub end_input-IsValid : {s : ByteStream} → IsValid s → IsValid (end_input s)
unfolding end_input
end_input-IsValid v = ground arith

pub set_error-IsValid : {s : ByteStream} → IsValid s → IsValid (set_error s)
unfolding set_error
set_error-IsValid v = ground arith

-- A write that fits an open stream is taken whole.
pub write-fits :
    {s : ByteStream} (bytes : List ℕ)
    → IsValid s
    → s.end_input ≡ false
    → length s.buffer + length bytes ≤ s.capacity
    → (write s bytes).0 ≡ record s {
      buffer = s.buffer ++ bytes;
      bytes_written = add64 s.bytes_written (length bytes);
    }
unfolding write
write-fits {s} bytes v open_ fits =
    let n = min (length bytes) (remaining_capacity s) in
    let e : n ≡ length bytes = omega (arith, remaining_capacity_lem v) in
    ground (arith, e, take-all n bytes)
