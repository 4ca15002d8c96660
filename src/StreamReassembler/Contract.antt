-- ===== src/StreamReassembler/Contract.antt =====
-- What `push_substring` promises, seen from outside: the bytes that have arrived, each at its index,
-- and the longest run of them that starts at the next index.
use sponge_fa.Prelude.{
  get_elem?, ltb, Option, if◌then◌else◌, none, ◌++◌, ℕ, ◌+◌, ◌-◌, ◌^◌, ◌≤◌, ◌<◌, ◌≡◌, refl, List,
  length, arith,
}
use sponge_fa.ByteStream.Invariant as StreamInvariant
use sponge_fa.StreamReassembler.{StreamReassembler, new}
use sponge_fa.StreamReassembler.Resize.{byte_at}
use sponge_fa.StreamReassembler.Chain.{Chain, held}
use sponge_fa.StreamReassembler.Lookup.{first}

-- What the output stream can still take; the window is that many bytes from `next_index` on.
abbrev pub room : StreamReassembler → ℕ
room r = r.output.capacity - length r.output.buffer

pub record IsValid (r : StreamReassembler) : Type 0 where
  pub stream : StreamInvariant.IsValid r.output
  pub chain : Chain r.next_index (r.next_index + room r) r.segments
  pub settled : held r.segments r.next_index ≡ none

-- The byte known for index `i` once the substring has arrived: one that was held, or one of the
-- substring inside the window.
abbrev pub arrived : StreamReassembler → List ℕ → ℕ → ℕ → Option ℕ
arrived r bytes index i =
    first (held r.segments i)
      (if ltb i (r.next_index + room r) then byte_at bytes index i else none)

-- The contract of a call that takes `r` to `r'`.
pub record Pushed (r : StreamReassembler) (bytes : List ℕ) (index : ℕ) (r' : StreamReassembler)
    : Type 0 where
  pub out : List ℕ
  pub appended : r'.output.buffer ≡ r.output.buffer ++ out
  pub moved : r'.next_index ≡ r.next_index + length out
  pub delivered :
      (j : ℕ) → j < length out → get_elem? out j ≡ arrived r bytes index (r.next_index + j)
  pub maximal : arrived r bytes index r'.next_index ≡ none
  pub kept : (i : ℕ) → r'.next_index ≤ i → held r'.segments i ≡ arrived r bytes index i
  pub same_capacity : r'.output.capacity ≡ r.output.capacity
  pub valid : IsValid r'

pub new-IsValid : (capacity : ℕ) → capacity < 2 ^ 64 → IsValid (new capacity)
unfolding new
new-IsValid capacity h = record {
  stream = StreamInvariant.new-IsValid capacity h;
  chain = omega arith;
  settled = unfold held in refl;
}
