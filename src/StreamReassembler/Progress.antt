-- ===== src/StreamReassembler/Progress.antt =====
-- A substring that reaches the next index moves it.
use sponge_fa.Prelude.{
  Bool, false, ℕ, ◌+◌, ◌-◌, ◌^◌, ◌≤◌, ◌<◌, ◌≡◌, List, length, arith, min, dec_le, get_elem?-lt,
}
use sponge_fa.StreamReassembler.{StreamReassembler, push_substring}
use sponge_fa.StreamReassembler.Contract.{room, IsValid}
use sponge_fa.StreamReassembler.Push.{push_substring-Pushed}

-- On a valid reassembler whose output has not ended, a substring that starts at or before the next
-- index moves that index at least to the substring's end, or to the end of the window.
pub push_substring-advances :
    (r : StreamReassembler) (bytes : List ℕ) (index : ℕ) (eof : Bool)
    → index + length bytes < 2 ^ 64
    → r.next_index + room r < 2 ^ 64
    → IsValid r
    → r.output.end_input ≡ false
    → index ≤ r.next_index
    → min (index + length bytes) (r.next_index + room r)
      ≤ (push_substring r bytes index eof).next_index
push_substring-advances r bytes index eof fits h64 v open_ reaches =
    let r' = push_substring r bytes index eof in
    let p = push_substring-Pushed r bytes index fits h64 v open_ eof in
    elim (dec_le (min (index + length bytes) (r.next_index + room r)) r'.next_index) [
      | yes le ↦ le
      | no gt ↦
          let i : ℕ = r'.next_index in
          let there = get_elem?-lt bytes (i - index) (omega (arith, p.moved)) in
          absurd (ground (arith, p.maximal, p.moved, there))
    ]
