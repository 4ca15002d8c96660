-- ===== src/StreamReassembler/Tests.antt =====
-- Runs of a small reassembler, and its theorems at concrete substrings.
use sponge_fa.Prelude.{
  ◌⊎◌, suc, zero, get_elem?, ◌+◌, min, ◌++◌, ◌<◌, ◌≤◌, ℕ, ◌≡◌, refl, true, false, List, [], ◌∷◌,
  arith,
}
use sponge_fa.StreamReassembler.{StreamReassembler, new, push_substring}
use sponge_fa.StreamReassembler.Progress.{push_substring-advances}
use sponge_fa.StreamReassembler.Carried.{Genuine, Carries}
use sponge_fa.StreamReassembler.History.{Call, pushes, reads, run, run-Carries}
use sponge_fa.StreamReassembler.Contract.{Pushed, IsValid}
use sponge_fa.StreamReassembler.Push.{push_substring-Pushed}
use sponge_fa.StreamReassembler.Chain.{held}

-- "de" waits for "abc"; the capacity of six cuts the rest.
abbrev holding : StreamReassembler
holding = record {
  segments = (3, 100 ∷ 101 ∷ []) ∷ [];
  eof = false;
  eof_index = 0;
  capacity_for_reassembler = 6;
  num_bytes_free = 4;
  next_index = 0;
  output = record {
    capacity = 6;
    buffer = [];
    error = false;
    end_input = false;
    bytes_read = 0;
    bytes_written = 0;
  };
  capacity = 6;
}

late_part : (push_substring (new 6) (100 ∷ 101 ∷ []) 3 false) ≡ holding
unfolding push_substring new
late_part = refl

abbrev overlapping : List ℕ
overlapping = 97 ∷ 98 ∷ 99 ∷ 0 ∷ 0 ∷ 102 ∷ 103 ∷ []

gap_filled :
    (push_substring holding overlapping 0 true).output.buffer ≡ 97 ∷ 98 ∷ 99 ∷ 100 ∷ 101 ∷ 102 ∷ []
unfolding push_substring
gap_filled = refl

-- The end is at index 7, one byte behind the window.
end_waits : (push_substring holding overlapping 0 true).output.end_input ≡ false
unfolding push_substring
end_waits = refl

holding-IsValid : IsValid holding
unfolding held
holding-IsValid = record { stream = omega arith; chain = omega arith; settled = refl }

push_substring-Pushed_example :
    Pushed holding overlapping 0 (push_substring holding overlapping 0 true)
push_substring-Pushed_example =
    push_substring-Pushed holding overlapping 0 (omega arith) (omega arith) holding-IsValid refl
      true

push_substring-advances_example :
    min (0 + 7) (0 + 6) ≤ (push_substring holding overlapping 0 true).next_index
push_substring-advances_example =
    push_substring-advances holding overlapping 0 true (omega arith) (omega arith) holding-IsValid
      refl (omega arith)

-- "abcd" in two pieces out of order, the second one twice, through a capacity of three.
abbrev letters : List ℕ
letters = 97 ∷ 98 ∷ 99 ∷ 100 ∷ []

abbrev calls : List Call
calls =
    pushes (99 ∷ 100 ∷ []) 2 true
    ∷ pushes (97 ∷ 98 ∷ []) 0 false
    ∷ reads 2
    ∷ pushes (99 ∷ 100 ∷ []) 2 true
    ∷ []

letters_arrive :
    let h = run (record { reassembler = new 3; taken = [] }) calls in
    (h.taken ≡ 97 ∷ 98 ∷ [])
    × (h.reassembler.output.buffer ≡ 99 ∷ 100 ∷ [])
    × (h.reassembler.output.end_input ≡ true)
unfolding run new push_substring
letters_arrive = (refl, refl, refl)

same_late : (j : ℕ) → j < 2 → get_elem? (99 ∷ 100 ∷ []) j ≡ get_elem? letters (2 + j)
same_late zero h = refl
same_late (suc zero) h = refl
same_late (suc (suc j)) h = absurd (omega arith)

same_early : (j : ℕ) → j < 2 → get_elem? (97 ∷ 98 ∷ []) j ≡ get_elem? letters (0 + j)
same_early zero h = refl
same_early (suc zero) h = refl
same_early (suc (suc j)) h = absurd (omega arith)

late_piece : Genuine letters (99 ∷ 100 ∷ []) 2 true
late_piece = record { within = omega arith; agrees = same_late; last = λ e. refl }

early_piece : Genuine letters (97 ∷ 98 ∷ []) 0 false
early_piece = record { within = omega arith; agrees = same_early; last = λ e. absurd cc }

run-Carries_example :
    let h = run (record { reassembler = new 3; taken = [] }) calls in
    Carries letters 3 h.taken h.reassembler
    × ((h.reassembler.output.end_input ≡ false)
        ⊎ (h.taken ++ h.reassembler.output.buffer ≡ letters))
run-Carries_example =
    run-Carries letters 3 (omega arith) calls (late_piece, (early_piece, (late_piece, record {})))
