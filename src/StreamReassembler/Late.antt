-- ===== src/StreamReassembler/Late.antt =====
-- What arrives when the output has ended: copies of what was there.
use sponge_fa.Prelude.{
  true, false, add64, Bool, ◌&&◌, ◌==◌, Bool-cases, sym, if◌then◌else◌, ℕ, ◌+◌, ◌-◌, ◌^◌, ◌≤◌, ◌<◌,
  ◌≡◌, refl, ap, ◌∙◌, inl, inr, List, [], length, arith, nil_of_length,
}
use sponge_fa.ByteStream as Stream
use sponge_fa.StreamReassembler.{
  StreamReassembler, unassembled, fit_in_reassembler, note_eof, update_free_space,
  unassembled_bytes, pop_assembled, push_into_output, push_substring,
}
use sponge_fa.StreamReassembler.Resize.{length-slot, start_lem}
use sponge_fa.StreamReassembler.Loop.{filled}
use sponge_fa.StreamReassembler.Merge.{merge, merge-nil}
use sponge_fa.StreamReassembler.Window.{in_window, fit_in_reassembler_lem}
use sponge_fa.StreamReassembler.Contract.{room, IsValid}
use sponge_fa.StreamReassembler.End.{noted_eof, noted_index}
use sponge_fa.StreamReassembler.Push.{update_free_space_lem}

-- Two reassemblers that differ at most in the free space that they have noted.
abbrev pub SameStream : StreamReassembler → StreamReassembler → Type 0
SameStream r r' =
    (r'.segments ≡ r.segments)
    × (r'.eof ≡ r.eof)
    × (r'.eof_index ≡ r.eof_index)
    × (r'.next_index ≡ r.next_index)
    × (r'.output ≡ r.output)

module _ (r : StreamReassembler) (bytes : List ℕ) (index : ℕ) (fits : index + length bytes < 2 ^ 64)
    (h64 : r.next_index + room r < 2 ^ 64) (v : IsValid r)
    (behind : index + length bytes ≤ r.next_index) (nothing : r.segments ≡ [])
    (ended : r.output.end_input ≡ true) where
  fit_behind :
      (r₀ : StreamReassembler)
      → r₀.next_index ≡ r.next_index
      → r₀.capacity_for_reassembler ≡ room r
      → unassembled [] < room r
      → fit_in_reassembler (filled r₀ (room r) []) bytes index ≡ filled r₀ (room r) []
  fit_behind r₀ next window free =
      let lo : ℕ = r₀.next_index in
      let hi : ℕ = lo + room r in
      let p = in_window lo (room r) bytes index in
      let len = length-slot bytes index lo hi fits (omega arith) in
      let at_lem = start_lem bytes index lo hi fits (omega arith) in
      let empty_ : p.0 ≡ [] = nil_of_length p.0 (omega (arith, len, at_lem)) in
      fit_in_reassembler_lem r₀ (room r) (omega arith) bytes index [] (omega arith) fits window free
      ∙ ap (filled r₀ (room r)) (
          ap (λ d. merge d p.1 lo []) empty_
          ∙ merge-nil p.1 lo hi [] (omega (arith, at_lem)) (omega arith) (omega arith))

  late_push :
      (s₀ : StreamReassembler)
      → s₀.output ≡ r.output
      → let s = record s₀ { segments = [] } in SameStream s (push_into_output s)
  unfolding push_into_output pop_assembled Stream.end_input
  late_push s₀ out =
      let s = record s₀ { segments = [] } in
      let still : Stream.end_input s.output ≡ s.output =
        ap (λ b. record s₀.output { end_input = b })
          (sym (ap (λ (o : Stream.ByteStream). o.end_input) out ∙ ended)) in
      elim (Bool-cases (unassembled_bytes s == 0 && (s.eof && s.next_index == s.eof_index))) [
        | inl ends ↦ rw ends (refl, refl, refl, refl, still)
        | inr goes ↦ rw goes (refl, refl, refl, refl, refl)
      ]

  late_noted :
      (e : Bool) (x : ℕ)
      → let r₁ = update_free_space (record r { eof = e; eof_index = x }) in
        SameStream
          (record r { eof = e; eof_index = x })
          (if r₁.num_bytes_free == 0
            then r₁
            else push_into_output (fit_in_reassembler r₁ bytes index))
  late_noted e x =
      let r₀ : StreamReassembler = record r { eof = e; eof_index = x } in
      let r₁ : StreamReassembler = record r₀ { capacity_for_reassembler = room r } in
      let valid : IsValid r₀ = record { stream = v.stream; chain = v.chain; settled = v.settled } in
      let noted : update_free_space r₀ ≡ filled r₁ (room r) [] =
        update_free_space_lem r₀ valid ∙ ap (filled r₁ (room r)) nothing in
      rw noted (elim (Bool-cases ((room r - unassembled []) == 0)) [
        | inl full ↦ rw full (sym nothing, refl, refl, refl, refl)
        | inr free ↦
            rw (free, fit_behind r₁ refl refl (ground arith))
              (let q = late_push (filled r₁ (room r) []) refl in
                (q.0 ∙ sym nothing, q.1, q.2, q.3, q.4))
      ])

  pub late_push_substring :
      (eof : Bool)
      → SameStream
          (record r {
            eof = noted_eof eof r.eof;
            eof_index = noted_index eof (add64 index (length bytes)) r.eof_index;
          })
          (push_substring r bytes index eof)
  unfolding push_substring note_eof
  late_push_substring true = late_noted true (add64 index (length bytes))
  late_push_substring false = late_noted r.eof r.eof_index
