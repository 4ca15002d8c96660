-- ===== src/StreamReassembler/Window.antt =====
-- `fit_in_reassembler` cuts a substring to the window and merges it into the map.
use sponge_fa.Prelude.{
  add64, false, sym, ◌==◌, ℕ, ◌+◌, ◌-◌, ◌^◌, ◌≤◌, ◌<◌, ◌≡◌, ap, ◌∙◌, inr, List, [], ◌∷◌, length,
  arith,
}
use sponge_fa.StreamReassembler.{
  StreamReassembler, Segments, unassembled, resize_segment, fit_resized, fit_in_reassembler,
}
use sponge_fa.StreamReassembler.Resize.{start_lem, length-slot, resize_segment_self}
use sponge_fa.StreamReassembler.Chain.{Chain}
use sponge_fa.StreamReassembler.Merge.{put, merge, merge-nil}
use sponge_fa.StreamReassembler.Loop.{filled, insert_in_reassembler_lem}
use sponge_fa.StreamReassembler.Fit.{fit_loop}

-- The substring cut to the window of `room` bytes from `lo` on.
abbrev pub in_window : ℕ → ℕ → List ℕ → ℕ → List ℕ × ℕ
in_window lo room bytes index = resize_segment bytes index lo (lo + room)

module _ (r : StreamReassembler) (room : ℕ) (h64 : r.next_index + room < 2 ^ 64) where
  abbrev hi : ℕ
  hi = r.next_index + room

  fit_resized_lem :
      (bytes : List ℕ) (index : ℕ) (segs : Segments)
      → Chain r.next_index hi segs
      → index < 2 ^ 64
      → (0 < length bytes → (r.next_index ≤ index) × (index + length bytes ≤ hi))
      → fit_resized (filled r room segs) bytes index
        ≡ filled r room (merge bytes index r.next_index segs)
  unfolding fit_resized merge put
  fit_resized_lem [] index segs c i64 h =
      ap (filled r room) (sym (merge-nil index r.next_index hi segs i64 h64 c))
  fit_resized_lem (x ∷ xs) index [] c i64 h =
      let inside = h (omega arith) in
      let bytes : List ℕ = x ∷ xs in
      insert_in_reassembler_lem r room r.next_index hi [] [] (bytes, index) (omega arith)
        (λ _. (omega arith, omega arith, unfold unassembled in omega arith))
      ∙ ap (λ p. filled r room (put p []))
          (sym (resize_segment_self bytes index r.next_index (omega arith) inside.0))
  fit_resized_lem (x ∷ xs) index (s ∷ segs) c i64 h =
      let inside = h (omega arith) in
      fit_loop r (x ∷ xs) index r.next_index room (omega arith) h64 inside.1 r.next_index []
        (s ∷ segs) (omega arith) c (inr (omega arith))

  -- With a byte free, the map becomes the one that `merge` makes of the substring in the window.
  pub fit_in_reassembler_lem :
      (bytes : List ℕ) (index : ℕ) (segs : Segments)
      → Chain r.next_index hi segs
      → index + length bytes < 2 ^ 64
      → r.capacity_for_reassembler ≡ room
      → unassembled segs < room
      → let p = in_window r.next_index room bytes index in
        fit_in_reassembler (filled r room segs) bytes index
        ≡ filled r room (merge p.0 p.1 r.next_index segs)
  unfolding fit_in_reassembler
  fit_in_reassembler_lem bytes index segs c fits e free =
      let p = in_window r.next_index room bytes index in
      let some_free : ((room - unassembled segs) == 0) ≡ false = ground arith in
      let edge : add64 r.next_index r.capacity_for_reassembler ≡ hi = omega arith in
      let at_lem = start_lem bytes index r.next_index hi fits h64 in
      let len_lem = length-slot bytes index r.next_index hi fits h64 in
      rw (some_free, edge)
        (fit_resized_lem p.0 p.1 segs c (omega (arith, at_lem))
          (λ pos. omega (arith, at_lem, len_lem)))
