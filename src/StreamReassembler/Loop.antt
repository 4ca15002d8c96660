-- ===== src/StreamReassembler/Loop.antt =====
-- The loop of `fit_in_reassembler` does what the one pass `merge` does, and never cuts a part short
-- for want of free bytes.
use sponge_fa.Prelude.{
  ℕ, suc, ◌+◌, ◌-◌, ◌^◌, ◌≤◌, ◌<◌, min, ◌≡◌, inl, inr, refl, ap, ap₂, ◌∙◌, true, false, List, [],
  ◌∷◌, ◌++◌, length, take-all, arith, leb, ◌==◌, if◌then◌else◌, Bool-cases, add64,
}
use sponge_fa.StreamReassembler.{
  StreamReassembler, Segments, unassembled, resize_segment, insert_in_reassembler, insert_slot,
  fill_gaps, fill_end, last_index, map_insert,
}
use sponge_fa.StreamReassembler.Resize.{start_lem, length-slot}
use sponge_fa.StreamReassembler.Chain.{
  Chain, Chain-mono, Chain-up, unassembled-le, unassembled-append, map_insert-append,
}
use sponge_fa.StreamReassembler.Merge.{put, unassembled-put, slot_empty}

-- A reassembler with these entries, and what they leave free of `room` bytes.
abbrev pub filled : StreamReassembler → ℕ → Segments → StreamReassembler
filled r room segs = record r { segments = segs; num_bytes_free = room - unassembled segs }

pub insert_in_reassembler_lem :
    (r : StreamReassembler) (room lo hi : ℕ) (pre rest : Segments) (p : List ℕ × ℕ)
    → room < 2 ^ 64
    → (0 < length p.0
        → Chain lo p.1 pre
          × Chain (suc p.1) hi rest
          × (length p.0 + unassembled (pre ++ rest) ≤ room))
    → insert_in_reassembler (filled r room (pre ++ rest)) p.0 p.1
      ≡ filled r room (pre ++ put p rest)
unfolding insert_in_reassembler put
insert_in_reassembler_lem r room lo hi pre rest ([], at) h64 h = refl
insert_in_reassembler_lem r room lo hi pre rest (x ∷ d, at) h64 h =
    let (before, behind, fits) = h (omega arith) in
    let size : ℕ = min (room - unassembled (pre ++ rest)) (length (x ∷ d)) in
    ap₂ (λ segs free. record r { segments = segs; num_bytes_free = free })
      (ap (λ seg. map_insert at seg (pre ++ rest)) (take-all size (x ∷ d) (omega arith))
        ∙ map_insert-append lo at hi (x ∷ d) pre rest before behind)
      (omega (
        arith,
        unassembled-append pre rest,
        unassembled-append pre (put (x ∷ d, at) rest),
        unassembled-put (x ∷ d, at) rest,
      ))

module _ (r : StreamReassembler) (bytes : List ℕ) (index lo₀ room : ℕ)
    (fits : index + length bytes < 2 ^ 64) (h64 : lo₀ + room < 2 ^ 64) where
  pub insert_slot_lem :
      (lo e : ℕ) (pre rest : Segments)
      → e < 2 ^ 64
      → Chain lo₀ lo pre
      → Chain e (lo₀ + room) rest
      → insert_slot (filled r room (pre ++ rest)) bytes index lo e
        ≡ filled r room (pre ++ put (resize_segment bytes index lo e) rest)
  unfolding insert_slot
  insert_slot_lem lo e pre rest he before behind =
      let p = resize_segment bytes index lo e in
      let at_lem = start_lem bytes index lo e fits he in
      let len_lem = length-slot bytes index lo e fits he in
      insert_in_reassembler_lem r room lo₀ (lo₀ + room) pre rest p (omega arith) λ pos. (
        Chain-up lo₀ lo p.1 pre (omega (arith, at_lem, len_lem)) before,
        Chain-mono (suc p.1) e (lo₀ + room) rest (omega (arith, at_lem, len_lem)) behind,
        omega (
          arith,
          at_lem,
          len_lem,
          unassembled-append pre rest,
          unassembled-le lo₀ lo pre before,
          unassembled-le e (lo₀ + room) rest behind,
        ),
      )

  pub insert_slot_empty :
      (s : StreamReassembler) (lo e : ℕ)
      → length (resize_segment bytes index lo e).0 ≡ 0
      → insert_slot s bytes index lo e ≡ s
  unfolding insert_slot
  insert_slot_empty s lo e h = nothing (resize_segment bytes index lo e) h
    where
      nothing : (p : List ℕ × ℕ) → length p.0 ≡ 0 → insert_in_reassembler s p.0 p.1 ≡ s
      nothing ([], at) z = refl
      nothing (x ∷ d, at) z = absurd (omega arith)

  pub fill_end_full :
      (segs : Segments)
      → room ≤ unassembled segs
      → fill_end (filled r room segs) bytes index ≡ filled r room segs
  unfolding fill_end
  fill_end_full segs full = let e : ((room - unassembled segs) == 0) ≡ true = ground arith in rw e

  pub fill_end_open :
      (segs : Segments)
      → unassembled segs < room
      → fill_end (filled r room segs) bytes index
        ≡ insert_slot (filled r room segs) bytes index (last_index segs) (index + length bytes)
  unfolding fill_end
  fill_end_open segs open_ =
      let e : ((room - unassembled segs) == 0) ≡ false = ground arith in
      let e' : add64 index (length bytes) ≡ index + length bytes = omega arith in rw (e, e')

  pub fill_end_past :
      (segs : Segments)
      → index + length bytes ≤ last_index segs
      → fill_end (filled r room segs) bytes index ≡ filled r room segs
  fill_end_past segs past = elim (Bool-cases (leb room (unassembled segs))) [
    | inl full ↦ fill_end_full segs (ground arith)
    | inr free ↦
        fill_end_open segs (ground arith)
        ∙ insert_slot_empty _ (last_index segs) (index + length bytes)
            (slot_empty bytes index fits _ _ fits (inr past))
  ]

  -- One round of the loop.
  pub fill_gaps-full :
      (segs : Segments) (lo : ℕ) (rest : Segments)
      → room ≤ unassembled segs
      → fill_gaps (filled r room segs) bytes index lo rest ≡ filled r room segs
  unfolding fill_gaps
  fill_gaps-full segs lo [] full = refl
  fill_gaps-full segs lo ((k, d) ∷ rest) full =
      let e : ((room - unassembled segs) == 0) ≡ true = ground arith in rw e

  pub fill_gaps-open :
      (segs : Segments) (lo k : ℕ) (d : List ℕ) (rest : Segments)
      → unassembled segs < room
      → k + length d < 2 ^ 64
      → let s = insert_slot (filled r room segs) bytes index lo k in
        fill_gaps (filled r room segs) bytes index lo ((k, d) ∷ rest) ≡ (
          if leb (index + length bytes) (k + length d)
          then s
          else fill_gaps s bytes index (k + length d) rest)
  unfolding fill_gaps
  fill_gaps-open segs lo k d rest open_ small =
      let e : ((room - unassembled segs) == 0) ≡ false = ground arith in
      let e₁ : add64 index (length bytes) ≡ index + length bytes = omega arith in
      let e₂ : add64 k (length d) ≡ k + length d = omega arith in rw (e, e₁, e₂)
