-- ===== src/StreamReassembler/Fit.antt =====
-- `fit_in_reassembler` as a whole: it leaves the map that `merge` describes.
use sponge_fa.Prelude.{
  ℕ, ◌+◌, ◌^◌, ◌≤◌, ◌<◌, ◌≡◌, ◌⊎◌, inl, inr, sym, ap, ◌∙◌, List, [], ◌∷◌, ◌++◌, append_assoc,
  append-nil, length, arith, leb, Bool-cases,
}
use sponge_fa.StreamReassembler.{
  StreamReassembler, Segments, unassembled, resize_segment, insert_slot, fill_gaps, fill_end,
  last_index,
}
use sponge_fa.StreamReassembler.Chain.{
  Chain, Chain-le, Chain-append, unassembled-le, unassembled-append, end_from, end_from-bounds,
  last_index-append,
}
use sponge_fa.StreamReassembler.Merge.{
  put, put-append, put-empty, put-Chain, merge, merge-past, merge-full, slot_empty,
}
use sponge_fa.StreamReassembler.Loop.{
  filled, insert_slot_lem, fill_end_full, fill_end_open, fill_end_past, fill_gaps-full,
  fill_gaps-open,
}

regroup :
    (pre : Segments) (p : List ℕ × ℕ) (s : ℕ × List ℕ) (rest : Segments)
    → pre ++ put p (s ∷ rest) ≡ (pre ++ put p (s ∷ [])) ++ rest
regroup pre p s rest =
    ap (◌++◌ pre) (put-append p (s ∷ []) rest) ∙ sym (append_assoc pre (put p (s ∷ [])) rest)

last_index-put :
    (pre : Segments) (p : List ℕ × ℕ) (k : ℕ) (d : List ℕ) (rest : Segments) (hi : ℕ)
    → hi < 2 ^ 64
    → Chain (k + length d) hi rest
    → last_index (pre ++ put p ((k, d) ∷ rest)) ≡ end_from (k + length d) rest
last_index-put pre p k d rest hi h c =
    ap last_index (
      ap (◌++◌ pre) (put-append p [] ((k, d) ∷ rest))
      ∙ sym (append_assoc pre (put p []) ((k, d) ∷ rest)))
    ∙ last_index-append (pre ++ put p []) k d rest hi h c

module _ (r : StreamReassembler) (bytes : List ℕ) (index lo₀ room : ℕ)
    (fits : index + length bytes < 2 ^ 64) (h64 : lo₀ + room < 2 ^ 64)
    (below : index + length bytes ≤ lo₀ + room) where
  abbrev hi : ℕ
  hi = lo₀ + room

  fit_end :
      (lo : ℕ) (pre : Segments)
      → Chain lo₀ lo pre
      → lo ≤ hi
      → last_index pre ≡ lo
      → fill_end (filled r room (pre ++ [])) bytes index
        ≡ filled r room (pre ++ merge bytes index lo [])
  unfolding merge unassembled
  fit_end lo pre before c e =
      let count = unassembled-append pre [] in
      elim (Bool-cases (leb room (unassembled pre))) [
        | inl full ↦
            fill_end_full r bytes index lo₀ room fits h64 (pre ++ []) (ground (arith, count))
            ∙ ap (λ m. filled r room (pre ++ m))
                (sym (
                  put-empty _ [] (
                    slot_empty bytes index fits lo _ fits
                      (inr (ground (arith, unassembled-le lo₀ lo pre before))))))
        | inr free ↦
            fill_end_open r bytes index lo₀ room fits h64 (pre ++ []) (ground (arith, count))
            ∙ (ap
                  (λ lo'.
                    insert_slot (filled r room (pre ++ [])) bytes index lo' (index + length bytes))
                  (ap last_index (append-nil pre) ∙ e)
                ∙ insert_slot_lem r bytes index lo₀ room fits h64 lo _ pre [] fits before below)
      ]

  -- The loop has seen all entries that the substring reaches.
  fit_break :
      (lo k : ℕ) (d : List ℕ) (pre rest : Segments)
      → Chain (k + length d) hi rest
      → index + length bytes ≤ k + length d
      → let p = resize_segment bytes index lo k in
        fill_end (filled r room (pre ++ put p ((k, d) ∷ rest))) bytes index
        ≡ filled r room (pre ++ put p ((k, d) ∷ merge bytes index (k + length d) rest))
  fit_break lo k d pre rest c past =
      let p = resize_segment bytes index lo k in
      fill_end_past r bytes index lo₀ room fits h64 (pre ++ put p ((k, d) ∷ rest)) (
        omega
          (arith, last_index-put pre p k d rest hi h64 c, end_from-bounds (k + length d) hi rest c))
      ∙ ap (λ m. filled r room (pre ++ put p ((k, d) ∷ m)))
          (sym (merge-past bytes index fits (k + length d) hi rest h64 c past))

  pub fit_loop :
      (lo : ℕ) (pre rest : Segments)
      → Chain lo₀ lo pre
      → Chain lo hi rest
      → (last_index pre ≡ lo) ⊎ (0 < length rest)
      → fill_end (fill_gaps (filled r room (pre ++ rest)) bytes index lo rest) bytes index
        ≡ filled r room (pre ++ merge bytes index lo rest)
  unfolding merge
  fit_loop lo pre [] before c (inl e) = unfold fill_gaps in fit_end lo pre before c e
  fit_loop lo pre [] before c (inr e) = absurd (omega arith)
  fit_loop lo pre ((k, d) ∷ rest) before c e =
      let p = resize_segment bytes index lo k in
      let count = unassembled-append pre ((k, d) ∷ rest) in
      let k64 : k + length d < 2 ^ 64 = omega (arith, Chain-le (k + length d) hi rest c.2) in
      let inserted =
        insert_slot_lem r bytes index lo₀ room fits h64 lo k pre ((k, d) ∷ rest) (omega arith)
          before (omega arith, c.1, c.2) in
      let next_Chain = Chain-append lo₀ lo (k + length d) pre (put p ((k, d) ∷ [])) before (
        put-Chain bytes index fits lo k (k + length d) ((k, d) ∷ []) (omega arith)
          (omega arith, c.1, omega arith) (c.0, c.1, omega arith)) in
      let later =
        fit_loop (k + length d) (pre ++ put p ((k, d) ∷ [])) rest next_Chain c.2
          (inl (last_index-put pre p k d [] hi h64 (Chain-le (k + length d) hi rest c.2))) in
      elim (Bool-cases (leb room (unassembled (pre ++ ((k, d) ∷ rest))))) [
        | inl full ↦
            ap (λ s. fill_end s bytes index)
              (fill_gaps-full r bytes index lo₀ room fits h64 _ lo ((k, d) ∷ rest) (ground arith))
            ∙ (fill_end_full r bytes index lo₀ room fits h64 _ (ground arith)
                ∙ ap (λ m. filled r room (pre ++ m))
                    (sym (
                      merge-full bytes index fits lo hi ((k, d) ∷ rest) h64 c below
                        (ground (arith, count, unassembled-le lo₀ lo pre before)))))
        | inr free ↦
            ap (λ s. fill_end s bytes index)
              (fill_gaps-open r bytes index lo₀ room fits h64 _ lo k d rest (ground arith) k64)
            ∙ elim (Bool-cases (leb (index + length bytes) (k + length d))) [
              | inl past ↦ rw (past, inserted) (fit_break lo k d pre rest c.2 (ground arith))
              | inr more ↦
                  rw (more, inserted, regroup pre p (k, d) rest)
                    (later ∙ ap (filled r room) (sym (regroup pre p (k, d) _)))
            ]
      ]
