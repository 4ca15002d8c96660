-- ===== src/StreamReassembler/End.antt =====
-- The end of the stream: what `push_substring` records of it, and when the output ends.
use sponge_fa.Prelude.{
  true, false, add64, Bool, ◌&&◌, ◌==◌, Bool-cases, sym, if◌then◌else◌, ℕ, ◌+◌, ◌-◌, ◌^◌, ◌<◌, ◌≡◌,
  refl, ap, ◌∙◌, inl, inr, List, [], ◌∷◌, length, arith,
}
use mathlib.Core.Path.{subst}
use sponge_fa.ByteStream as Stream
use sponge_fa.StreamReassembler.{
  StreamReassembler, Segments, unassembled, fit_in_reassembler, note_eof, update_free_space,
  unassembled_bytes, pop_assembled, push_into_output, push_substring,
}
use sponge_fa.StreamReassembler.Chain.{Chain}
use sponge_fa.StreamReassembler.Loop.{filled}
use sponge_fa.StreamReassembler.Assemble.{pop_assembled-Popped, ready-Split}
use sponge_fa.StreamReassembler.Window.{fit_in_reassembler_lem}
use sponge_fa.StreamReassembler.Contract.{room, IsValid}
use sponge_fa.StreamReassembler.Merged.{merged, merged-Merged}
use sponge_fa.StreamReassembler.Push.{update_free_space_lem}

-- The end that a reassembler knows behind a substring.
abbrev pub noted_eof : Bool → Bool → Bool
noted_eof true e = true
noted_eof false e = e

abbrev pub noted_index : Bool → ℕ → ℕ → ℕ
noted_index true new old = new
noted_index false new old = old

-- A call that takes `r` to `r'`, with a substring that ends at `last`, and says whether it is the
-- last one: the output ends exactly if nothing waits, the end is known and has been reached, unless
-- no byte of the window is free at the start.
pub record Ended (r : StreamReassembler) (last : ℕ) (eof : Bool) (r' : StreamReassembler)
    : Type 0 where
  pub same_eof : r'.eof ≡ noted_eof eof r.eof
  pub same_index : r'.eof_index ≡ noted_index eof last r.eof_index
  pub sound :
      r'.output.end_input ≡ true
      → (r'.segments ≡ []) × (r'.eof ≡ true) × (r'.next_index ≡ r'.eof_index)
  pub complete :
      unassembled r.segments < room r
      → r'.segments ≡ []
      → r'.eof ≡ true
      → r'.next_index ≡ r'.eof_index
      → r'.output.end_input ≡ true

nothing_waits : (lo hi : ℕ) (segs : Segments) → Chain lo hi segs → unassembled segs ≡ 0 → segs ≡ []
unfolding unassembled
nothing_waits lo hi [] c e = refl
nothing_waits lo hi ((k, d) ∷ rest) c e = absurd (omega arith)

push_into_output-end :
    (s : StreamReassembler) (lo hi : ℕ)
    → let s' = pop_assembled s s.segments in
      let t = push_into_output s in
      Chain lo hi s'.segments
      → s'.output.end_input ≡ false
      → (t.eof ≡ s'.eof)
        × (t.eof_index ≡ s'.eof_index)
        × (t.output.end_input ≡ true
            → (t.segments ≡ []) × (t.eof ≡ true) × (t.next_index ≡ t.eof_index))
        × (t.segments ≡ [] → t.eof ≡ true → t.next_index ≡ t.eof_index → t.output.end_input ≡ true)
unfolding push_into_output unassembled_bytes unassembled Stream.end_input
push_into_output-end s lo hi c open_ =
    let s' = pop_assembled s s.segments in
    elim (Bool-cases (unassembled s'.segments == 0 && (s'.eof && s'.next_index == s'.eof_index))) [
      | inl ends ↦ rw ends (
        refl,
        refl,
        λ e. (nothing_waits lo hi s'.segments c (ground arith), ground arith, ground arith),
        λ a b d. refl,
      )
      | inr goes ↦ rw goes (
        refl,
        refl,
        λ e. absurd (ground arith),
        λ a b d. let zero_ = ap unassembled a in absurd (ground (arith, zero_)),
      )
    ]

module _ (r : StreamReassembler) (bytes : List ℕ) (index : ℕ) (fits : index + length bytes < 2 ^ 64)
    (h64 : r.next_index + room r < 2 ^ 64) (v : IsValid r)
    (open_ : r.output.end_input ≡ false) where
  end_room :
      (e : Bool) (x : ℕ)
      → unassembled r.segments < room r
      → let base = record r { eof = e; eof_index = x; capacity_for_reassembler = room r } in
        let t =
          push_into_output (fit_in_reassembler (filled base (room r) r.segments) bytes index) in
        (t.eof ≡ e)
        × (t.eof_index ≡ x)
        × (t.output.end_input ≡ true
            → (t.segments ≡ []) × (t.eof ≡ true) × (t.next_index ≡ t.eof_index))
        × (t.segments ≡ [] → t.eof ≡ true → t.next_index ≡ t.eof_index → t.output.end_input ≡ true)
  end_room e x free =
      let base = record r { eof = e; eof_index = x; capacity_for_reassembler = room r } in
      let hi : ℕ = r.next_index + room r in
      let segs = merged r bytes index fits h64 v in
      let m = merged-Merged r bytes index fits h64 v in
      let s = filled base (room r) segs in
      let p =
        pop_assembled-Popped hi segs s h64 v.stream open_ m.chain
          (omega (arith, v.stream.bounded)) in
      let rest = (ready-Split r.next_index hi segs m.chain).chain in
      let q =
        push_into_output-end s _ hi (subst (Chain _ hi) (sym p.kept) rest) (p.same_end ∙ open_) in
      rw (fit_in_reassembler_lem base (room r) h64 bytes index r.segments v.chain fits refl free)
        (q.0 ∙ p.same_eof.0, q.1 ∙ p.same_eof.1, q.2, q.3)

  end_noted :
      (e : Bool) (x : ℕ)
      → let r₁ = update_free_space (record r { eof = e; eof_index = x }) in
        let t =
          if r₁.num_bytes_free == 0
          then r₁
          else push_into_output (fit_in_reassembler r₁ bytes index) in
        (t.eof ≡ e)
        × (t.eof_index ≡ x)
        × (t.output.end_input ≡ true
            → (t.segments ≡ []) × (t.eof ≡ true) × (t.next_index ≡ t.eof_index))
        × (unassembled r.segments < room r
            → t.segments ≡ []
            → t.eof ≡ true
            → t.next_index ≡ t.eof_index
            → t.output.end_input ≡ true)
  end_noted e x =
      let r₀ : StreamReassembler = record r { eof = e; eof_index = x } in
      rw
        (update_free_space_lem r₀
          (record { stream = v.stream; chain = v.chain; settled = v.settled }))
        (elim (Bool-cases ((room r - unassembled r.segments) == 0)) [
          | inl full ↦
              rw full (refl, refl, λ ends. absurd (ground arith), λ free. absurd (ground arith))
          | inr free ↦ let q = end_room e x (ground arith) in rw free (q.0, q.1, q.2, λ f. q.3)
        ])

  pub push_substring-Ended :
      (eof : Bool) → Ended r (add64 index (length bytes)) eof (push_substring r bytes index eof)
  unfolding push_substring note_eof
  push_substring-Ended true =
      let q = end_noted true (add64 index (length bytes)) in
      record { same_eof = q.0; same_index = q.1; sound = q.2; complete = q.3 }
  push_substring-Ended false =
      let q = end_noted r.eof r.eof_index in
      record { same_eof = q.0; same_index = q.1; sound = q.2; complete = q.3 }
