-- ===== src/StreamReassembler/Push.antt =====
-- `push_substring` fulfils its contract on every branch.
use sponge_fa.Prelude.{
  true, false, add64, Bool, ne→==, ◌&&◌, append-nil, get_elem?-lt, ◌==◌, Bool-cases, ℕ_discrete,
  ap₂, sym, if◌then◌else◌, none, ◌++◌, ℕ, ◌+◌, ◌-◌, ◌^◌, ◌≤◌, ◌<◌, ◌≡◌, refl, ap, ◌∙◌, inl, inr,
  List, [], ◌∷◌, length, arith,
}
use mathlib.Core.Path.{subst}
use sponge_fa.ByteStream as Stream
use sponge_fa.ByteStream.{ByteStream}
use sponge_fa.ByteStream.Invariant as StreamInvariant
use sponge_fa.StreamReassembler.{
  StreamReassembler, Segments, unassembled, fit_in_reassembler, note_eof, update_free_space,
  unassembled_bytes, pop_assembled, push_into_output, push_substring,
}
use sponge_fa.StreamReassembler.Chain.{Chain, held, unassembled-le}
use sponge_fa.StreamReassembler.Loop.{filled}
use sponge_fa.StreamReassembler.Assemble.{ready, waiting, pop_assembled-Popped}
use sponge_fa.StreamReassembler.Window.{fit_in_reassembler_lem}
use sponge_fa.StreamReassembler.Contract.{room, IsValid, Pushed}
use sponge_fa.StreamReassembler.Merged.{
  Merged, merged, merged-Merged, Pushed-of_Merged, Pushed-end_input,
}

pub update_free_space_lem :
    (r : StreamReassembler)
    → IsValid r
    → update_free_space r
      ≡ filled (record r { capacity_for_reassembler = room r }) (room r) r.segments
unfolding update_free_space
update_free_space_lem r v =
    let remaining = StreamInvariant.remaining_capacity_lem v.stream in
    ap₂ (λ (c f : ℕ). record r { capacity_for_reassembler = c; num_bytes_free = f }) remaining
      (omega (arith, remaining, unassembled-le _ _ r.segments v.chain))

-- A map whose next byte is missing has nothing ready.
settled-ready :
    (lo hi : ℕ) (segs : Segments)
    → Chain lo hi segs
    → held segs lo ≡ none
    → (ready lo segs ≡ []) × (waiting lo segs ≡ segs)
unfolding ready waiting held
settled-ready lo hi [] c h = (refl, refl)
settled-ready lo hi ((k, d) ∷ rest) c h = elim (ℕ_discrete lo k) [
  | yes e ↦ ground (arith, get_elem?-lt d (lo - k))
  | no ne ↦ rw (ne→== lo k ne) (refl, refl)
]

push_into_output-Pushed :
    (r s : StreamReassembler) (bytes : List ℕ) (index : ℕ)
    → ((s' : StreamReassembler)
        → Pushed r bytes index s'
        → Pushed r bytes index (record s' { output = Stream.end_input s'.output }))
    → Pushed r bytes index (pop_assembled s s.segments)
    → Pushed r bytes index (push_into_output s)
unfolding push_into_output
push_into_output-Pushed r s bytes index ending p =
    let s' = pop_assembled s s.segments in
    elim (Bool-cases (unassembled_bytes s' == 0 && (s'.eof && s'.next_index == s'.eof_index))) [
      | inl ends ↦ rw ends (ending s' p)
      | inr goes ↦ rw goes p
    ]

module _ (r : StreamReassembler) (bytes : List ℕ) (index : ℕ) (fits : index + length bytes < 2 ^ 64)
    (h64 : r.next_index + room r < 2 ^ 64) (v : IsValid r)
    (open_ : r.output.end_input ≡ false) where
  push_full :
      (s : StreamReassembler)
      → s.segments ≡ r.segments
      → s.next_index ≡ r.next_index
      → s.output ≡ r.output
      → room r ≤ unassembled r.segments
      → Pushed r bytes index s
  push_full s same_segments same_next same_output full =
      let hi : ℕ = r.next_index + room r in
      let (nothing, all) = settled-ready r.next_index hi r.segments v.chain v.settled in
      let m = merged-Merged r bytes index fits h64 v in
      Pushed-of_Merged r bytes index fits h64 v s r.segments
        (subst (Merged r bytes index) (m.unchanged full) m) (same_segments ∙ sym all)
        (omega (arith, same_next, ap length nothing))
        (ap (λ (o : ByteStream). o.buffer) same_output
          ∙ sym (ap (◌++◌ r.output.buffer) nothing ∙ append-nil r.output.buffer))
        (ap (λ (o : ByteStream). o.capacity) same_output)
        (subst StreamInvariant.IsValid (sym same_output) v.stream)

  push_room :
      (e : Bool) (x : ℕ)
      → unassembled r.segments < room r
      → let base = record r { eof = e; eof_index = x; capacity_for_reassembler = room r } in
        Pushed r bytes index
          (push_into_output (fit_in_reassembler (filled base (room r) r.segments) bytes index))
  push_room e x free =
      let base = record r { eof = e; eof_index = x; capacity_for_reassembler = room r } in
      let hi : ℕ = r.next_index + room r in
      let segs = merged r bytes index fits h64 v in
      let m = merged-Merged r bytes index fits h64 v in
      let s = filled base (room r) segs in
      let p =
        pop_assembled-Popped hi segs s h64 v.stream open_ m.chain
          (omega (arith, v.stream.bounded)) in
      rw (fit_in_reassembler_lem base (room r) h64 bytes index r.segments v.chain fits refl free) (
        push_into_output-Pushed r s bytes index (Pushed-end_input r bytes index fits h64 v) (
          Pushed-of_Merged r bytes index fits h64 v (pop_assembled s segs) segs m p.kept p.moved
            p.written p.same_capacity p.valid))

  push_noted :
      (e : Bool) (x : ℕ)
      → let r₁ = update_free_space (record r { eof = e; eof_index = x }) in
        Pushed r bytes index (
          if r₁.num_bytes_free == 0
          then r₁
          else push_into_output (fit_in_reassembler r₁ bytes index))
  push_noted e x =
      let r₀ : StreamReassembler = record r { eof = e; eof_index = x } in
      rw
        (update_free_space_lem r₀
          (record { stream = v.stream; chain = v.chain; settled = v.settled }))
        (elim (Bool-cases ((room r - unassembled r.segments) == 0)) [
          | inl full ↦ rw full (push_full _ refl refl refl (ground arith))
          | inr free ↦ rw free (push_room e x (ground arith))
        ])

  -- `push_substring` on a valid reassembler whose output has not ended, for a substring and a window
  -- that end below 2 ^ 64: the output gains exactly the longest run of known bytes that starts at
  -- `next_index`, each byte the one that was held or else the substring's, within the window; what
  -- is known behind the run is kept, nothing else is; and the invariant holds again.
  pub push_substring-Pushed : (eof : Bool) → Pushed r bytes index (push_substring r bytes index eof)
  unfolding push_substring note_eof
  push_substring-Pushed true = push_noted true (add64 index (length bytes))
  push_substring-Pushed false = push_noted r.eof r.eof_index
