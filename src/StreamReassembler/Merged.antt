-- ===== src/StreamReassembler/Merged.antt =====
-- Between the parts and the whole: a merged map, once its front has been popped, fulfils the contract.
use sponge_fa.Prelude.{
  ap₂, length-append, sym, get_elem?-ge, ltb, if◌then◌else◌, none, ◌++◌, ℕ, ◌+◌, ◌-◌, ◌^◌, ◌≤◌, ◌<◌,
  ◌≡◌, ap, ◌∙◌, List, [], ◌∷◌, length, arith,
}
use mathlib.Core.Path.{subst, subst₃}
use sponge_fa.ByteStream as Stream
use sponge_fa.ByteStream.{ByteStream}
use sponge_fa.ByteStream.Invariant as StreamInvariant
use sponge_fa.StreamReassembler.{StreamReassembler, Segments, unassembled}
use sponge_fa.StreamReassembler.Resize.{byte_at, start_lem, length-slot, get_elem?-slot}
use sponge_fa.StreamReassembler.Chain.{Chain, Chain-le, held}
use sponge_fa.StreamReassembler.Merge.{merge, merge-Chain, merge-full, merge-nil}
use sponge_fa.StreamReassembler.Lookup.{first, held-merge}
use sponge_fa.StreamReassembler.Assemble.{ready, waiting, ready-Split}
use sponge_fa.StreamReassembler.Window.{in_window}
use sponge_fa.StreamReassembler.Contract.{room, IsValid, arrived, Pushed}

-- Cutting to the window keeps what lies inside.
window_byte :
    (bytes : List ℕ) (index lo room i : ℕ)
    → index + length bytes < 2 ^ 64
    → lo + room < 2 ^ 64
    → lo ≤ i
    → let p = in_window lo room bytes index in
      byte_at p.0 p.1 i ≡ (if ltb i (lo + room) then byte_at bytes index i else none)
window_byte bytes index lo room i fits h64 h =
    let p = in_window lo room bytes index in
    ground (
      arith,
      start_lem bytes index lo (lo + room) fits h64,
      length-slot bytes index lo (lo + room) fits h64,
      get_elem?-slot bytes index lo (lo + room) fits h64 (i - p.1),
      get_elem?-ge p.0 (i - p.1),
      get_elem?-ge bytes (i - index),
    )

Chain-cast :
    {lo lo' hi hi' : ℕ} {segs segs' : Segments}
    → lo' ≡ lo
    → hi' ≡ hi
    → segs' ≡ segs
    → Chain lo hi segs
    → Chain lo' hi' segs'
Chain-cast p q e c = subst₃ Chain (sym p) (sym q) (sym e) c

-- The merged map: still a chain in the window, and it holds what has arrived.
pub record Merged (r : StreamReassembler) (bytes : List ℕ) (index : ℕ) (segs : Segments)
    : Type 0 where
  pub chain : Chain r.next_index (r.next_index + room r) segs
  pub holds : (i : ℕ) → r.next_index ≤ i → held segs i ≡ arrived r bytes index i
  pub unchanged : room r ≤ unassembled r.segments → segs ≡ r.segments

merge_parts :
    (lo hi : ℕ) (segs : Segments) (p : List ℕ × ℕ)
    → hi < 2 ^ 64
    → p.1 < 2 ^ 64
    → Chain lo hi segs
    → (0 < length p.0 → p.1 + length p.0 ≤ hi)
    → Chain lo hi (merge p.0 p.1 lo segs)
      × ((i : ℕ)
          → lo ≤ i
          → held (merge p.0 p.1 lo segs) i ≡ first (held segs i) (byte_at p.0 p.1 i))
      × (hi ≤ lo + unassembled segs → merge p.0 p.1 lo segs ≡ segs)
merge_parts lo hi segs ([], at) h64 a64 c below =
    let same = merge-nil at lo hi segs a64 h64 c in
    (subst (Chain lo hi) (sym same) c, λ i h. ap (λ s. held s i) same ∙ ground arith, λ full. same)
merge_parts lo hi segs (x ∷ d, at) h64 a64 c below =
    let inside = below (omega arith) in
    let fits : at + length (x ∷ d) < 2 ^ 64 = omega arith in
    (
      merge-Chain (x ∷ d) at fits lo hi segs h64 inside c,
      λ i h. held-merge (x ∷ d) at fits lo hi i segs h64 inside c h,
      λ full. merge-full (x ∷ d) at fits lo hi segs h64 c inside full,
    )

module _ (r : StreamReassembler) (bytes : List ℕ) (index : ℕ) (fits : index + length bytes < 2 ^ 64)
    (h64 : r.next_index + room r < 2 ^ 64) (v : IsValid r) where
  abbrev pub merged : Segments
  merged =
      let p = in_window r.next_index (room r) bytes index in merge p.0 p.1 r.next_index r.segments

  pub merged-Merged : Merged r bytes index merged
  merged-Merged =
      let hi : ℕ = r.next_index + room r in
      let p = in_window r.next_index (room r) bytes index in
      let at_lem = start_lem bytes index r.next_index hi fits h64 in
      let len_lem = length-slot bytes index r.next_index hi fits h64 in
      let parts =
        merge_parts r.next_index hi r.segments p h64 (omega (arith, at_lem)) v.chain
          (λ pos. omega (arith, at_lem, len_lem)) in
      record {
        chain = parts.0;
        holds = λ i h.
            parts.1 i h
            ∙ ap (first (held r.segments i))
                (window_byte bytes index r.next_index (room r) i fits h64 h);
        unchanged = λ full. parts.2 (omega arith);
      }

  -- The loop of `push_into_output` over a merged map fulfils the contract.
  pub Pushed-of_Merged :
      (r' : StreamReassembler) (segs : Segments)
      → Merged r bytes index segs
      → r'.segments ≡ waiting r.next_index segs
      → r'.next_index ≡ r.next_index + length (ready r.next_index segs)
      → r'.output.buffer ≡ r.output.buffer ++ ready r.next_index segs
      → r'.output.capacity ≡ r.output.capacity
      → StreamInvariant.IsValid r'.output
      → Pushed r bytes index r'
  Pushed-of_Merged r' segs m kept moved written capacity valid =
      let lo : ℕ = r.next_index in
      let hi : ℕ = lo + room r in
      let out = ready lo segs in
      let s = ready-Split lo hi segs m.chain in
      let end : ℕ = lo + length out in
      let below = Chain-le end hi (waiting lo segs) s.chain in
      record {
        out = out;
        appended = written;
        moved = moved;
        delivered = λ j h. s.out_held j h ∙ m.holds (lo + j) (omega arith);
        maximal =
            subst (λ i. arrived r bytes index i ≡ none) (sym moved)
              (sym (m.holds end (omega arith)) ∙ (sym (s.kept_held end (omega arith)) ∙ s.maximal));
        kept = λ i h.
            ap (λ g. held g i) kept ∙ (s.kept_held i (omega arith) ∙ m.holds i (omega arith));
        same_capacity = capacity;
        valid = record {
          stream = valid;
          chain =
              Chain-cast moved (omega (arith, ap length written, length-append r.output.buffer out))
                kept s.chain;
          settled = ap₂ held kept moved ∙ s.maximal;
        };
      }

  pub Pushed-end_input :
      (r' : StreamReassembler)
      → Pushed r bytes index r'
      → Pushed r bytes index (record r' { output = Stream.end_input r'.output })
  unfolding Stream.end_input
  Pushed-end_input r' p = record {
    out = p.out;
    appended = p.appended;
    moved = p.moved;
    delivered = p.delivered;
    maximal = p.maximal;
    kept = p.kept;
    same_capacity = p.same_capacity;
    valid = record {
      stream = StreamInvariant.end_input-IsValid p.valid.stream;
      chain = p.valid.chain;
      settled = p.valid.settled;
    };
  }
