-- ===== src/StreamReassembler/Assemble.antt =====
-- The loop of `push_into_output`: which bytes leave the map, and which stay.
use sponge_fa.Prelude.{
  ℕ, suc, ◌+◌, ◌-◌, ◌^◌, ◌≤◌, ◌<◌, ◌≡◌, refl, ap, ap₂, ◌∙◌, sym, false, List, [], ◌∷◌, ◌++◌,
  append-nil, append_assoc, none, length, length-append, get_elem?, get_elem?-append, arith, ◌==◌,
  if◌then◌else◌, add64, ◌≢◌, ℕ_discrete, eq→==, ne→==,
}
use sponge_fa.ByteStream as Stream
use sponge_fa.ByteStream.{ByteStream}
use sponge_fa.ByteStream.Invariant as StreamInvariant
use sponge_fa.StreamReassembler.{StreamReassembler, Segments, unassembled, pop_assembled}
use sponge_fa.StreamReassembler.Chain.{Chain, Chain-le, held, held-below}

-- The bytes that are contiguous from `lo` on, and the entries behind them.
unfoldable pub ready : ℕ → Segments → List ℕ
ready lo [] = []
ready lo ((k, d) ∷ rest) =
    let behind = ready (k + length d) rest in if lo == k then d ++ behind else []

unfoldable pub waiting : ℕ → Segments → Segments
waiting lo [] = []
waiting lo ((k, d) ∷ rest) =
    let behind = waiting (k + length d) rest in if lo == k then behind else (k, d) ∷ rest

ready-here :
    (lo k : ℕ) (d : List ℕ) (rest : Segments)
    → lo ≡ k
    → (ready lo ((k, d) ∷ rest) ≡ d ++ ready (k + length d) rest)
      × (waiting lo ((k, d) ∷ rest) ≡ waiting (k + length d) rest)
unfolding ready waiting
ready-here lo k d rest e = (rw (eq→== lo k e), rw (eq→== lo k e))

ready-gap :
    (lo k : ℕ) (d : List ℕ) (rest : Segments)
    → lo ≢ k
    → (ready lo ((k, d) ∷ rest) ≡ []) × (waiting lo ((k, d) ∷ rest) ≡ (k, d) ∷ rest)
unfolding ready waiting
ready-gap lo k d rest e = (rw (ne→== lo k e), rw (ne→== lo k e))

-- What stays is a chain behind what leaves, nothing is lost, and the next byte is not among it.
pub record Split (lo hi : ℕ) (segs : Segments) (out : List ℕ) (kept : Segments) : Type 0 where
  pub chain : Chain (lo + length out) hi kept
  pub count : length out + unassembled kept ≡ unassembled segs
  pub maximal : held kept (lo + length out) ≡ none
  pub out_held : (j : ℕ) → j < length out → get_elem? out j ≡ held segs (lo + j)
  pub kept_held : (i : ℕ) → lo + length out ≤ i → held kept i ≡ held segs i

Split-here :
    (lo hi k : ℕ) (d out : List ℕ) (rest kept : Segments)
    → lo ≡ k
    → Split (k + length d) hi rest out kept
    → Split lo hi ((k, d) ∷ rest) (d ++ out) kept
unfolding held unassembled
Split-here lo hi k d out rest kept e s =
    let len = length-append d out in
    let end_lem : lo + length (d ++ out) ≡ k + length d + length out = omega (arith, len) in
    record {
      chain = rw end_lem s.chain;
      count = omega (arith, len, s.count);
      maximal = rw end_lem s.maximal;
      out_held = λ j h. ground (arith, len, get_elem?-append d out j, s.out_held (j - length d));
      kept_held = λ i h. ground (arith, len, s.kept_held i);
    }

Split-gap :
    (lo hi k : ℕ) (d : List ℕ) (rest : Segments)
    → lo ≢ k
    → Chain lo hi ((k, d) ∷ rest)
    → Split lo hi ((k, d) ∷ rest) [] ((k, d) ∷ rest)
Split-gap lo hi k d rest e c = record {
  chain = (omega arith, c.1, c.2);
  count = omega arith;
  maximal = held-below (suc lo) hi (lo + 0) ((k, d) ∷ rest) (omega arith, c.1, c.2) (omega arith);
  out_held = λ j h. absurd (omega arith);
  kept_held = λ i h. refl;
}

pub ready-Split :
    (lo hi : ℕ) (segs : Segments)
    → Chain lo hi segs
    → Split lo hi segs (ready lo segs) (waiting lo segs)
unfolding ready waiting
ready-Split lo hi [] c = record {
  chain = omega arith;
  count = omega arith;
  maximal = unfold held in refl;
  out_held = λ j h. absurd (omega arith);
  kept_held = λ i h. refl;
}
ready-Split lo hi ((k, d) ∷ rest) c = elim (ℕ_discrete lo k) [
  | yes e ↦
      let (r, w) = ready-here lo k d rest e in
      rw (eq→== lo k e) (Split-here lo hi k d _ rest _ e (ready-Split (k + length d) hi rest c.2))
  | no ne ↦ rw (ne→== lo k ne) (Split-gap lo hi k d rest ne c)
]

-- The state behind the loop over `segs`, started at `r`.
pub record Popped (r : StreamReassembler) (segs : Segments) (r' : StreamReassembler) : Type 0 where
  pub kept : r'.segments ≡ waiting r.next_index segs
  pub moved : r'.next_index ≡ r.next_index + length (ready r.next_index segs)
  pub written : r'.output.buffer ≡ r.output.buffer ++ ready r.next_index segs
  pub valid : StreamInvariant.IsValid r'.output
  pub same_capacity : r'.output.capacity ≡ r.output.capacity
  pub same_end : r'.output.end_input ≡ r.output.end_input
  pub same_error : r'.output.error ≡ r.output.error
  pub same_eof : (r'.eof ≡ r.eof) × (r'.eof_index ≡ r.eof_index)

Popped-stop :
    (r : StreamReassembler) (segs : Segments)
    → StreamInvariant.IsValid r.output
    → ready r.next_index segs ≡ []
    → waiting r.next_index segs ≡ segs
    → Popped r segs (record r { segments = segs })
Popped-stop r segs v e w = record {
  kept = sym w;
  moved = omega (arith, ap length e);
  written = sym (ap (◌++◌ r.output.buffer) e ∙ append-nil r.output.buffer);
  valid = v;
  same_capacity = refl;
  same_end = refl;
  same_error = refl;
  same_eof = (refl, refl);
}

Popped-next :
    (r r₁ r' : StreamReassembler) (k : ℕ) (d : List ℕ) (rest : Segments)
    → r.next_index ≡ k
    → r₁.next_index ≡ k + length d
    → r₁.output ≡ record r.output {
      buffer = r.output.buffer ++ d;
      bytes_written = add64 r.output.bytes_written (length d);
    }
    → (r₁.eof ≡ r.eof) × (r₁.eof_index ≡ r.eof_index)
    → Popped r₁ rest r'
    → Popped r ((k, d) ∷ rest) r'
Popped-next r r₁ r' k d rest at next out same p =
    let (e, w) = ready-here r.next_index k d rest at in
    record {
      kept = p.kept ∙ (ap (λ i. waiting i rest) next ∙ sym w);
      moved =
          p.moved
          ∙ omega (
            arith,
            ap length e,
            length-append d (ready (k + length d) rest),
            ap (λ i. length (ready i rest)) next,
          );
      written =
          p.written
          ∙ (ap₂ ◌++◌ (ap (λ (s : ByteStream). s.buffer) out) (ap (λ i. ready i rest) next)
              ∙ (append_assoc r.output.buffer d _ ∙ ap (◌++◌ r.output.buffer) (sym e)));
      valid = p.valid;
      same_capacity = p.same_capacity ∙ ap (λ (s : ByteStream). s.capacity) out;
      same_end = p.same_end ∙ ap (λ (s : ByteStream). s.end_input) out;
      same_error = p.same_error ∙ ap (λ (s : ByteStream). s.error) out;
      same_eof = (p.same_eof.0 ∙ same.0, p.same_eof.1 ∙ same.1);
    }

pub pop_assembled-Popped :
    (hi : ℕ) (segs : Segments) (r : StreamReassembler)
    → hi < 2 ^ 64
    → StreamInvariant.IsValid r.output
    → r.output.end_input ≡ false
    → Chain r.next_index hi segs
    → hi + length r.output.buffer ≤ r.next_index + r.output.capacity
    → Popped r segs (pop_assembled r segs)
unfolding pop_assembled
pop_assembled-Popped hi [] r h64 v open_ c room =
    Popped-stop r [] v (unfold ready in refl) (unfold waiting in refl)
pop_assembled-Popped hi ((k, d) ∷ rest) r h64 v open_ c room = elim (ℕ_discrete r.next_index k) [
  | yes e ↦
      let r₁ : StreamReassembler = record r {
        output = (Stream.write r.output d).0;
        next_index = add64 r.next_index (length d);
        num_bytes_free = add64 r.num_bytes_free (length d);
      } in
      let below = Chain-le (k + length d) hi rest c.2 in
      let out = StreamInvariant.write-fits d v open_ (omega arith) in
      let next : r₁.next_index ≡ k + length d = omega arith in
      let len = ap (λ (s : ByteStream). length s.buffer) out in
      rw (eq→== r.next_index k e) (
        Popped-next r r₁ _ k d rest e next out (refl, refl)
          (pop_assembled-Popped hi rest r₁ h64 (StreamInvariant.write-IsValid d v)
            (ap (λ (s : ByteStream). s.end_input) out ∙ open_) (rw next c.2)
            (omega (
              arith,
              len,
              length-append r.output.buffer d,
              ap (λ (s : ByteStream). s.capacity) out,
            ))))
  | no ne ↦
      let (e, w) = ready-gap r.next_index k d rest ne in
      rw (ne→== r.next_index k ne) (Popped-stop r ((k, d) ∷ rest) v e w)
]
