-- ===== src/StreamReassembler/Carried.antt =====
-- One sender's byte stream, `whole`, behind a reassembler: what the pieces of it may be, and how a
-- reassembler stands to it.
use sponge_fa.Prelude.{
  inr, inl, Bool-cases, ◌⊎◌, false, take-all, append_assoc, ap₂, ℕ_discrete, get_elem?, take, some,
  true, Bool, sym, ℕ, suc, zero, ◌+◌, ◌-◌, ◌≤◌, ◌<◌, ◌≡◌, refl, ap, ◌∙◌, List, [], ◌∷◌, ◌++◌,
  length, arith, dec_lt, get_elem?-ge, get_elem?-lt,
}
use sponge_fa.StreamReassembler.{StreamReassembler}
use sponge_fa.StreamReassembler.Chain.{held}
use sponge_fa.StreamReassembler.Contract.{IsValid, arrived, Pushed}

-- A substring of the stream at its place; only one that reaches the end may be called the last.
pub record Genuine (whole bytes : List ℕ) (index : ℕ) (eof : Bool) : Type 0 where
  pub within : index + length bytes ≤ length whole
  pub agrees : (j : ℕ) → j < length bytes → get_elem? bytes j ≡ get_elem? whole (index + j)
  pub last : eof ≡ true → index + length bytes ≡ length whole

-- Of the stream, the bytes up to `next_index` were taken from the output or lie in its buffer, in
-- order; what is held behind is the stream's; the output ends only where the stream does.
pub record Carries (whole : List ℕ) (capacity : ℕ) (taken : List ℕ) (r : StreamReassembler)
    : Type 0 where
  pub valid : IsValid r
  pub sized : r.output.capacity ≡ capacity
  pub got : taken ++ r.output.buffer ≡ take r.next_index whole
  pub inside : r.next_index ≤ length whole
  pub genuine :
      (i b : ℕ) → r.next_index ≤ i → held r.segments i ≡ some b → get_elem? whole i ≡ some b
  pub known_end : r.eof ≡ true → r.eof_index ≡ length whole
  pub ended :
      r.output.end_input ≡ true → (r.segments ≡ []) × (r.eof ≡ true) × (r.next_index ≡ r.eof_index)

-- Behind the end of the output nothing of the stream is missing.
pub Carries-ended :
    (whole : List ℕ) (capacity : ℕ) (taken : List ℕ) (r : StreamReassembler)
    → Carries whole capacity taken r
    → (r.output.end_input ≡ false) ⊎ (taken ++ r.output.buffer ≡ whole)
Carries-ended whole capacity taken r c = elim (Bool-cases r.output.end_input) [
  | inr open_ ↦ inl open_
  | inl t ↦
      let (nothing, known, reached) = c.ended t in
      let at_end : r.next_index ≡ length whole = reached ∙ c.known_end known in
      inr (c.got ∙ take-all r.next_index whole (omega (arith, at_end)))
]

suc_out : (n j : ℕ) → suc n + j ≡ suc (n + j)
suc_out n j = omega arith

take-prefix :
    (xs out : List ℕ)
    → length out ≤ length xs
    → ((j : ℕ) → j < length out → get_elem? out j ≡ get_elem? xs j)
    → take (length out) xs ≡ out
take-prefix xs [] h same = refl
take-prefix [] (x ∷ out) h same = absurd (omega arith)
take-prefix (y ∷ xs) (x ∷ out) h same =
    let first_ = same 0 (omega arith) in
    let head : y ≡ x = cc in
    ap₂ ◌∷◌ head (take-prefix xs out (omega arith) (λ j h. same (suc j) (omega arith)))

pub take-extend :
    (n : ℕ) (xs out : List ℕ)
    → n + length out ≤ length xs
    → ((j : ℕ) → j < length out → get_elem? out j ≡ get_elem? xs (n + j))
    → take (n + length out) xs ≡ take n xs ++ out
take-extend zero xs out h same =
    let e : 0 + length out ≡ length out = omega arith in
    rw e (take-prefix xs out (omega arith) (λ j h. same j h ∙ ap (get_elem? xs) (omega arith)))
take-extend (suc n) [] out h same = absurd (omega arith)
take-extend (suc n) (y ∷ xs) out h same =
    let e : suc n + length out ≡ suc (n + length out) = omega arith in
    rw e (
      ap (◌∷◌ y) (
        take-extend n xs out (omega arith)
          (λ j h. same j h ∙ ap (get_elem? (y ∷ xs)) (suc_out n j))))

some-inside : (xs : List ℕ) (i b : ℕ) → get_elem? xs i ≡ some b → i < length xs
some-inside xs i b e = elim (dec_lt i (length xs)) [
  | yes h ↦ h
  | no h ↦ (let none_ = get_elem?-ge xs i (omega arith) in absurd cc)
]

arrived-Genuine :
    (whole : List ℕ) (r : StreamReassembler) (bytes : List ℕ) (index i b : ℕ) (eof : Bool)
    → Genuine whole bytes index eof
    → ((c : ℕ) → held r.segments i ≡ some c → get_elem? whole i ≡ some c)
    → arrived r bytes index i ≡ some b
    → get_elem? whole i ≡ some b
arrived-Genuine whole r bytes index i b eof g kept e =
    ground (arith, kept b, g.agrees (i - index), g.within, get_elem?-ge bytes (i - index))

module _ (whole : List ℕ) (capacity : ℕ) (taken : List ℕ) (r : StreamReassembler)
    (c : Carries whole capacity taken r) (bytes : List ℕ) (index : ℕ) (eof : Bool)
    (g : Genuine whole bytes index eof) (r' : StreamReassembler) (p : Pushed r bytes index r') where
  out_genuine : (j : ℕ) → j < length p.out → get_elem? p.out j ≡ get_elem? whole (r.next_index + j)
  out_genuine j h =
      let (b, e) = get_elem?-lt p.out j h in
      let i : ℕ = r.next_index + j in
      let a =
        arrived-Genuine whole r bytes index i b eof g (λ b. c.genuine i b (omega arith))
          (sym (p.delivered j h) ∙ e) in
      e ∙ sym a

  out_inside : r.next_index + length p.out ≤ length whole
  out_inside = elim (ℕ_discrete (length p.out) 0) [
    | yes none_ ↦ omega (arith, c.inside)
    | no some_ ↦
        let j : ℕ = length p.out - 1 in
        let (b, e) = get_elem?-lt p.out j (omega arith) in
        let inside =
          some-inside whole (r.next_index + j) b (sym (out_genuine j (omega arith)) ∙ e) in
        omega arith
  ]

  -- Of a stream that is open, what is pushed keeps the reassembler in step with the stream.
  pub Carries-Pushed :
      (r'.eof ≡ true → r'.eof_index ≡ length whole)
      → (r'.output.end_input ≡ true
          → (r'.segments ≡ []) × (r'.eof ≡ true) × (r'.next_index ≡ r'.eof_index))
      → Carries whole capacity taken r'
  Carries-Pushed known ended = record {
    valid = p.valid;
    sized = p.same_capacity ∙ c.sized;
    got =
        ap (◌++◌ taken) p.appended
        ∙ (sym (append_assoc taken r.output.buffer p.out)
            ∙ (ap (λ b. b ++ p.out) c.got
                ∙ (sym (take-extend r.next_index whole p.out out_inside out_genuine)
                    ∙ ap (λ n. take n whole) (sym p.moved))));
    inside = omega (arith, p.moved, out_inside);
    genuine = λ i b h e.
        arrived-Genuine whole r bytes index i b eof g (λ b. c.genuine i b (omega (arith, p.moved)))
          (sym (p.kept i h) ∙ e);
    known_end = known;
    ended = ended;
  }
