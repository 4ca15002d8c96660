-- ===== src/StreamReassembler/History.antt =====
-- A reassembler over any history of pushes and reads, for pieces of one stream.
use sponge_fa.Prelude.{
  ◌⊎◌, append_assoc, min, ap₂, length-drop, Bool-cases, take, true, false, Bool, sym, ℕ, ◌+◌, ◌-◌,
  ◌^◌, ◌≤◌, ◌<◌, ◌≡◌, refl, ap, ◌∙◌, inl, inr, List, [], ◌∷◌, ◌++◌, length, arith, add64,
}
use mathlib.Core.Path.{subst, subst₃}
use sponge_fa.ByteStream as Stream
use sponge_fa.ByteStream.Fifo.{read-buffer}
use sponge_fa.ByteStream.Invariant as StreamInvariant
use sponge_fa.StreamReassembler.{StreamReassembler, new, push_substring}
use sponge_fa.StreamReassembler.Chain.{Chain, Chain-up, held}
use sponge_fa.StreamReassembler.Contract.{room, new-IsValid}
use sponge_fa.StreamReassembler.Push.{push_substring-Pushed}
use sponge_fa.StreamReassembler.End.{noted_eof, noted_index, push_substring-Ended}
use sponge_fa.StreamReassembler.Late.{SameStream, late_push_substring}
use sponge_fa.StreamReassembler.Carried.{Genuine, Carries, Carries-Pushed, Carries-ended}

-- A substring that arrives, and a read of the output.
pub data Call : Type 0 where
  pushes : List ℕ → ℕ → Bool → Call
  reads : ℕ → Call

-- A reassembler with all bytes that were read from its output.
pub record History : Type 0 where
  pub reassembler : StreamReassembler
  pub taken : List ℕ

unfoldable pub step : History → Call → History
unfolding push_substring Stream.read
step h (pushes bytes index eof) = record h {
  reassembler = push_substring h.reassembler bytes index eof;
}
step h (reads len) =
    let (output', out) = Stream.read h.reassembler.output len in
    record { reassembler = record (h.reassembler) { output = output' }; taken = h.taken ++ out }

unfoldable pub run : History → List Call → History
unfolding step
run h [] = h
run h (c ∷ cs) = run (step h c) cs

-- Every substring is a piece of the stream, and only one that reaches its end is called the last.
abbrev pub Pieces : List ℕ → List Call → Type 0
Pieces whole [] = Unit
Pieces whole (pushes bytes index eof ∷ cs) = Genuine whole bytes index eof × Pieces whole cs
Pieces whole (reads len ∷ cs) = Pieces whole cs

noted_known :
    (whole bytes : List ℕ) (index : ℕ) (eof old : Bool) (old_index : ℕ)
    → Genuine whole bytes index eof
    → index + length bytes < 2 ^ 64
    → (old ≡ true → old_index ≡ length whole)
    → noted_eof eof old ≡ true
    → noted_index eof (add64 index (length bytes)) old_index ≡ length whole
noted_known whole bytes index true old old_index g small known e = omega (arith, g.last refl)
noted_known whole bytes index false old old_index g small known e = known e

noted_eof-known : (eof old : Bool) → old ≡ true → noted_eof eof old ≡ true
noted_eof-known true old e = refl
noted_eof-known false old e = e

Carries-SameStream :
    (whole : List ℕ) (capacity : ℕ) (taken : List ℕ) (r r' : StreamReassembler)
    → SameStream r r'
    → Carries whole capacity taken r
    → Carries whole capacity taken r'
Carries-SameStream whole capacity taken r r' (segs, eof, at_, next, out) c = record {
  valid = record {
    stream = subst StreamInvariant.IsValid (sym out) c.valid.stream;
    chain =
        subst₃ Chain (sym next)
          (ap₂ (λ (n : ℕ) (o : Stream.ByteStream). n + (o.capacity - length o.buffer)) (sym next)
            (sym out))
          (sym segs) c.valid.chain;
    settled = ap₂ held segs next ∙ c.valid.settled;
  };
  sized = ap (λ (o : Stream.ByteStream). o.capacity) out ∙ c.sized;
  got =
      ap (λ (o : Stream.ByteStream). taken ++ o.buffer) out
      ∙ (c.got ∙ ap (λ n. take n whole) (sym next));
  inside = omega (arith, next, c.inside);
  genuine = λ i b h e. c.genuine i b (omega (arith, next)) (sym (ap (λ s. held s i) segs) ∙ e);
  known_end = λ t. at_ ∙ c.known_end (sym eof ∙ t);
  ended = λ t.
      let (a, b, d) = c.ended (sym (ap (λ (o : Stream.ByteStream). o.end_input) out) ∙ t) in
      (segs ∙ a, eof ∙ b, next ∙ (d ∙ sym at_));
}

module _ (whole : List ℕ) (capacity : ℕ) (small : length whole + capacity < 2 ^ 64) where
  pub Carries-push_substring :
      (taken : List ℕ) (r : StreamReassembler) (bytes : List ℕ) (index : ℕ) (eof : Bool)
      → Genuine whole bytes index eof
      → Carries whole capacity taken r
      → Carries whole capacity taken (push_substring r bytes index eof)
  Carries-push_substring taken r bytes index eof g c =
      let fits : index + length bytes < 2 ^ 64 = omega (arith, g.within) in
      let h64 : r.next_index + room r < 2 ^ 64 = omega (arith, c.inside, c.sized) in
      let noted = noted_known whole bytes index eof r.eof r.eof_index g fits c.known_end in
      let r' = push_substring r bytes index eof in
      elim (Bool-cases r.output.end_input) [
        | inr open_ ↦
            let p = push_substring-Pushed r bytes index fits h64 c.valid open_ eof in
            let e = push_substring-Ended r bytes index fits h64 c.valid open_ eof in
            Carries-Pushed whole capacity taken r c bytes index eof g r' p
              (λ t. e.same_index ∙ noted (sym e.same_eof ∙ t)) e.sound
        | inl over ↦
            let (nothing, known, reached) = c.ended over in
            let end_at = c.known_end known in
            let s =
              late_push_substring r bytes index fits h64 c.valid
                (omega (arith, reached, end_at, g.within)) nothing over eof in
            let marked = noted (noted_eof-known eof r.eof known) in
            let r₀ : StreamReassembler = record r {
              eof = noted_eof eof r.eof;
              eof_index = noted_index eof (add64 index (length bytes)) r.eof_index;
            } in
            Carries-SameStream whole capacity taken r₀ r' s (record {
              valid = record {
                stream = c.valid.stream;
                chain = c.valid.chain;
                settled = c.valid.settled;
              };
              sized = c.sized;
              got = c.got;
              inside = c.inside;
              genuine = c.genuine;
              known_end = noted;
              ended =
                  λ t. (nothing, noted_eof-known eof r.eof known, reached ∙ (end_at ∙ sym marked));
            })
      ]

  Carries-read :
      (taken : List ℕ) (r : StreamReassembler) (len : ℕ)
      → Carries whole capacity taken r
      → Carries whole capacity
          (taken ++ Stream.peek_output r.output len)
          (record r { output = Stream.pop_output r.output len })
  unfolding Stream.pop_output
  Carries-read taken r len c =
      let o' = Stream.pop_output r.output len in
      let bytes = read-buffer r.output len in
      let shorter : length o'.buffer ≤ length r.output.buffer =
        omega (arith, length-drop (min len (length r.output.buffer)) r.output.buffer) in
      record {
        valid = record {
          stream = StreamInvariant.pop_output-IsValid len c.valid.stream;
          chain = Chain-up r.next_index _ _ r.segments (omega arith) c.valid.chain;
          settled = c.valid.settled;
        };
        sized = c.sized;
        got =
            append_assoc taken (Stream.peek_output r.output len) o'.buffer
            ∙ (ap (◌++◌ taken) bytes ∙ c.got);
        inside = c.inside;
        genuine = c.genuine;
        known_end = c.known_end;
        ended = c.ended;
      }

  step-Carries :
      (h : History) (call : Call) (cs : List Call)
      → Pieces whole (call ∷ cs)
      → Carries whole capacity h.taken h.reassembler
      → Carries whole capacity (step h call).taken (step h call).reassembler × Pieces whole cs
  unfolding step Stream.read
  step-Carries h (pushes bytes index eof) cs pieces c =
      (Carries-push_substring h.taken h.reassembler bytes index eof pieces.0 c, pieces.1)
  step-Carries h (reads len) cs pieces c = (Carries-read h.taken h.reassembler len c, pieces)

  run-step :
      (cs : List Call) (h : History)
      → Pieces whole cs
      → Carries whole capacity h.taken h.reassembler
      → Carries whole capacity (run h cs).taken (run h cs).reassembler
  unfolding run
  run-step [] h pieces c = c
  run-step (call ∷ cs) h pieces c =
      let (c', pieces') = step-Carries h call cs pieces c in run-step cs (step h call) pieces' c'

  pub new-Carries : Carries whole capacity [] (new capacity)
  unfolding new held Stream.new
  new-Carries = record {
    valid = new-IsValid capacity (omega arith);
    sized = refl;
    got = refl;
    inside = omega arith;
    genuine = λ i b h e. absurd cc;
    known_end = λ e. absurd cc;
    ended = λ e. absurd cc;
  }

  -- Pushes of pieces of one stream, in any order, repeated, overlapping or lost, with reads in
  -- between: as long as the stream and the capacity end below 2 ^ 64, what was read, followed by
  -- what is buffered, is the stream up to `next_index`; each byte that is held is the stream's; and
  -- the output ends only when the whole stream has been assembled.
  pub run-Carries :
      (cs : List Call)
      → Pieces whole cs
      → let h = run (record { reassembler = new capacity; taken = [] }) cs in
        Carries whole capacity h.taken h.reassembler
        × ((h.reassembler.output.end_input ≡ false)
            ⊎ (h.taken ++ h.reassembler.output.buffer ≡ whole))
  run-Carries cs pieces =
      let h = run (record { reassembler = new capacity; taken = [] }) cs in
      let c = run-step cs (record { reassembler = new capacity; taken = [] }) pieces new-Carries in
      (c, Carries-ended whole capacity h.taken h.reassembler c)
