-- ===== src/StreamReassembler/Empty.antt =====
-- `push_substring` of no bytes, which is the same at every index.
use sponge_fa.Prelude.{
  ◌∙◌, zero, suc, Bool-cases, if◌then◌else◌, ◌==◌, inl, inr, false, sym, ℕ, ◌+◌, ◌^◌, ◌<◌, ◌≡◌,
  refl, ap, List, [], length, drop, take, sub64, add64, arith,
}
use mathlib.Core.Path.{subst}
use sponge_fa.StreamReassembler.{
  StreamReassembler, push_substring, resize_segment, resize_begin, resize_end, fit_resized,
  fit_in_reassembler, note_eof, update_free_space, push_into_output,
}
use sponge_fa.StreamReassembler.Carried.{Carries}
use sponge_fa.StreamReassembler.History.{Carries-push_substring}

drop-nil : (n : ℕ) → drop {A = ℕ} n [] ≡ []
drop-nil zero = refl
drop-nil (suc n) = refl

take-nil : (n : ℕ) → take {A = ℕ} n [] ≡ []
take-nil zero = refl
take-nil (suc n) = refl

resize_segment-empty :
    (index begin_idx end_idx : ℕ) → (resize_segment [] index begin_idx end_idx).0 ≡ []
unfolding resize_segment
resize_segment-empty index begin_idx end_idx =
    let b = resize_begin [] index begin_idx in
    let e = resize_end [] index begin_idx end_idx in
    ap (take (sub64 e b)) (drop-nil (sub64 b index)) ∙ take-nil (sub64 e b)

fit_resized-empty :
    (r : StreamReassembler) (slot : List ℕ × ℕ) → slot.0 ≡ [] → fit_resized r slot.0 slot.1 ≡ r
unfolding fit_resized
fit_resized-empty r slot e = rw e refl

fit_in_reassembler-empty : (r : StreamReassembler) (index : ℕ) → fit_in_reassembler r [] index ≡ r
unfolding fit_in_reassembler
fit_in_reassembler-empty r index =
    let end_idx = add64 r.next_index r.capacity_for_reassembler in
    elim (Bool-cases (r.num_bytes_free == 0)) [
      | inl full ↦ rw full refl
      | inr free ↦ rw free (
          fit_resized-empty r (resize_segment [] index r.next_index end_idx)
            (resize_segment-empty index r.next_index end_idx))
    ]

push_substring-empty :
    (r : StreamReassembler) (index : ℕ)
    → push_substring r [] index false
      ≡ (let r' = update_free_space r in if r'.num_bytes_free == 0 then r' else push_into_output r')
unfolding push_substring note_eof
push_substring-empty r index =
    ap
      (λ t.
        if (update_free_space r).num_bytes_free == 0
        then update_free_space r
        else push_into_output t)
      (fit_in_reassembler-empty (update_free_space r) index)

-- Nothing, pushed at any index, leaves a reassembler that carries a stream as one that does.
pub Carries-push_empty :
    (whole : List ℕ) (capacity : ℕ) (taken : List ℕ) (r : StreamReassembler) (index : ℕ)
    → length whole + capacity < 2 ^ 64
    → Carries whole capacity taken r
    → Carries whole capacity taken (push_substring r [] index false)
Carries-push_empty whole capacity taken r index small c =
    subst (Carries whole capacity taken)
      (push_substring-empty r r.next_index ∙ sym (push_substring-empty r index))
      (Carries-push_substring whole capacity small taken r [] r.next_index false
        (record {
          within = omega (arith, c.inside);
          agrees = λ j h. absurd (omega arith);
          last = λ e. absurd cc;
        })
        c)
