-- ===== src/StreamReassembler/Merge.antt =====
-- The map after a substring has been fitted in, as one pass over the entries: the parts of the
-- substring that no entry holds go into the gaps, and what is held already stays.
use sponge_fa.Prelude.{
  ℕ, ◌+◌, ◌-◌, ◌^◌, ◌≤◌, ◌<◌, ◌≡◌, ◌⊎◌, inl, inr, refl, ap, ◌∙◌, List, [], ◌∷◌, ◌++◌, length,
  get_elem?, arith, ltb, leb, if◌then◌else◌,
}
use sponge_fa.StreamReassembler.{Segments, unassembled, resize_segment}
use sponge_fa.StreamReassembler.Resize.{start_lem, length-slot}
use sponge_fa.StreamReassembler.Chain.{Chain, held, Chain-le, Chain-mono, unassembled-le}

-- An entry in front, unless it is empty.
unfoldable pub put : List ℕ × ℕ → Segments → Segments
put ([], at) rest = rest
put (x ∷ xs, at) rest = (at, x ∷ xs) ∷ rest

pub put-append : (p : List ℕ × ℕ) (xs ys : Segments) → put p (xs ++ ys) ≡ put p xs ++ ys
unfolding put
put-append ([], at) xs ys = refl
put-append (x ∷ d, at) xs ys = refl

pub put-empty : (p : List ℕ × ℕ) (xs : Segments) → length p.0 ≡ 0 → put p xs ≡ xs
unfolding put
put-empty ([], at) xs h = refl
put-empty (x ∷ d, at) xs h = absurd (omega arith)

pub unassembled-put :
    (p : List ℕ × ℕ) (xs : Segments) → unassembled (put p xs) ≡ length p.0 + unassembled xs
unfolding put unassembled
unassembled-put ([], at) xs = omega arith
unassembled-put (x ∷ d, at) xs = refl

put-Chain_parts :
    (p : List ℕ × ℕ) (lo hi : ℕ) (rest : Segments)
    → (0 < length p.0 → (lo ≤ p.1) × Chain (p.1 + length p.0) hi rest)
    → Chain lo hi rest
    → Chain lo hi (put p rest)
unfolding put
put-Chain_parts ([], at) lo hi rest h c = c
put-Chain_parts (x ∷ d, at) lo hi rest h c = let k = h (omega arith) in (k.0, omega arith, k.1)

pub held-put :
    (p : List ℕ × ℕ) (rest : Segments) (i : ℕ)
    → held (put p rest) i ≡ (
        if leb p.1 i
        then (if ltb i (p.1 + length p.0) then get_elem? p.0 (i - p.1) else held rest i)
        else held rest i)
unfolding put held
held-put ([], at) rest i = ground arith
held-put (x ∷ d, at) rest i = ground arith

module _ (bytes : List ℕ) (index : ℕ) where
  unfoldable pub merge : ℕ → Segments → Segments
  merge lo [] = put (resize_segment bytes index lo (index + length bytes)) []
  merge lo ((k, d) ∷ rest) =
      put (resize_segment bytes index lo k) ((k, d) ∷ merge (k + length d) rest)

module _ (bytes : List ℕ) (index : ℕ) (fits : index + length bytes < 2 ^ 64) where
  pub put-Chain :
      (lo e hi : ℕ) (rest : Segments)
      → e < 2 ^ 64
      → Chain e hi rest
      → Chain lo hi rest
      → Chain lo hi (put (resize_segment bytes index lo e) rest)
  put-Chain lo e hi rest he c c' =
      put-Chain_parts (resize_segment bytes index lo e) lo hi rest
        (λ pos. (
          omega (arith, start_lem bytes index lo e fits he, length-slot bytes index lo e fits he),
          Chain-mono _ e hi rest
              (omega
                (arith, start_lem bytes index lo e fits he, length-slot bytes index lo e fits he))
              c,
        ))
        c'

  pub merge-Chain :
      (lo hi : ℕ) (segs : Segments)
      → hi < 2 ^ 64
      → index + length bytes ≤ hi
      → Chain lo hi segs
      → Chain lo hi (merge bytes index lo segs)
  unfolding merge
  merge-Chain lo hi [] h64 below c = put-Chain lo (index + length bytes) hi [] fits below c
  merge-Chain lo hi ((k, d) ∷ rest) h64 below c =
      let tail = merge-Chain (k + length d) hi rest h64 below c.2 in
      put-Chain lo k hi _ (omega (arith, Chain-le (k + length d) hi rest c.2))
        (omega arith, c.1, tail) (c.0, c.1, tail)

  pub slot_empty :
      (lo e : ℕ)
      → e < 2 ^ 64
      → (e ≤ lo) ⊎ (index + length bytes ≤ lo)
      → length (resize_segment bytes index lo e).0 ≡ 0
  slot_empty lo e he h =
      omega (arith, start_lem bytes index lo e fits he, length-slot bytes index lo e fits he)

  -- Nothing is put behind the end of the substring.
  pub merge-past :
      (lo hi : ℕ) (segs : Segments)
      → hi < 2 ^ 64
      → Chain lo hi segs
      → index + length bytes ≤ lo
      → merge bytes index lo segs ≡ segs
  unfolding merge
  merge-past lo hi [] h64 c past = put-empty _ [] (slot_empty lo _ fits (inr past))
  merge-past lo hi ((k, d) ∷ rest) h64 c past =
      put-empty _ _
        (slot_empty lo k (omega (arith, Chain-le (k + length d) hi rest c.2)) (inr past))
      ∙ ap (◌∷◌ (k, d)) (merge-past (k + length d) hi rest h64 c.2 (omega arith))

  -- Nothing is put where the entries fill the whole range.
  pub merge-full :
      (lo hi : ℕ) (segs : Segments)
      → hi < 2 ^ 64
      → Chain lo hi segs
      → index + length bytes ≤ hi
      → hi ≤ lo + unassembled segs
      → merge bytes index lo segs ≡ segs
  unfolding merge unassembled
  merge-full lo hi [] h64 c below full = put-empty _ [] (slot_empty lo _ fits (inl (omega arith)))
  merge-full lo hi ((k, d) ∷ rest) h64 c below full =
      let fit = unassembled-le (k + length d) hi rest c.2 in
      put-empty _ _ (slot_empty lo k (omega arith) (inl (omega arith)))
      ∙ ap (◌∷◌ (k, d)) (merge-full (k + length d) hi rest h64 c.2 below (omega arith))

pub merge-nil :
    (index lo hi : ℕ) (segs : Segments)
    → index < 2 ^ 64
    → hi < 2 ^ 64
    → Chain lo hi segs
    → merge [] index lo segs ≡ segs
unfolding merge
merge-nil index lo hi [] i64 h64 c = put-empty _ [] (
    omega (
      arith,
      start_lem [] index lo index (omega arith) i64,
      length-slot [] index lo index (omega arith) i64,
      start_lem [] index lo (index + 0) (omega arith) (omega arith),
      length-slot [] index lo (index + 0) (omega arith) (omega arith),
    ))
merge-nil index lo hi ((k, d) ∷ rest) i64 h64 c =
    let k64 : k < 2 ^ 64 = omega (arith, Chain-le (k + length d) hi rest c.2) in
    put-empty _ _ (
      omega (
        arith,
        start_lem [] index lo k (omega arith) k64,
        length-slot [] index lo k (omega arith) k64,
      ))
    ∙ ap (◌∷◌ (k, d)) (merge-nil index (k + length d) hi rest i64 h64 c.2)
