-- ===== src/StreamReassembler/Chain.antt =====
-- The entries of the map as a chain of disjoint intervals, and the bytes that they hold.
use sponge_fa.Prelude.{
  ℕ, suc, ◌+◌, ◌-◌, ◌^◌, ◌≤◌, ◌<◌, ◌≡◌, refl, Option, none, List, [], ◌∷◌, ◌++◌, length, get_elem?,
  arith, ltb, if◌then◌else◌,
}
use sponge_fa.StreamReassembler.{Segments, unassembled, last_index, map_insert}

-- The entries are non-empty, ordered and disjoint, and lie between `lo` and `hi`.
abbrev pub Chain : ℕ → ℕ → Segments → Type 0
Chain lo hi [] = lo ≤ hi
Chain lo hi ((k, d) ∷ rest) = (lo ≤ k) × (0 < length d) × Chain (k + length d) hi rest

-- The byte that is held for stream index `i`.
unfoldable pub held : Segments → ℕ → Option ℕ
held [] i = none
held ((k, d) ∷ rest) i =
    let here = get_elem? d (i - k) in
    let behind = held rest i in
    if ltb i k then behind else (if ltb i (k + length d) then here else behind)

-- The index behind the last entry, or `lo` where there is none.
abbrev pub end_from : ℕ → Segments → ℕ
end_from lo [] = lo
end_from lo ((k, d) ∷ rest) = end_from (k + length d) rest

pub Chain-le : (lo hi : ℕ) (segs : Segments) → Chain lo hi segs → lo ≤ hi
Chain-le lo hi [] c = c
Chain-le lo hi ((k, d) ∷ rest) c = omega (arith, Chain-le (k + length d) hi rest c.2)

pub Chain-mono : (lo lo' hi : ℕ) (segs : Segments) → lo ≤ lo' → Chain lo' hi segs → Chain lo hi segs
Chain-mono lo lo' hi [] h c = omega arith
Chain-mono lo lo' hi ((k, d) ∷ rest) h c = (omega arith, c.1, c.2)

-- The entries fit between the ends of the chain.
pub unassembled-le : (lo hi : ℕ) (segs : Segments) → Chain lo hi segs → lo + unassembled segs ≤ hi
unfolding unassembled
unassembled-le lo hi [] c = omega arith
unassembled-le lo hi ((k, d) ∷ rest) c = omega (arith, unassembled-le (k + length d) hi rest c.2)

pub unassembled-append :
    (xs ys : Segments) → unassembled (xs ++ ys) ≡ unassembled xs + unassembled ys
unfolding unassembled
unassembled-append [] ys = omega arith
unassembled-append ((k, d) ∷ xs) ys = omega (arith, unassembled-append xs ys)

pub Chain-append :
    (lo mid hi : ℕ) (xs ys : Segments) → Chain lo mid xs → Chain mid hi ys → Chain lo hi (xs ++ ys)
Chain-append lo mid hi [] ys c e = Chain-mono lo mid hi ys c e
Chain-append lo mid hi ((k, d) ∷ xs) ys c e =
    (c.0, c.1, Chain-append (k + length d) mid hi xs ys c.2 e)

pub Chain-up : (lo hi hi' : ℕ) (segs : Segments) → hi ≤ hi' → Chain lo hi segs → Chain lo hi' segs
Chain-up lo hi hi' [] h c = omega arith
Chain-up lo hi hi' ((k, d) ∷ rest) h c = (c.0, c.1, Chain-up (k + length d) hi hi' rest h c.2)

pub held-below : (lo hi i : ℕ) (segs : Segments) → Chain lo hi segs → i < lo → held segs i ≡ none
unfolding held
held-below lo hi i [] c h = refl
held-below lo hi i ((k, d) ∷ rest) c h =
    ground (arith, held-below (k + length d) hi i rest c.2 (omega arith))

pub end_from-bounds :
    (lo hi : ℕ) (segs : Segments)
    → Chain lo hi segs
    → (lo ≤ end_from lo segs) × (end_from lo segs ≤ hi)
end_from-bounds lo hi [] c = omega arith
end_from-bounds lo hi ((k, d) ∷ rest) c = omega (arith, end_from-bounds (k + length d) hi rest c.2)

-- `rbegin()` gives the end of the last entry.
last_index-cons :
    (k : ℕ) (d : List ℕ) (rest : Segments) (hi : ℕ)
    → hi < 2 ^ 64
    → Chain (k + length d) hi rest
    → last_index ((k, d) ∷ rest) ≡ end_from (k + length d) rest
unfolding last_index
last_index-cons k d [] hi h c = omega arith
last_index-cons k d ((k', d') ∷ rest) hi h c = last_index-cons k' d' rest hi h c.2

pub last_index-append :
    (xs : Segments) (k : ℕ) (d : List ℕ) (rest : Segments) (hi : ℕ)
    → hi < 2 ^ 64
    → Chain (k + length d) hi rest
    → last_index (xs ++ ((k, d) ∷ rest)) ≡ end_from (k + length d) rest
unfolding last_index
last_index-append [] k d rest hi h c = last_index-cons k d rest hi h c
last_index-append (x ∷ []) k d rest hi h c = last_index-cons k d rest hi h c
last_index-append (x ∷ (y ∷ xs)) k d rest hi h c = last_index-append (y ∷ xs) k d rest hi h c

-- An entry goes between those that end at or before it and those that start behind it.
pub map_insert-append :
    (lo at hi : ℕ) (seg : List ℕ) (xs ys : Segments)
    → Chain lo at xs
    → Chain (suc at) hi ys
    → map_insert at seg (xs ++ ys) ≡ xs ++ ((at, seg) ∷ ys)
unfolding map_insert
map_insert-append lo at hi seg [] [] c e = refl
map_insert-append lo at hi seg [] ((k, d) ∷ ys) c e = ground arith
map_insert-append lo at hi seg ((k, d) ∷ xs) ys c e = ground (
  arith,
  map_insert-append (k + length d) at hi seg xs ys c.2 e,
  Chain-le (k + length d) at xs c.2,
)
