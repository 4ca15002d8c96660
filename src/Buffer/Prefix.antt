-- ===== src/Buffer/Prefix.antt =====
-- Dropping a prefix of a buffer drops it from the string that is shown.
use sponge_fa.Prelude.{
  length-drop, length-append, inr, inl, ◌⊎◌, ℕ, zero, suc, ◌+◌, ◌-◌, ◌^◌, ◌≤◌, ◌<◌, ◌≡◌, ◌∙◌, refl,
  ap, sym, true, false, List, [], ◌∷◌, ◌++◌, Option, none, some, length, drop, ltb, add64, arith,
  dec_le, dec_lt, ℕ_discrete, eq→==, ne→==,
}
use mathlib.Core.Path.{subst}
use sponge_fa.Buffer.{
  Buffer, shown, str, size, released, remove_prefix, concatenate, with_front, remove_list_prefix,
}

-- The offset and what is shown behind it stay below 2 ^ 64.
pub record IsValid (b : Buffer) : Type 0 where
  pub sized : b.starting_offset + length (str b) < 2 ^ 64

drop-all : (n : ℕ) (xs : List ℕ) → length xs ≤ n → drop n xs ≡ []
drop-all zero [] h = refl
drop-all zero (x ∷ xs) h = absurd (omega arith)
drop-all (suc n) [] h = refl
drop-all (suc n) (x ∷ xs) h = drop-all n xs (omega arith)

drop-drop : (m n : ℕ) (xs : List ℕ) → drop n (drop m xs) ≡ drop (m + n) xs
drop-drop zero n xs = ap (λ k. drop k xs) (omega arith)
drop-drop (suc m) zero [] = sym (drop-all (suc m + 0) [] (omega arith))
drop-drop (suc m) (suc n) [] = sym (drop-all (suc m + suc n) [] (omega arith))
drop-drop (suc m) n (x ∷ xs) =
    let e : suc m + n ≡ suc (m + n) = omega arith in rw e (drop-drop m n xs)

shown-released :
    (storage : Option (List ℕ)) (offset : ℕ)
    → shown (released storage offset) offset ≡ shown storage offset
shown-released none offset = refl
shown-released (some bytes) offset = elim (ℕ_discrete offset (length bytes)) [
  | yes e ↦ rw (eq→== offset (length bytes) e) (sym (drop-all offset bytes (omega arith)))
  | no ne ↦ rw (ne→== offset (length bytes) ne) refl
]

shown-drop :
    (storage : Option (List ℕ)) (m n : ℕ) → shown storage (m + n) ≡ drop n (shown storage m)
shown-drop none m zero = refl
shown-drop none m (suc n) = refl
shown-drop (some bytes) m n = sym (drop-drop m n bytes)

-- Whether an optional buffer shows a string.
abbrev pub Shows : Option Buffer → List ℕ → Type 0
Shows none bytes = ⊥
Shows (some b) bytes = str b ≡ bytes

-- `Buffer::remove_prefix` throws exactly if more is to be dropped than is shown; else the rest is
-- shown.
pub remove_prefix_lem :
    (b : Buffer) (n : ℕ)
    → IsValid b
    → ((size b < n) × (remove_prefix b n ≡ none))
      ⊎ ((n ≤ size b) × Shows (remove_prefix b n) (drop n (str b)))
unfolding remove_prefix str
remove_prefix_lem b n v = elim (dec_le n (size b)) [
  | no more ↦ let t : ltb (size b) n ≡ true = ground arith in inl (omega arith, rw t refl)
  | yes fits ↦
      let t : ltb (size b) n ≡ false = ground arith in
      let inside : b.starting_offset + n < 2 ^ 64 = omega (arith, v.sized) in
      let offset : add64 b.starting_offset n ≡ b.starting_offset + n = omega arith in
      inr (
        fits,
        rw (t, offset)
            (shown-released b.storage (b.starting_offset + n)
              ∙ shown-drop b.storage b.starting_offset n),
      )
]

remove_prefix-Shows :
    (b : Buffer) (n : ℕ) → IsValid b → n ≤ size b → Shows (remove_prefix b n) (drop n (str b))
remove_prefix-Shows b n v fits = elim (remove_prefix_lem b n v) [
  | inl (more, e) ↦ absurd (omega arith)
  | inr (le, s) ↦ s
]

pub size_lem : (b : Buffer) → size b ≡ length (str b)
unfolding size
size_lem b = refl

-- Whether an optional list of buffers shows a string.
abbrev pub ListShows : Option (List Buffer) → List ℕ → Type 0
ListShows none bytes = ⊥
ListShows (some bs) bytes = concatenate bs ≡ bytes

abbrev pub AllValid : List Buffer → Type 0
AllValid [] = Unit
AllValid (b ∷ bs) = IsValid b × AllValid bs

with_front-ListShows :
    (bs : List Buffer) (b : Option Buffer) (bytes : List ℕ)
    → Shows b bytes
    → ListShows (with_front bs b) (bytes ++ concatenate bs)
unfolding concatenate
with_front-ListShows bs none bytes e = absurd e
with_front-ListShows bs (some b) bytes e = ap (λ s. s ++ concatenate bs) e

drop-append-le : (n : ℕ) (xs ys : List ℕ) → n ≤ length xs → drop n (xs ++ ys) ≡ drop n xs ++ ys
drop-append-le zero xs ys h = refl
drop-append-le (suc n) [] ys h = absurd (omega arith)
drop-append-le (suc n) (x ∷ xs) ys h = drop-append-le n xs ys (omega arith)

drop-append-ge :
    (n : ℕ) (xs ys : List ℕ) → length xs ≤ n → drop n (xs ++ ys) ≡ drop (n - length xs) ys
drop-append-ge n [] ys h = ap (λ k. drop k ys) (omega arith)
drop-append-ge zero (x ∷ xs) ys h = absurd (omega arith)
drop-append-ge (suc n) (x ∷ xs) ys h =
    drop-append-ge n xs ys (omega arith) ∙ ap (λ k. drop k ys) (omega arith)

-- `BufferList::remove_prefix` throws exactly if more is to be dropped than the whole list shows;
-- else the list shows the rest.
pub remove_list_prefix_lem :
    (bs : List Buffer) (n : ℕ)
    → AllValid bs
    → ((length (concatenate bs) < n) × (remove_list_prefix bs n ≡ none))
      ⊎ ((n ≤ length (concatenate bs))
          × ListShows (remove_list_prefix bs n) (drop n (concatenate bs)))
unfolding remove_list_prefix concatenate
remove_list_prefix_lem [] n v = elim (ℕ_discrete n 0) [
  | yes e ↦ inr (omega arith, rw (eq→== n 0 e) (sym (drop-all n [] (omega arith))))
  | no ne ↦ inl (omega arith, rw (ne→== n 0 ne) refl)
]
remove_list_prefix_lem (b ∷ bs) n v =
    let whole = length-append (str b) (concatenate bs) in
    elim (ℕ_discrete n 0) [
      | yes e ↦ inr (omega arith, rw (eq→== n 0 e, e) refl)
      | no ne ↦ elim (dec_lt n (size b)) [
        | yes less ↦
            let t : ltb n (size b) ≡ true = ground arith in
            inr (
              omega (arith, whole, size_lem b),
              rw
                  (
                    ne→== n 0 ne,
                    t,
                    drop-append-le n (str b) (concatenate bs) (omega (arith, size_lem b)),
                  )
                  (with_front-ListShows bs (remove_prefix b n) (drop n (str b))
                    (remove_prefix-Shows b n v.0 (omega arith))),
            )
        | no more ↦
            let t : ltb n (size b) ≡ false = ground arith in
            let rest = remove_list_prefix_lem bs (n - size b) v.1 in
            elim rest [
              | inl (h, e) ↦ inl (omega (arith, whole, size_lem b), rw (ne→== n 0 ne, t) e)
              | inr (h, e) ↦ inr (
                omega (arith, whole, size_lem b),
                rw
                    (
                      ne→== n 0 ne,
                      t,
                      drop-append-ge n (str b) (concatenate bs) (omega (arith, size_lem b)),
                    )
                    (subst
                      (λ k.
                        ListShows (remove_list_prefix bs (n - size b))
                          (drop (n - k) (concatenate bs)))
                      (size_lem b) e),
              )
            ]
      ]
    ]

-- What is left when a prefix that is there has been dropped.
pub remove_prefix_next :
    (b : Buffer) (n : ℕ)
    → IsValid b
    → n ≤ size b
    → (b' : Buffer) × (remove_prefix b n ≡ some b') × (str b' ≡ drop n (str b)) × IsValid b'
unfolding remove_prefix str
remove_prefix_next b n v fits =
    let t : ltb (size b) n ≡ false = ground arith in
    let offset : add64 b.starting_offset n ≡ b.starting_offset + n =
      omega (arith, v.sized, size_lem b) in
    let b' : Buffer = record {
      storage = released b.storage (b.starting_offset + n);
      starting_offset = b.starting_offset + n;
    } in
    let rest : str b' ≡ drop n (str b) =
      shown-released b.storage (b.starting_offset + n) ∙ shown-drop b.storage b.starting_offset n in
    (
      b',
      rw (t, offset) refl,
      rest,
      record { sized = omega (arith, v.sized, size_lem b, ap length rest, length-drop n (str b)) },
    )
