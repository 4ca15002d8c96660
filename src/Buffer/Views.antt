-- ===== src/Buffer/Views.antt =====
-- libsponge/util/buffer.hh and buffer.cc, class BufferViewList: views of the strings that a list of
-- buffers shows. A view is what it shows.
use sponge_fa.Prelude.{
  ℕ, ◌-◌, ◌≡◌, refl, ap, sym, true, false, List, [], ◌∷◌, Option, none, some, length, drop, ltb,
  ◌==◌, if◌then◌else◌, arith, eq→==, ne→==, dec_lt, ℕ_discrete, add64, inl, inr,
}
use sponge_fa.Buffer.{Buffer, str, size, remove_prefix, with_front, remove_list_prefix, total_size}
use sponge_fa.Buffer.Prefix.{AllValid, Shows, remove_prefix_lem}

-- The constructor from a BufferList.
unfoldable pub of_list : List Buffer → List (List ℕ)
unfolding str
of_list [] = []
of_list (b ∷ bs) = str b ∷ of_list bs

abbrev cons_view : List ℕ → Option (List (List ℕ)) → Option (List (List ℕ))
cons_view v none = none
cons_view v (some vs) = some (v ∷ vs)

-- `BufferViewList::remove_prefix`; a view's own remove_prefix cannot run out.
unfoldable pub remove_views_prefix : List (List ℕ) → ℕ → Option (List (List ℕ))
remove_views_prefix [] n = if n == 0 then some [] else none
remove_views_prefix (v ∷ vs) n =
    let later = remove_views_prefix vs (n - length v) in
    if n == 0 then some (v ∷ vs) else (if ltb n (length v) then some (drop n v ∷ vs) else later)

unfoldable pub views_size : List (List ℕ) → ℕ
views_size [] = 0
views_size (v ∷ vs) = add64 (length v) (views_size vs)

-- What writev(2) gets.
abbrev pub as_iovecs : List (List ℕ) → List (List ℕ × ℕ)
as_iovecs [] = []
as_iovecs (v ∷ vs) = (v, length v) ∷ as_iovecs vs

abbrev pub views_of : Option (List Buffer) → Option (List (List ℕ))
views_of none = none
views_of (some bs) = some (of_list bs)

views-with_front :
    (bs : List Buffer) (b : Option Buffer) (bytes : List ℕ)
    → Shows b bytes
    → views_of (with_front bs b) ≡ some (bytes ∷ of_list bs)
unfolding of_list
views-with_front bs none bytes e = absurd e
views-with_front bs (some b) bytes e = ap (λ v. some (v ∷ of_list bs)) e

-- Dropping a prefix of the views of a list of valid buffers gives the views of the list behind its
-- own remove_prefix, and throws exactly if that throws.
pub remove_views_prefix-of_list :
    (bs : List Buffer) (n : ℕ)
    → AllValid bs
    → remove_views_prefix (of_list bs) n ≡ views_of (remove_list_prefix bs n)
unfolding remove_views_prefix of_list remove_list_prefix
remove_views_prefix-of_list [] n v = elim (ℕ_discrete n 0) [
  | yes e ↦ rw (eq→== n 0 e) refl
  | no ne ↦ rw (ne→== n 0 ne) refl
]
remove_views_prefix-of_list (b ∷ bs) n v = elim (ℕ_discrete n 0) [
  | yes e ↦ rw (eq→== n 0 e) refl
  | no ne ↦ elim (dec_lt n (size b)) [
    | yes less ↦
        let t : ltb n (size b) ≡ true = ground arith in
        elim (remove_prefix_lem b n v.0) [
          | inl (more, e) ↦ absurd (omega arith)
          | inr (le, s) ↦
              rw (ne→== n 0 ne, t)
                (sym (views-with_front bs (remove_prefix b n) (drop n (str b)) s))
        ]
    | no more ↦
        let t : ltb n (size b) ≡ false = ground arith in
        rw (ne→== n 0 ne, t) (remove_views_prefix-of_list bs (n - size b) v.1)
  ]
]

views_size-of_list : (bs : List Buffer) → views_size (of_list bs) ≡ total_size bs
unfolding views_size of_list total_size size
views_size-of_list [] = refl
views_size-of_list (b ∷ bs) = ap (λ k. add64 (length (str b)) k) (views_size-of_list bs)
