-- ===== src/StreamReassembler/Resize.antt =====
-- `resize_segment` on its own: the part of a substring that lies between two stream indices.
use sponge_fa.Prelude.{
  take-all, take, ap₂, ℕ, ◌+◌, ◌-◌, ◌^◌, ◌≤◌, ◌<◌, min, max, ◌≡◌, ap, ◌∙◌, leb, if◌then◌else◌,
  Option, none, List, length, drop, get_elem?, arith, sub64, length-take, length-drop,
  get_elem?-take, get_elem?-drop,
}
use sponge_fa.StreamReassembler.{resize_begin, resize_end, resize_segment}

-- Neither `substr` of `resize_segment` can throw: it starts inside the data or at its end, also
-- where `index + length` wraps.
pub resize_segment_in_range :
    (bytes : List ℕ) (index b : ℕ)
    → index < 2 ^ 64
    → b < 2 ^ 64
    → length bytes < 2 ^ 64
    → sub64 (resize_begin bytes index b) index ≤ length bytes
unfolding resize_begin
resize_segment_in_range bytes index b hi hb hl = omega arith

-- The byte that a substring starting at `index` has for stream index `i`.
abbrev pub byte_at : List ℕ → ℕ → ℕ → Option ℕ
byte_at bytes index i = if leb index i then get_elem? bytes (i - index) else none

-- Where nothing wraps, `resize_segment` keeps the part between the indices that it is given, and
-- says where that part starts.
module _ (bytes : List ℕ) (index b e : ℕ) (h : index + length bytes < 2 ^ 64)
    (he : e < 2 ^ 64) where
  abbrev slot : List ℕ
  slot = (resize_segment bytes index b e).0

  abbrev start : ℕ
  start = (resize_segment bytes index b e).1

  pub start_lem : start ≡ min (index + length bytes) (max index b)
  unfolding resize_segment
  start_lem = omega arith

  pub length-slot : length slot ≡ max start (min (index + length bytes) e) - start
  unfolding resize_segment
  length-slot = omega (
    arith,
    start_lem,
    length-take (sub64 (resize_end bytes index b e) (resize_begin bytes index b))
        (drop (sub64 (resize_begin bytes index b) index) bytes),
    length-drop (sub64 (resize_begin bytes index b) index) bytes,
  )

  pub get_elem?-slot :
      (j : ℕ) → j < length slot → get_elem? slot j ≡ get_elem? bytes (start - index + j)
  unfolding resize_segment
  get_elem?-slot j hj =
      let n : ℕ = sub64 (resize_end bytes index b e) (resize_begin bytes index b) in
      let m : ℕ = sub64 (resize_begin bytes index b) index in
      get_elem?-take n j (drop m bytes) (omega (arith, length-take n (drop m bytes)))
      ∙ (get_elem?-drop m j bytes ∙ ap (get_elem? bytes) (omega (arith, start_lem)))

-- The whole of a substring is kept between its own ends.
pub resize_segment_self :
    (bytes : List ℕ) (index b : ℕ)
    → index + length bytes < 2 ^ 64
    → b ≤ index
    → resize_segment bytes index b (index + length bytes) ≡ (bytes, index)
unfolding resize_segment
resize_segment_self bytes index b h below =
    let lo : ℕ = resize_begin bytes index b in
    let hi : ℕ = resize_end bytes index b (index + length bytes) in
    let at : lo ≡ index = omega arith in
    let skip : sub64 lo index ≡ 0 = omega arith in
    let size : sub64 hi lo ≡ length bytes = omega arith in
    ap₂ (λ (x : List ℕ) (y : ℕ). (x, y))
      (ap₂ (λ (n m : ℕ). take n (drop m bytes)) size skip
        ∙ take-all (length bytes) bytes (omega arith))
      at
