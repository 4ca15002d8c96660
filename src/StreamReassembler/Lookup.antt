-- ===== src/StreamReassembler/Lookup.antt =====
-- Which bytes the merged map holds: those that were held before, and those of the substring at the
-- indices where none was.
use sponge_fa.Prelude.{
  ℕ, ◌+◌, ◌-◌, ◌^◌, ◌≤◌, ◌<◌, min, max, ◌≡◌, Option, none, some, List, [], ◌∷◌, length,
  get_elem?-ge, get_elem?-lt, arith, ltb, leb, if◌then◌else◌,
}
use sponge_fa.StreamReassembler.{Segments, resize_segment}
use sponge_fa.StreamReassembler.Resize.{byte_at, start_lem, length-slot, get_elem?-slot}
use sponge_fa.StreamReassembler.Chain.{Chain, held, Chain-le, held-below}
use sponge_fa.StreamReassembler.Merge.{put, merge, held-put, merge-Chain}

-- What is held already wins.
abbrev pub first : Option ℕ → Option ℕ → Option ℕ
first none b = b
first (some a) b = some a

module _ (bytes : List ℕ) (index : ℕ) (fits : index + length bytes < 2 ^ 64) where
  pub held-slot :
      (lo e i : ℕ) (rest : Segments)
      → e < 2 ^ 64
      → held (put (resize_segment bytes index lo e) rest) i ≡ (
          if leb (max index lo) i
          then (if ltb i (min e (index + length bytes)) then byte_at bytes index i else held rest i)
          else held rest i)
  held-slot lo e i rest he =
      let p = resize_segment bytes index lo e in
      ground (
        arith,
        held-put p rest i,
        start_lem bytes index lo e fits he,
        length-slot bytes index lo e fits he,
        get_elem?-slot bytes index lo e fits he (i - p.1),
      )

  byte_at-past : (i : ℕ) → index + length bytes ≤ i → byte_at bytes index i ≡ none
  byte_at-past i h = ground (arith, get_elem?-ge bytes (i - index))

  pub held-merge :
      (lo hi i : ℕ) (segs : Segments)
      → hi < 2 ^ 64
      → index + length bytes ≤ hi
      → Chain lo hi segs
      → lo ≤ i
      → held (merge bytes index lo segs) i ≡ first (held segs i) (byte_at bytes index i)
  unfolding merge held
  held-merge lo hi i [] h64 below c h =
      ground (arith, held-slot lo (index + length bytes) i [] fits, byte_at-past i)
  held-merge lo hi i ((k, d) ∷ rest) h64 below c h =
      let tail = merge bytes index (k + length d) rest in
      ground (
        arith,
        held-slot lo k i ((k, d) ∷ tail) (omega (arith, Chain-le (k + length d) hi rest c.2)),
        held-below (k + length d) hi i tail
            (merge-Chain bytes index fits (k + length d) hi rest h64 below c.2),
        held-below (k + length d) hi i rest c.2,
        byte_at-past i,
        get_elem?-lt d (i - k),
        held-merge (k + length d) hi i rest h64 below c.2,
      )
