-- ===== src/Parser/Integers.antt =====
-- Integers that are written are read back, and reading one never throws.
use sponge_fa.Prelude.{
  Bool-cases, get_elem?-lt, ℕ, zero, suc, ◌+◌, ◌*◌, ◌/◌, ◌%◌, ◌^◌, ◌≤◌, ◌<◌, ◌≡◌, ◌∙◌, ◌⊎◌, inl,
  inr, refl, ap, sym, true, false, List, ◌++◌, Option, none, some, length, drop, ltb, if◌then◌else◌,
  arith, dec_le, get_elem?,
}
use mathlib.Core.Path.{subst}
use sponge_fa.Buffer as Buffers
use sponge_fa.Buffer.{Buffer, str, size}
use sponge_fa.Buffer.Prefix.{size_lem, IsValid, Shows, remove_prefix_lem}
use sponge_fa.Parser.{
  new, with_byte, NetParser, ParseResult, is_error, check_size, parse_loop, shift_in, parsed,
  parse_int, u32, u16, int_bytes,
}

-- A parser that has read a value, and the string behind it.
abbrev pub Read : Option (ℕ × NetParser) → ℕ → List ℕ → Type 0
Read none val rest = ⊥
Read (some (v, p)) val rest = (v ≡ val) × (p.error ≡ ParseResult.no_error) × (str p.buffer ≡ rest)

parsed-Read :
    (ret : Option ℕ) (b : Buffer) (b' : Option Buffer) (val : ℕ) (rest : List ℕ)
    → ret ≡ some val
    → Shows b' rest
    → Read (parsed (new b) ret b') val rest
parsed-Read none b b' val rest e s = absurd cc
parsed-Read (some v) b none val rest e s = absurd s
parsed-Read (some v) b (some b') val rest e s = (cc, refl, s)

pub check_size-enough : (b : Buffer) (len : ℕ) → len ≤ size b → check_size (new b) len ≡ new b
unfolding check_size
check_size-enough b len long = let t : ltb (size b) len ≡ false = ground arith in rw t refl

pub parse_int-enough :
    (len : ℕ) (b : Buffer)
    → len ≤ size b
    → parse_int len (new b)
      ≡ parsed (new b) (parse_loop len len 0 0 b) (Buffers.remove_prefix b len)
unfolding parse_int
parse_int-enough len b long =
    ap
      (λ p'.
        if is_error p'.error
        then some (0, p')
        else parsed p' (parse_loop len len 0 0 p'.buffer) (Buffers.remove_prefix p'.buffer len))
      (check_size-enough b len long)

-- What reading an integer comes to: the loop over the bytes in front.
parse_int-Read :
    (len val : ℕ) (b : Buffer) (rest : List ℕ)
    → IsValid b
    → len ≤ size b
    → parse_loop len len 0 0 b ≡ some val
    → drop len (str b) ≡ rest
    → Read (parse_int len (new b)) val rest
parse_int-Read len val b rest v long loop behind = elim (remove_prefix_lem b len v) [
  | inl (more, e) ↦ absurd (omega arith)
  | inr (le, s) ↦
      subst (λ r. Read r val rest) (sym (parse_int-enough len b long))
        (parsed-Read (parse_loop len len 0 0 b) b (Buffers.remove_prefix b len) val rest loop
          (subst (Shows (Buffers.remove_prefix b len)) behind s))
]

front : (b : Buffer) (i : ℕ) (bytes : List ℕ) → str b ≡ bytes → Buffers.at b i ≡ get_elem? bytes i
unfolding Buffers.at
front b i bytes shown = ap (λ s. get_elem? s i) shown

pub parse_loop-bytes_4 :
    (b : Buffer) (val : ℕ) (rest : List ℕ)
    → val < 2 ^ 32
    → str b ≡ int_bytes 4 val ++ rest
    → parse_loop 4 4 0 0 b ≡ some val
unfolding int_bytes parse_loop
parse_loop-bytes_4 b val rest small shown =
    let e0 : Buffers.at b (0) ≡ some ((val / 2 ^ (3 * 8)) % 2 ^ 8) = front b 0 _ shown in
    let e1 : Buffers.at b (1) ≡ some ((val / 2 ^ (2 * 8)) % 2 ^ 8) = front b 1 _ shown in
    let e2 : Buffers.at b (2) ≡ some ((val / 2 ^ (1 * 8)) % 2 ^ 8) = front b 2 _ shown in
    let e3 : Buffers.at b (3) ≡ some ((val / 2 ^ (0 * 8)) % 2 ^ 8) = front b 3 _ shown in
    rw (e0, e1, e2, e3) (ap some (omega arith))

pub parse_loop-bytes_2 :
    (b : Buffer) (val : ℕ) (rest : List ℕ)
    → val < 2 ^ 16
    → str b ≡ int_bytes 2 val ++ rest
    → parse_loop 2 2 0 0 b ≡ some val
unfolding int_bytes parse_loop
parse_loop-bytes_2 b val rest small shown =
    let e0 : Buffers.at b (0) ≡ some ((val / 2 ^ (1 * 8)) % 2 ^ 8) = front b 0 _ shown in
    let e1 : Buffers.at b (1) ≡ some ((val / 2 ^ (0 * 8)) % 2 ^ 8) = front b 1 _ shown in
    rw (e0, e1) (ap some (omega arith))

pub parse_loop-bytes_1 :
    (b : Buffer) (val : ℕ) (rest : List ℕ)
    → val < 2 ^ 8
    → str b ≡ int_bytes 1 val ++ rest
    → parse_loop 1 1 0 0 b ≡ some val
unfolding int_bytes parse_loop
parse_loop-bytes_1 b val rest small shown =
    let e0 : Buffers.at b (0) ≡ some ((val / 2 ^ (0 * 8)) % 2 ^ 8) = front b 0 _ shown in
    rw (e0) (ap some (omega arith))

-- A big-endian integer of 4 bytes that stands in front of a string is read back, whatever follows
-- it, and the rest of the string is left.
pub u32-int_bytes :
    (b : Buffer) (val : ℕ) (rest : List ℕ)
    → IsValid b
    → val < 2 ^ 32
    → str b ≡ int_bytes 4 val ++ rest
    → Read (u32 (new b)) val rest
unfolding u32 int_bytes
u32-int_bytes b val rest v small shown =
    parse_int-Read 4 val b rest v (omega (arith, ap length shown, size_lem b))
      (parse_loop-bytes_4 b val rest small shown) (ap (drop 4) shown)

-- A big-endian integer of 2 bytes that stands in front of a string is read back, whatever follows
-- it, and the rest of the string is left.
pub u16-int_bytes :
    (b : Buffer) (val : ℕ) (rest : List ℕ)
    → IsValid b
    → val < 2 ^ 16
    → str b ≡ int_bytes 2 val ++ rest
    → Read (u16 (new b)) val rest
unfolding u16 int_bytes
u16-int_bytes b val rest v small shown =
    parse_int-Read 2 val b rest v (omega (arith, ap length shown, size_lem b))
      (parse_loop-bytes_2 b val rest small shown) (ap (drop 2) shown)

parse_loop-some :
    (len rounds i ret : ℕ) (b : Buffer)
    → i + rounds ≤ size b
    → (val : ℕ) × (parse_loop len rounds i ret b ≡ some val)
unfolding parse_loop
parse_loop-some len zero i ret b h = (ret, refl)
parse_loop-some len (suc rounds) i ret b h =
    let (byte, e) = get_elem?-lt (str b) i (omega (arith, size_lem b)) in
    let later = parse_loop-some len rounds (i + 1) (shift_in len ret byte) b (omega arith) in
    let there : Buffers.at b i ≡ some byte = front b i (str b) refl ∙ e in
    (
      later.0,
      ap (λ o. with_byte o (λ c. parse_loop len rounds (i + 1) (shift_in len ret c) b)) there
          ∙ later.1,
    )

parsed-some :
    (p : NetParser) (ret : Option ℕ) (b : Option Buffer) (val : ℕ) (rest : List ℕ)
    → ret ≡ some val
    → Shows b rest
    → (b' : Buffer) × (parsed p ret b ≡ some (val, record p { buffer = b' }))
parsed-some p none b val rest e s = absurd cc
parsed-some p (some v) none val rest e s = absurd s
parsed-some p (some v) (some b) val rest e s = (b, cc)

check_size-short :
    (p : NetParser) (len : ℕ)
    → size p.buffer < len
    → check_size p len ≡ record p { error = ParseResult.packet_too_short }
unfolding check_size
check_size-short p len short = let t : ltb (size p.buffer) len ≡ true = ground arith in rw t refl

check_size-long : (p : NetParser) (len : ℕ) → len ≤ size p.buffer → check_size p len ≡ p
unfolding check_size
check_size-long p len long = let t : ltb (size p.buffer) len ≡ false = ground arith in rw t refl

-- The rest of `parse_int`, behind its check.
abbrev checked : ℕ → NetParser → Option (ℕ × NetParser)
checked len p =
    if is_error p.error
    then some (0, p)
    else parsed p (parse_loop len len 0 0 p.buffer) (Buffers.remove_prefix p.buffer len)

parse_int-checked : (len : ℕ) (p : NetParser) → parse_int len p ≡ checked len (check_size p len)
unfolding parse_int
parse_int-checked len p = refl

-- Reading an integer never throws. With too few bytes left it gives zero, leaves the buffer and
-- sets the error; after an earlier error it gives zero and changes nothing; else it gives a value
-- and the error stays.
pub parse_int-total :
    (len : ℕ) (p : NetParser)
    → IsValid p.buffer
    → ((size p.buffer < len)
        × (parse_int len p ≡ some (0, record p { error = ParseResult.packet_too_short })))
      ⊎ (((len ≤ size p.buffer) × (is_error p.error ≡ true) × (parse_int len p ≡ some (0, p)))
          ⊎ ((len ≤ size p.buffer)
              × (is_error p.error ≡ false)
              × ((val : ℕ) × (b : Buffer) × (parse_int len p
                    ≡ some (val, record p { buffer = b })))))
parse_int-total len p v = elim (dec_le len (size p.buffer)) [
  | no short ↦ inl (
    omega arith,
    parse_int-checked len p ∙ ap (checked len) (check_size-short p len (omega arith)),
  )
  | yes long ↦
      let e = parse_int-checked len p ∙ ap (checked len) (check_size-long p len long) in
      elim (Bool-cases (is_error p.error)) [
        | inl bad ↦ inr (inl (long, bad, e ∙ rw bad refl))
        | inr fine ↦ elim (remove_prefix_lem p.buffer len v) [
          | inl (more, x) ↦ absurd (omega arith)
          | inr (le, s) ↦
              let (val, loop) = parse_loop-some len len 0 0 p.buffer (omega arith) in
              let (b, whole) =
                parsed-some p (parse_loop len len 0 0 p.buffer) (Buffers.remove_prefix p.buffer len)
                  val (drop len (str p.buffer)) loop s in
              inr (inr (long, fine, (val, b, e ∙ (rw fine refl ∙ whole))))
        ]
      ]
]
