-- ===== src/EthernetHeader/Codec.antt =====
-- What `serialize` writes is what `parse` reads.
use sponge_fa.Prelude.{
  ◌%◌, ◌*◌, ◌/◌, ℕ, ◌+◌, ◌^◌, ◌≤◌, ◌<◌, ◌≡◌, ◌∙◌, refl, ap, sym, List, [], ◌∷◌, ◌++◌, append_assoc,
  append-nil, Option, some, length, length-append, le→ltb, arith,
}
use mathlib.Core.Path.{subst}
use sponge_fa.Buffer.{Buffer, size}
use sponge_fa.Buffer.Prefix.{size_lem}
use sponge_fa.Parser.{NetParser, ParseResult, new, int_bytes, unparse_u8, unparse_u16, unparse_int}
use sponge_fa.Parser.Fields.{At, u16_next, u8_next}
use sponge_fa.EthernetHeader.{
  EthernetAddress, address_size, EthernetHeader, cons_byte, parse_bytes, bytes_then, parse_fields,
  parse, unparse_bytes, serialize,
}

abbrev pub AllBytes : List ℕ → Type 0
AllBytes [] = Unit
AllBytes (x ∷ xs) = (x < 2 ^ 8) × AllBytes xs

-- Six bytes.
pub record IsAddress (x : EthernetAddress) : Type 0 where
  pub sized : length x ≡ address_size
  pub bytes : AllBytes x

pub record IsWire (h : EthernetHeader) : Type 0 where
  pub dst : IsAddress h.dst
  pub src : IsAddress h.src
  pub type : h.type < 2 ^ 16

unparse_bytes_lem : (s bytes : List ℕ) → AllBytes bytes → unparse_bytes s bytes ≡ s ++ bytes
unfolding unparse_bytes unparse_u8 unparse_int int_bytes
unparse_bytes_lem s [] all = sym (append-nil s)
unparse_bytes_lem s (x ∷ xs) all =
    let e : x / 2 ^ (0 * 8) % 2 ^ 8 ≡ x = omega (arith, all.0) in
    unparse_bytes_lem (s ++ (x / 2 ^ (0 * 8) % 2 ^ 8 ∷ [])) xs all.1
    ∙ append_assoc s (x / 2 ^ (0 * 8) % 2 ^ 8 ∷ []) xs
    ∙ ap (λ k. s ++ (k ∷ xs)) e

byte_At :
    (b : Buffer) (x : ℕ) (rest : List ℕ)
    → x < 2 ^ 8
    → At b (x ∷ rest)
    → At b (int_bytes 1 x ++ rest)
unfolding int_bytes
byte_At b x rest small (v, shown) =
    let e : x ≡ x / 2 ^ (0 * 8) % 2 ^ 8 = omega arith in (v, shown ∙ ap (λ k. k ∷ rest) e)

parse_bytes_lem :
    (bytes rest : List ℕ) (b : Buffer)
    → AllBytes bytes
    → At b (bytes ++ rest)
    → (b' : Buffer) × (parse_bytes (length bytes) (new b) ≡ some (bytes, new b')) × At b' rest
unfolding parse_bytes
parse_bytes_lem [] rest b all a = (b, refl, a)
parse_bytes_lem (x ∷ xs) rest b all a =
    u8_next (λ o. (b' : Buffer) × (o ≡ some (x ∷ xs, new b')) × At b' rest) _ b x (xs ++ rest)
      (λ b a. let (b', e, a') = parse_bytes_lem xs rest b all.1 a in (b', ap (cons_byte x) e, a'))
      all.0 (byte_At b x (xs ++ rest) all.0 a)

-- Reading an address with any continuation.
pub address_next {ℓ} :
    {A : Type 0} (P : Option A → Type ℓ) (k : List ℕ → NetParser → Option A) (b : Buffer)
    (x : EthernetAddress) (rest : List ℕ)
    → ((b' : Buffer) → At b' rest → P (k x (new b')))
    → IsAddress x
    → At b (x ++ rest)
    → P (bytes_then (parse_bytes address_size (new b)) k)
address_next P k b x rest next w a =
    let (b', e, a') = parse_bytes_lem x rest b w.bytes a in
    subst (λ o. P (bytes_then o k)) (sym (ap (λ n. parse_bytes n (new b)) (sym w.sized) ∙ e))
      (next b' a')

-- Writing an address behind what has been written.
pub unparse_address : (s : List ℕ) (x : EthernetAddress) → IsAddress x → unparse_bytes s x ≡ s ++ x
unparse_address s x w = unparse_bytes_lem s x w.bytes

module _ (h : EthernetHeader) (w : IsWire h) where
  abbrev pub layout : List ℕ → List ℕ
  layout rest = h.dst ++ (h.src ++ (int_bytes 2 h.type ++ rest))

  pub serialize_lem : (rest : List ℕ) → serialize h ++ rest ≡ layout rest
  unfolding serialize unparse_u16 unparse_int
  serialize_lem rest =
      ap (λ s. (s ++ int_bytes 2 h.type) ++ rest)
        (unparse_address (unparse_bytes [] h.dst) h.src w.src
          ∙ ap (λ s. s ++ h.src) (unparse_address [] h.dst w.dst))
      ∙ append_assoc (h.dst ++ h.src) (int_bytes 2 h.type) rest
      ∙ append_assoc h.dst h.src (int_bytes 2 h.type ++ rest)

  length-layout : (rest : List ℕ) → length (layout rest) ≡ 14 + length rest
  unfolding int_bytes
  length-layout rest = omega (
    arith,
    length-append h.dst (h.src ++ (int_bytes 2 h.type ++ rest)),
    length-append h.src (int_bytes 2 h.type ++ rest),
    w.dst.sized,
    w.src.sized,
  )

  parse_fields-layout :
      (b : Buffer) (rest : List ℕ)
      → At b (layout rest)
      → (b' : Buffer) × (parse_fields (new b) ≡ some (h, new b', ParseResult.no_error)) × At b' rest
  parse_fields-layout b rest a =
      let P : Option (EthernetHeader × NetParser × ParseResult) → Type 0 =
        λ o. (b' : Buffer) × (o ≡ some (h, new b', ParseResult.no_error)) × At b' rest in
      address_next P _ b h.dst _
        (λ b a.
          address_next P _ b h.src _
            (λ b a. u16_next P _ b h.type rest (λ b a. (b, refl, a)) w.type a) w.src a)
        w.dst a

  pub parse-layout :
      (old : EthernetHeader) (b : Buffer) (rest : List ℕ)
      → At b (layout rest)
      → (b' : Buffer) × (parse old (new b) ≡ some (h, new b', ParseResult.no_error)) × At b' rest
  unfolding parse
  parse-layout old b rest a =
      let long : 14 ≤ size b = omega (arith, size_lem b, ap length a.1, length-layout rest) in
      let (b', e, a') = parse_fields-layout b rest a in (b', rw (le→ltb (size b) 14 long) e, a')
