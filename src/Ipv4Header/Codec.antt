-- ===== src/Ipv4Header/Codec.antt =====
-- What `serialize` writes is what `parse` reads.
use sponge_fa.Prelude.{
  le→ltb, take-length, take, drop-length, length-append, length-zeros, zeros, resize_lem, ltb, ℕ,
  ◌+◌, ◌*◌, ◌%◌, ◌-◌, ◌^◌, ◌≤◌, ◌<◌, ◌≡◌, ◌∙◌, refl, ap, sym, Bool, true, false, List, [], ◌++◌,
  Option, some, length, drop, arith, bit, if◌then◌else◌, ◌==◌,
}
use sponge_fa.Buffer.{Buffer, str, size}
use sponge_fa.Buffer.Prefix.{size_lem}
use sponge_fa.InternetChecksum as Checksum
use sponge_fa.Parser.{NetParser, ParseResult, new, int_bytes}
use sponge_fa.Parser.Fields.{remove_prefix-At, At, u32_next, u16_next, u8_next}
use sponge_fa.Ipv4Header.Parsing.{check_fields-whole}
use sponge_fa.Ipv4Header.{
  Ipv4Header, parse, check_fields, header_checksum, parse_fields, flags_and_offset, serialize,
}

-- Every field fits its place, and the header can be written.
pub record IsWire (h : Ipv4Header) : Type 0 where
  pub ver : h.ver ≡ 4
  pub hlen : (5 ≤ h.hlen) × (h.hlen < 2 ^ 4)
  pub tos : h.tos < 2 ^ 8
  pub len : h.len < 2 ^ 16
  pub id : h.id < 2 ^ 16
  pub offset : h.offset < 2 ^ 13
  pub ttl : h.ttl < 2 ^ 8
  pub proto : h.proto < 2 ^ 8
  pub cksum : h.cksum < 2 ^ 16
  pub src : h.src < 2 ^ 32
  pub dst : h.dst < 2 ^ 32

abbrev pub first_byte : Ipv4Header → ℕ
first_byte h = (h.ver * 2 ^ 4 + h.hlen % 2 ^ 4) % 2 ^ 8

-- The ten bytes before the checksum, and the eight behind it.
abbrev pub before_cksum : Ipv4Header → List ℕ → List ℕ
before_cksum h rest =
    int_bytes 1 (first_byte h)
    ++ (int_bytes 1 h.tos
        ++ (int_bytes 2 h.len
            ++ (int_bytes 2 h.id
                ++ (int_bytes 2 (flags_and_offset h)
                    ++ (int_bytes 1 h.ttl ++ (int_bytes 1 h.proto ++ rest))))))

abbrev pub behind_cksum : Ipv4Header → List ℕ → List ℕ
behind_cksum h rest = int_bytes 4 h.src ++ (int_bytes 4 h.dst ++ rest)

abbrev pub layout : Ipv4Header → List ℕ → List ℕ
layout h rest = before_cksum h (int_bytes 2 h.cksum ++ behind_cksum h rest)

pub layout-append : (h : Ipv4Header) (s t : List ℕ) → layout h s ++ t ≡ layout h (s ++ t)
unfolding int_bytes
layout-append h s t = refl

pub with_cksum-IsWire :
    (h : Ipv4Header) (cksum : ℕ) → IsWire h → cksum < 2 ^ 16 → IsWire (record h { cksum = cksum })
with_cksum-IsWire h cksum w small = record {
  ver = w.ver;
  hlen = w.hlen;
  tos = w.tos;
  len = w.len;
  id = w.id;
  offset = w.offset;
  ttl = w.ttl;
  proto = w.proto;
  cksum = small;
  src = w.src;
  dst = w.dst;
}

-- The two flags and the offset, from the number they are packed into.
module _ (df mf : Bool) (offset : ℕ) (small : offset < 2 ^ 13) where
  abbrev packed : ℕ
  packed = (if df then 2 ^ 14 else 0) + (if mf then 2 ^ 13 else 0) + offset % 2 ^ 13

  bit_14-packed : bit 14 packed ≡ df
  bit_14-packed = ground arith

  bit_13-packed : bit 13 packed ≡ mf
  bit_13-packed = ground arith

  packed-rest : packed % 2 ^ 13 ≡ offset
  packed-rest = ground arith

fields_eta :
    (h : Ipv4Header) (ver hlen offset : ℕ) (df mf : Bool)
    → ver ≡ h.ver
    → hlen ≡ h.hlen
    → df ≡ h.df
    → mf ≡ h.mf
    → offset ≡ h.offset
    → record h { ver = ver; hlen = hlen; df = df; mf = mf; offset = offset } ≡ h
fields_eta h ver hlen offset df mf a b c d e = rw (a, b, c, d, e) refl

pub length-layout : (h : Ipv4Header) (s : List ℕ) → length (layout h s) ≡ 20 + length s
unfolding int_bytes
length-layout h s = omega arith

-- What the checksum of a header's bytes lets `parse` return.
abbrev pub verdict : List ℕ → ParseResult
verdict bytes =
    if Checksum.value (Checksum.add (Checksum.new 0) bytes) == 0
    then ParseResult.no_error
    else ParseResult.bad_checksum

header_checksum_eq :
    (b : Buffer) (n : ℕ)
    → header_checksum b n ≡ Checksum.value (Checksum.add (Checksum.new 0) (take n (str b)))
unfolding header_checksum
header_checksum_eq b n = refl

module _ (h : Ipv4Header) (w : IsWire h) where
  pub serialize_lem : serialize h ≡ some (layout h (zeros (4 * h.hlen - 20)))
  unfolding serialize int_bytes
  serialize_lem =
      let v : (h.ver == 4) ≡ true = ground (arith, w.ver) in
      let l : ltb (4 * h.hlen) 20 ≡ false = ground (arith, w.hlen) in
      rw (v, l) (ap some (resize_lem (4 * h.hlen) (layout h []) (omega (arith, w.hlen))))

  -- The parser reads the fields back.
  pub parse_fields-layout :
      (b : Buffer) (rest : List ℕ)
      → At b (layout h rest)
      → (b' : Buffer) × (parse_fields (new b) ≡ some (h, new b')) × At b' rest
  unfolding parse_fields
  parse_fields-layout b rest a =
      let P : Option (Ipv4Header × NetParser) → Type 0 =
        λ o. (b' : Buffer) × (o ≡ some (h, new b')) × At b' rest in
      u8_next P _ b (first_byte h) _
        (λ b a.
          u8_next P _ b h.tos _
            (λ b a.
              u16_next P _ b h.len _
                (λ b a.
                  u16_next P _ b h.id _
                    (λ b a.
                      u16_next P _ b (flags_and_offset h) _
                        (λ b a.
                          u8_next P _ b h.ttl _
                            (λ b a.
                              u8_next P _ b h.proto _
                                (λ b a.
                                  u16_next P _ b h.cksum _
                                    (λ b a.
                                      u32_next P _ b h.src _
                                        (λ b a.
                                          u32_next P _ b h.dst rest
                                            (λ b a. (
                                              b,
                                              ap (λ x. some (x, new b))
                                                  (fields_eta h _ _ _ _ _
                                                    (omega (arith, w.ver, w.hlen))
                                                    (omega (arith, w.hlen))
                                                    (bit_14-packed h.df h.mf h.offset w.offset)
                                                    (bit_13-packed h.df h.mf h.offset w.offset)
                                                    (packed-rest h.df h.mf h.offset w.offset)),
                                              a,
                                            ))
                                            w.dst a)
                                        w.src a)
                                    w.cksum a)
                                w.proto a)
                            w.ttl a)
                        (ground arith) a)
                    w.id a)
                w.len a)
            w.tos a)
        (omega arith) a

  -- `parse` reads a header in front of as much as its length says, and skips what fills it up;
  -- only the checksum can be wrong.
  pub parse-layout :
      (old : Ipv4Header) (b : Buffer) (rest : List ℕ)
      → At b (layout h (zeros (4 * h.hlen - 20) ++ rest))
      → 4 * h.hlen + length rest ≡ h.len
      → (b' : Buffer) × (parse old (new b)
          ≡ some (h, new b', verdict (layout h (zeros (4 * h.hlen - 20)))))
        × At b' rest
  unfolding parse
  parse-layout old b rest a whole =
      let (b₁, e₁, a₁) = parse_fields-layout b _ a in
      let z = zeros (4 * h.hlen - 20) in
      let lz = length-zeros (4 * h.hlen - 20) in
      let n : h.hlen * 4 - 20 ≡ length z = omega (arith, lz, w.hlen) in
      let (b₂, e₂, a₂) =
        remove_prefix-At b₁ (h.hlen * 4 - 20) _ rest a₁ (omega (arith, n, length-append z rest))
          (ap (λ k. drop k (z ++ rest)) n ∙ drop-length z rest) in
      let whole_size : size b ≡ h.len = omega (
        arith,
        size_lem b,
        ap length a.1,
        length-layout h (z ++ rest),
        length-append z rest,
        lz,
        w.hlen,
      ) in
      let header_shown : take (4 * h.hlen) (str b) ≡ layout h z =
        ap (take (4 * h.hlen)) (a.1 ∙ sym (layout-append h z rest))
        ∙ ap (λ k. take k (layout h z ++ rest)) (omega (arith, length-layout h z, lz, w.hlen))
        ∙ take-length (layout h z) rest in
      (
        b₂,
        rw (le→ltb (size b) 20 (omega (arith, whole_size, w.hlen))) (
            ap (check_fields b) e₁
            ∙ check_fields-whole b h (new b₁) b₂ w.ver w.hlen.0 (omega (arith, whole_size))
                whole_size e₂
            ∙ ap
                (λ k.
                  some
                    (h, new b₂, if k == 0 then ParseResult.no_error else ParseResult.bad_checksum))
                (header_checksum_eq b (4 * h.hlen)
                  ∙ ap (λ s. Checksum.value (Checksum.add (Checksum.new 0) s)) header_shown)),
        a₂,
      )
