-- ===== src/TcpHeader/Codec.antt =====
-- What `serialize` writes is what `parse` reads.
use sponge_fa.Prelude.{
  le→ltb, lt→ltb, drop-length, drop, length-append, length-zeros, length, ℕ, ◌+◌, ◌*◌, ◌%◌, ◌-◌,
  ◌^◌, ◌≤◌, ◌<◌, ◌≡◌, ◌∙◌, refl, ap, Bool, false, List, [], ◌++◌, Option, some, ltb, if◌then◌else◌,
  bit, zeros, resize_lem, arith,
}
use sponge_fa.Buffer.{Buffer}
use sponge_fa.Parser.{NetParser, ParseResult, new, int_bytes}
use sponge_fa.Parser.Fields.{remove_prefix-At, At, u32_next, u16_next, u8_next}
use sponge_fa.TcpHeader.{TcpHeader, parse_fields, parse, skip_options, flags, serialize}

-- Every field fits its place.
pub record IsPacked (h : TcpHeader) : Type 0 where
  pub sport : h.sport < 2 ^ 16
  pub dport : h.dport < 2 ^ 16
  pub seqno : h.seqno < 2 ^ 32
  pub ackno : h.ackno < 2 ^ 32
  pub doff : h.doff < 2 ^ 4
  pub win : h.win < 2 ^ 16
  pub cksum : h.cksum < 2 ^ 16
  pub uptr : h.uptr < 2 ^ 16

-- The header can be written.
pub record IsWire (h : TcpHeader) : Type 0 where
  pub packed : IsPacked h
  pub minimal : 5 ≤ h.doff

-- The sixteen bytes before the checksum, and the two behind it.
abbrev pub before_cksum : TcpHeader → List ℕ → List ℕ
before_cksum h rest =
    int_bytes 2 h.sport
    ++ (int_bytes 2 h.dport
        ++ (int_bytes 4 h.seqno
            ++ (int_bytes 4 h.ackno
                ++ (int_bytes 1 (h.doff * 2 ^ 4 % 2 ^ 8)
                    ++ (int_bytes 1 (flags h) ++ (int_bytes 2 h.win ++ rest))))))

abbrev pub layout : TcpHeader → List ℕ → List ℕ
layout h rest = before_cksum h (int_bytes 2 h.cksum ++ (int_bytes 2 h.uptr ++ rest))

pub layout-append : (h : TcpHeader) (s t : List ℕ) → layout h s ++ t ≡ layout h (s ++ t)
unfolding int_bytes
layout-append h s t = refl

pub with_cksum-IsWire :
    (h : TcpHeader) (cksum : ℕ) → IsWire h → cksum < 2 ^ 16 → IsWire (record h { cksum = cksum })
with_cksum-IsWire h cksum w small = record {
  packed = record {
    sport = w.packed.sport;
    dport = w.packed.dport;
    seqno = w.packed.seqno;
    ackno = w.packed.ackno;
    doff = w.packed.doff;
    win = w.packed.win;
    cksum = small;
    uptr = w.packed.uptr;
  };
  minimal = w.minimal;
}

-- The flags, from the number they are packed into.
module _ (urg ack psh rst syn fin : Bool) where
  abbrev packed : ℕ
  packed =
      (if urg then 2 ^ 5 else 0)
      + (if ack then 2 ^ 4 else 0)
      + (if psh then 2 ^ 3 else 0)
      + (if rst then 2 ^ 2 else 0)
      + (if syn then 2 ^ 1 else 0)
      + (if fin then 2 ^ 0 else 0)

  packed-lt : packed < 2 ^ 8
  packed-lt = ground arith

  bits-packed :
      (bit 5 packed ≡ urg)
      × (bit 4 packed ≡ ack)
      × (bit 3 packed ≡ psh)
      × (bit 2 packed ≡ rst)
      × (bit 1 packed ≡ syn)
      × (bit 0 packed ≡ fin)
  bits-packed = (ground arith, ground arith, ground arith, ground arith, ground arith, ground arith)

fields_eta :
    (h : TcpHeader) (doff : ℕ) (urg ack psh rst syn fin : Bool)
    → doff ≡ h.doff
    → (urg ≡ h.urg) × (ack ≡ h.ack) × (psh ≡ h.psh) × (rst ≡ h.rst) × (syn ≡ h.syn) × (fin ≡ h.fin)
    → record h { doff = doff; urg = urg; ack = ack; psh = psh; rst = rst; syn = syn; fin = fin } ≡ h
fields_eta h doff urg ack psh rst syn fin d (a, b, c, e, f, g) = rw (d, a, b, c, e, f, g) refl

module _ (h : TcpHeader) (w : IsPacked h) where
  -- The parser reads the fields back.
  pub parse_fields-layout :
      (b : Buffer) (rest : List ℕ)
      → At b (layout h rest)
      → (b' : Buffer) × (parse_fields (new b) ≡ some (h, new b')) × At b' rest
  unfolding parse_fields
  parse_fields-layout b rest a =
      let P : Option (TcpHeader × NetParser) → Type 0 =
        λ o. (b' : Buffer) × (o ≡ some (h, new b')) × At b' rest in
      u16_next P _ b h.sport _
        (λ b a.
          u16_next P _ b h.dport _
            (λ b a.
              u32_next P _ b h.seqno _
                (λ b a.
                  u32_next P _ b h.ackno _
                    (λ b a.
                      u8_next P _ b (h.doff * 2 ^ 4 % 2 ^ 8) _
                        (λ b a.
                          u8_next P _ b (flags h) _
                            (λ b a.
                              u16_next P _ b h.win _
                                (λ b a.
                                  u16_next P _ b h.cksum _
                                    (λ b a.
                                      u16_next P _ b h.uptr rest
                                        (λ b a. (
                                          b,
                                          ap (λ x. some (x, new b))
                                              (fields_eta h _ _ _ _ _ _ _ (omega (arith, w.doff))
                                                (bits-packed h.urg h.ack h.psh h.rst h.syn h.fin)),
                                          a,
                                        ))
                                        w.uptr a)
                                    w.cksum a)
                                w.win a)
                            (packed-lt h.urg h.ack h.psh h.rst h.syn h.fin) a)
                        (omega arith) a)
                    w.ackno a)
                w.seqno a)
            w.dport a)
        w.sport a

  -- A header that says it is shorter than 20 bytes is refused.
  pub parse-short :
      (old : TcpHeader) (b : Buffer) (rest : List ℕ)
      → At b (layout h rest)
      → h.doff < 5
      → (b' : Buffer) × (parse old (new b) ≡ some (h, new b', ParseResult.header_too_short))
        × At b' rest
  unfolding parse
  parse-short old b rest a short =
      let (b', e, a') = parse_fields-layout b rest a in
      (b', ap skip_options e ∙ rw (lt→ltb h.doff 5 short) refl, a')

module _ (h : TcpHeader) (w : IsWire h) where
  pub serialize_lem : serialize h ≡ some (layout h (zeros (4 * h.doff - 20)))
  unfolding serialize int_bytes
  serialize_lem =
      let l : ltb h.doff 5 ≡ false = le→ltb h.doff 5 w.minimal in
      rw l (ap some (resize_lem (4 * h.doff) (layout h []) (omega (arith, w.minimal))))

  -- `parse` reads the header and skips what fills it up.
  pub parse-layout :
      (old : TcpHeader) (b : Buffer) (rest : List ℕ)
      → At b (layout h (zeros (4 * h.doff - 20) ++ rest))
      → (b' : Buffer) × (parse old (new b) ≡ some (h, new b', ParseResult.no_error)) × At b' rest
  unfolding parse
  parse-layout old b rest a =
      let (b₁, e₁, a₁) = parse_fields-layout h w.packed b _ a in
      let n : h.doff * 4 - 20 ≡ length (zeros (4 * h.doff - 20)) =
        omega (arith, length-zeros (4 * h.doff - 20), w.minimal) in
      let (b₂, e₂, a₂) =
        remove_prefix-At b₁ (h.doff * 4 - 20) _ rest a₁
          (omega (arith, n, length-append (zeros (4 * h.doff - 20)) rest))
          (ap (λ k. drop k (zeros (4 * h.doff - 20) ++ rest)) n
            ∙ drop-length (zeros (4 * h.doff - 20)) rest) in
      let l : ltb h.doff 5 ≡ false = le→ltb h.doff 5 w.minimal in
      (b₂, ap skip_options e₁ ∙ rw (l, e₂) refl, a₂)
