-- ===== src/TcpSegment/Codec.antt =====
-- A segment that was written is read, its checksum included.
use sponge_fa.Prelude.{
  append-nil, ℕ, ◌+◌, ◌*◌, ◌-◌, ◌^◌, ◌≤◌, ◌<◌, ◌≡◌, ◌∙◌, refl, ap, sym, false, List, [], ◌∷◌, ◌++◌,
  some, length, length-append, length-zeros, zeros, arith,
}
use mathlib.Core.Path.{subst}
use sponge_fa.Buffer as Buffers
use sponge_fa.Buffer.{Buffer, of_string}
use sponge_fa.Parser.{new, ParseResult, int_bytes}
use sponge_fa.Parser.Fields.{At, of_string-At}
use sponge_fa.InternetChecksum as Checksum
use sponge_fa.InternetChecksum.Sum.{byte_sum, byte_sum-le, add_lem, add-append, value-verifies}
use sponge_fa.InternetChecksum.Folding.{value_lem}
use sponge_fa.TcpHeader.{TcpHeader}
use sponge_fa.TcpHeader as Header
use sponge_fa.TcpHeader.Codec.{
  IsPacked, parse-short, IsWire, layout, layout-append, with_cksum-IsWire, serialize_lem,
  parse-layout,
}
use sponge_fa.TcpSegment.{
  TcpSegment, serialize, parse, segment_checksum, checksummed, with_header, with_payload,
}

-- The bytes of a segment with a given checksum.
abbrev pub image : TcpSegment → ℕ → List ℕ
image seg cksum =
    layout (record seg.header { cksum = cksum }) (zeros (4 * seg.header.doff - 20) ++ seg.payload)

-- Putting the checksum into its place adds it to the sum.
byte_sum-image :
    (seg : TcpSegment) (cksum : ℕ)
    → cksum < 2 ^ 16
    → byte_sum false (image seg cksum) ≡ byte_sum false (image seg 0) + cksum
unfolding int_bytes
byte_sum-image seg cksum small = omega arith

pub length-image :
    (seg : TcpSegment) (cksum : ℕ)
    → length (image seg cksum) ≡ 20 + ((4 * seg.header.doff - 20) + length seg.payload)
unfolding int_bytes
length-image seg cksum = omega (
  arith,
  length-append (zeros (4 * seg.header.doff - 20)) seg.payload,
  length-zeros (4 * seg.header.doff - 20),
)

-- The checksum that `serialize` computes.
abbrev pub checksum : TcpSegment → ℕ → ℕ
checksum seg layer = Checksum.value (Checksum.add (Checksum.new layer) (image seg 0))

-- The segment that is on the wire.
abbrev pub sent : TcpSegment → ℕ → TcpSegment
sent seg layer = record seg { header = record seg.header { cksum = checksum seg layer } }

-- What `serialize` gives.
abbrev pub written : TcpSegment → ℕ → List Buffer
written seg layer =
    of_string
      (layout (record seg.header { cksum = checksum seg layer }) (zeros (4 * seg.header.doff - 20)))
    ∷ of_string seg.payload
    ∷ []

-- The sum of the whole segment does not leave its 32 bits.
abbrev pub Summable : TcpSegment → ℕ → Type 0
Summable seg layer = layer + 65280 * (4 * seg.header.doff + length seg.payload) + 2 ^ 16 ≤ 2 ^ 32

serialize_eq :
    (seg : TcpSegment) (layer : ℕ)
    → serialize seg layer
      ≡ checksummed seg layer (Header.serialize (record seg.header { cksum = 0 }))
unfolding serialize
serialize_eq seg layer = refl

segment_checksum-checksum :
    (seg : TcpSegment) (layer : ℕ)
    → segment_checksum layer
        (layout (record seg.header { cksum = 0 }) (zeros (4 * seg.header.doff - 20)))
        seg.payload
      ≡ checksum seg layer
segment_checksum-checksum seg layer =
    let h = record seg.header { cksum = 0 } in
    let z = zeros (4 * seg.header.doff - 20) in
    ap Checksum.value (
      add-append (Checksum.new layer) (layout h z) seg.payload
      ∙ ap (Checksum.add (Checksum.new layer)) (layout-append h z seg.payload))

parse_eq :
    (seg : TcpSegment) (b : Buffer) (layer : ℕ)
    → Checksum.value (Checksum.add (Checksum.new layer) (Buffers.str b)) ≡ 0
    → parse seg b layer ≡ with_payload (Header.parse seg.header (new b))
unfolding parse
parse_eq seg b layer e = rw e refl

module _ (seg : TcpSegment) (layer : ℕ) (w : IsWire seg.header) (room : Summable seg layer) where
  sum-image :
      (cksum : ℕ)
      → cksum < 2 ^ 16
      → (Checksum.add (Checksum.new layer) (image seg cksum)).sum
        ≡ layer + byte_sum false (image seg 0) + cksum
  sum-image cksum small =
      let fits : layer + byte_sum false (image seg cksum) < 2 ^ 32 = omega (
        arith,
        byte_sum-le false (image seg 0),
        length-image seg 0,
        w.packed.doff,
        w.minimal,
        byte_sum-image seg cksum small,
      ) in
      add_lem (Checksum.new layer) (image seg cksum) fits
      ∙ omega (arith, byte_sum-image seg cksum small)

  checksum-lt : checksum seg layer < 2 ^ 16
  checksum-lt =
      (value_lem (Checksum.add (Checksum.new layer) (image seg 0)) (
        omega (
          arith,
          sum-image 0 (omega arith),
          byte_sum-le false (image seg 0),
          length-image seg 0,
          w.packed.doff,
          w.minimal,
        ))).1

  verifies : Checksum.value (Checksum.add (Checksum.new layer) (image seg (checksum seg layer))) ≡ 0
  verifies =
      let s0 = sum-image 0 (omega arith) in
      let s1 = sum-image (checksum seg layer) checksum-lt in
      value-verifies (Checksum.add (Checksum.new layer) (image seg 0))
        (Checksum.add (Checksum.new layer) (image seg (checksum seg layer))) (omega (arith, s0, s1))
        (omega (
          arith,
          s1,
          checksum-lt,
          byte_sum-le false (image seg 0),
          length-image seg 0,
          w.packed.doff,
          w.minimal,
        ))

  -- `serialize` does not throw.
  pub serialize-written : serialize seg layer ≡ some (written seg layer)
  unfolding Buffers.append
  serialize-written =
      let c = segment_checksum-checksum seg layer in
      serialize_eq seg layer
      ∙ ap (checksummed seg layer) (
          serialize_lem (record seg.header { cksum = 0 })
            (with_cksum-IsWire seg.header 0 w (omega arith)))
      ∙ ap (λ k. with_header seg.payload (Header.serialize (record seg.header { cksum = k }))) c
      ∙ ap (with_header seg.payload) (
          serialize_lem (record seg.header { cksum = checksum seg layer })
            (with_cksum-IsWire seg.header (checksum seg layer) w checksum-lt))

  pub parse-image :
      (old : TcpSegment) (b : Buffer)
      → At b (image seg (checksum seg layer))
      → parse old b layer ≡ some (sent seg layer, ParseResult.no_error)
  parse-image old b a =
      let (b', e, a') =
        parse-layout (record seg.header { cksum = checksum seg layer })
          (with_cksum-IsWire seg.header (checksum seg layer) w checksum-lt) old.header b seg.payload
          a in
      parse_eq old b layer
        (ap (λ s. Checksum.value (Checksum.add (Checksum.new layer) s)) a.1 ∙ verifies)
      ∙ ap with_payload e
      ∙ ap
          (λ s. some (
            record { header = record seg.header { cksum = checksum seg layer }; payload = s },
            ParseResult.no_error,
          ))
          a'.1

  pub concatenate-written : Buffers.concatenate (written seg layer) ≡ image seg (checksum seg layer)
  unfolding Buffers.concatenate of_string
  concatenate-written =
      ap
        (λ s.
          layout (record seg.header { cksum = checksum seg layer })
            (zeros (4 * seg.header.doff - 20))
          ++ s)
        (append-nil seg.payload)
      ∙ layout-append (record seg.header { cksum = checksum seg layer })
          (zeros (4 * seg.header.doff - 20)) seg.payload

-- A header whose `doff` is below 5 is refused by its own `parse`, with the result that it is too
-- short; but a segment that has this header, with the checksum zero over all of it, is read without error,
-- with the 20 bytes of the fields taken for the header and what is behind them for the payload.
pub parse-short_header :
    (old : TcpSegment) (h : TcpHeader) (b : Buffer) (layer : ℕ) (payload : List ℕ)
    → IsPacked h
    → h.doff < 5
    → At b (layout h payload)
    → Checksum.value (Checksum.add (Checksum.new layer) (Buffers.str b)) ≡ 0
    → (b' : Buffer) × (Header.parse old.header (new b)
        ≡ some (h, new b', ParseResult.header_too_short))
      × (parse old b layer ≡ some (record { header = h; payload = payload }, ParseResult.no_error))
parse-short_header old h b layer payload w short a verifies =
    let (b', e, a') = parse-short h w old.header b payload a short in
    (
      b',
      e,
      parse_eq old b layer verifies
          ∙ ap with_payload e
          ∙ ap (λ s. some (record { header = h; payload = s }, ParseResult.no_error)) a'.1,
    )

-- Whatever segment is written can be read back from the bytes that are sent: `serialize` does not throw,
-- and `parse` of its bytes gives the segment with the checksum filled in, without error, provided that every field fits its
-- place, `doff` is at least 5, and the sum of all bytes stays below 2 ^ 32.
pub parse-serialize_segment :
    (seg old : TcpSegment) (layer : ℕ)
    → IsWire seg.header
    → Summable seg layer
    → (bs : List Buffer) × (serialize seg layer ≡ some bs)
      × (parse old (of_string (Buffers.concatenate bs)) layer
          ≡ some (sent seg layer, ParseResult.no_error))
parse-serialize_segment seg old layer w room = (
  written seg layer,
  serialize-written seg layer w room,
  parse-image seg layer w room old (of_string (Buffers.concatenate (written seg layer))) (
      subst (λ s. At (of_string s) (image seg (checksum seg layer)))
        (sym (concatenate-written seg layer w room))
        (of_string-At (image seg (checksum seg layer))
          (omega (arith, length-image seg (checksum seg layer), w.packed.doff, w.minimal)))),
)
