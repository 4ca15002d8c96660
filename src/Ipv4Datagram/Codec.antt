-- ===== src/Ipv4Datagram/Codec.antt =====
-- A datagram that was written is read, its checksum included.
use sponge_fa.Prelude.{
  ◌==◌, if◌then◌else◌, append-nil, ℕ, ◌+◌, ◌*◌, ◌-◌, ◌^◌, ◌<◌, ◌≡◌, ◌∙◌, refl, ap, sym, false, List,
  [], ◌∷◌, ◌++◌, some, length, length-append, length-zeros, zeros, arith, eq→==,
}
use sponge_fa.Buffer as Buffers
use sponge_fa.Buffer.{Buffer, of_string, concatenate, total_size}
use sponge_fa.Buffer.Prefix.{size_lem}
use sponge_fa.Parser.{new, ParseResult, int_bytes}
use sponge_fa.Parser.Fields.{At, of_string-At}
use sponge_fa.InternetChecksum as Checksum
use sponge_fa.InternetChecksum.Folding.{value_lem}
use sponge_fa.InternetChecksum.Sum.{byte_sum, byte_sum-le, add_lem, value-verifies}
use sponge_fa.Ipv4Header.{Ipv4Header, payload_length}
use sponge_fa.Ipv4Header as Header
use sponge_fa.Ipv4Header.Codec.{
  IsWire, layout, verdict, length-layout, layout-append, with_cksum-IsWire, serialize_lem,
  parse-layout,
}
use sponge_fa.Ipv4Datagram.{Ipv4Datagram, serialize, parse, checksummed, with_header, with_payload}

-- The header's bytes with a given checksum.
abbrev pub header_image : Ipv4Header → ℕ → List ℕ
header_image h cksum = layout (record h { cksum = cksum }) (zeros (4 * h.hlen - 20))

-- The checksum that `serialize` computes.
abbrev pub checksum : Ipv4Header → ℕ
checksum h = Checksum.value (Checksum.add (Checksum.new 0) (header_image h 0))

-- The header that is on the wire.
abbrev pub sent : Ipv4Header → Ipv4Header
sent h = record h { cksum = checksum h }

-- What `serialize` gives.
abbrev pub written : Ipv4Datagram → List Buffer
written d = of_string (header_image d.header (checksum d.header)) ∷ d.payload

byte_sum-header_image :
    (h : Ipv4Header) (cksum : ℕ)
    → cksum < 2 ^ 16
    → byte_sum false (header_image h cksum) ≡ byte_sum false (header_image h 0) + cksum
unfolding int_bytes
byte_sum-header_image h cksum small = omega arith

module _ (h : Ipv4Header) (w : IsWire h) where
  length-header_image : (cksum : ℕ) → length (header_image h cksum) ≡ 4 * h.hlen
  length-header_image cksum = omega (
    arith,
    length-layout (record h { cksum = cksum }) (zeros (4 * h.hlen - 20)),
    length-zeros (4 * h.hlen - 20),
    w.hlen,
  )

  sum-header_image :
      (cksum : ℕ)
      → cksum < 2 ^ 16
      → (Checksum.add (Checksum.new 0) (header_image h cksum)).sum
        ≡ byte_sum false (header_image h 0) + cksum
  sum-header_image cksum small =
      let e = byte_sum-header_image h cksum small in
      let fits : 0 + byte_sum false (header_image h cksum) < 2 ^ 32 =
        omega (arith, byte_sum-le false (header_image h 0), length-header_image 0, w.hlen, e) in
      add_lem (Checksum.new 0) (header_image h cksum) fits ∙ omega (arith, e)

  sum-lt : byte_sum false (header_image h 0) + 2 ^ 16 < 2 ^ 32
  sum-lt = omega (arith, byte_sum-le false (header_image h 0), length-header_image 0, w.hlen)

  checksum-lt : checksum h < 2 ^ 16
  checksum-lt =
      (value_lem (Checksum.add (Checksum.new 0) (header_image h 0))
        (omega (arith, sum-header_image 0 (omega arith), sum-lt))).1

  verifies : Checksum.value (Checksum.add (Checksum.new 0) (header_image h (checksum h))) ≡ 0
  verifies =
      let s₀ = sum-header_image 0 (omega arith) in
      let s₁ = sum-header_image (checksum h) checksum-lt in
      value-verifies (Checksum.add (Checksum.new 0) (header_image h 0))
        (Checksum.add (Checksum.new 0) (header_image h (checksum h))) (omega (arith, s₀, s₁))
        (omega (arith, s₁, checksum-lt, sum-lt))

total_size_lem :
    (bs : List Buffer) → length (concatenate bs) < 2 ^ 64 → total_size bs ≡ length (concatenate bs)
unfolding total_size concatenate
total_size_lem [] h = refl
total_size_lem (b ∷ bs) h =
    let n = length-append (Buffers.str b) (concatenate bs) in
    omega (arith, n, size_lem b, total_size_lem bs (omega (arith, n)))

payload_length_lem :
    (h : Ipv4Header) (n : ℕ) → 4 * h.hlen + n ≡ h.len → h.len < 2 ^ 16 → payload_length h ≡ n
unfolding payload_length
payload_length_lem h n whole small = omega arith

concatenate-one : (b : Buffer) → concatenate (b ∷ []) ≡ Buffers.str b
unfolding concatenate
concatenate-one b = append-nil (Buffers.str b)

serialize_eq :
    (d : Ipv4Datagram)
    → total_size d.payload ≡ payload_length d.header
    → serialize d ≡ checksummed d (Header.serialize (record d.header { cksum = 0 }))
unfolding serialize
serialize_eq d e = rw (eq→== (total_size d.payload) (payload_length d.header) e) refl

parse_eq :
    (d : Ipv4Datagram) (b : Buffer) → parse d b ≡ with_payload (Header.parse d.header (new b))
unfolding parse
parse_eq d b = refl

-- A header and the payload that its length leaves are read as they are, whatever the checksum, and
-- without error. What the header's own `parse` returns comes with it.
pub parse-any_cksum :
    (old : Ipv4Datagram) (h : Ipv4Header) (b : Buffer) (payload : List ℕ)
    → IsWire h
    → At b (layout h (zeros (4 * h.hlen - 20) ++ payload))
    → 4 * h.hlen + length payload ≡ h.len
    → (b' : Buffer) × (Header.parse old.header (new b)
        ≡ some (h, new b', verdict (layout h (zeros (4 * h.hlen - 20)))))
      × (parse old b ≡ some (record { header = h; payload = b' ∷ [] }, ParseResult.no_error))
      × At b' payload
parse-any_cksum old h b payload w a whole =
    let (b', e, a') = parse-layout h w old.header b payload a whole in
    let one : length (concatenate (b' ∷ [])) ≡ length payload =
      ap length (concatenate-one b' ∙ a'.1) in
    let sized : total_size (b' ∷ []) ≡ payload_length h =
      total_size_lem (b' ∷ []) (omega (arith, one, w.len))
      ∙ one
      ∙ sym (payload_length_lem h (length payload) whole w.len) in
    (
      b',
      e,
      parse_eq old b
          ∙ ap with_payload e
          ∙ rw (eq→== (total_size (b' ∷ [])) (payload_length h) sized) refl,
      a',
    )

module _ (d : Ipv4Datagram) (w : IsWire d.header)
    (whole : 4 * d.header.hlen + length (concatenate d.payload) ≡ d.header.len) where
  abbrev n : ℕ
  n = length (concatenate d.payload)

  -- `serialize` does not throw.
  pub serialize-written : serialize d ≡ some (written d)
  unfolding Buffers.append
  serialize-written =
      let sized =
        total_size_lem d.payload (omega (arith, w.len))
        ∙ sym (payload_length_lem d.header n whole w.len) in
      serialize_eq d sized
      ∙ ap (checksummed d) (
          serialize_lem (record d.header { cksum = 0 })
            (with_cksum-IsWire d.header 0 w (omega arith)))
      ∙ ap (with_header d.payload) (
          serialize_lem (record d.header { cksum = checksum d.header })
            (with_cksum-IsWire d.header (checksum d.header) w (checksum-lt d.header w)))

  pub concatenate-written :
      concatenate (written d)
      ≡ layout (sent d.header) (zeros (4 * d.header.hlen - 20) ++ concatenate d.payload)
  unfolding concatenate of_string
  concatenate-written =
      layout-append (sent d.header) (zeros (4 * d.header.hlen - 20)) (concatenate d.payload)

  pub length-image :
      length (layout (sent d.header) (zeros (4 * d.header.hlen - 20) ++ concatenate d.payload))
      ≡ d.header.len
  length-image =
      let z = zeros (4 * d.header.hlen - 20) in
      omega (
        arith,
        length-layout (sent d.header) (z ++ concatenate d.payload),
        length-append z (concatenate d.payload),
        length-zeros (4 * d.header.hlen - 20),
        w.hlen,
      )

  pub parse-written :
      (old : Ipv4Datagram)
      → (b : Buffer) × (Header.parse old.header (new (of_string (concatenate (written d))))
          ≡ some (sent d.header, new b, ParseResult.no_error))
        × (parse old (of_string (concatenate (written d)))
            ≡ some (record { header = sent d.header; payload = b ∷ [] }, ParseResult.no_error))
        × At b (concatenate d.payload)
  parse-written old =
      let img = layout (sent d.header) (zeros (4 * d.header.hlen - 20) ++ concatenate d.payload) in
      let (b, accepted, e, a) =
        parse-any_cksum old (sent d.header) (of_string img) (concatenate d.payload)
          (with_cksum-IsWire d.header (checksum d.header) w (checksum-lt d.header w))
          (of_string-At img (omega (arith, length-image, w.len))) whole in
      (
        b,
        ap (λ s. Header.parse old.header (new (of_string s))) concatenate-written
            ∙ accepted
            ∙ ap
                (λ k. some (
                  sent d.header,
                  new b,
                  if k == 0 then ParseResult.no_error else ParseResult.bad_checksum,
                ))
                (verifies d.header w),
        ap (λ s. parse old (of_string s)) concatenate-written ∙ e,
        a,
      )

-- A datagram whose header's fields fit their places, and whose length field counts the header and the
-- payload, is written without an exception; from its bytes its header is read with the checksum filled
-- in, which the header's own `parse` accepts, and one buffer that shows the whole payload, without
-- error.
pub parse-serialize_datagram :
    (d old : Ipv4Datagram)
    → IsWire d.header
    → 4 * d.header.hlen + length (concatenate d.payload) ≡ d.header.len
    → (bs : List Buffer) × (b : Buffer) × (serialize d ≡ some bs)
      × (Header.parse old.header (new (of_string (concatenate bs)))
          ≡ some (sent d.header, new b, ParseResult.no_error))
      × (parse old (of_string (concatenate bs))
          ≡ some (record { header = sent d.header; payload = b ∷ [] }, ParseResult.no_error))
      × (Buffers.str b ≡ concatenate d.payload)
parse-serialize_datagram d old w whole =
    let (b, accepted, e, a) = parse-written d w whole old in
    (written d, b, serialize-written d w whole, accepted, e, a.1)
