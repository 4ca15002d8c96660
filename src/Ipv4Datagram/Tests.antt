-- ===== src/Ipv4Datagram/Tests.antt =====
-- Datagrams that are written and read.
use sponge_fa.Prelude.{ℕ, ◌≡◌, refl, List, [], ◌∷◌, some, arith}
use sponge_fa.Buffer.{Buffer, of_string, concatenate, str}
use sponge_fa.Parser.{ParseResult, new, int_bytes}
use sponge_fa.Parser.Fields.{At, of_string-At}
use sponge_fa.InternetChecksum as Checksum
use sponge_fa.Ipv4Header as Header
use sponge_fa.Ipv4Header.{Ipv4Header, default_header}
use sponge_fa.Ipv4Header.Codec.{IsWire, layout, verdict}
use sponge_fa.Ipv4Datagram.{Ipv4Datagram, default_datagram, parse, serialize}
use sponge_fa.Ipv4Datagram.Codec.{sent, parse-serialize_datagram, parse-any_cksum}

-- Six bytes of header options are filled up, and the payload stands in two buffers.
abbrev datagram : Ipv4Datagram
datagram = record {
  header = record default_header { hlen = 6; len = 27; src = 0x0a00_0001; dst = 0x0a00_0002 };
  payload = of_string (1 ∷ 2 ∷ []) ∷ of_string (3 ∷ []) ∷ [];
}

datagram-IsWire : IsWire datagram.header
datagram-IsWire = record {
  ver = refl;
  hlen = (omega arith, omega arith);
  tos = omega arith;
  len = omega arith;
  id = omega arith;
  offset = omega arith;
  ttl = omega arith;
  proto = omega arith;
  cksum = omega arith;
  src = omega arith;
  dst = omega arith;
}

parse-serialize_datagram_example :
    (bs : List Buffer) × (b : Buffer) × (serialize datagram ≡ some bs)
    × (Header.parse default_header (new (of_string (concatenate bs)))
        ≡ some (sent datagram.header, new b, ParseResult.no_error))
    × (parse default_datagram (of_string (concatenate bs))
        ≡ some (record { header = sent datagram.header; payload = b ∷ [] }, ParseResult.no_error))
    × (str b ≡ concatenate datagram.payload)
unfolding concatenate of_string
parse-serialize_datagram_example =
    parse-serialize_datagram datagram default_datagram datagram-IsWire (omega arith)

-- A header without a checksum, and one byte of payload.
abbrev unchecked : Ipv4Header
unchecked = record default_header { len = 21 }

abbrev bytes : List ℕ
bytes = layout unchecked (5 ∷ [])

bad : verdict (layout unchecked []) ≡ ParseResult.bad_checksum
unfolding int_bytes Checksum.add Checksum.value
bad = refl

parse-any_cksum_example :
    (b : Buffer) × (Header.parse default_header (new (of_string bytes))
      ≡ some (unchecked, new b, verdict (layout unchecked [])))
    × (parse default_datagram (of_string bytes)
        ≡ some (record { header = unchecked; payload = b ∷ [] }, ParseResult.no_error))
    × At b (5 ∷ [])
unfolding int_bytes
parse-any_cksum_example =
    parse-any_cksum default_datagram unchecked (of_string bytes) (5 ∷ [])
      (record {
        ver = refl;
        hlen = (omega arith, omega arith);
        tos = omega arith;
        len = omega arith;
        id = omega arith;
        offset = omega arith;
        ttl = omega arith;
        proto = omega arith;
        cksum = omega arith;
        src = omega arith;
        dst = omega arith;
      })
      (of_string-At bytes (omega arith)) (omega arith)
