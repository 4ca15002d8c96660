-- ===== src/Ipv4Datagram.antt =====
-- libsponge/tcp_helpers/ipv4_datagram.hh and ipv4_datagram.cc: an Internet datagram, how it is read
-- and written. `none` is an exception.
pub mod Codec
mod Tests
use sponge_fa.Prelude.{
  ℕ, Bool, true, false, not, List, [], ◌∷◌, Option, none, some, ◌==◌, if◌then◌else◌,
}
use sponge_fa.Buffer as Buffers
use sponge_fa.Buffer.{Buffer, of_string}
use sponge_fa.InternetChecksum as Checksum
use sponge_fa.Ipv4Header as Header
use sponge_fa.Ipv4Header.{Ipv4Header, default_header}
use sponge_fa.Parser as Parser
use sponge_fa.Parser.{NetParser, ParseResult}

-- The payload is a list of buffers.
pub record Ipv4Datagram : Type 0 where
  pub header : Ipv4Header
  pub payload : List Buffer

abbrev pub default_datagram : Ipv4Datagram
default_datagram = record { header = default_header; payload = [] }

-- The result of `IPv4Header::parse` is not looked at, only the error that the parser has.
abbrev pub with_payload :
    Option (Ipv4Header × NetParser × ParseResult) → Option (Ipv4Datagram × ParseResult)
with_payload none = none
with_payload (some (h, p, r)) =
    let payload = p.buffer ∷ [] in
    if not (Buffers.total_size payload == Header.payload_length h)
    then some (record { header = h; payload = payload }, ParseResult.packet_too_short)
    else some (record { header = h; payload = payload }, p.error)

unfoldable pub parse : Ipv4Datagram → Buffer → Option (Ipv4Datagram × ParseResult)
unfolding Header.parse Header.payload_length Buffers.total_size
parse d buffer = with_payload (Header.parse d.header (Parser.new buffer))

abbrev pub with_header : List Buffer → Option (List ℕ) → Option (List Buffer)
with_header payload none = none
with_header payload (some header) =
    some (Buffers.append (Buffers.append [] (of_string header ∷ [])) payload)

-- The header is written twice: with the checksum zero, and with the one that this gives.
abbrev pub checksummed : Ipv4Datagram → Option (List ℕ) → Option (List Buffer)
checksummed d none = none
checksummed d (some header) = with_header d.payload (
    Header.serialize
      (record d.header { cksum = Checksum.value (Checksum.add (Checksum.new 0) header) }))

unfoldable pub serialize : Ipv4Datagram → Option (List Buffer)
unfolding Header.serialize Header.payload_length Checksum.add Checksum.value Buffers.append
    Buffers.total_size of_string
serialize d =
    if not (Buffers.total_size d.payload == Header.payload_length d.header)
    then none
    else checksummed d (Header.serialize (record d.header { cksum = 0 }))
