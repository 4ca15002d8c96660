-- ===== src/TcpSegment.antt =====
-- libsponge/tcp_helpers/tcp_segment.hh and tcp_segment.cc: a header with a payload, how they are read
-- and written. `none` is an exception.
pub mod Codec
pub mod Verified
mod Tests
use sponge_fa.Prelude.{
  ℕ, Bool, true, false, not, List, [], ◌∷◌, length, Option, none, some, ◌==◌, if◌then◌else◌, add64,
}
use sponge_fa.Buffer as Buffers
use sponge_fa.Buffer.{Buffer, of_string}
use sponge_fa.InternetChecksum as Checksum
use sponge_fa.Parser as Parser
use sponge_fa.Parser.{NetParser, ParseResult}
use sponge_fa.TcpHeader as Header
use sponge_fa.TcpHeader.{TcpHeader, default_header}

-- The payload is the string that the `Buffer` shows (`Buffer::str`).
pub record TcpSegment : Type 0 where
  pub header : TcpHeader
  pub payload : List ℕ

-- `TCPSegment()`.
abbrev pub default_segment : TcpSegment
default_segment = record { header = default_header; payload = [] }

unfoldable pub length_in_sequence_space : TcpSegment → ℕ
length_in_sequence_space seg =
    add64 (add64 (length seg.payload) (if seg.header.syn then 1 else 0))
      (if seg.header.fin then 1 else 0)

-- The result of `TCPHeader::parse` is not looked at, only the error that the parser has.
abbrev pub with_payload :
    Option (TcpHeader × NetParser × ParseResult) → Option (TcpSegment × ParseResult)
with_payload none = none
with_payload (some (h, p, r)) =
    some (record { header = h; payload = Buffers.str p.buffer }, p.error)

unfoldable pub parse : TcpSegment → Buffer → ℕ → Option (TcpSegment × ParseResult)
unfolding Checksum.add Checksum.value Header.parse Buffers.str
parse seg buffer datagram_layer_checksum =
    let check = Checksum.add (Checksum.new datagram_layer_checksum) (Buffers.str buffer) in
    if not (Checksum.value check == 0)
    then some (seg, ParseResult.bad_checksum)
    else with_payload (Header.parse seg.header (Parser.new buffer))

-- `check.value()` over the header that was written and the payload.
abbrev pub segment_checksum : ℕ → List ℕ → List ℕ → ℕ
segment_checksum datagram_layer_checksum header payload =
    Checksum.value
      (Checksum.add (Checksum.add (Checksum.new datagram_layer_checksum) header) payload)

abbrev pub with_header : List ℕ → Option (List ℕ) → Option (List Buffer)
with_header payload none = none
with_header payload (some header) =
    some (Buffers.append (Buffers.append [] (of_string header ∷ [])) (of_string payload ∷ []))

-- The header is written twice: with the checksum zero, and with the one that this gives.
abbrev pub checksummed : TcpSegment → ℕ → Option (List ℕ) → Option (List Buffer)
checksummed seg datagram_layer_checksum none = none
checksummed seg datagram_layer_checksum (some header) = with_header seg.payload (
    Header.serialize
      (record seg.header { cksum = segment_checksum datagram_layer_checksum header seg.payload }))

unfoldable pub serialize : TcpSegment → ℕ → Option (List Buffer)
unfolding Header.serialize Checksum.add Checksum.value Buffers.append of_string
serialize seg datagram_layer_checksum =
    checksummed seg datagram_layer_checksum (Header.serialize (record seg.header { cksum = 0 }))
