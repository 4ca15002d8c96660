-- ===== src/EthernetFrame.antt =====
-- libsponge/tcp_helpers/ethernet_frame.hh and ethernet_frame.cc: a link-layer frame, how it is read and
-- written. `none` is an exception.
pub mod Codec
mod Tests
use sponge_fa.Prelude.{List, [], ◌∷◌, Option, none, some}
use sponge_fa.Buffer as Buffers
use sponge_fa.Buffer.{Buffer, of_string}
use sponge_fa.EthernetHeader as Header
use sponge_fa.EthernetHeader.{EthernetHeader}
use sponge_fa.Parser as Parser
use sponge_fa.Parser.{NetParser, ParseResult}

pub record EthernetFrame : Type 0 where
  pub header : EthernetHeader
  pub payload : List Buffer

-- The result of `EthernetHeader::parse` is not looked at, only the error that the parser has.
abbrev pub with_payload :
    Option (EthernetHeader × NetParser × ParseResult) → Option (EthernetFrame × ParseResult)
with_payload none = none
with_payload (some (h, p, r)) = some (record { header = h; payload = p.buffer ∷ [] }, p.error)

unfoldable pub parse : EthernetFrame → Buffer → Option (EthernetFrame × ParseResult)
unfolding Header.parse
parse f buffer = with_payload (Header.parse f.header (Parser.new buffer))

unfoldable pub serialize : EthernetFrame → List Buffer
unfolding Header.serialize Buffers.append of_string
serialize f =
    Buffers.append (Buffers.append [] (of_string (Header.serialize f.header) ∷ [])) f.payload
