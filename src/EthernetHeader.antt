-- ===== src/EthernetHeader.antt =====
-- libsponge/tcp_helpers/ethernet_header.hh and ethernet_header.cc: the header of a link-layer frame,
-- how it is read and written. `none` is an exception.
pub mod Codec
use sponge_fa.Prelude.{ℕ, zero, suc, Bool, List, [], ◌∷◌, Option, none, some, ltb, if◌then◌else◌}
use sponge_fa.Buffer as Buffers
use sponge_fa.Parser as Parser
use sponge_fa.Parser.{NetParser, ParseResult, and_then, unparse_u8, unparse_u16}

-- `EthernetAddress`: an array of six bytes.
abbrev pub EthernetAddress : Type 0
EthernetAddress = List ℕ

abbrev pub address_size : ℕ
address_size = 6

-- `EthernetHeader::LENGTH`, `TYPE_IPv4` and `TYPE_ARP`.
abbrev pub header_length : ℕ
header_length = 14

abbrev pub type_ipv4 : ℕ
type_ipv4 = 0x800

abbrev pub type_arp : ℕ
type_arp = 0x806

pub record EthernetHeader : Type 0 where
  pub dst : EthernetAddress
  pub src : EthernetAddress
  pub type : ℕ

abbrev pub cons_byte : ℕ → Option (List ℕ × NetParser) → Option (List ℕ × NetParser)
cons_byte byte none = none
cons_byte byte (some (bytes, p)) = some (byte ∷ bytes, p)

-- `for (auto &byte : address) byte = p.u8()`, with `n` bytes left.
unfoldable pub parse_bytes : ℕ → NetParser → Option (List ℕ × NetParser)
unfolding Parser.u8
parse_bytes zero p = some ([], p)
parse_bytes (suc n) p = and_then (Parser.u8 p) (λ byte p. cons_byte byte (parse_bytes n p))

abbrev pub bytes_then {ℓ} :
    {A : Type ℓ} → Option (List ℕ × NetParser) → (List ℕ → NetParser → Option A) → Option A
bytes_then none next = none
bytes_then (some (bytes, p)) next = next bytes p

abbrev pub parse_fields : NetParser → Option (EthernetHeader × NetParser × ParseResult)
parse_fields p = bytes_then (parse_bytes address_size p) (λ dst p.
    bytes_then (parse_bytes address_size p) (λ src p.
      and_then (Parser.u16 p)
        (λ type p. some (record { dst = dst; src = src; type = type }, p, p.error))))

unfoldable pub parse :
    EthernetHeader → NetParser → Option (EthernetHeader × NetParser × ParseResult)
unfolding parse_bytes Parser.u16 Buffers.size
parse h p =
    if ltb (Buffers.size p.buffer) header_length
    then some (h, p, ParseResult.packet_too_short)
    else parse_fields p

-- `for (auto &byte : address) NetUnparser::u8(ret, byte)`.
unfoldable pub unparse_bytes : List ℕ → List ℕ → List ℕ
unfolding unparse_u8
unparse_bytes s [] = s
unparse_bytes s (byte ∷ bytes) = unparse_bytes (unparse_u8 s byte) bytes

unfoldable pub serialize : EthernetHeader → List ℕ
unfolding unparse_bytes unparse_u16
serialize h = unparse_u16 (unparse_bytes (unparse_bytes [] h.dst) h.src) h.type
