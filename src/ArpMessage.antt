-- ===== src/ArpMessage.antt =====
-- libsponge/tcp_helpers/arp_message.hh and arp_message.cc: a message of the address resolution protocol,
-- how it is read and written. `none` is an exception.
pub mod Codec
mod Tests
use sponge_fa.Prelude.{
  ℕ, Bool, true, false, not, ◌&&◌, ◌||◌, List, [], ◌∷◌, Option, none, some, ltb, ◌==◌,
  if◌then◌else◌,
}
use sponge_fa.Buffer as Buffers
use sponge_fa.Buffer.{Buffer}
use sponge_fa.EthernetHeader.{
  EthernetAddress, address_size, type_ipv4, parse_bytes, bytes_then, unparse_bytes,
}
use sponge_fa.Parser as Parser
use sponge_fa.Parser.{NetParser, ParseResult, and_then, unparse_u8, unparse_u16, unparse_u32}

-- `ARPMessage::LENGTH`.
abbrev pub message_length : ℕ
message_length = 28

abbrev pub type_ethernet : ℕ
type_ethernet = 1

abbrev pub opcode_request : ℕ
opcode_request = 1

abbrev pub opcode_reply : ℕ
opcode_reply = 2

-- `sizeof(IPv4Header::src)`.
abbrev pub ip_size : ℕ
ip_size = 4

pub record ArpMessage : Type 0 where
  pub hardware_type : ℕ
  pub protocol_type : ℕ
  pub hardware_address_size : ℕ
  pub protocol_address_size : ℕ
  pub opcode : ℕ
  pub sender_ethernet_address : EthernetAddress
  pub sender_ip_address : ℕ
  pub target_ethernet_address : EthernetAddress
  pub target_ip_address : ℕ

abbrev pub default_message : ArpMessage
default_message = record {
  hardware_type = type_ethernet;
  protocol_type = type_ipv4;
  hardware_address_size = address_size;
  protocol_address_size = ip_size;
  opcode = 0;
  sender_ethernet_address = 0 ∷ 0 ∷ 0 ∷ 0 ∷ 0 ∷ 0 ∷ [];
  sender_ip_address = 0;
  target_ethernet_address = 0 ∷ 0 ∷ 0 ∷ 0 ∷ 0 ∷ 0 ∷ [];
  target_ip_address = 0;
}

unfoldable pub supported : ArpMessage → Bool
supported m =
    (m.hardware_type == type_ethernet)
    && ((m.protocol_type == type_ipv4)
        && ((m.hardware_address_size == address_size)
            && ((m.protocol_address_size == ip_size)
                && ((m.opcode == opcode_request) || (m.opcode == opcode_reply)))))

-- The addresses, which are read only if the message is supported.
abbrev pub parse_addresses : ArpMessage → NetParser → Option (ArpMessage × ParseResult)
parse_addresses m p = bytes_then (parse_bytes address_size p) (λ sender p.
    and_then (Parser.u32 p) (λ sender_ip p. bytes_then (parse_bytes address_size p) (λ target p.
      and_then (Parser.u32 p) (λ target_ip p. some (
        record m {
          sender_ethernet_address = sender;
          sender_ip_address = sender_ip;
          target_ethernet_address = target;
          target_ip_address = target_ip;
        },
        p.error,
      )))))

abbrev pub check_supported : ArpMessage → NetParser → Option (ArpMessage × ParseResult)
check_supported m p =
    if not (supported m) then some (m, ParseResult.unsupported) else parse_addresses m p

-- The fields that say what kind of message it is.
abbrev pub parse_kind : ArpMessage → NetParser → Option (ArpMessage × ParseResult)
parse_kind m p = and_then (Parser.u16 p) (λ hardware_type p.
    and_then (Parser.u16 p) (λ protocol_type p. and_then (Parser.u8 p) (λ hardware_address_size p.
      and_then (Parser.u8 p) (λ protocol_address_size p. and_then (Parser.u16 p) (λ opcode p.
        check_supported
          (record m {
            hardware_type = hardware_type;
            protocol_type = protocol_type;
            hardware_address_size = hardware_address_size;
            protocol_address_size = protocol_address_size;
            opcode = opcode;
          })
          p)))))

unfoldable pub parse : ArpMessage → Buffer → Option (ArpMessage × ParseResult)
unfolding supported parse_bytes Parser.u8 Parser.u16 Parser.u32 Buffers.size
parse m buffer =
    if ltb (Buffers.size buffer) message_length
    then some (m, ParseResult.packet_too_short)
    else parse_kind m (Parser.new buffer)

unfoldable pub serialize : ArpMessage → Option (List ℕ)
unfolding supported unparse_bytes unparse_u8 unparse_u16 unparse_u32
serialize m =
    let s₁ = unparse_u16 (unparse_u16 [] m.hardware_type) m.protocol_type in
    let s₂ = unparse_u8 (unparse_u8 s₁ m.hardware_address_size) m.protocol_address_size in
    let s₃ = unparse_bytes (unparse_u16 s₂ m.opcode) m.sender_ethernet_address in
    let s₄ = unparse_bytes (unparse_u32 s₃ m.sender_ip_address) m.target_ethernet_address in
    let s₅ = unparse_u32 s₄ m.target_ip_address in if not (supported m) then none else some s₅
