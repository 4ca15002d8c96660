-- ===== src/ArpMessage/Tests.antt =====
-- Messages that are written and read.
use sponge_fa.Prelude.{ℕ, ◌≡◌, refl, List, [], ◌∷◌, some, none, arith, length}
use sponge_fa.Buffer.{of_string}
use sponge_fa.Parser.{ParseResult}
use sponge_fa.EthernetHeader.{EthernetAddress}
use sponge_fa.EthernetHeader.Codec.{IsAddress}
use sponge_fa.ArpMessage.{ArpMessage, default_message, opcode_request, supported, parse, serialize}
use sponge_fa.ArpMessage.Codec.{IsWire, parse-serialize_message, parse-unsupported}

abbrev someone : EthernetAddress
someone = 2 ∷ 0 ∷ 0 ∷ 0 ∷ 0 ∷ 1 ∷ []

abbrev request : ArpMessage
request = record default_message {
  opcode = opcode_request;
  sender_ethernet_address = someone;
  sender_ip_address = 0x0a00_0001;
  target_ip_address = 0x0a00_0002;
}

someone-IsAddress : IsAddress someone
someone-IsAddress = record {
  sized = refl;
  bytes = (
    omega arith,
    (omega arith, (omega arith, (omega arith, (omega arith, (omega arith, record {}))))),
  );
}

nobody-IsAddress : IsAddress default_message.target_ethernet_address
nobody-IsAddress = record {
  sized = refl;
  bytes = (
    omega arith,
    (omega arith, (omega arith, (omega arith, (omega arith, (omega arith, record {}))))),
  );
}

request-IsWire : IsWire request
request-IsWire = record {
  hardware_type = omega arith;
  protocol_type = omega arith;
  hardware_address_size = omega arith;
  protocol_address_size = omega arith;
  opcode = omega arith;
  sender = someone-IsAddress;
  sender_ip = omega arith;
  target = nobody-IsAddress;
  target_ip = omega arith;
}

parse-serialize_message_example :
    (s : List ℕ) × (serialize request ≡ some s)
    × (length s ≡ 28)
    × (parse default_message (of_string s) ≡ some (request, ParseResult.no_error))
unfolding supported
parse-serialize_message_example =
    parse-serialize_message request default_message request-IsWire refl

-- The opcode zero is neither a request nor a reply.
default-IsWire : IsWire default_message
default-IsWire = record {
  hardware_type = omega arith;
  protocol_type = omega arith;
  hardware_address_size = omega arith;
  protocol_address_size = omega arith;
  opcode = omega arith;
  sender = nobody-IsAddress;
  sender_ip = omega arith;
  target = nobody-IsAddress;
  target_ip = omega arith;
}

refuses : serialize default_message ≡ none
refuses = (parse-unsupported default_message request default-IsWire (unfold supported in refl)).0
