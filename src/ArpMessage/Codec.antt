-- ===== src/ArpMessage/Codec.antt =====
-- A message that was written is read.
use sponge_fa.Prelude.{
  not, if◌then◌else◌, ℕ, ◌^◌, ◌≤◌, ◌<◌, ◌≡◌, ◌∙◌, refl, ap, sym, true, false, List, [], ◌++◌,
  append_assoc, append-nil, Option, some, none, length, length-append, le→ltb, arith,
}
use sponge_fa.Buffer.{Buffer, of_string, size}
use sponge_fa.Buffer.Prefix.{size_lem}
use sponge_fa.EthernetHeader.{unparse_bytes}
use sponge_fa.EthernetHeader.Codec.{IsAddress, address_next, unparse_address}
use sponge_fa.Parser.{
  ParseResult, new, int_bytes, unparse_u8, unparse_u16, unparse_u32, unparse_int,
}
use sponge_fa.Parser.Fields.{At, of_string-At, u32_next, u16_next, u8_next}
use sponge_fa.ArpMessage.{
  ArpMessage, supported, parse, parse_kind, check_supported, parse_addresses, serialize,
}

-- Every field fits its place.
pub record IsWire (m : ArpMessage) : Type 0 where
  pub hardware_type : m.hardware_type < 2 ^ 16
  pub protocol_type : m.protocol_type < 2 ^ 16
  pub hardware_address_size : m.hardware_address_size < 2 ^ 8
  pub protocol_address_size : m.protocol_address_size < 2 ^ 8
  pub opcode : m.opcode < 2 ^ 16
  pub sender : IsAddress m.sender_ethernet_address
  pub sender_ip : m.sender_ip_address < 2 ^ 32
  pub target : IsAddress m.target_ethernet_address
  pub target_ip : m.target_ip_address < 2 ^ 32

abbrev pub addresses : ArpMessage → List ℕ
addresses m =
    m.sender_ethernet_address
    ++ (int_bytes 4 m.sender_ip_address
        ++ (m.target_ethernet_address ++ (int_bytes 4 m.target_ip_address ++ [])))

abbrev pub kind : ArpMessage → List ℕ → List ℕ
kind m rest =
    int_bytes 2 m.hardware_type
    ++ (int_bytes 2 m.protocol_type
        ++ (int_bytes 1 m.hardware_address_size
            ++ (int_bytes 1 m.protocol_address_size ++ (int_bytes 2 m.opcode ++ rest))))

-- The old message with the fields of the kind of another.
abbrev pub with_kind : ArpMessage → ArpMessage → ArpMessage
with_kind old m = record old {
  hardware_type = m.hardware_type;
  protocol_type = m.protocol_type;
  hardware_address_size = m.hardware_address_size;
  protocol_address_size = m.protocol_address_size;
  opcode = m.opcode;
}

supported-with_kind : (old m : ArpMessage) → supported (with_kind old m) ≡ supported m
unfolding supported
supported-with_kind old m = refl

abbrev written : ArpMessage → List ℕ
written m =
    let s = unparse_bytes (kind m []) m.sender_ethernet_address in
    unparse_u32 (unparse_bytes (unparse_u32 s m.sender_ip_address) m.target_ethernet_address)
      m.target_ip_address

serialize_eq :
    (m : ArpMessage) → serialize m ≡ (if not (supported m) then none else some (written m))
unfolding serialize unparse_u8 unparse_u16 unparse_int int_bytes
serialize_eq m = refl

kind-append : (m : ArpMessage) (s : List ℕ) → kind m [] ++ s ≡ kind m s
unfolding int_bytes
kind-append m s = refl

parse_eq : (m : ArpMessage) (b : Buffer) → 28 ≤ size b → parse m b ≡ parse_kind m (new b)
unfolding parse
parse_eq m b long = rw (le→ltb (size b) 28 long) refl

module _ (m : ArpMessage) (w : IsWire m) where
  written_lem : written m ≡ kind m (addresses m)
  unfolding unparse_u32 unparse_int
  written_lem =
      let s = m.sender_ethernet_address in
      let t = m.target_ethernet_address in
      let ip = int_bytes 4 m.sender_ip_address in
      let end = int_bytes 4 m.target_ip_address in
      ap (λ x. x ++ end) (unparse_address (unparse_bytes (kind m []) s ++ ip) t w.target)
      ∙ ap (λ x. ((x ++ ip) ++ t) ++ end) (unparse_address (kind m []) s w.sender)
      ∙ append_assoc ((kind m [] ++ s) ++ ip) t end
      ∙ append_assoc (kind m [] ++ s) ip (t ++ end)
      ∙ append_assoc (kind m []) s (ip ++ (t ++ end))
      ∙ kind-append m (s ++ (ip ++ (t ++ end)))
      ∙ ap (λ x. kind m (s ++ (ip ++ (t ++ x)))) (sym (append-nil end))

  length-layout : length (kind m (addresses m)) ≡ 28
  unfolding int_bytes
  length-layout = omega (
    arith,
    length-append m.sender_ethernet_address (
        int_bytes 4 m.sender_ip_address
        ++ (m.target_ethernet_address ++ (int_bytes 4 m.target_ip_address ++ []))),
    length-append m.target_ethernet_address (int_bytes 4 m.target_ip_address ++ []),
    w.sender.sized,
    w.target.sized,
  )

  parse_addresses_lem :
      (old : ArpMessage) (b : Buffer)
      → At b (addresses m)
      → parse_addresses old (new b)
        ≡ some (
          record old {
            sender_ethernet_address = m.sender_ethernet_address;
            sender_ip_address = m.sender_ip_address;
            target_ethernet_address = m.target_ethernet_address;
            target_ip_address = m.target_ip_address;
          },
          ParseResult.no_error,
        )
  parse_addresses_lem old b a =
      let P : Option (ArpMessage × ParseResult) → Type 0 = λ o.
        o
        ≡ some (
          record old {
            sender_ethernet_address = m.sender_ethernet_address;
            sender_ip_address = m.sender_ip_address;
            target_ethernet_address = m.target_ethernet_address;
            target_ip_address = m.target_ip_address;
          },
          ParseResult.no_error,
        ) in
      address_next P _ b m.sender_ethernet_address _
        (λ b a.
          u32_next P _ b m.sender_ip_address _
            (λ b a.
              address_next P _ b m.target_ethernet_address _
                (λ b a. u32_next P _ b m.target_ip_address [] (λ b a. refl) w.target_ip a) w.target
                a)
            w.sender_ip a)
        w.sender a

  -- What is read behind the kind of message.
  parse_kind_lem :
      (old : ArpMessage) (b : Buffer) (rest : List ℕ) (r : Option (ArpMessage × ParseResult))
      → At b (kind m rest)
      → ((b' : Buffer) → At b' rest → check_supported (with_kind old m) (new b') ≡ r)
      → parse_kind old (new b) ≡ r
  parse_kind_lem old b rest r a next =
      let P : Option (ArpMessage × ParseResult) → Type 0 = λ o. o ≡ r in
      u16_next P _ b m.hardware_type _
        (λ b a.
          u16_next P _ b m.protocol_type _
            (λ b a.
              u8_next P _ b m.hardware_address_size _
                (λ b a.
                  u8_next P _ b m.protocol_address_size _
                    (λ b a. u16_next P _ b m.opcode rest next w.opcode a) w.protocol_address_size a)
                w.hardware_address_size a)
            w.protocol_type a)
        w.hardware_type a

  shown : At (of_string (kind m (addresses m))) (kind m (addresses m))
  shown = of_string-At (kind m (addresses m)) (omega (arith, length-layout))

  parsed_kind :
      (old : ArpMessage) (r : Option (ArpMessage × ParseResult))
      → ((b : Buffer) → At b (addresses m) → check_supported (with_kind old m) (new b) ≡ r)
      → parse old (of_string (kind m (addresses m))) ≡ r
  parsed_kind old r next =
      let b = of_string (kind m (addresses m)) in
      parse_eq old b (omega (arith, size_lem b, ap length shown.1, length-layout))
      ∙ parse_kind_lem old b (addresses m) r shown next

-- A supported message whose fields fit their places is written as 28 bytes, from which it is read
-- without error.
pub parse-serialize_message :
    (m old : ArpMessage)
    → IsWire m
    → supported m ≡ true
    → (s : List ℕ) × (serialize m ≡ some s)
      × (length s ≡ 28)
      × (parse old (of_string s) ≡ some (m, ParseResult.no_error))
parse-serialize_message m old w ok = (
  kind m (addresses m),
  serialize_eq m ∙ rw ok (ap some (written_lem m w)),
  length-layout m w,
  parsed_kind m w old (some (m, ParseResult.no_error))
      (λ b a. rw (supported-with_kind old m, ok) (parse_addresses_lem m w (with_kind old m) b a)),
)

-- A message of another kind is not written, since `serialize` throws, and not read: from its 28 bytes
-- `parse` takes the fields of the kind, leaves the addresses as they were, and returns that the
-- message is unsupported.
pub parse-unsupported :
    (m old : ArpMessage)
    → IsWire m
    → supported m ≡ false
    → (serialize m ≡ none)
      × (parse old (of_string (kind m (addresses m)))
          ≡ some (with_kind old m, ParseResult.unsupported))
parse-unsupported m old w other = (
  serialize_eq m ∙ rw other refl,
  parsed_kind m w old (some (with_kind old m, ParseResult.unsupported))
      (λ b a. rw (supported-with_kind old m, other) refl),
)
