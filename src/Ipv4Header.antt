-- ===== src/Ipv4Header.antt =====
-- libsponge/tcp_helpers/ipv4_header.hh and ipv4_header.cc: the header of an Internet datagram.
-- `parse` returns the new header with the new parser; `none` is an exception.
pub mod Parsing
pub mod Codec
mod Tests
use sponge_fa.Prelude.{
  bit, resize, ℕ, ◌+◌, ◌*◌, ◌/◌, ◌%◌, ◌-◌, ◌^◌, Bool, true, false, not, ◌||◌, List, [], ◌∷◌, ◌++◌,
  Option, none, some, length, take, ltb, ◌==◌, if◌then◌else◌, u16, u32, add32, zero, suc,
}
use sponge_fa.Buffer as Buffers
use sponge_fa.Buffer.{Buffer}
use sponge_fa.InternetChecksum as Checksum
use sponge_fa.Parser as Parser
use sponge_fa.Parser.{
  and_then, NetParser, ParseResult, is_error, unparse_u8, unparse_u16, unparse_u32,
}

-- `IPv4Header::LENGTH`, without options.
abbrev pub header_length : ℕ
header_length = 20

pub record Ipv4Header : Type 0 where
  pub ver : ℕ
  pub hlen : ℕ
  pub tos : ℕ
  pub len : ℕ
  pub id : ℕ
  pub df : Bool
  pub mf : Bool
  pub offset : ℕ
  pub ttl : ℕ
  pub proto : ℕ
  pub cksum : ℕ
  pub src : ℕ
  pub dst : ℕ

abbrev pub default_header : Ipv4Header
default_header = record {
  ver = 4;
  hlen = 5;
  tos = 0;
  len = 0;
  id = 0;
  df = true;
  mf = false;
  offset = 0;
  ttl = 128;
  proto = 6;
  cksum = 0;
  src = 0;
  dst = 0;
}

-- The fields in the order in which they are read.
unfoldable pub parse_fields : NetParser → Option (Ipv4Header × NetParser)
unfolding Parser.u8 Parser.u16 Parser.u32
parse_fields p = and_then (Parser.u8 p) (λ first_byte p. and_then (Parser.u8 p) (λ tos p.
    and_then (Parser.u16 p) (λ len p. and_then (Parser.u16 p) (λ id p.
      and_then (Parser.u16 p) (λ fo_val p. and_then (Parser.u8 p) (λ ttl p.
        and_then (Parser.u8 p) (λ proto p. and_then (Parser.u16 p) (λ cksum p.
          and_then (Parser.u32 p) (λ src p. and_then (Parser.u32 p) (λ dst p. some (
            record {
              ver = first_byte / 2 ^ 4;
              hlen = first_byte % 2 ^ 4;
              tos = tos;
              len = len;
              id = id;
              df = bit 14 fo_val;
              mf = bit 13 fo_val;
              offset = fo_val % 2 ^ 13;
              ttl = ttl;
              proto = proto;
              cksum = cksum;
              src = src;
              dst = dst;
            },
            p,
          )))))))))))

-- The checksum of the first bytes of a buffer.
unfoldable pub header_checksum : Buffer → ℕ → ℕ
unfolding Checksum.add Checksum.value Buffers.str
header_checksum b n = Checksum.value (Checksum.add (Checksum.new 0) (take n (Buffers.str b)))

abbrev pub verified :
    Buffer → Ipv4Header → Option NetParser → Option (Ipv4Header × NetParser × ParseResult)
verified original h none = none
verified original h (some p) =
    if is_error p.error
    then some (h, p, p.error)
    else (if header_checksum original (4 * h.hlen) == 0
        then some (h, p, ParseResult.no_error)
        else some (h, p, ParseResult.bad_checksum))

-- The tests of the fields, and what follows them.
abbrev pub check_fields :
    Buffer → Option (Ipv4Header × NetParser) → Option (Ipv4Header × NetParser × ParseResult)
check_fields original none = none
check_fields original (some (h, p)) =
    if ltb (Buffers.size original) (4 * h.hlen)
    then some (h, p, ParseResult.packet_too_short)
    else (if not (h.ver == 4)
        then some (h, p, ParseResult.wrong_ip_version)
        else (if ltb h.hlen 5
            then some (h, p, ParseResult.header_too_short)
            else (if not (Buffers.size original == h.len)
                then some (h, p, ParseResult.truncated_packet)
                else verified original h (Parser.remove_prefix p (h.hlen * 4 - header_length)))))

unfoldable pub parse : Ipv4Header → NetParser → Option (Ipv4Header × NetParser × ParseResult)
unfolding parse_fields header_checksum Parser.remove_prefix Buffers.size
parse h p =
    if ltb (Buffers.size p.buffer) header_length
    then some (h, p, ParseResult.packet_too_short)
    else check_fields p.buffer (parse_fields p)

-- `fo_val`: the two flags and the offset.
abbrev pub flags_and_offset : Ipv4Header → ℕ
flags_and_offset h = (if h.df then 2 ^ 14 else 0) + (if h.mf then 2 ^ 13 else 0) + h.offset % 2 ^ 13

unfoldable pub serialize : Ipv4Header → Option (List ℕ)
unfolding unparse_u8 unparse_u16 unparse_u32
serialize h =
    let s₁ = unparse_u8 [] ((h.ver * 2 ^ 4 + h.hlen % 2 ^ 4) % 2 ^ 8) in
    let s₂ = unparse_u16 (unparse_u16 (unparse_u8 s₁ h.tos) h.len) h.id in
    let s₃ = unparse_u8 (unparse_u8 (unparse_u16 s₂ (flags_and_offset h)) h.ttl) h.proto in
    let s₄ = unparse_u32 (unparse_u32 (unparse_u16 s₃ h.cksum) h.src) h.dst in
    if not (h.ver == 4) || ltb (4 * h.hlen) header_length
    then none
    else some (resize (4 * h.hlen) s₄)

-- `len - 4 * hlen` is cut to 16 bits.
unfoldable pub payload_length : Ipv4Header → ℕ
payload_length h = u16 (h.len + 2 ^ 16 - 4 * h.hlen)

unfoldable pub pseudo_cksum : Ipv4Header → ℕ
unfolding payload_length
pseudo_cksum h =
    add32
      (add32
        (add32 (add32 (h.src / 2 ^ 16) (h.src % 2 ^ 16)) (add32 (h.dst / 2 ^ 16) (h.dst % 2 ^ 16)))
        h.proto)
      (payload_length h)
