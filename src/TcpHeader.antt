-- ===== src/TcpHeader.antt =====
-- libsponge/tcp_helpers/tcp_header.hh and tcp_header.cc: the fields of a TCP header, their defaults,
-- and how they are read and written. `none` is an exception.
pub mod Codec
use sponge_fa.Prelude.{
  ℕ, ◌+◌, ◌*◌, ◌/◌, ◌%◌, ◌-◌, ◌^◌, Bool, true, false, ◌&&◌, List, [], Option, none, some, ltb, ◌==◌,
  if◌then◌else◌, bit, resize,
}
use sponge_fa.Parser as Parser
use sponge_fa.Parser.{
  NetParser, ParseResult, and_then, is_error, unparse_u8, unparse_u16, unparse_u32,
}
use sponge_fa.WrappingInt32 as Wrapping
use sponge_fa.WrappingInt32.{WrappingInt32}

pub record TcpHeader : Type 0 where
  pub sport : ℕ
  pub dport : ℕ
  pub seqno : WrappingInt32
  pub ackno : WrappingInt32
  pub doff : ℕ
  pub urg : Bool
  pub ack : Bool
  pub psh : Bool
  pub rst : Bool
  pub syn : Bool
  pub fin : Bool
  pub win : ℕ
  pub cksum : ℕ
  pub uptr : ℕ

-- `TCPHeader::LENGTH`, without options.
abbrev pub header_length : ℕ
header_length = 20

-- `TCPHeader()`.
abbrev pub default_header : TcpHeader
default_header = record {
  sport = 0;
  dport = 0;
  seqno = 0;
  ackno = 0;
  doff = 5;
  urg = false;
  ack = false;
  psh = false;
  rst = false;
  syn = false;
  fin = false;
  win = 0;
  cksum = 0;
  uptr = 0;
}

-- The fields in the order in which they are read.
unfoldable pub parse_fields : NetParser → Option (TcpHeader × NetParser)
unfolding Parser.u8 Parser.u16 Parser.u32
parse_fields p = and_then (Parser.u16 p) (λ sport p. and_then (Parser.u16 p) (λ dport p.
    and_then (Parser.u32 p) (λ seqno p. and_then (Parser.u32 p) (λ ackno p.
      and_then (Parser.u8 p) (λ offset p. and_then (Parser.u8 p) (λ fl_b p.
        and_then (Parser.u16 p) (λ win p. and_then (Parser.u16 p) (λ cksum p.
          and_then (Parser.u16 p) (λ uptr p. some (
            record {
              sport = sport;
              dport = dport;
              seqno = seqno;
              ackno = ackno;
              doff = offset / 2 ^ 4;
              urg = bit 5 fl_b;
              ack = bit 4 fl_b;
              psh = bit 3 fl_b;
              rst = bit 2 fl_b;
              syn = bit 1 fl_b;
              fin = bit 0 fl_b;
              win = win;
              cksum = cksum;
              uptr = uptr;
            },
            p,
          ))))))))))

abbrev pub parsed : TcpHeader → Option NetParser → Option (TcpHeader × NetParser × ParseResult)
parsed h none = none
parsed h (some p) = some (h, p, if is_error p.error then p.error else ParseResult.no_error)

-- The test of `doff`, and the options that are skipped.
abbrev pub skip_options :
    Option (TcpHeader × NetParser) → Option (TcpHeader × NetParser × ParseResult)
skip_options none = none
skip_options (some (h, p)) =
    if ltb h.doff 5
    then some (h, p, ParseResult.header_too_short)
    else parsed h (Parser.remove_prefix p (h.doff * 4 - header_length))

-- All fields of the header that is there before are overwritten.
unfoldable pub parse : TcpHeader → NetParser → Option (TcpHeader × NetParser × ParseResult)
unfolding parse_fields Parser.remove_prefix
parse h p = skip_options (parse_fields p)

-- `fl_b`: the flags are disjoint bits, so `|` is a sum.
abbrev pub flags : TcpHeader → ℕ
flags h =
    (if h.urg then 2 ^ 5 else 0)
    + (if h.ack then 2 ^ 4 else 0)
    + (if h.psh then 2 ^ 3 else 0)
    + (if h.rst then 2 ^ 2 else 0)
    + (if h.syn then 2 ^ 1 else 0)
    + (if h.fin then 2 ^ 0 else 0)

unfoldable pub serialize : TcpHeader → Option (List ℕ)
unfolding unparse_u8 unparse_u16 unparse_u32
serialize h =
    let s₁ = unparse_u16 (unparse_u16 [] h.sport) h.dport in
    let s₂ = unparse_u32 (unparse_u32 s₁ h.seqno) h.ackno in
    let s₃ = unparse_u8 (unparse_u8 s₂ (h.doff * 2 ^ 4 % 2 ^ 8)) (flags h) in
    let s₄ = unparse_u16 (unparse_u16 (unparse_u16 s₃ h.win) h.cksum) h.uptr in
    if ltb h.doff 5 then none else some (resize (4 * h.doff) s₄)
