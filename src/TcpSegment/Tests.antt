-- ===== src/TcpSegment/Tests.antt =====
-- Segments that are written and read.
use sponge_fa.Prelude.{◌≡◌, true, List, [], ◌∷◌, some, arith}
use sponge_fa.Buffer.{Buffer, of_string, concatenate}
use sponge_fa.Parser.{ParseResult}
use sponge_fa.TcpHeader.{default_header}
use sponge_fa.TcpHeader.Codec.{IsWire}
use sponge_fa.TcpSegment.{TcpSegment, default_segment, parse, serialize}
use sponge_fa.TcpSegment.Codec.{sent, parse-serialize_segment}

abbrev seg : TcpSegment
seg = record {
  header = record default_header { sport = 80; dport = 0x1234; seqno = 7; syn = true; win = 500 };
  payload = 1 ∷ 2 ∷ 3 ∷ [];
}

seg-IsWire : IsWire seg.header
seg-IsWire = record {
  packed = record {
    sport = omega arith;
    dport = omega arith;
    seqno = omega arith;
    ackno = omega arith;
    doff = omega arith;
    win = omega arith;
    cksum = omega arith;
    uptr = omega arith;
  };
  minimal = omega arith;
}

parse-serialize_segment_example :
    (bs : List Buffer) × (serialize seg 17 ≡ some bs)
    × (parse default_segment (of_string (concatenate bs)) 17
        ≡ some (sent seg 17, ParseResult.no_error))
parse-serialize_segment_example =
    parse-serialize_segment seg default_segment 17 seg-IsWire (omega arith)
