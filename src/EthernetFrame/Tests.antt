-- ===== src/EthernetFrame/Tests.antt =====
-- Frames that are written and read.
use sponge_fa.Prelude.{◌≡◌, refl, [], ◌∷◌, some, arith}
use sponge_fa.Buffer.{Buffer, of_string, concatenate, str}
use sponge_fa.Parser.{ParseResult}
use sponge_fa.EthernetHeader.{EthernetHeader, type_arp}
use sponge_fa.EthernetHeader.Codec.{IsWire}
use sponge_fa.EthernetFrame.{EthernetFrame, parse, serialize}
use sponge_fa.EthernetFrame.Codec.{parse-serialize_frame}

abbrev header : EthernetHeader
header = record {
  dst = 255 ∷ 255 ∷ 255 ∷ 255 ∷ 255 ∷ 255 ∷ [];
  src = 2 ∷ 0 ∷ 0 ∷ 0 ∷ 0 ∷ 1 ∷ [];
  type = type_arp;
}

abbrev frame : EthernetFrame
frame = record { header = header; payload = of_string (7 ∷ 8 ∷ []) ∷ [] }

abbrev empty_frame : EthernetFrame
empty_frame = record { header = record { dst = []; src = []; type = 0 }; payload = [] }

header-IsWire : IsWire header
header-IsWire = record {
  dst = record {
    sized = refl;
    bytes = (
      omega arith,
      (omega arith, (omega arith, (omega arith, (omega arith, (omega arith, record {}))))),
    );
  };
  src = record {
    sized = refl;
    bytes = (
      omega arith,
      (omega arith, (omega arith, (omega arith, (omega arith, (omega arith, record {}))))),
    );
  };
  type = omega arith;
}

parse-serialize_frame_example :
    (b : Buffer) × (parse empty_frame (of_string (concatenate (serialize frame)))
      ≡ some (record { header = header; payload = b ∷ [] }, ParseResult.no_error))
    × (str b ≡ concatenate frame.payload)
unfolding serialize concatenate of_string
parse-serialize_frame_example = parse-serialize_frame frame empty_frame header-IsWire (omega arith)
