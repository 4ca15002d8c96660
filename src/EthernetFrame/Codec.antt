-- ===== src/EthernetFrame/Codec.antt =====
-- A frame that was written is read; a buffer that is too short for a frame is not refused.
use sponge_fa.Prelude.{◌^◌, ◌<◌, ◌≡◌, ◌∙◌, refl, ap, [], ◌∷◌, ◌++◌, some, length, lt→ltb}
use sponge_fa.Buffer as Buffers
use sponge_fa.Buffer.{Buffer, of_string, concatenate, size}
use sponge_fa.EthernetHeader as Header
use sponge_fa.EthernetHeader.Codec.{IsWire, serialize_lem, parse-layout}
use sponge_fa.Parser.{ParseResult, new}
use sponge_fa.Parser.Fields.{of_string-At}
use sponge_fa.EthernetFrame.{EthernetFrame, parse, serialize, with_payload}

parse_eq :
    (f : EthernetFrame) (b : Buffer) → parse f b ≡ with_payload (Header.parse f.header (new b))
unfolding parse
parse_eq f b = refl

concatenate-serialize :
    (f : EthernetFrame)
    → concatenate (serialize f) ≡ Header.serialize f.header ++ concatenate f.payload
unfolding serialize concatenate Buffers.append of_string
concatenate-serialize f = refl

-- From the bytes of a frame, whose addresses have six bytes each, its header is read and one buffer
-- that shows the whole payload, without error.
pub parse-serialize_frame :
    (f old : EthernetFrame)
    → IsWire f.header
    → length (concatenate (serialize f)) < 2 ^ 64
    → (b : Buffer) × (parse old (of_string (concatenate (serialize f)))
        ≡ some (record { header = f.header; payload = b ∷ [] }, ParseResult.no_error))
      × (Buffers.str b ≡ concatenate f.payload)
parse-serialize_frame f old w small =
    let (v, shown) = of_string-At (concatenate (serialize f)) small in
    let (b, e, a) =
      parse-layout f.header w old.header (of_string (concatenate (serialize f)))
        (concatenate f.payload)
        (v, shown ∙ concatenate-serialize f ∙ serialize_lem f.header w (concatenate f.payload)) in
    (b, parse_eq old (of_string (concatenate (serialize f))) ∙ ap with_payload e, a.1)

header_too_short :
    (h : Header.EthernetHeader) (b : Buffer)
    → size b < 14
    → Header.parse h (new b) ≡ some (h, new b, ParseResult.packet_too_short)
unfolding Header.parse
header_too_short h b short = rw (lt→ltb (size b) 14 short) refl

-- A buffer of less than 14 bytes has no header, as the header's own `parse` says; but the frame's `parse`
-- reports no error, keeps the header that was there and takes all the bytes for the payload.
pub parse-too_short :
    (f : EthernetFrame) (b : Buffer)
    → size b < 14
    → (Header.parse f.header (new b) ≡ some (f.header, new b, ParseResult.packet_too_short))
      × (parse f b ≡ some (record { header = f.header; payload = b ∷ [] }, ParseResult.no_error))
parse-too_short f b short =
    let e = header_too_short f.header b short in (e, parse_eq f b ∙ ap with_payload e)
