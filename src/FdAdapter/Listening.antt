-- ===== src/FdAdapter/Listening.antt =====
-- Whom an adapter over UDP talks to.
use sponge_fa.Prelude.{none, ◌&&◌, not, ◌≡◌, ◌∙◌, refl, ap, false, true, List, some, eq→==}
use sponge_fa.Buffer.{Buffer, of_string, concatenate}
use sponge_fa.TcpHeader.Codec.{IsWire}
use sponge_fa.TcpConfig.{Address}
use sponge_fa.TcpSegment as Segment
use sponge_fa.TcpSegment.{TcpSegment, default_segment}
use sponge_fa.TcpSegment.Codec.{Summable, sent, parse-serialize_segment}
use sponge_fa.FdAdapter.{
  FdAdapter, Received, read, write, with_ports, same_address, parsed_udp, sent_to,
}

read_eq :
    (a : FdAdapter) (r : Received)
    → (not a.listen && not (same_address r.source_address a.cfg.destination)) ≡ false
    → read a r ≡ parsed_udp a r.source_address (Segment.parse default_segment r.payload 0)
unfolding read
read_eq a r e = rw e refl

read-elsewhere :
    (a : FdAdapter) (r : Received)
    → a.listen ≡ false
    → same_address r.source_address a.cfg.destination ≡ false
    → read a r ≡ some (none, a)
unfolding read
read-elsewhere a r quiet other = rw (quiet, other) refl

same_address_refl : (x : Address) → same_address x x ≡ true
same_address_refl x = rw (eq→== x.ip x.ip refl, eq→== x.port x.port refl) refl

write_eq :
    (a : FdAdapter) (seg : TcpSegment)
    → write a seg
      ≡ sent_to (with_ports a seg) a.cfg.destination (Segment.serialize (with_ports a seg) 0)
unfolding write
write_eq a seg = refl

-- The segment as it is sent: with the ports of the configuration and a checksum.
abbrev pub delivered : FdAdapter → TcpSegment → TcpSegment
delivered a seg = sent (with_ports a seg) 0

-- A datagram with the bytes that an adapter has written.
abbrev pub received_from : FdAdapter → List Buffer → Received
received_from a bs = record { source_address = a.cfg.source; payload = of_string (concatenate bs) }

-- A listening adapter over UDP takes whoever sends it a SYN for its peer, and listens no longer; from
-- then on it reads whatever segment that fits the adapter of that peer writes, to whichever port, and
-- nothing that comes from another address.
pub read-peer :
    (a a' : FdAdapter) (syn seg : TcpSegment) (elsewhere : Received)
    → IsWire (with_ports a syn).header
    → Summable (with_ports a syn) 0
    → IsWire (with_ports a seg).header
    → Summable (with_ports a seg) 0
    → a'.listen ≡ true
    → syn.header.syn ≡ true
    → syn.header.rst ≡ false
    → same_address elsewhere.source_address a.cfg.source ≡ false
    → (first later : List Buffer) × (adopted : FdAdapter) × (write a syn
        ≡ some (with_ports a syn, a.cfg.destination, first))
      × (read a' (received_from a first) ≡ some (some (delivered a syn), adopted))
      × (write a seg ≡ some (with_ports a seg, a.cfg.destination, later))
      × (read adopted (received_from a later) ≡ some (some (delivered a seg), adopted))
      × (read adopted elsewhere ≡ some (none, adopted))
      × (adopted.cfg.destination ≡ a.cfg.source)
      × (adopted.listen ≡ false)
read-peer a a' syn seg elsewhere w room w' room' listening on rst other =
    let (first, e, r) = parse-serialize_segment (with_ports a syn) default_segment 0 w room in
    let (later, e', r') = parse-serialize_segment (with_ports a seg) default_segment 0 w' room' in
    let adopted : FdAdapter = record {
      cfg = record a'.cfg { destination = a.cfg.source };
      listen = false;
    } in
    (
      first,
      later,
      adopted,
      write_eq a syn ∙ ap (sent_to (with_ports a syn) a.cfg.destination) e,
      read_eq a' (received_from a first) (rw listening refl)
          ∙ ap (parsed_udp a' a.cfg.source) r
          ∙ ap some (rw (listening, on, rst) refl),
      write_eq a seg ∙ ap (sent_to (with_ports a seg) a.cfg.destination) e',
      read_eq adopted (received_from a later) (rw (same_address_refl a.cfg.source) refl)
          ∙ ap (parsed_udp adopted a.cfg.source) r',
      read-elsewhere adopted elsewhere refl other,
      refl,
      refl,
    )
