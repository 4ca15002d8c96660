-- ===== src/TcpOverIp.antt =====
-- libsponge/tcp_helpers/tcp_over_ip.hh and tcp_over_ip.cc, and the adapter over a TUN device of
-- tuntap_adapter.hh: segments in Internet datagrams. What the device gives is an argument, what is
-- written to it is returned. `none` is an exception.
pub mod Peers
pub mod Accepted
mod Tests
use sponge_fa.Prelude.{
  ℕ, ◌+◌, ◌*◌, ◌^◌, Bool, true, false, not, ◌&&◌, ◌||◌, List, Option, none, some, ◌==◌,
  if◌then◌else◌, u16, add64, mul64,
}
use sponge_fa.Buffer as Buffers
use sponge_fa.Buffer.{Buffer}
use sponge_fa.FdAdapter.{FdAdapter, Reading, set_listening, with_ports}
use sponge_fa.Ipv4Datagram as Datagram
use sponge_fa.Ipv4Datagram.{Ipv4Datagram, default_datagram}
use sponge_fa.Ipv4Header as IpHeader
use sponge_fa.Ipv4Header.{Ipv4Header}
use sponge_fa.Parser.{ParseResult, is_error}
use sponge_fa.TcpConfig.{Address}
use sponge_fa.TcpSegment as Segment
use sponge_fa.TcpSegment.{TcpSegment, default_segment}
use sponge_fa.Prelude.{length}

-- `IPv4Header::PROTO_TCP`.
abbrev pub proto_tcp : ℕ
proto_tcp = 6

-- The addresses of a datagram, and the port of its segment, for all replies. `inet_ntoa` and
-- `htobe32` carry a number over to the text from which an address is made.
abbrev pub retarget : FdAdapter → Ipv4Header → TcpSegment → FdAdapter
retarget a h seg =
    set_listening
      (record a {
        cfg = record a.cfg {
          source = record { ip = h.dst; port = a.cfg.source.port };
          destination = record { ip = h.src; port = seg.header.sport };
        };
      })
      false

-- The last test: is the segment from the peer?
abbrev pub from_peer : FdAdapter → TcpSegment → Reading
from_peer a seg =
    if not (seg.header.sport == a.cfg.destination.port) then (none, a) else (some seg, a)

-- The tests of the ports, behind a segment that was parsed.
abbrev pub check_ports : FdAdapter → Ipv4Header → TcpSegment → Reading
check_ports a h seg =
    if not (seg.header.dport == a.cfg.source.port)
    then (none, a)
    else (if a.listen
        then (if seg.header.syn && not seg.header.rst
            then from_peer (retarget a h seg) seg
            else (none, a))
        else from_peer a seg)

abbrev pub parsed_segment :
    FdAdapter → Ipv4Header → Option (TcpSegment × ParseResult) → Option Reading
parsed_segment a h none = none
parsed_segment a h (some (seg, r)) =
    if is_error r then some (none, a) else some (check_ports a h seg)

-- The payload as one buffer, which throws if it is more than one.
abbrev pub parse_payload : Option Buffer → ℕ → Option (TcpSegment × ParseResult)
parse_payload none cksum = none
parse_payload (some b) cksum = Segment.parse default_segment b cksum

unfoldable pub unwrap_tcp_in_ip : FdAdapter → Ipv4Datagram → Option Reading
unfolding Segment.parse IpHeader.pseudo_cksum Buffers.to_buffer
unwrap_tcp_in_ip a d =
    if not a.listen && not (d.header.dst == a.cfg.source.ip)
    then some (none, a)
    else (if not a.listen && not (d.header.src == a.cfg.destination.ip)
        then some (none, a)
        else (if not (d.header.proto == proto_tcp)
            then some (none, a)
            else parsed_segment a d.header
                (parse_payload (Buffers.to_buffer d.payload) (IpHeader.pseudo_cksum d.header))))

-- The header of the datagram around a segment; its length is cut to 16 bits.
abbrev pub wrapping_header : FdAdapter → TcpSegment → Ipv4Header
wrapping_header a seg = record default_datagram.header {
  src = a.cfg.source.ip;
  dst = a.cfg.destination.ip;
  len =
      u16 (
        add64 (add64 (default_datagram.header.hlen * 4) (seg.header.doff * 4))
          (length seg.payload));
}

abbrev pub with_payload :
    Ipv4Header → TcpSegment → Option (List Buffer) → Option (Ipv4Datagram × TcpSegment)
with_payload h seg none = none
with_payload h seg (some payload) = some (record { header = h; payload = payload }, seg)

-- The datagram, and the segment, which gets its ports.
unfoldable pub wrap_tcp_in_ip : FdAdapter → TcpSegment → Option (Ipv4Datagram × TcpSegment)
unfolding Segment.serialize IpHeader.pseudo_cksum
wrap_tcp_in_ip a seg =
    let seg' = with_ports a seg in
    let h = wrapping_header a seg' in
    with_payload h seg' (Segment.serialize seg' (IpHeader.pseudo_cksum h))

abbrev pub parsed_datagram : FdAdapter → Option (Ipv4Datagram × ParseResult) → Option Reading
parsed_datagram a none = none
parsed_datagram a (some (d, r)) = if is_error r then some (none, a) else unwrap_tcp_in_ip a d

-- `TCPOverIPv4OverTunFdAdapter::read`, of what the device gives.
unfoldable pub read : FdAdapter → Buffer → Option Reading
unfolding Datagram.parse unwrap_tcp_in_ip
read a bytes = parsed_datagram a (Datagram.parse default_datagram bytes)

abbrev pub serialized : Option (Ipv4Datagram × TcpSegment) → Option (List Buffer)
serialized none = none
serialized (some (d, seg)) = Datagram.serialize d

-- `TCPOverIPv4OverTunFdAdapter::write`: what the device is given.
unfoldable pub write : FdAdapter → TcpSegment → Option (List Buffer)
unfolding Datagram.serialize wrap_tcp_in_ip
write a seg = serialized (wrap_tcp_in_ip a seg)
