-- ===== src/TcpOverIp/Peers.antt =====
-- What one adapter writes, the adapter of its peer reads.
use sponge_fa.Prelude.{
  ℕ, ◌+◌, ◌*◌, ◌^◌, ◌≤◌, ◌<◌, ◌≡◌, ◌∙◌, refl, ap, sym, true, false, not, ◌&&◌, List, [], ◌∷◌, some,
  length, arith, eq→==, ◌==◌,
}
use sponge_fa.Buffer.{Buffer, of_string, concatenate}
use sponge_fa.Parser.Fields.{At}
use sponge_fa.TcpConfig.{Address}
use sponge_fa.FdAdapter.{FdAdapter, with_ports}
use sponge_fa.Ipv4Header.{Ipv4Header, pseudo_cksum}
use sponge_fa.Ipv4Header.Codec as IpWire
use sponge_fa.Ipv4Datagram as Datagram
use sponge_fa.Ipv4Datagram.{Ipv4Datagram, default_datagram}
use sponge_fa.Ipv4Datagram.Codec as DatagramWire
use sponge_fa.TcpHeader.Codec.{IsWire}
use sponge_fa.TcpSegment as Segment
use sponge_fa.TcpSegment.{TcpSegment, default_segment}
use sponge_fa.TcpSegment.Codec as SegmentWire
use sponge_fa.TcpOverIp.{
  wrapping_header, with_payload, wrap_tcp_in_ip, serialized, write, read, parsed_datagram,
  unwrap_tcp_in_ip, parsed_segment, check_ports,
}

pub record IsAddress (x : Address) : Type 0 where
  pub ip : x.ip < 2 ^ 32
  pub port : x.port < 2 ^ 16

-- A segment that fits a datagram between the addresses of an adapter.
pub record Fits (a : FdAdapter) (seg : TcpSegment) : Type 0 where
  pub source : IsAddress a.cfg.source
  pub destination : IsAddress a.cfg.destination
  pub header : IsWire seg.header
  pub size : 20 + 4 * seg.header.doff + length seg.payload < 2 ^ 16

pseudo_cksum-le :
    (h : Ipv4Header)
    → h.src < 2 ^ 32
    → h.dst < 2 ^ 32
    → h.proto < 2 ^ 8
    → pseudo_cksum h ≤ 6 * 2 ^ 16
unfolding pseudo_cksum
pseudo_cksum-le h s d p = omega arith

-- The checksum field is not in the pseudo checksum.
pseudo_cksum-sent : (h : Ipv4Header) → pseudo_cksum (DatagramWire.sent h) ≡ pseudo_cksum h
unfolding pseudo_cksum
pseudo_cksum-sent h = refl

module _ (a : FdAdapter) (seg : TcpSegment) where
  abbrev outer : Ipv4Header
  outer = wrapping_header a (with_ports a seg)

  abbrev layer : ℕ
  layer = pseudo_cksum outer

  abbrev datagram : Ipv4Datagram
  datagram = record { header = outer; payload = SegmentWire.written (with_ports a seg) layer }

  -- The segment as the peer gets it.
  abbrev pub delivered : TcpSegment
  delivered = SegmentWire.sent (with_ports a seg) layer

  abbrev image : List ℕ
  image = SegmentWire.image (with_ports a seg) (SegmentWire.checksum (with_ports a seg) layer)

  abbrev pub bytes : List ℕ
  bytes = concatenate (DatagramWire.written datagram)

  module _ (f : Fits a seg) where
    with_ports-IsWire : IsWire (with_ports a seg).header
    with_ports-IsWire = record {
      packed = record {
        sport = f.source.port;
        dport = f.destination.port;
        seqno = f.header.packed.seqno;
        ackno = f.header.packed.ackno;
        doff = f.header.packed.doff;
        win = f.header.packed.win;
        cksum = f.header.packed.cksum;
        uptr = f.header.packed.uptr;
      };
      minimal = f.header.minimal;
    }

    len_lem : outer.len ≡ 20 + 4 * seg.header.doff + length seg.payload
    len_lem = omega (arith, f.size)

    outer-IsWire : IpWire.IsWire outer
    outer-IsWire = record {
      ver = refl;
      hlen = (omega arith, omega arith);
      tos = omega arith;
      len = omega (arith, len_lem, f.size);
      id = omega arith;
      offset = omega arith;
      ttl = omega arith;
      proto = omega arith;
      cksum = omega arith;
      src = f.source.ip;
      dst = f.destination.ip;
    }

    summable : SegmentWire.Summable (with_ports a seg) layer
    summable =
        omega (arith, f.size, pseudo_cksum-le outer f.source.ip f.destination.ip (omega arith))

    concatenate-payload : concatenate datagram.payload ≡ image
    concatenate-payload =
        SegmentWire.concatenate-written (with_ports a seg) layer with_ports-IsWire summable

    whole : 4 * outer.hlen + length (concatenate datagram.payload) ≡ outer.len
    whole = omega (
      arith,
      ap length concatenate-payload,
      SegmentWire.length-image (with_ports a seg) (SegmentWire.checksum (with_ports a seg) layer),
      len_lem,
      f.header.minimal,
    )

    wrap_eq : wrap_tcp_in_ip a seg ≡ some (datagram, with_ports a seg)
    unfolding wrap_tcp_in_ip
    wrap_eq =
        ap (with_payload outer (with_ports a seg))
          (SegmentWire.serialize-written (with_ports a seg) layer with_ports-IsWire summable)

    write_eq : write a seg ≡ serialized (wrap_tcp_in_ip a seg)
    unfolding write
    write_eq = refl

    -- `write` does not throw.
    pub write-written : write a seg ≡ some (DatagramWire.written datagram)
    write-written =
        write_eq
        ∙ ap serialized wrap_eq
        ∙ DatagramWire.serialize-written datagram outer-IsWire whole

    -- Behind the datagram that is read there are only the tests of the ports.
    unwrap_lem :
        (a' : FdAdapter) (b : Buffer)
        → At b image
        → (not a'.listen && not (outer.dst == a'.cfg.source.ip)) ≡ false
        → (not a'.listen && not (outer.src == a'.cfg.destination.ip)) ≡ false
        → unwrap_tcp_in_ip a' (record { header = DatagramWire.sent outer; payload = b ∷ [] })
          ≡ some (check_ports a' (DatagramWire.sent outer) delivered)
    unfolding unwrap_tcp_in_ip
    unwrap_lem a' b at d s =
        rw (d, s)
          (ap (λ k. parsed_segment a' (DatagramWire.sent outer) (Segment.parse default_segment b k))
              (pseudo_cksum-sent outer)
            ∙ ap (parsed_segment a' (DatagramWire.sent outer)) (
                SegmentWire.parse-image (with_ports a seg) layer with_ports-IsWire summable
                  default_segment b at))

    read_eq :
        (a' : FdAdapter) (b : Buffer)
        → read a' b ≡ parsed_datagram a' (Datagram.parse default_datagram b)
    unfolding read
    read_eq a' b = refl

    pub read_lem :
        (a' : FdAdapter)
        → (not a'.listen && not (outer.dst == a'.cfg.source.ip)) ≡ false
        → (not a'.listen && not (outer.src == a'.cfg.destination.ip)) ≡ false
        → read a' (of_string bytes) ≡ some (check_ports a' (DatagramWire.sent outer) delivered)
    read_lem a' d s =
        let (b, accepted, e, at) =
          DatagramWire.parse-written datagram outer-IsWire whole default_datagram in
        read_eq a' (of_string bytes)
        ∙ ap (parsed_datagram a') e
        ∙ unwrap_lem a' b (at.0, at.1 ∙ concatenate-payload) d s

-- What an adapter writes for a segment that fits a datagram, the adapter of the peer, whose addresses are the same the other way
-- round, reads as that segment, with the ports and the checksum filled in, and stays as it is.
pub read-write :
    (a a' : FdAdapter) (seg : TcpSegment)
    → Fits a seg
    → a'.listen ≡ false
    → a'.cfg.source ≡ a.cfg.destination
    → a'.cfg.destination ≡ a.cfg.source
    → (bs : List Buffer) × (write a seg ≡ some bs)
      × (read a' (of_string (concatenate bs)) ≡ some (some (delivered a seg), a'))
read-write a a' seg f quiet here there =
    let e₁ = eq→== (outer a seg).dst a'.cfg.source.ip (ap (λ x. x.ip) (sym here)) in
    let e₂ = eq→== (outer a seg).src a'.cfg.destination.ip (ap (λ x. x.ip) (sym there)) in
    let e₃ = eq→== a.cfg.destination.port a'.cfg.source.port (ap (λ x. x.port) (sym here)) in
    let e₄ = eq→== a.cfg.source.port a'.cfg.destination.port (ap (λ x. x.port) (sym there)) in
    (
      DatagramWire.written (datagram a seg),
      write-written a seg f,
      read_lem a seg f a' (rw (quiet, e₁) refl) (rw (quiet, e₂) refl) ∙ rw (e₃, quiet, e₄) refl,
    )

-- A listening adapter at the port that a SYN is for reads that SYN, takes the addresses of its
-- datagram for its own, the other way round, and listens no longer.
pub read-write_listening :
    (a a' : FdAdapter) (seg : TcpSegment)
    → Fits a seg
    → a'.listen ≡ true
    → a'.cfg.source.port ≡ a.cfg.destination.port
    → seg.header.syn ≡ true
    → seg.header.rst ≡ false
    → (bs : List Buffer) × (write a seg ≡ some bs)
      × (read a' (of_string (concatenate bs))
          ≡ some (
            some (delivered a seg),
            record a' {
              listen = false;
              cfg = record a'.cfg { source = a.cfg.destination; destination = a.cfg.source };
            },
          ))
read-write_listening a a' seg f listening port syn rst =
    let e₃ = eq→== a.cfg.destination.port a'.cfg.source.port (sym port) in
    let e₄ = eq→== a.cfg.source.port a.cfg.source.port refl in
    (
      DatagramWire.written (datagram a seg),
      write-written a seg f,
      read_lem a seg f a' (rw listening refl) (rw listening refl)
          ∙ rw (e₃, listening, syn, rst, e₄, port) refl,
    )
