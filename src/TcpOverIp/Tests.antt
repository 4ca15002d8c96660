-- ===== src/TcpOverIp/Tests.antt =====
-- Adapters over IP at work.
use sponge_fa.Prelude.{◌≡◌, refl, true, false, List, [], ◌∷◌, some, arith}
use sponge_fa.Buffer.{Buffer, of_string, concatenate}
use sponge_fa.TcpConfig.{Address, FdAdapterConfig}
use sponge_fa.FdAdapter.{FdAdapter, with_ports}
use sponge_fa.Ipv4Datagram.{Ipv4Datagram}
use sponge_fa.Ipv4Header.{Ipv4Header, pseudo_cksum}
use sponge_fa.Parser.{int_bytes}
use sponge_fa.TcpHeader.{default_header}
use sponge_fa.TcpSegment.{TcpSegment}
use sponge_fa.TcpSegment.Codec.{image, checksum}
use sponge_fa.TcpOverIp.{wrapping_header, read, write, unwrap_tcp_in_ip}
use sponge_fa.TcpOverIp.Peers.{Fits, delivered, read-write, read-write_listening}
use sponge_fa.TcpOverIp.Accepted.{Answered, unwrap_tcp_in_ip-Answered}

abbrev client_address : Address
client_address = record { ip = 0x0a00_0001; port = 4000 }

abbrev server_address : Address
server_address = record { ip = 0x0a00_0002; port = 80 }

abbrev config : Address → Address → FdAdapterConfig
config source destination = record {
  source = source;
  destination = destination;
  loss_rate_dn = 0;
  loss_rate_up = 0;
}

abbrev client : FdAdapter
client = record { cfg = config client_address server_address; listen = false }

abbrev server : FdAdapter
server = record { cfg = config server_address client_address; listen = false }

-- Bound to the address 0.
abbrev listener : FdAdapter
listener = record {
  cfg = config (record { ip = 0; port = 80 }) (record { ip = 0; port = 0 });
  listen = true;
}

abbrev seg : TcpSegment
seg = record {
  header = record default_header { seqno = 7; syn = true; win = 500 };
  payload = 1 ∷ 2 ∷ 3 ∷ [];
}

seg-Fits : Fits client seg
seg-Fits = record {
  source = record { ip = omega arith; port = omega arith };
  destination = record { ip = omega arith; port = omega arith };
  header = record {
    packed = record {
      sport = omega arith;
      dport = omega arith;
      seqno = omega arith;
      ackno = omega arith;
      doff = omega arith;
      win = omega arith;
      cksum = omega arith;
      uptr = omega arith;
    };
    minimal = omega arith;
  };
  size = omega arith;
}

read-write_example :
    (bs : List Buffer) × (write client seg ≡ some bs)
    × (read server (of_string (concatenate bs)) ≡ some (some (delivered client seg), server))
read-write_example = read-write client server seg seg-Fits refl refl refl

read-write_listening_example :
    (bs : List Buffer) × (write client seg ≡ some bs)
    × (read listener (of_string (concatenate bs)) ≡ some (some (delivered client seg), server))
read-write_listening_example = read-write_listening client listener seg seg-Fits refl refl refl refl

-- The datagram in which the segment travels.
abbrev header : Ipv4Header
header = wrapping_header client (with_ports client seg)

abbrev datagram : Ipv4Datagram
datagram = record {
  header = header;
  payload =
      of_string
        (image (with_ports client seg) (checksum (with_ports client seg) (pseudo_cksum header)))
      ∷ [];
}

adopts : unwrap_tcp_in_ip listener datagram ≡ some (some (delivered client seg), server)
unfolding unwrap_tcp_in_ip int_bytes of_string
adopts = refl

unwrap_example : Answered listener datagram (unwrap_tcp_in_ip listener datagram)
unwrap_example = unwrap_tcp_in_ip-Answered listener datagram
