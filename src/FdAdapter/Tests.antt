-- ===== src/FdAdapter/Tests.antt =====
-- Adapters over UDP at work.
use sponge_fa.Prelude.{
  ℕ, Bool, ◌<◌, ◌^◌, ◌∷◌, ◌+◌, ◌≡◌, refl, true, false, List, [], some, none, arith,
}
use sponge_fa.Buffer.{Buffer, of_string}
use sponge_fa.TcpConfig.{FdAdapterConfig, default_adapter_config}
use sponge_fa.FdAdapter.{FdAdapter, Received, read, write, with_ports, should_drop}
use sponge_fa.FdAdapter.Listening.{received_from, delivered, read-peer}
use sponge_fa.TcpHeader.{default_header}
use sponge_fa.TcpHeader.Codec.{IsWire}
use sponge_fa.TcpSegment.{TcpSegment}

abbrev client : FdAdapter
client = record {
  cfg = record default_adapter_config {
    source = record { ip = 1; port = 4000 };
    destination = record { ip = 2; port = 80 };
  };
  listen = false;
}

abbrev listener : FdAdapter
listener = record {
  cfg = record default_adapter_config { source = record { ip = 2; port = 80 } };
  listen = true;
}

abbrev seg : TcpSegment
seg = record { header = record default_header { seqno = 7; syn = true }; payload = [] }

abbrev stranger : Received
stranger = record { source_address = record { ip = 3; port = 4000 }; payload = of_string [] }

-- Half of all segments are lost on the way up, none on the way down.
abbrev lossy : FdAdapterConfig
lossy = record default_adapter_config { loss_rate_up = 32768 }

drops : should_drop lossy true (65536 + 32767) ≡ true
unfolding should_drop
drops = refl

keeps : should_drop lossy true 32768 ≡ false
unfolding should_drop
keeps = refl

keeps_down : should_drop lossy false 0 ≡ false
unfolding should_drop
keeps_down = refl

abbrev data_ : TcpSegment
data_ = record { header = record default_header { seqno = 8 }; payload = 1 ∷ 2 ∷ [] }

client-IsWire : (seg : TcpSegment) → IsWire seg.header → IsWire (with_ports client seg).header
client-IsWire seg w = record {
  packed = record {
    sport = omega arith;
    dport = omega arith;
    seqno = w.packed.seqno;
    ackno = w.packed.ackno;
    doff = w.packed.doff;
    win = w.packed.win;
    cksum = w.packed.cksum;
    uptr = w.packed.uptr;
  };
  minimal = w.minimal;
}

small-IsWire :
    (n : ℕ) (on : Bool) → n < 2 ^ 32 → IsWire (record default_header { seqno = n; syn = on })
small-IsWire n on small = record {
  packed = record {
    sport = omega arith;
    dport = omega arith;
    seqno = small;
    ackno = omega arith;
    doff = omega arith;
    win = omega arith;
    cksum = omega arith;
    uptr = omega arith;
  };
  minimal = omega arith;
}

read-peer_example :
    (first later : List Buffer) × (adopted : FdAdapter) × (write client seg
      ≡ some (with_ports client seg, client.cfg.destination, first))
    × (read listener (received_from client first) ≡ some (some (delivered client seg), adopted))
    × (write client data_ ≡ some (with_ports client data_, client.cfg.destination, later))
    × (read adopted (received_from client later) ≡ some (some (delivered client data_), adopted))
    × (read adopted stranger ≡ some (none, adopted))
    × (adopted.cfg.destination ≡ client.cfg.source)
    × (adopted.listen ≡ false)
read-peer_example =
    read-peer client listener seg data_ stranger
      (client-IsWire seg (small-IsWire 7 true (omega arith))) (omega arith)
      (client-IsWire data_ (small-IsWire 8 false (omega arith))) (omega arith) refl refl refl refl
