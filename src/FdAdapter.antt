-- ===== src/FdAdapter.antt =====
-- libsponge/tcp_helpers/fd_adapter.hh, fd_adapter.cc and lossy_fd_adapter.hh: the state of an adapter,
-- the adapter over UDP, and the one that loses segments. What a socket receives and a random number
-- that is drawn are arguments; what is sent is returned. `none` is an exception.
mod Tests
pub mod Listening
use sponge_fa.Prelude.{
  ℕ, Bool, true, false, not, ◌&&◌, ◌||◌, List, Option, none, some, ltb, ◌==◌, if◌then◌else◌, u16,
  u32,
}
use sponge_fa.Buffer.{Buffer}
use sponge_fa.Parser.{ParseResult, is_error}
use sponge_fa.TcpConfig.{Address, FdAdapterConfig, default_adapter_config}
use sponge_fa.TcpSegment as Segment
use sponge_fa.TcpSegment.{TcpSegment, default_segment}

-- `FdAdapterBase`.
pub record FdAdapter : Type 0 where
  pub cfg : FdAdapterConfig
  pub listen : Bool

abbrev pub new : FdAdapter
new = record { cfg = default_adapter_config; listen = false }

abbrev pub set_listening : FdAdapter → Bool → FdAdapter
set_listening a l = record a { listen = l }

abbrev pub same_address : Address → Address → Bool
same_address x y = (x.ip == y.ip) && (x.port == y.port)

-- `received_datagram`.
pub record Received : Type 0 where
  pub source_address : Address
  pub payload : Buffer

-- What an adapter reads: a segment or nothing, and the adapter afterwards.
abbrev pub Reading : Type 0
Reading = Option TcpSegment × FdAdapter

-- The answer to a segment that was parsed: a listening adapter takes the source of a SYN for its peer.
abbrev pub target_udp : FdAdapter → Address → TcpSegment → Reading
target_udp a source_address seg =
    if a.listen
    then (if seg.header.syn && not seg.header.rst
        then (
          some seg,
          set_listening (record a { cfg = record a.cfg { destination = source_address } }) false,
        )
        else (none, a))
    else (some seg, a)

abbrev pub parsed_udp : FdAdapter → Address → Option (TcpSegment × ParseResult) → Option Reading
parsed_udp a source_address none = none
parsed_udp a source_address (some (seg, r)) =
    if is_error r then some (none, a) else some (target_udp a source_address seg)

-- `TCPOverUDPSocketAdapter::read`.
unfoldable pub read : FdAdapter → Received → Option Reading
unfolding Segment.parse
read a datagram =
    if not a.listen && not (same_address datagram.source_address a.cfg.destination)
    then some (none, a)
    else parsed_udp a datagram.source_address (Segment.parse default_segment datagram.payload 0)

-- The ports of the configuration.
abbrev pub with_ports : FdAdapter → TcpSegment → TcpSegment
with_ports a seg = record seg {
  header = record seg.header { sport = a.cfg.source.port; dport = a.cfg.destination.port };
}

abbrev pub sent_to :
    TcpSegment → Address → Option (List Buffer) → Option (TcpSegment × Address × List Buffer)
sent_to seg destination none = none
sent_to seg destination (some bs) = some (seg, destination, bs)

-- `TCPOverUDPSocketAdapter::write`: the segment, which gets its ports, and what is sent to whom.
unfoldable pub write : FdAdapter → TcpSegment → Option (TcpSegment × Address × List Buffer)
unfolding Segment.serialize
write a seg =
    let seg' = with_ports a seg in sent_to seg' a.cfg.destination (Segment.serialize seg' 0)

-- `LossyFdAdapter::_should_drop`; no number is drawn if nothing is to be lost.
unfoldable pub should_drop : FdAdapterConfig → Bool → ℕ → Bool
should_drop cfg uplink drawn =
    let loss = if uplink then cfg.loss_rate_up else cfg.loss_rate_dn in
    not (loss == 0) && ltb (u16 drawn) loss

abbrev pub lost : ℕ → Reading → Reading
lost drawn (seg, a) = if should_drop a.cfg false drawn then (none, a) else (seg, a)

-- `LossyFdAdapter::read`, with the reading of the adapter below.
unfoldable pub lossy_read : ℕ → Option Reading → Option Reading
unfolding should_drop
lossy_read drawn none = none
lossy_read drawn (some r) = some (lost drawn r)

-- `LossyFdAdapter::write` over UDP; `some none` sends nothing.
abbrev pub written {ℓ} : {A : Type ℓ} → Option A → Option (Option A)
written none = none
written (some sent) = some (some sent)

unfoldable pub lossy_write :
    ℕ → FdAdapter → TcpSegment → Option (Option (TcpSegment × Address × List Buffer))
unfolding should_drop write
lossy_write drawn a seg = if should_drop a.cfg true drawn then some none else written (write a seg)
