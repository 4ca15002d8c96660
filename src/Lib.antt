-- ===== src/Lib.antt =====
-- A verification library for Sponge, a user-level TCP implementation.
--
-- The program's parts and the modules that model them (paths from the repository's root):
--
-- - libsponge/byte_stream.{hh,cc}, class ByteStream: `ByteStream`. A bounded queue of bytes between
--   a writer and a reader. A method that changes the stream returns the new stream.
-- - libsponge/wrapping_integers.{hh,cc}, WrappingInt32, wrap, unwrap: `WrappingInt32`.
-- - libsponge/stream_reassembler.{hh,cc}, class StreamReassembler: `StreamReassembler`. The
--   std::map is a list of entries in ascending order of keys; the loops are `fill_gaps` and
--   `pop_assembled`, both by recursion on the entries. `Merge` is the one-pass description that
--   the loop is proved equal to, `Contract` what a caller may rely on.
-- - libsponge/tcp_helpers/tcp_header.{hh,cc}, tcp_segment.{hh,cc}: `TcpHeader`, `TcpSegment`, on a
--   parser and the checksum. A `Codec` module of theirs, as of the other formats, relates `parse`
--   and `serialize` by the bytes that a header takes (`layout`).
-- - libsponge/tcp_receiver.{hh,cc}, class TCPReceiver: `TcpReceiver`, on a reassembler.
-- - libsponge/tcp_helpers/tcp_config.hh: `TcpConfig`.
-- - libsponge/tcp_sender.{hh,cc}, class TCPSender: `TcpSender`, on a byte stream. The loop of
--   fill_window, `fill_loop`, runs on fuel: as many rounds as there are bytes to send, which is
--   enough since each round that does not end the loop spends at least one byte (`Loop`).
-- - libsponge/tcp_connection.{hh,cc}, class TCPConnection: `TcpConnection`, a receiver and a sender
--   that inform each other.
-- - libsponge/tcp_helpers/tcp_state.{hh,cc}, class TCPState: `TcpState`.
-- - libsponge/util/buffer.{hh,cc}, classes Buffer, BufferList and BufferViewList: `Buffer`.
-- - libsponge/util/parser.{hh,cc}, NetParser and NetUnparser: `Parser`, on a buffer. The loop of
--   _parse_int runs on the number of bytes that it has left.
-- - libsponge/util/util.{hh,cc}, class InternetChecksum: `InternetChecksum`. The loop of value runs
--   on fuel of two rounds, which is enough for a sum of 32 bits.
-- - libsponge/tcp_helpers/ipv4_header.{hh,cc}, ipv4_datagram.{hh,cc}: `Ipv4Header`, `Ipv4Datagram`.
-- - libsponge/tcp_helpers/ethernet_header.{hh,cc}, ethernet_frame.{hh,cc}, arp_message.{hh,cc}:
--   `EthernetHeader`, `EthernetFrame`, `ArpMessage`.
-- - libsponge/tcp_helpers/fd_adapter.{hh,cc}, lossy_fd_adapter.hh: `FdAdapter`, the adapter that puts
--   segments into UDP datagrams, and the one that loses some of them. What a socket receives and
--   the random numbers are arguments; a socket address is its IPv4 number and its port.
-- - libsponge/tcp_helpers/tcp_over_ip.{hh,cc}, and the TUN adapter of tuntap_adapter.hh:
--   `TcpOverIp`, segments in Internet datagrams.
-- - libsponge/util/file_descriptor.{hh,cc}: `FileDescriptor`, what the handles of a descriptor share
--   and the loops around read(2) and writev(2), whose returns, a failure included, are arguments.
-- - libsponge/util/eventloop.{hh,cc}, class EventLoop: `EventLoop`, one round over rules whose
--   callbacks share a state; what poll(2) answers is an argument.
-- - libsponge/tcp_helpers/tcp_sponge_socket.{hh,cc}, class TCPSpongeSocket: `SpongeSocket`, the four
--   rules that move bytes between the owner, the connection and the datagram adapter, and the rules
--   as the event loop has them. What the adapter's read and write do is an argument.
-- - `Transfer` puts a sender and a receiver together: the segments that the one queues over any
--   history of calls (`TcpSender.History`), delivered to the other by a network that may lose,
--   repeat and reorder them.
--
-- Numbers are natural numbers; a fixed-width operation keeps its wrap-around (`add64`, `sub32`
-- and the like of `Prelude.Word`; size_t has 64 bits). A byte is a number; where code computes
-- with one, `% 2 ^ 8` is kept. A queue is a list with its front first. A payload is the string
-- that its Buffer shows. The random initial sequence number is an argument of the constructors.
--
-- Not modelled: the calls of sockets, the numbers of descriptors, poll(2) itself, the thread of
-- a TCPSpongeSocket, TUN/TAP devices, address resolution, text output, and the programs in
-- apps, all of which are calls of the operating system or glue; libsponge/network_interface.cc,
-- whose methods are empty; and the adapter over Ethernet of tuntap_adapter.cc, which stands on
-- that interface.
pub mod Prelude
pub mod ByteStream
pub mod WrappingInt32
pub mod StreamReassembler
pub mod TcpHeader
pub mod TcpSegment
pub mod TcpOverIp
pub mod TcpReceiver
pub mod TcpConfig
pub mod TcpSender
pub mod TcpState
pub mod Transfer
pub mod FileDescriptor
pub mod EventLoop
pub mod SpongeSocket
pub mod Buffer
pub mod Parser
pub mod EthernetHeader
pub mod EthernetFrame
pub mod ArpMessage
pub mod FdAdapter
pub mod InternetChecksum
pub mod Ipv4Header
pub mod Ipv4Datagram
pub mod TcpConnection
