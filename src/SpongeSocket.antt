-- ===== src/SpongeSocket.antt =====
-- libsponge/tcp_helpers/tcp_sponge_socket.hh and tcp_sponge_socket.cc: a connection between a datagram
-- adapter and the stream socket of its owner. The four rules of `_initialize_TCP` are functions on
-- the state that they share; what the adapter and the stream socket give is an argument, and what
-- they are given a result. As a result `none` is an exception, as an argument a system call or an
-- adapter that fails. Debugging output is left out.
pub mod Forwarding
pub mod Rules
mod Tests
use sponge_fa.Prelude.{
  ℕ, ◌-◌, ◌^◌, min, Bool, true, false, not, ◌&&◌, ◌||◌, List, [], ◌∷◌, Option, none, some, length,
  take, ltb, ◌==◌, if◌then◌else◌, sub64,
}
use sponge_fa.ByteStream as Stream
use sponge_fa.ByteStream.{ByteStream}
use sponge_fa.EventLoop.{◌>>=◌}
use sponge_fa.FileDescriptor as Descriptor
use sponge_fa.FileDescriptor.{FileDescriptor, How, Written}
use sponge_fa.TcpConnection as Connection
use sponge_fa.TcpConnection.{TcpConnection, inbound, with_inbound}
use sponge_fa.TcpSegment.{TcpSegment}
use sponge_fa.TcpSender as Sender
use sponge_fa.TcpSender.{is_empty}

-- The members that the rules use; of the adapter its descriptor.
pub record SpongeSocket : Type 0 where
  pub tcp : TcpConnection
  pub thread_data : FileDescriptor
  pub adapter : FileDescriptor
  pub inbound_shutdown : Bool
  pub outbound_shutdown : Bool
  pub fully_acked : Bool

-- `_initialize_TCP`, with the number that the sender draws.
abbrev pub new : Connection.TcpConnection → SpongeSocket
new tcp = record {
  tcp = tcp;
  thread_data = Descriptor.new;
  adapter = Descriptor.new;
  inbound_shutdown = false;
  outbound_shutdown = false;
  fully_acked = false;
}

-- Rule 1: what the adapter reads goes to the connection.
abbrev pub give_segment : TcpConnection → Option TcpSegment → TcpConnection
give_segment c none = c
give_segment c (some seg) = Connection.segment_received c seg

abbrev pub handed : SpongeSocket → Option (FileDescriptor × Option TcpSegment) → Option SpongeSocket
handed s none = none
handed s (some (fd, seg)) =
    let c = give_segment s.tcp seg in
    some (record s {
      tcp = c;
      adapter = fd;
      fully_acked = s.fully_acked || (s.thread_data.eof && (Sender.bytes_in_flight c.sender == 0));
    })

-- `read` is what the adapter does: it gives its descriptor behind the call, and a segment or nothing.
unfoldable pub read_datagram :
    (FileDescriptor → Option (FileDescriptor × Option TcpSegment))
    → SpongeSocket
    → Option SpongeSocket
unfolding Connection.segment_received Sender.bytes_in_flight
read_datagram read s = handed s (read s.adapter)

unfoldable pub wants_datagram : SpongeSocket → Bool
unfolding Connection.active
wants_datagram s = Connection.active s.tcp

-- Rule 2: what the owner has written goes to the outbound stream.
unfoldable pub shut_outbound : SpongeSocket → SpongeSocket
unfolding Connection.end_input_stream
shut_outbound s = record s { tcp = Connection.end_input_stream s.tcp; outbound_shutdown = true }

abbrev pub give_data : SpongeSocket → Option (FileDescriptor × List ℕ) → Option SpongeSocket
give_data s none = none
give_data s (some (fd, data_)) =
    let (tcp', amount_written) = Connection.write s.tcp data_ in
    let s' = record s { tcp = tcp'; thread_data = fd } in
    if not (amount_written == length data_)
    then none
    else (if fd.eof then some (shut_outbound s') else some s')

unfoldable pub read_outbound : SpongeSocket → Option (List ℕ) → Option SpongeSocket
unfolding Descriptor.read Connection.write Connection.remaining_outbound_capacity shut_outbound
read_outbound s got =
    give_data s (Descriptor.read s.thread_data (Connection.remaining_outbound_capacity s.tcp) got)

unfoldable pub wants_outbound : SpongeSocket → Bool
unfolding Connection.active Connection.remaining_outbound_capacity
wants_outbound s =
    Connection.active s.tcp
    && (not s.outbound_shutdown && ltb 0 (Connection.remaining_outbound_capacity s.tcp))

-- Rule 3: what has arrived goes to the owner; only what was written is popped.
abbrev pub is_over : ByteStream → Bool
is_over stream = Stream.eof stream || stream.error

abbrev pub give_inbound :
    SpongeSocket → ByteStream → List ℕ → Option FileDescriptor → Option (SpongeSocket × List ℕ)
give_inbound s stream out none = none
give_inbound s stream out (some fd) = some (
  record s {
    tcp = with_inbound s.tcp stream;
    thread_data = fd;
    inbound_shutdown = s.inbound_shutdown || is_over stream;
  },
  out,
)

-- `shuts` says whether shutdown(2) succeeds.
abbrev pub pop_inbound : SpongeSocket → List ℕ → Bool → Written → Option (SpongeSocket × List ℕ)
pop_inbound s buffer shuts Written.thrown = none
pop_inbound s buffer shuts Written.waiting = none
pop_inbound s buffer shuts (Written.done fd bytes_written) =
    let stream = Stream.pop_output (inbound s.tcp) bytes_written in
    let fd' = if is_over stream then Descriptor.shutdown fd How.shut_wr shuts else some fd in
    give_inbound s stream (take bytes_written buffer) fd'

unfoldable pub write_inbound : SpongeSocket → Option ℕ → Bool → Option (SpongeSocket × List ℕ)
unfolding Stream.peek_output Stream.pop_output Stream.eof Stream.buffer_size Descriptor.write
write_inbound s returned shuts =
    let amount_to_write = min 65536 (Stream.buffer_size (inbound s.tcp)) in
    let buffer = Stream.peek_output (inbound s.tcp) amount_to_write in
    pop_inbound s buffer shuts (Descriptor.write s.thread_data buffer false (returned ∷ []))

unfoldable pub wants_inbound : SpongeSocket → Bool
unfolding Stream.buffer_empty Stream.eof
wants_inbound s =
    not (Stream.buffer_empty (inbound s.tcp))
    || ((Stream.eof (inbound s.tcp) || (inbound s.tcp).error) && not s.inbound_shutdown)

-- Rule 4: the segments that the connection has queued go to the adapter, in order. `write` is what the
-- adapter does: it gives its descriptor behind the call, and what it has sent.
module _ {A : Type 0} (write : FileDescriptor → TcpSegment → Option (FileDescriptor × A)) where
  unfoldable pub write_all : FileDescriptor → List TcpSegment → Option (FileDescriptor × List A)
  write_all fd [] = some (fd, [])
  write_all fd (seg ∷ rest) = do
    (fd', x) ← write fd seg
    (fd'', sent) ← write_all fd' rest
    some (fd'', x ∷ sent)

  abbrev emptied : SpongeSocket → Option (FileDescriptor × List A) → Option (SpongeSocket × List A)
  emptied s none = none
  emptied s (some (fd, sent)) =
      some (record s { tcp = record s.tcp { segments_out = [] }; adapter = fd }, sent)

  unfoldable pub write_datagrams : SpongeSocket → Option (SpongeSocket × List A)
  unfolding write_all
  write_datagrams s = emptied s (write_all s.adapter s.tcp.segments_out)

abbrev pub wants_datagrams : SpongeSocket → Bool
wants_datagrams s = not (is_empty s.tcp.segments_out)

-- `_tcp_loop` behind an event that does not end it, at the time `next_time`: the connection's clock.
unfoldable pub tick : SpongeSocket → ℕ → ℕ → SpongeSocket × ℕ
unfolding Connection.active Connection.tick
tick s base_time next_time =
    if Connection.active s.tcp
    then (record s { tcp = Connection.tick s.tcp (sub64 next_time base_time) }, next_time)
    else (s, base_time)
