-- ===== src/SpongeSocket/Tests.antt =====
-- A new socket that forwards in both directions.
use sponge_fa.Prelude.{Option, ◌≡◌, refl, true, false, none, some, [], ◌∷◌, arith}
use sponge_fa.ByteStream as Stream
use sponge_fa.ByteStream.{ByteStream}
use sponge_fa.ByteStream.Invariant as StreamInvariant
use sponge_fa.EventLoop.{run_callback}
use sponge_fa.SpongeSocket.Rules.{
  reading, reading-Registers, datagram_in, owner_in, owner_out, datagram_out, silently,
  run_callback-rules,
}
use sponge_fa.TcpReceiver as Receiver
use sponge_fa.TcpSender as Sender
use sponge_fa.FileDescriptor as Descriptor
use sponge_fa.FileDescriptor.{FileDescriptor, register_write}
use sponge_fa.TcpSegment.{TcpSegment}
use sponge_fa.TcpConfig.{TcpConfig}
use sponge_fa.TcpConnection as Connection
use sponge_fa.TcpConnection.{TcpConnection, inbound, with_inbound}
use sponge_fa.SpongeSocket.{
  SpongeSocket, new, read_datagram, read_outbound, write_datagrams, write_inbound,
}
use sponge_fa.SpongeSocket.Forwarding.{behind_read, read_outbound-taken}

abbrev cfg : TcpConfig
cfg = record { rt_timeout = 1000; recv_capacity = 8; send_capacity = 8; fixed_isn = some 7 }

abbrev fresh : SpongeSocket
fresh = new record {
  cfg = cfg;
  receiver = Receiver.new 8;
  sender = Sender.new 8 1000 (some 7) 0;
  segments_out = [];
  linger_after_streams_finish = true;
  time_since_last_segment_received = 0;
}

read_outbound-taken_example :
    let fd = behind_read fresh.thread_data 8 (1 ∷ 2 ∷ []) in
    let (tcp', amount) = Connection.write fresh.tcp (1 ∷ 2 ∷ []) in
    let s' = record fresh { tcp = tcp'; thread_data = fd } in
    (read_outbound fresh none ≡ none)
    × (amount ≡ 2)
    × (read_outbound fresh (some (1 ∷ 2 ∷ [])) ≡ some s')
unfolding Sender.new Connection.remaining_outbound_capacity Stream.remaining_capacity Stream.new
    Receiver.new Connection.write
read_outbound-taken_example = read_outbound-taken fresh (1 ∷ 2 ∷ []) refl (omega arith)

-- "ab" has arrived.
abbrev arrived : ByteStream
arrived = record {
  capacity = 8;
  buffer = 97 ∷ 98 ∷ [];
  error = false;
  end_input = false;
  bytes_read = 0;
  bytes_written = 2;
}

abbrev receiving : SpongeSocket
receiving = record fresh { tcp = with_inbound fresh.tcp arrived }

one_byte :
    write_inbound receiving (some 1) true
    ≡ some (
      record receiving {
        tcp = with_inbound fresh.tcp (record arrived { buffer = 98 ∷ []; bytes_read = 1 });
        thread_data = record Descriptor.new { write_count = 1 };
      },
      97 ∷ [],
    )
unfolding write_inbound Receiver.new
one_byte = refl

-- The owner's side cannot be shut at the end of the stream.
abbrev ended : SpongeSocket
ended = record receiving { tcp = with_inbound fresh.tcp (record arrived { end_input = true }) }

shutdown_fails : write_inbound ended (some 2) false ≡ none
unfolding write_inbound Receiver.new
shutdown_fails = refl

-- An adapter that reads one byte, which is no segment, and one that takes every segment.
abbrev reads_nothing : FileDescriptor → Option (FileDescriptor × Option TcpSegment)
reads_nothing = reading 1500 (some (1 ∷ [])) (λ bytes. none)

abbrev sends_all : FileDescriptor → TcpSegment → Option (FileDescriptor × TcpSegment)
sends_all fd seg = some (register_write fd, seg)

run_callback-rules_example :
    (run_callback (datagram_in reads_nothing) fresh ≡ read_datagram reads_nothing fresh)
    × (run_callback (owner_in (some (1 ∷ []))) fresh ≡ read_outbound fresh (some (1 ∷ [])))
    × (run_callback (owner_out (some 0) true) fresh ≡ silently (write_inbound fresh (some 0) true))
    × (run_callback (datagram_out sends_all) fresh ≡ silently (write_datagrams sends_all fresh))
run_callback-rules_example =
    run_callback-rules fresh reads_nothing (some (1 ∷ [])) (some 0) true sends_all
      (reading-Registers 1500 (some (1 ∷ [])) (λ bytes. none))
