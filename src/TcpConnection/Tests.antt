-- ===== src/TcpConnection/Tests.antt =====
-- Runs of a connection with small buffers, and its theorems at concrete states.
use sponge_fa.Prelude.{
  Option, length, ◌<◌, ◌≢◌, ◌⊎◌, ◌≡◌, refl, true, false, [], ◌∷◌, ◌++◌, arith, some,
}
use sponge_fa.WrappingInt32.{WrappingInt32}
use sponge_fa.ByteStream as Stream
use sponge_fa.TcpConfig.{TcpConfig}
use sponge_fa.TcpHeader.{default_header}
use sponge_fa.TcpSegment.{TcpSegment, default_segment}
use sponge_fa.TcpReceiver as Receiver
use sponge_fa.TcpSender as Sender
use sponge_fa.TcpSender.Invariant as SenderInvariant
use sponge_fa.TcpConnection.{TcpConnection, new, active, connect, segment_received, rst_header}
use sponge_fa.TcpConnection.Queue.{outgoing}
use sponge_fa.TcpConnection.Reset.{Failed, BothEnded, rst_lem, rst_ignored}
use sponge_fa.TcpConnection.Answer.{NeedsNone, handed, segment_received-answers}
use sponge_fa.TcpConnection.Outbound.{IsDrained, connects, step, step-IsDrained}

abbrev cfg : TcpConfig
cfg = record { rt_timeout = 1000; recv_capacity = 8; send_capacity = 8; fixed_isn = some 7 }

abbrev fresh : TcpConnection
fresh = record {
  cfg = cfg;
  receiver = Receiver.new 8;
  sender = Sender.new 8 1000 (some 7) 0;
  segments_out = [];
  linger_after_streams_finish = true;
  time_since_last_segment_received = 0;
}

fresh_is_new : new cfg 0 ≡ fresh
unfolding new
fresh_is_new = refl

connects_with_syn :
    (connect fresh).segments_out
    ≡ record default_segment { header = record default_header { seqno = 7; syn = true; win = 8 } }
      ∷ []
unfolding connect Receiver.new Sender.new
connects_with_syn = refl

fresh-IsDrained : IsDrained fresh
unfolding Sender.new
fresh-IsDrained = (SenderInvariant.new-IsValid 8 1000 (some 7) 0 (omega arith), refl)

step-IsDrained_example : IsDrained (step fresh connects)
unfolding Sender.new Stream.new
step-IsDrained_example = step-IsDrained fresh connects fresh-IsDrained (omega arith) (record {})

-- A segment with a SYN and one with RST.
abbrev syn_five : TcpSegment
syn_five = record default_segment { header = record default_header { seqno = 5; syn = true } }

abbrev reset : TcpSegment
reset = record default_segment { header = rst_header }

fresh_active : active fresh ≡ true
unfolding active Sender.new Receiver.new
fresh_active = refl

segment_received-answers_example :
    let c' = segment_received fresh syn_five in
    (c'.receiver ≡ Receiver.segment_received (Receiver.new 8) syn_five)
    × (c'.sender.segments_out ≡ [])
    × (c'.segments_out ≡ [] ++ outgoing (handed fresh syn_five))
    × (NeedsNone (Receiver.ackno c'.receiver) syn_five
        ⊎ (0 < length (outgoing (handed fresh syn_five))))
segment_received-answers_example = segment_received-answers fresh syn_five fresh_active refl

rst_example :
    let c' = segment_received fresh reset in
    Failed c'
    × (c'.segments_out ≡ [])
    × (c'.sender.segments_out ≡ (Sender.new 8 1000 (some 7) 0).segments_out)
    × (BothEnded fresh ⊎ (active c' ≡ false))
rst_example = rst_lem fresh reset fresh_active refl

-- Both streams have ended, and the FIN is in flight.
abbrev fin_seven : TcpSegment
fin_seven = record default_segment { header = record default_header { seqno = 7; fin = true } }

abbrev closing : TcpConnection
closing = record fresh {
  sender = record (fresh.sender) {
    stream = Stream.end_input (Stream.new 8);
    segments_outstanding =
        record { abs_seqno = 0; window_zero_flag = false; segment = fin_seven } ∷ [];
  };
  receiver = record (fresh.receiver) {
    reassembler = record (fresh.receiver.reassembler) { output = Stream.end_input (Stream.new 8) };
  };
}

closing-BothEnded : BothEnded closing
unfolding Stream.end_input Stream.new Stream.eof
closing-BothEnded = (refl, refl)

closing_flying : Sender.bytes_in_flight closing.sender ≢ 0
unfolding Sender.bytes_in_flight
closing_flying e = absurd (omega arith)

rst_ignored_example :
    Failed (segment_received closing reset) × (active (segment_received closing reset) ≡ true)
rst_ignored_example = rst_ignored closing reset closing-BothEnded closing_flying refl

abbrev acknowledged : Option WrappingInt32
acknowledged = some 6
