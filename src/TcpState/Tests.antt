-- ===== src/TcpState/Tests.antt =====
-- The theorems on summaries at concrete states.
use sponge_fa.Prelude.{◌⊎◌, ◌≡◌, refl, true, false, [], ◌∷◌, some}
use sponge_fa.ByteStream as Stream
use sponge_fa.TcpConfig.{default_config}
use sponge_fa.TcpHeader.{default_header}
use sponge_fa.TcpSegment.{TcpSegment, default_segment}
use sponge_fa.TcpSender as Sender
use sponge_fa.TcpSender.{TcpSender}
use sponge_fa.TcpConnection.{segment_received, new, active, rst_header}
use sponge_fa.TcpConnection.Reset.{BothEnded}
use sponge_fa.TcpState.Summary.{rst-reset}
use sponge_fa.TcpState.{state, SenderSummary, State, of_official, sender_summary}

-- The SYN is acknowledged, the stream is empty and ended, and the FIN is in flight.
abbrev fin_three : TcpSegment
fin_three = record default_segment { header = record default_header { seqno = 3; fin = true } }

abbrev finishing : TcpSender
finishing = record (Sender.new 8 1000 (some 2) 0) {
  segments_outstanding =
      record { abs_seqno = 1; window_zero_flag = false; segment = fin_three } ∷ [];
  stream = record (Stream.new 8) { end_input = true };
  next_seqno = 2;
  last_ackno = 1;
  fin_sent = true;
}

finishing_runs : sender_summary finishing ≡ SenderSummary.fin_sent
unfolding sender_summary Stream.new Sender.new
finishing_runs = refl

abbrev reset : TcpSegment
reset = record default_segment { header = rst_header }

fresh_active : active (new default_config 9) ≡ true
unfolding active new
fresh_active = refl

rst-reset_example :
    BothEnded (new default_config 9)
    ⊎ (state (segment_received (new default_config 9) reset) ≡ of_official State.reset)
rst-reset_example = rst-reset (new default_config 9) reset fresh_active refl
