-- ===== src/TcpSender/Tests.antt =====
-- Runs of a small sender, and its theorems at concrete states.
use sponge_fa.Prelude.{◌+◌, ◌≤◌, ◌⊎◌, ◌<◌, ◌≡◌, refl, true, false, [], ◌∷◌, arith, some}
use sponge_fa.WrappingInt32.{unwrap}
use sponge_fa.ByteStream as Stream
use sponge_fa.ByteStream.{ByteStream}
use sponge_fa.TcpHeader.{default_header}
use sponge_fa.TcpSegment.{TcpSegment, length_in_sequence_space}
use sponge_fa.WrappingInt32.{wrap}
use sponge_fa.TcpSender.{bytes_in_flight, TcpSender, new, fill_window, ack_received, tick}
use sponge_fa.TcpSender.Fill.{Filled}
use sponge_fa.TcpSender.Invariant.{IsValid, bytes_in_flight_lem}
use sponge_fa.TcpSender.Window.{opened, budget, probing, fill_window-Filled, probe_overrun}
use sponge_fa.TcpSender.Ack.{AckTaken, ack_received-AckTaken}
use sponge_fa.TcpSender.Timer.{expire, copies, expire-backoff}

abbrev syn_of_seven : TcpSegment
syn_of_seven = record { header = record default_header { seqno = 7; syn = true }; payload = [] }

-- "abc" is written, and the SYN is in flight.
abbrev syn_sent : TcpSender
syn_sent = record {
  isn = 7;
  segments_out = syn_of_seven ∷ [];
  segments_outstanding =
      record { abs_seqno = 0; window_zero_flag = false; segment = syn_of_seven } ∷ [];
  init_timer_backup = 1000;
  initial_retransmission_timeout = 1000;
  retransmission_timeout = 0;
  timer_enable = true;
  consecutive_retransmissions_count = 0;
  stream = record {
    capacity = 10;
    buffer = 97 ∷ 98 ∷ 99 ∷ [];
    error = false;
    end_input = false;
    bytes_read = 0;
    bytes_written = 3;
  };
  next_seqno = 1;
  last_ackno = 0;
  window_size = 1;
  window_zero_valid = false;
  fin_sent = false;
}

opens :
    fill_window (record (new 10 1000 (some 7) 0) {
      stream = (Stream.write (Stream.new 10) (97 ∷ 98 ∷ 99 ∷ [])).0;
    })
    ≡ syn_sent
unfolding fill_window new Stream.write Stream.new
opens = refl

-- A window of two lets "ab" out.
sends_two :
    ((ack_received syn_sent 8 2).next_seqno ≡ 3)
    × ((ack_received syn_sent 8 2).stream.buffer ≡ 99 ∷ [])
unfolding ack_received
sends_two = (refl, refl)

impossible_ignored : ack_received syn_sent 9 2 ≡ syn_sent
unfolding ack_received
impossible_ignored = refl

resends_syn : (tick syn_sent 1000).segments_out ≡ syn_of_seven ∷ syn_of_seven ∷ []
unfolding tick
resends_syn = refl

syn_sent-IsValid : IsValid syn_sent
unfolding length_in_sequence_space wrap
syn_sent-IsValid = record {
  stream = omega arith;
  oldest = 0;
  flight = (refl, refl, omega arith, omega arith, refl);
  acked = omega arith;
  window = omega arith;
  opening = λ e. absurd (omega arith);
}

fill_window-Filled_example :
    Filled
      (opened syn_sent)
      (budget (opened syn_sent))
      (probing (opened syn_sent))
      (fill_window syn_sent)
fill_window-Filled_example = fill_window-Filled syn_sent syn_sent-IsValid (omega arith) refl

bytes_in_flight_example : bytes_in_flight syn_sent + syn_sent-IsValid.oldest ≡ 1
bytes_in_flight_example = bytes_in_flight_lem syn_sent syn_sent-IsValid (omega arith)

ack_received-AckTaken_example :
    IsValid (ack_received syn_sent 8 2)
    × (((1 < unwrap 8 7 0) × (ack_received syn_sent 8 2 ≡ syn_sent))
        ⊎ ((unwrap 8 7 0 ≤ 1)
            × AckTaken syn_sent syn_sent-IsValid.oldest
                (unwrap 8 7 0)
                2
                (ack_received syn_sent 8 2)))
ack_received-AckTaken_example =
    ack_received-AckTaken syn_sent syn_sent-IsValid 8 2 (omega arith) (omega arith) (omega arith)

expire-backoff_example : expire 3 syn_sent ≡ record syn_sent {
  segments_out = syn_of_seven ∷ copies 3 syn_of_seven;
  initial_retransmission_timeout = 8000;
  consecutive_retransmissions_count = 3;
}
expire-backoff_example =
    expire-backoff 3 syn_sent
      (record { abs_seqno = 0; window_zero_flag = false; segment = syn_of_seven }) [] refl refl refl
      refl (omega arith) (omega arith)

-- The SYN is not acknowledged yet when a window of zero arrives.
abbrev closed_early : TcpSender
closed_early = record syn_sent { window_size = 0; window_zero_valid = true }

closed_early-IsValid : IsValid closed_early
unfolding length_in_sequence_space wrap
closed_early-IsValid = record {
  stream = omega arith;
  oldest = 0;
  flight = (refl, refl, omega arith, omega arith, refl);
  acked = omega arith;
  window = omega arith;
  opening = λ e. absurd (omega arith);
}

closes_early : (ack_received syn_sent 7 0).next_seqno ≡ 2
unfolding ack_received
closes_early = refl

probe_overrun_example :
    (closed_early.next_seqno < (fill_window closed_early).next_seqno)
    × (1 < (fill_window closed_early).next_seqno)
probe_overrun_example =
    probe_overrun closed_early closed_early-IsValid (omega arith) refl refl refl (omega arith)
      (omega arith)
