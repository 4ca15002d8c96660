-- ===== src/TcpConnection.antt =====
-- libsponge/tcp_connection.hh and tcp_connection.cc: one endpoint, a receiver and a sender that
-- inform each other. A method returns the new connection, beside its result where it has one.
pub mod Queue
pub mod Reset
pub mod Answer
pub mod Outbound
mod Tests
use sponge_fa.Prelude.{
  ℕ, ◌*◌, ◌-◌, ◌^◌, min, Bool, true, false, not, ◌&&◌, ◌||◌, List, [], ◌∷◌, ◌++◌, Option, none,
  some, ltb, ◌==◌, if◌then◌else◌, u16, add64,
}
use sponge_fa.WrappingInt32.{WrappingInt32, minus, equal}
use sponge_fa.ByteStream as Stream
use sponge_fa.ByteStream.{ByteStream}
use sponge_fa.TcpConfig.{TcpConfig, max_retx_attempts}
use sponge_fa.TcpHeader.{TcpHeader, default_header}
use sponge_fa.TcpSegment.{TcpSegment, length_in_sequence_space}
use sponge_fa.TcpReceiver as Receiver
use sponge_fa.TcpReceiver.{TcpReceiver}
use sponge_fa.TcpSender as Sender
use sponge_fa.TcpSender.{TcpSender, is_empty}

pub record TcpConnection : Type 0 where
  pub cfg : TcpConfig
  pub receiver : TcpReceiver
  pub sender : TcpSender
  pub segments_out : List TcpSegment
  pub linger_after_streams_finish : Bool
  pub time_since_last_segment_received : ℕ

-- `random` is what `random_device` gives the sender for its initial number.
unfoldable pub new : TcpConfig → WrappingInt32 → TcpConnection
unfolding Receiver.new Sender.new
new cfg random = record {
  cfg = cfg;
  receiver = Receiver.new cfg.recv_capacity;
  sender = Sender.new cfg.send_capacity cfg.rt_timeout cfg.fixed_isn random;
  segments_out = [];
  linger_after_streams_finish = true;
  time_since_last_segment_received = 0;
}

unfoldable pub remaining_outbound_capacity : TcpConnection → ℕ
unfolding Stream.remaining_capacity
remaining_outbound_capacity c = Stream.remaining_capacity c.sender.stream

-- `stream_in()` and `stream_out()` changed in place.
abbrev pub with_outbound : TcpConnection → ByteStream → TcpConnection
with_outbound c s = record c { sender = record (c.sender) { stream = s } }

abbrev pub inbound : TcpConnection → ByteStream
inbound c = c.receiver.reassembler.output

abbrev pub with_inbound : TcpConnection → ByteStream → TcpConnection
with_inbound c s = record c {
  receiver = record (c.receiver) { reassembler = record (c.receiver.reassembler) { output = s } };
}

unfoldable pub active : TcpConnection → Bool
unfolding Stream.eof Sender.bytes_in_flight
active c =
    let outbound = c.sender.stream in
    if Stream.eof outbound && Stream.eof (inbound c)
    then (if Sender.bytes_in_flight c.sender == 0
        then (if c.linger_after_streams_finish
            then ltb c.time_since_last_segment_received (10 * c.cfg.rt_timeout)
            else false)
        else true)
    else not (outbound.error || (inbound c).error)

-- The acknowledgment and the window that `pop_and_send_segments` adds to a segment. A window of
-- zero is the default, and is taken for one that is not set yet.
unfoldable pub with_ackno : Option WrappingInt32 → TcpHeader → TcpHeader
with_ackno none h = h
with_ackno (some a) h = if h.ack then h else record h { ackno = a; ack = true }

unfoldable pub with_window : ℕ → TcpHeader → TcpHeader
with_window win_size h = if h.win == 0 then record h { win = u16 win_size } else h

unfoldable pub stamp : Option WrappingInt32 → ℕ → TcpSegment → TcpSegment
unfolding with_ackno with_window
stamp ackno win_size seg = record seg {
  header = with_window win_size (with_ackno ackno seg.header);
}

-- The loop: the segments move from the sender's queue to the connection's, in order.
unfoldable pub pop_loop :
    Option WrappingInt32 → ℕ → List TcpSegment → List TcpSegment → List TcpSegment
unfolding stamp
pop_loop ackno win_size [] out = out
pop_loop ackno win_size (seg ∷ rest) out =
    pop_loop ackno win_size rest (out ++ (stamp ackno win_size seg ∷ []))

unfoldable pub pop_and_send_segments : TcpConnection → TcpConnection
unfolding pop_loop Receiver.window_size Receiver.ackno
pop_and_send_segments c =
    let win_size = min (Receiver.window_size c.receiver) (2 ^ 16 - 1) in
    record c {
      sender = record (c.sender) { segments_out = [] };
      segments_out =
          pop_loop (Receiver.ackno c.receiver) win_size c.sender.segments_out c.segments_out;
    }

-- Both streams in the error state.
unfoldable pub set_errors : TcpConnection → TcpConnection
unfolding Stream.set_error
set_errors c =
    let c' = with_outbound c (Stream.set_error c.sender.stream) in
    with_inbound c' (Stream.set_error (inbound c'))

abbrev pub rst_header : TcpHeader
rst_header = record default_header { rst = true }

unfoldable pub positive_unclean_shutdown : TcpConnection → TcpConnection
unfolding Sender.send_empty_segment_with_this_header pop_and_send_segments set_errors
positive_unclean_shutdown c =
    let emptied = record (c.sender) { segments_out = [] } in
    set_errors (
      pop_and_send_segments
        (record c { sender = Sender.send_empty_segment_with_this_header emptied rst_header }))

-- Whether a segment is a keep-alive: empty, and one before the acknowledged number.
unfoldable pub is_keep_alive : Option WrappingInt32 → TcpSegment → Bool
unfolding length_in_sequence_space minus equal
is_keep_alive none seg = false
is_keep_alive (some a) seg = length_in_sequence_space seg == 0 && equal seg.header.seqno (minus a 1)

-- The sender's answer to a segment, behind the acknowledgment.
unfoldable pub reply : TcpSegment → Option WrappingInt32 → TcpSender → TcpSender
unfolding is_keep_alive Sender.send_empty_segment Sender.fill_window length_in_sequence_space
reply seg ackno s =
    let s₁ = if is_keep_alive ackno seg then Sender.send_empty_segment s else s in
    let s₂ = Sender.fill_window s₁ in
    if length_in_sequence_space seg == 0
    then s₁
    else (if is_empty s₂.segments_out then Sender.send_empty_segment s₂ else s₂)

-- `segment_received` for a segment with no RST, while the connection is active.
unfoldable pub take_segment : TcpConnection → TcpSegment → TcpConnection
unfolding Stream.input_ended Receiver.segment_received Sender.ack_received reply
    pop_and_send_segments Receiver.ackno
take_segment c seg =
    let linger =
      if seg.header.fin && not (Stream.input_ended c.sender.stream)
      then false
      else c.linger_after_streams_finish in
    let receiver = Receiver.segment_received c.receiver seg in
    let acked =
      if seg.header.ack
      then Sender.ack_received c.sender seg.header.ackno seg.header.win
      else c.sender in
    pop_and_send_segments (record c {
      linger_after_streams_finish = linger;
      receiver = receiver;
      sender = reply seg (Receiver.ackno receiver) acked;
    })

unfoldable pub segment_received : TcpConnection → TcpSegment → TcpConnection
unfolding active set_errors take_segment
segment_received c seg =
    let c' = record c { time_since_last_segment_received = 0 } in
    if active c then (if seg.header.rst then set_errors c' else take_segment c' seg) else c

unfoldable pub write : TcpConnection → List ℕ → TcpConnection × ℕ
unfolding Stream.write Sender.fill_window pop_and_send_segments
write c bytes =
    let (stream', total_write_length) = Stream.write c.sender.stream bytes in
    let c' = with_outbound c stream' in
    (
      pop_and_send_segments (record c' { sender = Sender.fill_window c'.sender }),
      total_write_length,
    )

unfoldable pub tick : TcpConnection → ℕ → TcpConnection
unfolding Sender.tick positive_unclean_shutdown pop_and_send_segments
tick c ms_since_last_tick =
    let c₁ = record c { sender = Sender.tick c.sender ms_since_last_tick } in
    let c₂ =
      if ltb max_retx_attempts c₁.sender.consecutive_retransmissions_count
      then positive_unclean_shutdown c₁
      else c₁ in
    let c₃ = pop_and_send_segments c₂ in
    record c₃ {
      time_since_last_segment_received =
          add64 c₃.time_since_last_segment_received ms_since_last_tick;
    }

unfoldable pub end_input_stream : TcpConnection → TcpConnection
unfolding Stream.end_input Sender.fill_window pop_and_send_segments
end_input_stream c =
    let c' = with_outbound c (Stream.end_input c.sender.stream) in
    pop_and_send_segments (record c' { sender = Sender.fill_window c'.sender })

unfoldable pub connect : TcpConnection → TcpConnection
unfolding Sender.fill_window pop_and_send_segments
connect c = pop_and_send_segments (record c { sender = Sender.fill_window c.sender })

-- The destructor.
unfoldable pub destroy : TcpConnection → TcpConnection
unfolding active positive_unclean_shutdown
destroy c = if active c then positive_unclean_shutdown c else c
