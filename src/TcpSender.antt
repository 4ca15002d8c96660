-- ===== src/TcpSender.antt =====
-- libsponge/tcp_sender.hh and tcp_sender.cc: the sending half of a connection. A method returns the
-- new sender. The random initial number is an argument of the constructor.
pub mod Segments
pub mod Rounds
pub mod Fill
pub mod Loop
pub mod Invariant
pub mod Window
mod Tests
pub mod Removal
pub mod Ack
pub mod Timer
pub mod Pieces
pub mod Streams
pub mod Steps
pub mod History
use sponge_fa.Prelude.{
  ℕ, zero, suc, ◌*◌, min, max, Bool, true, false, not, ◌&&◌, ◌||◌, List, [], ◌∷◌, ◌++◌, Option,
  none, some, length, ltb, leb, ◌==◌, if◌then◌else◌, u32, add32, add64, sub64,
}
use sponge_fa.WrappingInt32.{WrappingInt32, wrap, unwrap}
use sponge_fa.ByteStream as Stream
use sponge_fa.ByteStream.{ByteStream}
use sponge_fa.TcpConfig.{max_payload_size}
use sponge_fa.TcpHeader.{TcpHeader, default_header}
use sponge_fa.TcpSegment.{TcpSegment, default_segment, length_in_sequence_space}

-- An element of `_segments_outstanding`: the absolute number, the zero-window flag, the segment.
pub record Outstanding : Type 0 where
  pub abs_seqno : ℕ
  pub window_zero_flag : Bool
  pub segment : TcpSegment

-- Queues are lists with their front first. The `unsigned int` fields are below 2 ^ 32.
pub record TcpSender : Type 0 where
  pub isn : WrappingInt32
  pub segments_out : List TcpSegment
  pub segments_outstanding : List Outstanding
  pub init_timer_backup : ℕ
  pub initial_retransmission_timeout : ℕ
  pub retransmission_timeout : ℕ
  pub timer_enable : Bool
  pub consecutive_retransmissions_count : ℕ
  pub stream : ByteStream
  pub next_seqno : ℕ
  pub last_ackno : ℕ
  pub window_size : ℕ
  pub window_zero_valid : Bool
  pub fin_sent : Bool

abbrev or_random : Option WrappingInt32 → WrappingInt32 → WrappingInt32
or_random none random = random
or_random (some isn) random = isn

unfoldable pub new : ℕ → ℕ → Option WrappingInt32 → WrappingInt32 → TcpSender
unfolding Stream.new
new capacity retx_timeout fixed_isn random = record {
  isn = or_random fixed_isn random;
  segments_out = [];
  segments_outstanding = [];
  init_timer_backup = retx_timeout;
  initial_retransmission_timeout = retx_timeout;
  retransmission_timeout = 0;
  timer_enable = false;
  consecutive_retransmissions_count = 0;
  stream = Stream.new capacity;
  next_seqno = 0;
  last_ackno = 0;
  window_size = 1;
  window_zero_valid = false;
  fin_sent = false;
}

unfoldable pub sum_in_flight : ℕ → List Outstanding → ℕ
unfolding length_in_sequence_space
sum_in_flight total [] = total
sum_in_flight total (o ∷ rest) =
    sum_in_flight (add64 total (length_in_sequence_space o.segment)) rest

unfoldable pub bytes_in_flight : TcpSender → ℕ
unfolding sum_in_flight
bytes_in_flight s = sum_in_flight 0 s.segments_outstanding

-- `next_seqno()`, the relative number of the next byte.
unfoldable pub relative_next_seqno : TcpSender → WrappingInt32
unfolding wrap
relative_next_seqno s = wrap s.next_seqno s.isn

-- The segment with the number that the sender gives it.
unfoldable pub numbered : TcpSender → TcpSegment → TcpSegment
unfolding relative_next_seqno
numbered s seg = record seg { header = record (seg.header) { seqno = relative_next_seqno s } }

unfoldable pub send_segment : TcpSender → TcpSegment → Bool → TcpSender
unfolding numbered length_in_sequence_space
send_segment s seg window_zero_flag =
    let seg' = numbered s seg in
    let len = length_in_sequence_space seg' in
    let sent = record s {
      next_seqno = add64 s.next_seqno len;
      segments_out = s.segments_out ++ (seg' ∷ []);
    } in
    if len == 0 then sent else record sent {
      timer_enable = true;
      segments_outstanding =
          s.segments_outstanding
          ++ (record {
            abs_seqno = s.next_seqno;
            window_zero_flag = window_zero_flag;
            segment = seg';
          }
              ∷ []);
    }

abbrev pub syn_segment : TcpSegment
syn_segment = record default_segment { header = record default_header { syn = true } }

-- One round of the loop of `fill_window` up to its `break`: the sender that has read the payload
-- (and perhaps decided on the FIN), the segment, and the bytes that may still be sent.
pub record Round : Type 0 where
  pub sender : TcpSender
  pub segment : TcpSegment
  pub num_bytes_to_send : ℕ

unfoldable pub fill_round : TcpSender → ℕ → Round
unfolding Stream.read Stream.eof
fill_round s num_bytes_to_send =
    let (stream', payload) = Stream.read s.stream (min num_bytes_to_send max_payload_size) in
    let left = sub64 num_bytes_to_send (length payload) in
    let fin = Stream.eof stream' && (ltb 0 left && not s.fin_sent) in
    record {
      sender = record s { stream = stream'; fin_sent = s.fin_sent || fin };
      segment = record { header = record default_header { fin = fin }; payload = payload };
      num_bytes_to_send = if fin then sub64 left 1 else left;
    }

-- The loop. Each round that does not end it spends at least one byte, so as many rounds as there
-- are bytes to send are enough (`fill_loop-Filled`).
unfoldable pub fill_loop : ℕ → TcpSender → ℕ → Bool → TcpSender
unfolding fill_round send_segment
fill_loop zero s num_bytes_to_send window_zero_flag = s
fill_loop (suc fuel) s num_bytes_to_send window_zero_flag =
    let round = fill_round s num_bytes_to_send in
    let later =
      fill_loop fuel (send_segment round.sender round.segment window_zero_flag)
        round.num_bytes_to_send window_zero_flag in
    if num_bytes_to_send == 0
    then s
    else (if length_in_sequence_space round.segment == 0 then round.sender else later)

-- What the receiver's window leaves to send.
unfoldable pub window_left : TcpSender → ℕ
window_left s =
    if leb s.next_seqno (add64 s.last_ackno s.window_size)
    then sub64 (add64 s.last_ackno s.window_size) s.next_seqno
    else 0

-- `fill_window` behind its SYN.
unfoldable pub fill_open_window : TcpSender → TcpSender
unfolding window_left fill_loop
fill_open_window s =
    let num = window_left s in
    let probe = add64 num 1 in
    if s.window_size == 0 && s.window_zero_valid
    then fill_loop probe (record s { window_zero_valid = false }) probe true
    else fill_loop num s num false

unfoldable pub fill_window : TcpSender → TcpSender
unfolding fill_open_window send_segment
fill_window s =
    if s.fin_sent
    then s
    else (if s.next_seqno == 0
        then fill_open_window (send_segment s syn_segment false)
        else fill_open_window s)

-- The loop of `remove_outstanding_segments`, with whether it has popped a segment.
unfoldable pub drop_acked : ℕ → Bool → List Outstanding → List Outstanding × Bool
unfolding length_in_sequence_space
drop_acked last_ackno popped [] = ([], popped)
drop_acked last_ackno popped (o ∷ rest) =
    let later = drop_acked last_ackno true rest in
    if leb (add64 o.abs_seqno (length_in_sequence_space o.segment)) last_ackno
    then later
    else (o ∷ rest, popped)

abbrev pub is_empty {ℓ} : {A : Type ℓ} → List A → Bool
is_empty [] = true
is_empty (x ∷ xs) = false

unfoldable pub remove_outstanding_segments : TcpSender → TcpSender
unfolding drop_acked
remove_outstanding_segments s =
    let (rest, segments_poped_out) = drop_acked s.last_ackno false s.segments_outstanding in
    if segments_poped_out
    then record s {
      segments_outstanding = rest;
      retransmission_timeout = 0;
      initial_retransmission_timeout = s.init_timer_backup;
      timer_enable = not (is_empty rest);
      consecutive_retransmissions_count = 0;
    }
    else record s { segments_outstanding = rest }

-- The part of `ack_received` that records an acknowledgment which is not impossible.
unfoldable pub note_ack : TcpSender → ℕ → ℕ → TcpSender
note_ack s new_ackno new_window_size =
    let last = max s.last_ackno new_ackno in
    if ltb last (add64 new_ackno new_window_size)
    then record s { last_ackno = last; window_size = sub64 (add64 new_ackno new_window_size) last }
    else record s { last_ackno = last; window_size = 0; window_zero_valid = true }

unfoldable pub ack_received : TcpSender → WrappingInt32 → ℕ → TcpSender
unfolding unwrap note_ack remove_outstanding_segments fill_window
ack_received s ackno window_size =
    let new_ackno = unwrap ackno s.isn s.last_ackno in
    if s.next_seqno == 0
    then s
    else (if ltb s.next_seqno new_ackno
        then s
        else fill_window (remove_outstanding_segments (note_ack s new_ackno window_size)))

unfoldable pub timeout_retransmission : TcpSender → TcpSender
timeout_retransmission s = elim s.segments_outstanding [
  | [] ↦ record s {
    timer_enable = false;
    retransmission_timeout = 0;
    initial_retransmission_timeout = s.init_timer_backup;
    consecutive_retransmissions_count = 0;
  }
  | o ∷ rest ↦
      (if o.window_zero_flag
        then record s { segments_out = s.segments_out ++ (o.segment ∷ []) }
        else record s {
          segments_out = s.segments_out ++ (o.segment ∷ []);
          initial_retransmission_timeout = u32 (s.initial_retransmission_timeout * 2);
          consecutive_retransmissions_count = add32 s.consecutive_retransmissions_count 1;
        })
]

-- `_retransmission_timeout += ms` adds as `size_t` and is cut to `unsigned int`.
unfoldable pub tick : TcpSender → ℕ → TcpSender
unfolding timeout_retransmission
tick s ms_since_last_tick =
    let s' = record s {
      retransmission_timeout = u32 (add64 s.retransmission_timeout ms_since_last_tick);
    } in
    if s.timer_enable
    then (if leb s'.initial_retransmission_timeout s'.retransmission_timeout
        then record (timeout_retransmission s') { timer_enable = true; retransmission_timeout = 0 }
        else s')
    else s

unfoldable pub send_empty_segment : TcpSender → TcpSender
unfolding send_segment
send_empty_segment s = send_segment s default_segment false

unfoldable pub send_empty_segment_with_this_header : TcpSender → TcpHeader → TcpSender
unfolding send_segment
send_empty_segment_with_this_header s header =
    send_segment s (record default_segment { header = header }) false
