-- ===== src/TcpReceiver.antt =====
-- libsponge/tcp_receiver.hh and tcp_receiver.cc: the receiving half of a connection.
pub mod Placement
pub mod Invariant
pub mod Delivery
pub mod Acknowledged
mod Tests
use sponge_fa.Prelude.{
  ℕ, ◌+◌, ◌-◌, ◌^◌, Bool, true, false, Option, none, some, if◌then◌else◌, u32, add64,
}
use sponge_fa.WrappingInt32.{WrappingInt32, wrap, unwrap}
use sponge_fa.ByteStream as Stream
use sponge_fa.ByteStream.{ByteStream}
use sponge_fa.StreamReassembler as Reassembler
use sponge_fa.StreamReassembler.{StreamReassembler}
use sponge_fa.TcpSegment.{TcpSegment}

-- `_isn` and `_last_stream_no` are `uint64_t`.
pub record TcpReceiver : Type 0 where
  pub reassembler : StreamReassembler
  pub syn_recived : Bool
  pub fin_recived : Bool
  pub isn : ℕ
  pub last_stream_no : ℕ
  pub capacity : ℕ

unfoldable pub new : ℕ → TcpReceiver
unfolding Reassembler.new
new capacity = record {
  reassembler = Reassembler.new capacity;
  syn_recived = false;
  fin_recived = false;
  isn = 0;
  last_stream_no = 0;
  capacity = capacity;
}

abbrev pub stream_out : TcpReceiver → ByteStream
stream_out r = r.reassembler.output

-- `-1` as the `uint64_t` to which `int offset_stream_no` is converted in the sum.
abbrev pub minus_one : ℕ
minus_one = 2 ^ 64 - 1

-- `segment_received` once the initial number is known.
unfoldable pub place_segment : TcpReceiver → TcpSegment → ℕ → TcpReceiver
unfolding unwrap Reassembler.push_substring
place_segment r seg offset_stream_no =
    let abs_seqno = unwrap seg.header.seqno (u32 r.isn) r.last_stream_no in
    let stream_no = add64 abs_seqno offset_stream_no in
    record r {
      last_stream_no = stream_no;
      reassembler = Reassembler.push_substring r.reassembler seg.payload stream_no seg.header.fin;
    }

unfoldable pub segment_received : TcpReceiver → TcpSegment → TcpReceiver
unfolding place_segment
segment_received r seg =
    if r.syn_recived
    then place_segment r seg minus_one
    else (if seg.header.syn
        then place_segment (record r { syn_recived = true; isn = seg.header.seqno }) seg 0
        else r)

unfoldable pub ackno : TcpReceiver → Option WrappingInt32
unfolding Stream.input_ended wrap
ackno r =
    let stream_no = r.reassembler.next_index in
    let offset_ackno =
      (if r.syn_recived then 1 else 0) + (if Stream.input_ended (stream_out r) then 1 else 0) in
    if r.syn_recived then some (wrap (add64 stream_no offset_ackno) (u32 r.isn)) else none

unfoldable pub window_size : TcpReceiver → ℕ
unfolding Stream.remaining_capacity
window_size r = Stream.remaining_capacity (stream_out r)

unfoldable pub unassembled_bytes : TcpReceiver → ℕ
unfolding Reassembler.unassembled_bytes
unassembled_bytes r = Reassembler.unassembled_bytes r.reassembler
