-- ===== src/TcpReceiver/Invariant.antt =====
-- What the receiver's methods keep, and what it acknowledges.
use sponge_fa.Prelude.{
  inr, inl, Bool-cases, ℕ, ◌+◌, ◌-◌, ◌^◌, ◌<◌, ◌≡◌, refl, ap, true, false, none, some, length,
  arith, u32, if◌then◌else◌,
}
use sponge_fa.WrappingInt32.{wrap}
use sponge_fa.WrappingInt32.Nearest.{distance}
use sponge_fa.ByteStream as Stream
use sponge_fa.ByteStream.Invariant as StreamInvariant
use sponge_fa.StreamReassembler as Reassembler
use sponge_fa.StreamReassembler.Contract as Contract
use sponge_fa.StreamReassembler.Contract.{Pushed}
use sponge_fa.StreamReassembler.Push.{push_substring-Pushed}
use sponge_fa.TcpSegment.{TcpSegment}
use sponge_fa.TcpReceiver.{TcpReceiver, new, segment_received, ackno, window_size, stream_out}
use sponge_fa.TcpReceiver.Placement.{segment_received-placed}

pub record IsValid (r : TcpReceiver) : Type 0 where
  pub reassembler : Contract.IsValid r.reassembler
  pub initial : r.isn < 2 ^ 32
  pub silent : r.syn_recived ≡ false → (r.last_stream_no ≡ 0) × (r.reassembler.next_index ≡ 0)

pub new-IsValid : (capacity : ℕ) → capacity < 2 ^ 64 → IsValid (new capacity)
unfolding new Reassembler.new
new-IsValid capacity h = record {
  reassembler = Contract.new-IsValid capacity h;
  initial = omega arith;
  silent = λ e. (refl, refl);
}

-- One for the SYN, and one for the FIN once the stream has ended.
abbrev pub ended_count : TcpReceiver → ℕ
ended_count r = if (stream_out r).end_input then 1 else 0

-- The absolute number of the first byte that the receiver still needs.
abbrev pub absolute_ackno : TcpReceiver → ℕ
absolute_ackno r = r.reassembler.next_index + 1 + ended_count r

-- Until the SYN has arrived there is no acknowledgment; from then on it is the number of the index that
-- the reassembler waits for, counted from the SYN, or the one behind the FIN once the stream has ended;
-- and the advertised window is what the output can still take.
pub ackno_lem :
    (r : TcpReceiver)
    → IsValid r
    → r.reassembler.next_index + 2 < 2 ^ 64
    → (ackno r ≡ (if r.syn_recived then some (wrap (absolute_ackno r) r.isn) else none))
      × (window_size r ≡ (stream_out r).capacity - length (stream_out r).buffer)
unfolding ackno window_size wrap Stream.input_ended
ackno_lem r v small =
    let isn : u32 r.isn ≡ r.isn = omega (arith, v.initial) in
    let window = StreamInvariant.remaining_capacity_lem v.reassembler.stream in
    elim (Bool-cases r.syn_recived) [
      | inl on ↦ rw on (ap some (ground (arith, isn)), window)
      | inr off ↦ rw off (refl, window)
    ]

-- A segment at its place: what the receiver's contract adds to the reassembler's.
abbrev pub Received : TcpReceiver → TcpSegment → ℕ → TcpReceiver → Type 0
Received r seg index r' =
    IsValid r'
    × Pushed r.reassembler seg.payload index r'.reassembler
    × (r'.last_stream_no ≡ index)
    × (r'.isn ≡ r.isn)
    × (r'.syn_recived ≡ r.syn_recived)

-- A valid receiver that knows the SYN and whose stream has not ended puts a segment that is within
-- 2 ^ 31 of the last one at its place in the stream, with the reassembler's contract, and stays
-- valid.
pub segment_received-Received :
    (r : TcpReceiver) (seg : TcpSegment) (m : ℕ)
    → IsValid r
    → r.syn_recived ≡ true
    → (stream_out r).end_input ≡ false
    → r.last_stream_no < 2 ^ 64 - 2 ^ 32
    → r.reassembler.next_index + Contract.room r.reassembler < 2 ^ 64
    → 0 < m
    → m + length seg.payload < 2 ^ 64
    → distance m r.last_stream_no < 2 ^ 31
    → seg.header.seqno ≡ wrap m r.isn
    → Received r seg (m - 1) (segment_received r seg)
segment_received-Received r seg m v on open_ low small pos fits near number =
    let e = segment_received-placed r seg m on v.initial low pos (omega arith) near number in
    let p =
      push_substring-Pushed r.reassembler seg.payload (m - 1) (omega arith) small v.reassembler
        open_ seg.header.fin in
    rw e (
      record { reassembler = p.valid; initial = v.initial; silent = λ off. absurd cc },
      p,
      refl,
      refl,
      refl,
    )
