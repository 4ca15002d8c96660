-- ===== src/TcpReceiver/Tests.antt =====
-- Runs of a small receiver, and its theorems at concrete segments.
use sponge_fa.Prelude.{
  inl, ◌⊎◌, ◌+◌, get_elem?, ◌-◌, ◌<◌, ◌^◌, zero, suc, ℕ, ◌≡◌, refl, true, false, List, [], ◌∷◌,
  arith, some,
}
use sponge_fa.WrappingInt32.{wrap}
use sponge_fa.StreamReassembler as Reassembler
use sponge_fa.StreamReassembler.Chain
use sponge_fa.StreamReassembler.Carried.{Genuine, Carries}
use sponge_fa.TcpHeader.{default_header}
use sponge_fa.TcpSegment.{TcpSegment}
use sponge_fa.TcpReceiver.{TcpReceiver, new, segment_received, ackno, window_size, stream_out}
use sponge_fa.TcpReceiver.Placement.{placed, late_syn_derails}
use sponge_fa.TcpReceiver.Invariant.{IsValid}
use sponge_fa.TcpReceiver.Acknowledged.{Acknowledges, receive-Acknowledges}
use sponge_fa.TcpReceiver.Delivery.{AllFromPeer, receive, receive-Carries, segments}

abbrev syn_segment : TcpSegment
syn_segment = record { header = record default_header { seqno = 5; syn = true }; payload = [] }

abbrev data_segment : ℕ → List ℕ → TcpSegment
data_segment seqno payload = record {
  header = record default_header { seqno = seqno };
  payload = payload;
}

-- The SYN and "ab" have arrived, "ab" in a segment of its own.
abbrev listening : TcpReceiver
listening = record {
  reassembler = record {
    segments = [];
    eof = false;
    eof_index = 0;
    capacity_for_reassembler = 4;
    num_bytes_free = 4;
    next_index = 2;
    output = record {
      capacity = 4;
      buffer = 97 ∷ 98 ∷ [];
      error = false;
      end_input = false;
      bytes_read = 0;
      bytes_written = 2;
    };
    capacity = 4;
  };
  syn_recived = true;
  fin_recived = false;
  isn = 5;
  last_stream_no = 1;
  capacity = 4;
}

listening-IsValid : IsValid listening
unfolding Reassembler.Chain.held
listening-IsValid = record {
  reassembler = record { stream = omega arith; chain = omega arith; settled = refl };
  initial = omega arith;
  silent = λ e. absurd cc;
}

nothing_before_syn :
    (segment_received (new 4) (data_segment 6 (97 ∷ []))).reassembler.output.buffer ≡ []
unfolding segment_received new Reassembler.new
nothing_before_syn = refl

ackno_runs :
    let r =
      receive (new 4) (syn_segment ∷ data_segment 7 (98 ∷ []) ∷ data_segment 6 (97 ∷ []) ∷ []) in
    (ackno r ≡ some 8) × (window_size r ≡ 2)
unfolding receive ackno new window_size Reassembler.new
ackno_runs = (refl, refl)

late_syn_derails_example :
    let r' = segment_received listening syn_segment in
    (r'.last_stream_no ≡ 2 ^ 32 - 1)
    × (segment_received r' (data_segment 8 (99 ∷ []))
        ≡ placed r' (data_segment 8 (99 ∷ [])) (2 ^ 32 + 2))
unfolding wrap
late_syn_derails_example =
    late_syn_derails listening syn_segment (data_segment 8 (99 ∷ [])) 3 refl (omega arith)
      (omega arith) (omega arith) refl (omega arith) (omega arith) refl

-- The byte is lost: nothing of it reaches the output.
late_syn_loses :
    (segment_received
      (segment_received listening syn_segment)
      (data_segment 8 (99 ∷ []))).reassembler.next_index
    ≡ 2
unfolding segment_received
late_syn_loses = refl

same_b : (j : ℕ) → j < 1 → get_elem? {A = ℕ} (98 ∷ []) j ≡ get_elem? {A = ℕ} (97 ∷ 98 ∷ []) (1 + j)
same_b zero h = refl
same_b (suc j) h = absurd (omega arith)

same_a : (j : ℕ) → j < 1 → get_elem? {A = ℕ} (97 ∷ []) j ≡ get_elem? {A = ℕ} (97 ∷ 98 ∷ []) (0 + j)
same_a zero h = refl
same_a (suc j) h = absurd (omega arith)

-- "b" and then "a".
abbrev swapped : List (ℕ × TcpSegment)
swapped = (2, data_segment 7 (98 ∷ [])) ∷ (1, data_segment 6 (97 ∷ [])) ∷ []

swapped-FromPeer : AllFromPeer (97 ∷ 98 ∷ []) 5 0 swapped
unfolding wrap
swapped-FromPeer = (
  record {
    number = refl;
    behind_syn = omega arith;
    near = omega arith;
    bounded = omega arith;
    piece = inl (record { within = omega arith; agrees = same_b; last = λ e. absurd cc });
  },
  (
    record {
      number = refl;
      behind_syn = omega arith;
      near = omega arith;
      bounded = omega arith;
      piece = inl (record { within = omega arith; agrees = same_a; last = λ e. absurd cc });
    },
    record {},
  ),
)

syn_piece : Genuine (97 ∷ 98 ∷ []) [] 0 false
syn_piece = record {
  within = omega arith;
  agrees = λ j h. absurd (omega arith);
  last = λ e. absurd cc;
}

receive-Carries_example :
    let r = receive (new 4) (syn_segment ∷ segments swapped) in
    Carries (97 ∷ 98 ∷ []) 4 [] r.reassembler
    × (((stream_out r).end_input ≡ false) ⊎ ((stream_out r).buffer ≡ 97 ∷ 98 ∷ []))
receive-Carries_example =
    receive-Carries (97 ∷ 98 ∷ []) 4 syn_segment swapped (omega arith) refl (omega arith) syn_piece
      swapped-FromPeer

receive-Acknowledges_example :
    Acknowledges (97 ∷ 98 ∷ []) 4 5 (receive (new 4) (syn_segment ∷ segments swapped))
receive-Acknowledges_example =
    receive-Acknowledges (97 ∷ 98 ∷ []) 4 syn_segment swapped (omega arith) refl (omega arith)
      syn_piece swapped-FromPeer
