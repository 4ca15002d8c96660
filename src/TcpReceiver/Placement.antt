-- ===== src/TcpReceiver/Placement.antt =====
-- `segment_received`: the stream index at which a segment's payload is put.
use sponge_fa.Prelude.{
  ◌∙◌, ℕ, ◌+◌, ◌-◌, ◌^◌, ◌<◌, ◌≡◌, refl, ap, ap₂, true, false, arith, u32, add64, inl,
}
use sponge_fa.WrappingInt32.{wrap, unwrap}
use sponge_fa.WrappingInt32.Nearest.{distance, unwrap-wrap, unwrap_misjudged}
use sponge_fa.StreamReassembler as Reassembler
use sponge_fa.TcpSegment.{TcpSegment}
use sponge_fa.TcpReceiver.{TcpReceiver, segment_received, place_segment, minus_one}

-- The receiver behind a segment whose payload is put at a stream index.
abbrev pub placed : TcpReceiver → TcpSegment → ℕ → TcpReceiver
placed r seg stream_no = record r {
  last_stream_no = stream_no;
  reassembler = Reassembler.push_substring r.reassembler seg.payload stream_no seg.header.fin;
}

place_segment_lem :
    (r : TcpReceiver) (seg : TcpSegment) (offset abs : ℕ)
    → unwrap seg.header.seqno (u32 r.isn) r.last_stream_no ≡ abs
    → place_segment r seg offset ≡ placed r seg (add64 abs offset)
unfolding place_segment
place_segment_lem r seg offset abs e = rw e refl

segment_received_lem :
    (r : TcpReceiver) (seg : TcpSegment)
    → r.syn_recived ≡ true
    → segment_received r seg ≡ place_segment r seg minus_one
unfolding segment_received
segment_received_lem r seg on = rw on refl

-- Once the SYN has arrived, a segment that carries the absolute sequence number `m`, neither the
-- SYN's nor 2 ^ 31 or more away from the last segment's stream index, is put at the stream index
-- `m - 1`.
pub segment_received-placed :
    (r : TcpReceiver) (seg : TcpSegment) (m : ℕ)
    → r.syn_recived ≡ true
    → r.isn < 2 ^ 32
    → r.last_stream_no < 2 ^ 64 - 2 ^ 32
    → 0 < m
    → m < 2 ^ 64
    → distance m r.last_stream_no < 2 ^ 31
    → seg.header.seqno ≡ wrap m r.isn
    → segment_received r seg ≡ placed r seg (m - 1)
segment_received-placed r seg m on small low pos m64 near number =
    let isn : u32 r.isn ≡ r.isn = omega arith in
    let abs : unwrap seg.header.seqno (u32 r.isn) r.last_stream_no ≡ m =
      ap₂ (λ (n i : ℕ). unwrap n i r.last_stream_no) number isn
      ∙ unwrap-wrap m r.isn r.last_stream_no small low near (inl (omega arith)) in
    let shift : add64 m minus_one ≡ m - 1 = omega arith in
    segment_received_lem r seg on
    ∙ (place_segment_lem r seg minus_one m abs ∙ ap (placed r seg) shift)

unwrap_initial : (n : ℕ) → unwrap n n 0 ≡ 0
unfolding unwrap
unwrap_initial n = ground arith

-- The first SYN fixes the initial number, and its payload starts the stream.
pub segment_received-first :
    (r : TcpReceiver) (seg : TcpSegment)
    → r.syn_recived ≡ false
    → r.last_stream_no ≡ 0
    → seg.header.syn ≡ true
    → seg.header.seqno < 2 ^ 32
    → segment_received r seg
      ≡ placed (record r { syn_recived = true; isn = seg.header.seqno }) seg 0
unfolding segment_received
segment_received-first r seg off fresh syn small =
    let r' : TcpReceiver = record r { syn_recived = true; isn = seg.header.seqno } in
    let isn : u32 seg.header.seqno ≡ seg.header.seqno = omega arith in
    let abs : unwrap seg.header.seqno (u32 r'.isn) r'.last_stream_no ≡ 0 =
      ap₂ (λ (i c : ℕ). unwrap seg.header.seqno i c) isn fresh ∙ unwrap_initial seg.header.seqno in
    rw (off, syn) (place_segment_lem r' seg 0 0 abs)

-- A segment before the SYN changes nothing.
pub segment_received-early :
    (r : TcpReceiver) (seg : TcpSegment)
    → r.syn_recived ≡ false
    → seg.header.syn ≡ false
    → segment_received r seg ≡ r
unfolding segment_received
segment_received-early r seg off plain = rw (off, plain) refl

-- The checkpoint is the last segment's index, and not the stream's next one. So one late copy of
-- the SYN derails the stream: with a checkpoint strictly between 0 and 2 ^ 31, the copy moves the
-- checkpoint to 2 ^ 32 - 1, and the next segment, at any absolute number `m` from 1 up to 2 ^ 31 - 2,
-- is put 2 ^ 32 bytes behind its place.
pub late_syn_derails :
    (r : TcpReceiver) (syn seg : TcpSegment) (m : ℕ)
    → r.syn_recived ≡ true
    → r.isn < 2 ^ 32
    → 0 < r.last_stream_no
    → r.last_stream_no < 2 ^ 31
    → syn.header.seqno ≡ r.isn
    → 0 < m
    → m < 2 ^ 31 - 1
    → seg.header.seqno ≡ wrap m r.isn
    → let r' = segment_received r syn in
      (r'.last_stream_no ≡ 2 ^ 32 - 1)
      × (segment_received r' seg ≡ placed r' seg (2 ^ 32 + (m - 1)))
late_syn_derails r syn seg m on small pos low again pos_m low_m number =
    let isn : u32 r.isn ≡ r.isn = omega arith in
    let abs : unwrap syn.header.seqno (u32 r.isn) r.last_stream_no ≡ 2 ^ 32 =
      ap₂ (λ (n i : ℕ). unwrap n i r.last_stream_no) again isn
      ∙ (unwrap_misjudged r.isn r.last_stream_no small pos low).0 in
    let moved : segment_received r syn ≡ placed r syn (2 ^ 32 - 1) =
      segment_received_lem r syn on ∙ place_segment_lem r syn minus_one (2 ^ 32) abs in
    let same : wrap m r.isn ≡ wrap (2 ^ 32 + m) r.isn = unfold wrap in omega arith in
    let shift : 2 ^ 32 + m - 1 ≡ 2 ^ 32 + (m - 1) = omega arith in
    rw moved (
      refl,
      segment_received-placed (placed r syn (2 ^ 32 - 1)) seg (2 ^ 32 + m) on small (omega arith)
            (omega arith) (omega arith) (omega arith) (number ∙ same)
          ∙ ap (placed (placed r syn (2 ^ 32 - 1)) seg) shift,
    )
