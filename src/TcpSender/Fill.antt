-- ===== src/TcpSender/Fill.antt =====
-- The loop of `fill_window`: what it sends, and what a round adds to that.
use sponge_fa.Prelude.{
  length-append, nil_of_length, ◌==◌, suc, ℕ, ◌+◌, ◌^◌, ◌≤◌, ◌<◌, ◌≡◌, ◌∙◌, ◌⊎◌, inl, inr, refl, ap,
  sym, Bool, true, false, List, [], ◌∷◌, ◌++◌, append_assoc, append-nil, length, if◌then◌else◌,
  arith,
}
use sponge_fa.ByteStream.{ByteStream}
use sponge_fa.ByteStream.Invariant as StreamInvariant
use sponge_fa.TcpConfig.{max_payload_size}
use sponge_fa.TcpSegment.{TcpSegment, length_in_sequence_space}
use sponge_fa.TcpSender.{TcpSender, numbered, send_segment, fill_round, fill_loop}
use sponge_fa.TcpSender.Segments.{
  FinLast, FinLast-map, Numbered-le, Numbered-none, flag, flag-le-one, Numbered, book, payloads,
}

-- A segment that takes sequence space goes to the queue and to the memory of segments in flight.
pub send_segment_lem :
    (s : TcpSender) (seg : TcpSegment) (z : Bool)
    → 0 < length_in_sequence_space seg
    → s.next_seqno + length_in_sequence_space seg < 2 ^ 64
    → send_segment s seg z ≡ record s {
      next_seqno = s.next_seqno + length_in_sequence_space seg;
      segments_out = s.segments_out ++ (numbered s seg ∷ []);
      timer_enable = true;
      segments_outstanding = s.segments_outstanding ++ book s.next_seqno z (numbered s seg ∷ []);
    }
unfolding send_segment book
send_segment_lem s seg z pos small = ground arith

-- The FIN is out, and the stream, which has ended, with it.
abbrev pub Finished : TcpSender → TcpSender → Type 0
Finished s s' = (s'.fin_sent ≡ true) × (s'.stream.buffer ≡ []) × (s.stream.end_input ≡ true)

-- What the loop has done when it is left at `s'`, started at `s` with `num` bytes to send.
pub record Filled (s : TcpSender) (num : ℕ) (z : Bool) (s' : TcpSender) : Type 0 where
  pub sent : List TcpSegment
  pub queued : s'.segments_out ≡ s.segments_out ++ sent
  pub remembered : s'.segments_outstanding ≡ s.segments_outstanding ++ book s.next_seqno z sent
  pub numbers : Numbered s.isn s.next_seqno sent s'.next_seqno
  pub bytes : payloads sent ++ s'.stream.buffer ≡ s.stream.buffer
  pub within : s'.next_seqno ≤ s.next_seqno + num
  pub greedy :
      (s'.next_seqno ≡ s.next_seqno + num)
      ⊎ ((s'.stream.buffer ≡ []) × ((s'.stream.end_input ≡ false) ⊎ (s'.fin_sent ≡ true)))
  pub space :
      s'.next_seqno + length s'.stream.buffer + flag s.fin_sent
      ≡ s.next_seqno + length s.stream.buffer + flag s'.fin_sent
  pub same : (s'.isn ≡ s.isn) × (s'.last_ackno ≡ s.last_ackno) × (s'.window_size ≡ s.window_size)
  pub stream : StreamInvariant.IsValid s'.stream
  pub same_end : s'.stream.end_input ≡ s.stream.end_input
  pub fins : FinLast (Finished s s') sent
  pub finished : (s'.fin_sent ≡ s.fin_sent) ⊎ Finished s s'

pub Filled-stop :
    (s s' : TcpSender) (num : ℕ) (z : Bool)
    → s'.segments_out ≡ s.segments_out
    → s'.segments_outstanding ≡ s.segments_outstanding
    → s'.next_seqno ≡ s.next_seqno
    → s'.stream.buffer ≡ s.stream.buffer
    → s'.fin_sent ≡ s.fin_sent
    → ((num ≡ 0) ⊎ ((s.stream.buffer ≡ []) × ((s.stream.end_input ≡ false) ⊎ (s.fin_sent ≡ true))))
    → (s'.isn ≡ s.isn) × (s'.last_ackno ≡ s.last_ackno) × (s'.window_size ≡ s.window_size)
    → StreamInvariant.IsValid s'.stream
    → s'.stream.end_input ≡ s.stream.end_input
    → Filled s num z s'
unfolding book payloads
Filled-stop s s' num z out outstanding next buffer fin why same v end_ = record {
  sent = [];
  queued = out ∙ sym (append-nil s.segments_out);
  remembered = outstanding ∙ sym (append-nil s.segments_outstanding);
  numbers = sym next;
  bytes = buffer;
  within = omega arith;
  greedy = ground arith;
  space = ground (arith, ap length buffer);
  same = same;
  stream = v;
  same_end = end_;
  fins = record {};
  finished = inl fin;
}

-- The state behind a round that has sent `seg`.
abbrev pub after_round : TcpSender → ByteStream → Bool → TcpSegment → Bool → TcpSender
after_round s st fs seg z =
    let t = record s { stream = st; fin_sent = fs } in
    record t {
      next_seqno = s.next_seqno + length_in_sequence_space seg;
      segments_out = s.segments_out ++ (numbered t seg ∷ []);
      timer_enable = true;
      segments_outstanding = s.segments_outstanding ++ book s.next_seqno z (numbered t seg ∷ []);
    }

-- Whether a round's segment is the FIN: then the stream has ended and is empty behind it.
abbrev pub RoundFin : TcpSender → ByteStream → Bool → TcpSegment → Type 0
RoundFin s st fs seg =
    (seg.header.syn ≡ false)
    × (((seg.header.fin ≡ false) × (fs ≡ s.fin_sent))
        ⊎ ((seg.header.fin ≡ true) × (fs ≡ true) × (st.buffer ≡ []) × (st.end_input ≡ true)))

-- Behind the FIN nothing is sent.
pub round_finished :
    (s s' : TcpSender) (st : ByteStream) (fs : Bool) (seg : TcpSegment) (num : ℕ) (z : Bool)
    (f : Filled (after_round s st fs seg z) num z s')
    → fs ≡ true
    → st.buffer ≡ []
    → (f.sent ≡ []) × (s'.fin_sent ≡ true) × (s'.stream.buffer ≡ [])
round_finished s s' st fs seg num z f out empty =
    let none_ = ap length empty in
    let nothing = ap length f.bytes in
    let parts = length-append (payloads f.sent) s'.stream.buffer in
    let above =
      Numbered-le s.isn (after_round s st fs seg z).next_seqno s'.next_seqno f.sent f.numbers in
    (
      Numbered-none s.isn (after_round s st fs seg z).next_seqno s'.next_seqno f.sent f.numbers
          (omega (arith, f.space, ap flag out, none_, flag-le-one s'.fin_sent)),
      ground (arith, f.space, ap flag out, none_, above, nothing, parts),
      nil_of_length s'.stream.buffer (omega (arith, none_, nothing, parts)),
    )

pub Filled-next :
    (s s' : TcpSender) (st : ByteStream) (fs : Bool) (seg : TcpSegment) (num num' : ℕ) (z : Bool)
    → seg.payload ++ st.buffer ≡ s.stream.buffer
    → length seg.payload ≤ max_payload_size
    → 0 < length_in_sequence_space seg
    → num' + length_in_sequence_space seg ≡ num
    → length_in_sequence_space seg + length st.buffer + flag s.fin_sent
      ≡ length s.stream.buffer + flag fs
    → st.end_input ≡ s.stream.end_input
    → RoundFin s st fs seg
    → Filled (after_round s st fs seg z) num' z s'
    → Filled s num z s'
unfolding book payloads numbered length_in_sequence_space
Filled-next s s' st fs seg num num' z bytes fits pos count space end_ (plain, fin) f =
    let done = round_finished s s' st fs seg num' z f in
    let t = record s { stream = st; fin_sent = fs } in
    record {
      sent = numbered t seg ∷ f.sent;
      queued = f.queued ∙ append_assoc s.segments_out (numbered t seg ∷ []) f.sent;
      remembered = f.remembered ∙ append_assoc s.segments_outstanding _ _;
      numbers = (refl, pos, fits, f.numbers);
      bytes =
          append_assoc seg.payload (payloads f.sent) s'.stream.buffer
          ∙ (ap (◌++◌ seg.payload) f.bytes ∙ bytes);
      within = omega (arith, f.within);
      greedy = ground (arith, f.greedy);
      space = omega (arith, f.space);
      same = f.same;
      stream = f.stream;
      same_end = f.same_end ∙ end_;
      fins = (
        plain,
        elim fin [
          | inl (e, same) ↦ inl e
          | inr (e, out, empty, ended) ↦
              let (none_, fin', rest) = done out empty in
              inr (none_, (fin', rest, sym end_ ∙ ended))
        ],
        FinLast-map (λ d. (d.0, d.1, sym end_ ∙ d.2)) f.sent f.fins,
      );
      finished = elim fin [
        | inl (e, same) ↦ elim f.finished [
          | inl kept ↦ inl (kept ∙ same)
          | inr d ↦ inr (d.0, d.1, sym end_ ∙ d.2)
        ]
        | inr (e, out, empty, ended) ↦
            let (none_, fin', rest) = done out empty in inr (fin', rest, sym end_ ∙ ended)
      ];
    }

pub fill_loop-suc :
    (fuel num : ℕ) (s : TcpSender) (z : Bool)
    → let r = fill_round s num in
      fill_loop (suc fuel) s num z ≡ (
        if num == 0
        then s
        else (if length_in_sequence_space r.segment == 0
            then r.sender
            else fill_loop fuel (send_segment r.sender r.segment z) r.num_bytes_to_send z))
unfolding fill_loop
fill_loop-suc fuel num s z = refl
