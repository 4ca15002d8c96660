-- ===== src/TcpSender/Steps.antt =====
-- What the methods of a sender, and what is written to its stream, do to its segments as pieces of
-- that stream.
use sponge_fa.Prelude.{
  add64, ◌⊎◌, inl, inr, ℕ, ◌+◌, ◌-◌, ◌^◌, ◌<◌, ◌≡◌, ◌∙◌, refl, ap, sym, Bool, true, false,
  Bool-cases, ℕ_discrete, List, [], ◌∷◌, ◌++◌, append_assoc, append-nil, length, length-append,
  take, arith, dec_le,
}
use mathlib.Core.Path.{subst}
use sponge_fa.WrappingInt32.{WrappingInt32, wrap, unwrap}
use sponge_fa.TcpHeader.{TcpHeader}
use sponge_fa.TcpSegment.{TcpSegment, default_segment, length_in_sequence_space}
use sponge_fa.ByteStream as Stream
use sponge_fa.ByteStream.{ByteStream}
use sponge_fa.ByteStream.Invariant as StreamInvariant
use sponge_fa.TcpSender as Sender
use sponge_fa.TcpSender.{TcpSender, Outstanding, new, note_ack, remove_outstanding_segments}
use sponge_fa.TcpSender.Segments.{flag-le-one}
use sponge_fa.TcpSender.Pieces.{IsBare, AllSent, AllSent-append, AllSent-behind}
use sponge_fa.TcpSender.Ack.{
  acknowledged, acknowledged-IsValid, acknowledged-IsSmall, acknowledged-Dropped, note_ack_lem,
  remove_outstanding_lem, ack_received-taken, ack_received-ignored,
}
use sponge_fa.TcpSender.Timer.{oldest_of, tick-Ticked, tick-IsValid}
use sponge_fa.TcpSender.Invariant.{IsValid, IsSmall}
use sponge_fa.TcpSender.Streams.{
  Streams, Streams-same, in_flight, in_flight-append, Streams-fill_window,
}

-- The numbers are as small as the stream is short.
pub Streams-IsSmall :
    (isn : WrappingInt32) (whole : List ℕ) (s : TcpSender)
    → length whole < 2 ^ 32
    → Streams isn whole s
    → IsSmall s
Streams-IsSmall isn whole s short t =
    let parts = length-append t.out s.stream.buffer in
    let one = flag-le-one s.fin_sent in
    let all = ap length t.split in
    elim t.position [
      | inl p ↦ omega (arith, p.0, parts, all)
      | inr e ↦ omega (arith, e, one, parts, all)
    ]

with_stream-IsValid :
    (s : TcpSender) (st : ByteStream)
    → StreamInvariant.IsValid st
    → IsValid s
    → IsValid (record s { stream = st })
with_stream-IsValid s st valid v = record {
  stream = valid;
  oldest = v.oldest;
  flight = v.flight;
  acked = v.acked;
  window = v.window;
  opening = v.opening;
}

-- A write to an open stream appends what is taken; one to a stream that has ended does nothing.
write_cases :
    (st : ByteStream) (bytes : List ℕ)
    → ((st.end_input ≡ true) × (Stream.write st bytes ≡ (st, 0)))
      ⊎ ((st.end_input ≡ false)
          × ((Stream.write st bytes).0.buffer ≡ st.buffer ++ take (Stream.write st bytes).1 bytes))
unfolding Stream.write Stream.input_ended
write_cases st bytes = elim (Bool-cases st.end_input) [
  | inl e ↦ inl (e, rw e refl)
  | inr e ↦ inr (e, rw e refl)
]

pub Streams-write :
    (isn : WrappingInt32) (whole bytes : List ℕ) (s : TcpSender)
    → Streams isn whole s
    → Streams isn
        (whole ++ take (Stream.write s.stream bytes).1 bytes)
        (record s { stream = (Stream.write s.stream bytes).0 })
Streams-write isn whole bytes s t = elim (write_cases s.stream bytes) [
  | inl (ended, e) ↦
      subst (λ w. Streams isn (whole ++ take w.1 bytes) (record s { stream = w.0 })) (sym e)
        (subst (λ w. Streams isn w s) (sym (append-nil whole)) t)
  | inr (open_, e) ↦
      let n = (Stream.write s.stream bytes).1 in
      record {
        valid =
            with_stream-IsValid s (Stream.write s.stream bytes).0
              (StreamInvariant.write-IsValid bytes t.valid.stream) t.valid;
        initial = t.initial;
        out = t.out;
        split =
            ap (◌++◌ t.out) e
            ∙ (sym (append_assoc t.out s.stream.buffer (take n bytes))
                ∙ ap (λ w. w ++ take n bytes) t.split);
        position = t.position;
        closed = λ sent. absurd (let c = (t.closed sent).1 in cc);
        flight = t.flight;
        queue = t.queue;
      }
]

pub Streams-end_input :
    (isn : WrappingInt32) (whole : List ℕ) (s : TcpSender)
    → Streams isn whole s
    → Streams isn whole (record s { stream = Stream.end_input s.stream })
unfolding Stream.end_input
Streams-end_input isn whole s t = record {
  valid =
      with_stream-IsValid s (Stream.end_input s.stream)
        (StreamInvariant.end_input-IsValid t.valid.stream) t.valid;
  initial = t.initial;
  out = t.out;
  split = t.split;
  position = t.position;
  closed = λ e. ((t.closed e).0, refl);
  flight = t.flight;
  queue = t.queue;
}

AllSent-oldest :
    (isn : WrappingInt32) (out : List ℕ) (closed : Bool) (xs : List Outstanding)
    → AllSent isn out closed (in_flight xs)
    → AllSent isn out closed (oldest_of xs)
unfolding in_flight
AllSent-oldest isn out closed [] a = record {}
AllSent-oldest isn out closed (o ∷ rest) a = (a.0, record {})

pub Streams-tick :
    (isn : WrappingInt32) (whole : List ℕ) (s : TcpSender) (ms : ℕ)
    → Streams isn whole s
    → Streams isn whole (Sender.tick s ms)
Streams-tick isn whole s ms t =
    let k = tick-Ticked s ms in
    let (isn_, flight, stream_, next, last, window, zero_, fin) = k.same in
    Streams-same isn whole s (Sender.tick s ms) t (tick-IsValid s ms t.valid)
      (isn_, stream_, next, fin)
      (subst (λ xs. AllSent isn t.out s.fin_sent (in_flight xs)) (sym flight) t.flight)
      (elim k.out [
        | inl e ↦ subst (AllSent isn t.out s.fin_sent) (sym e) t.queue
        | inr e ↦ subst (AllSent isn t.out s.fin_sent) (sym e) (
            AllSent-append isn t.out s.fin_sent s.segments_out (oldest_of s.segments_outstanding)
              t.queue (AllSent-oldest isn t.out s.fin_sent s.segments_outstanding t.flight))
      ])

acknowledged-queue :
    (s : TcpSender) (n window_size : ℕ)
    → (acknowledged s n window_size).segments_out ≡ s.segments_out
unfolding note_ack remove_outstanding_segments
acknowledged-queue s n window_size = ground arith

pub Streams-ack_received :
    (isn : WrappingInt32) (whole : List ℕ) (s : TcpSender) (ackno : WrappingInt32) (window_size : ℕ)
    → IsSmall s
    → window_size < 2 ^ 16
    → Streams isn whole s
    → Streams isn whole (Sender.ack_received s ackno window_size)
Streams-ack_received isn whole s ackno window_size small short t =
    let n : ℕ = unwrap ackno s.isn s.last_ackno in
    elim (dec_le (n + (1 - s.next_seqno)) s.next_seqno) [
      | yes possible ↦
          let u = acknowledged s n window_size in
          let noted = note_ack_lem s n window_size (omega arith) in
          let removed = remove_outstanding_lem (note_ack s n window_size) in
          let cut = acknowledged-Dropped s t.valid small n window_size (omega arith) short in
          let kept : AllSent isn t.out s.fin_sent (in_flight u.segments_outstanding) =
            AllSent-behind isn t.out s.fin_sent (in_flight cut.gone)
              (in_flight u.segments_outstanding)
              (subst (AllSent isn t.out s.fin_sent)
                (ap in_flight cut.split ∙ in_flight-append cut.gone u.segments_outstanding)
                t.flight) in
          let t' =
            Streams-same isn whole s u t
              (acknowledged-IsValid s t.valid small n window_size (omega arith) short (omega arith))
              (removed.3 ∙ noted.3, removed.5 ∙ noted.6, removed.4 ∙ noted.5, removed.6 ∙ noted.7)
              kept
              (subst (AllSent isn t.out s.fin_sent) (sym (acknowledged-queue s n window_size))
                t.queue) in
          subst (Streams isn whole)
            (sym (ack_received-taken s ackno window_size (omega arith) (omega arith)))
            (Streams-fill_window isn whole u
              (acknowledged-IsSmall s t.valid small n window_size (omega arith) short) t')
      | no beyond ↦
          let why : (s.next_seqno ≡ 0) ⊎ (s.next_seqno < n) = elim (ℕ_discrete s.next_seqno 0) [
            | yes e ↦ inl e
            | no ne ↦ inr (omega arith)
          ] in
          subst (Streams isn whole) (sym (ack_received-ignored s ackno window_size why)) t
    ]

-- A segment that takes no number is queued and nothing else.
send_segment-empty :
    (s : TcpSender) (seg : TcpSegment)
    → length_in_sequence_space seg ≡ 0
    → s.next_seqno < 2 ^ 64
    → Sender.send_segment s seg false
      ≡ record s { segments_out = s.segments_out ++ (Sender.numbered s seg ∷ []) }
unfolding Sender.send_segment length_in_sequence_space Sender.numbered
send_segment-empty s seg none_ small =
    let kept : add64 s.next_seqno 0 ≡ s.next_seqno = omega arith in rw (none_, kept) refl

numbered-IsBare :
    (isn : WrappingInt32) (whole : List ℕ) (s : TcpSender) (header : TcpHeader)
    → header.syn ≡ false
    → header.fin ≡ false
    → (t : Streams isn whole s)
    → IsBare isn t.out (Sender.numbered s (record default_segment { header = header }))
unfolding Sender.numbered Sender.relative_next_seqno
numbered-IsBare isn whole s header no_syn no_fin t = record {
  seqno = s.next_seqno;
  number = ap (wrap s.next_seqno) t.initial;
  bounded = elim t.position [
    | inl p ↦ omega (arith, p.0)
    | inr e ↦ omega (arith, e, flag-le-one s.fin_sent)
  ];
  plain = no_syn;
  no_fin = no_fin;
  no_payload = refl;
}

empty_length :
    (header : TcpHeader)
    → header.syn ≡ false
    → header.fin ≡ false
    → length_in_sequence_space (record default_segment { header = header }) ≡ 0
unfolding length_in_sequence_space
empty_length header no_syn no_fin = rw (no_syn, no_fin) refl

-- An empty segment without SYN and FIN may have any other fields.
pub Streams-empty :
    (isn : WrappingInt32) (whole : List ℕ) (s : TcpSender) (header : TcpHeader)
    → header.syn ≡ false
    → header.fin ≡ false
    → IsSmall s
    → Streams isn whole s
    → Streams isn whole (Sender.send_segment s (record default_segment { header = header }) false)
Streams-empty isn whole s header no_syn no_fin small t =
    let seg : TcpSegment = record default_segment { header = header } in
    let queued = s.segments_out ++ (Sender.numbered s seg ∷ []) in
    let bare = numbered-IsBare isn whole s header no_syn no_fin t in
    subst (Streams isn whole)
      (sym (send_segment-empty s seg (empty_length header no_syn no_fin) (omega arith)))
      (Streams-same isn whole s (record s { segments_out = queued }) t
        (record {
          stream = t.valid.stream;
          oldest = t.valid.oldest;
          flight = t.valid.flight;
          acked = t.valid.acked;
          window = t.valid.window;
          opening = t.valid.opening;
        })
        (refl, refl, refl, refl) t.flight
        (AllSent-append isn t.out s.fin_sent s.segments_out (Sender.numbered s seg ∷ []) t.queue
          (inr (inl bare), record {})))
