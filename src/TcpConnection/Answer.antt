-- ===== src/TcpConnection/Answer.antt =====
-- What a connection sends in return for a segment.
use sponge_fa.Prelude.{
  ap₂, not, ℕ, ◌<◌, ◌≡◌, ◌≢◌, ◌∙◌, ◌⊎◌, inl, inr, refl, true, false, List, [], ◌∷◌, ◌++◌, length,
  length-append, Option, arith, ne→==, eq→==, ℕ_discrete, Bool-cases, if◌then◌else◌, ◌&&◌,
}
use sponge_fa.WrappingInt32.{WrappingInt32}
use sponge_fa.TcpSegment.{TcpSegment, length_in_sequence_space}
use sponge_fa.TcpReceiver as Receiver
use sponge_fa.ByteStream as Stream
use sponge_fa.TcpSender as Sender
use sponge_fa.TcpSender.{TcpSender, is_empty}
use sponge_fa.TcpConnection.{
  TcpConnection, active, segment_received, take_segment, set_errors, pop_and_send_segments, reply,
  is_keep_alive,
}
use sponge_fa.TcpConnection.Queue.{stamped, outgoing, pop_and_send_segments_lem}

-- Whether the segment must be answered: it takes sequence space, or is a keep-alive.
abbrev pub WantsAnswer : Option WrappingInt32 → TcpSegment → Type 0
WantsAnswer ackno seg = (length_in_sequence_space seg ≢ 0) ⊎ (is_keep_alive ackno seg ≡ true)

abbrev pub NeedsNone : Option WrappingInt32 → TcpSegment → Type 0
NeedsNone ackno seg = (length_in_sequence_space seg ≡ 0) × (is_keep_alive ackno seg ≡ false)

is_empty-length : (segs : List TcpSegment) → is_empty segs ≡ false → 0 < length segs
is_empty-length [] e = absurd cc
is_empty-length (s ∷ segs) e = omega arith

length-stamped :
    (ackno : Option WrappingInt32) (win_size : ℕ) (segs : List TcpSegment)
    → length (stamped ackno win_size segs) ≡ length segs
unfolding stamped
length-stamped ackno win_size [] = refl
length-stamped ackno win_size (seg ∷ rest) = omega (arith, length-stamped ackno win_size rest)

send_empty-queue : (s : TcpSender) → 0 < length (Sender.send_empty_segment s).segments_out
unfolding Sender.send_empty_segment length_in_sequence_space
send_empty-queue s = omega (arith, length-append s.segments_out _)

reply-nonempty :
    (seg : TcpSegment) (ackno : Option WrappingInt32) (s : TcpSender)
    → WantsAnswer ackno seg
    → 0 < length (reply seg ackno s).segments_out
unfolding reply
reply-nonempty seg ackno s wants =
    let s₁ = if is_keep_alive ackno seg then Sender.send_empty_segment s else s in
    let s₂ = Sender.fill_window s₁ in
    elim (ℕ_discrete (length_in_sequence_space seg) 0) [
      | yes none_ ↦ elim wants [
        | inl some_ ↦ absurd (some_ none_)
        | inr alive ↦ rw (eq→== _ 0 none_, alive) (send_empty-queue s)
      ]
      | no some_ ↦ elim (Bool-cases (is_empty s₂.segments_out)) [
        | inl e ↦ rw (ne→== _ 0 some_, e) (send_empty-queue s₂)
        | inr e ↦ rw (ne→== _ 0 some_, e) (is_empty-length s₂.segments_out e)
      ]
    ]

outgoing-nonempty : (c : TcpConnection) → 0 < length c.sender.segments_out → 0 < length (outgoing c)
unfolding outgoing
outgoing-nonempty c some_ =
    omega (arith, length-stamped (Receiver.ackno c.receiver) _ c.sender.segments_out)

-- The sender behind the acknowledgment in a segment.
abbrev pub acked : TcpConnection → TcpSegment → TcpSender
acked c seg =
    if seg.header.ack
    then Sender.ack_received c.sender seg.header.ackno seg.header.win
    else c.sender

-- The connection that has taken a segment, before its sender's queue is emptied.
abbrev pub handed : TcpConnection → TcpSegment → TcpConnection
handed c seg =
    let receiver = Receiver.segment_received c.receiver seg in
    record c {
      linger_after_streams_finish =
          if seg.header.fin && not (Stream.input_ended c.sender.stream)
          then false
          else c.linger_after_streams_finish;
      time_since_last_segment_received = 0;
      receiver = receiver;
      sender = reply seg (Receiver.ackno receiver) (acked c seg);
    }

take_segment-handed :
    (c : TcpConnection) (seg : TcpSegment)
    → take_segment (record c { time_since_last_segment_received = 0 }) seg
      ≡ pop_and_send_segments (handed c seg)
unfolding take_segment
take_segment-handed c seg = refl

segment_received-take :
    (c : TcpConnection) (seg : TcpSegment)
    → active c ≡ true
    → seg.header.rst ≡ false
    → segment_received c seg ≡ take_segment (record c { time_since_last_segment_received = 0 }) seg
unfolding segment_received
segment_received-take c seg on plain =
    let c' : TcpConnection = record c { time_since_last_segment_received = 0 } in
    ap₂ (λ a b. if a then (if b then set_errors c' else take_segment c' seg) else c) on plain

pub segment_received-taken :
    (c : TcpConnection) (seg : TcpSegment)
    → active c ≡ true
    → seg.header.rst ≡ false
    → segment_received c seg ≡ record (handed c seg) {
      sender = record ((handed c seg).sender) { segments_out = [] };
      segments_out = c.segments_out ++ outgoing (handed c seg);
    }
segment_received-taken c seg on plain =
    segment_received-take c seg on plain
    ∙ (take_segment-handed c seg ∙ pop_and_send_segments_lem (handed c seg))

none_or_some :
    (ackno : Option WrappingInt32) (seg : TcpSegment) (out : List TcpSegment)
    → (WantsAnswer ackno seg → 0 < length out)
    → NeedsNone ackno seg ⊎ (0 < length out)
none_or_some ackno seg out answers = elim (ℕ_discrete (length_in_sequence_space seg) 0) [
  | no some_ ↦ inr (answers (inl some_))
  | yes none_ ↦ elim (Bool-cases (is_keep_alive ackno seg)) [
    | inl alive ↦ inr (answers (inr alive))
    | inr plain ↦ inl (none_, plain)
  ]
]

-- An active connection hands a segment without RST to its receiver, empties its sender's queue, and
-- answers with at least one segment if the segment takes sequence space or is a keep-alive.
pub segment_received-answers :
    (c : TcpConnection) (seg : TcpSegment)
    → active c ≡ true
    → seg.header.rst ≡ false
    → let c' = segment_received c seg in
      (c'.receiver ≡ Receiver.segment_received c.receiver seg)
      × (c'.sender.segments_out ≡ [])
      × (c'.segments_out ≡ c.segments_out ++ outgoing (handed c seg))
      × (NeedsNone (Receiver.ackno c'.receiver) seg ⊎ (0 < length (outgoing (handed c seg))))
segment_received-answers c seg on plain =
    let h = handed c seg in
    rw (segment_received-taken c seg on plain) (
      refl,
      refl,
      refl,
      none_or_some (Receiver.ackno h.receiver) seg (outgoing h) (λ wants.
          outgoing-nonempty h (reply-nonempty seg (Receiver.ackno h.receiver) (acked c seg) wants)),
    )
