-- ===== src/TcpConnection/Reset.antt =====
-- Whether a connection is active, and what an RST does to it.
use sponge_fa.Prelude.{
  ◌^◌, ◌<◌, ◌≡◌, ◌≢◌, ◌∙◌, ◌⊎◌, inl, inr, refl, ap, true, false, [], ◌∷◌, ◌++◌, arith, ne→==,
  Bool-cases,
}
use sponge_fa.ByteStream as Stream
use sponge_fa.TcpSegment.{TcpSegment, default_segment, length_in_sequence_space}
use sponge_fa.TcpReceiver as Receiver
use sponge_fa.TcpSender.Invariant.{send_segment-empty}
use sponge_fa.TcpConnection.Queue.{
  stamped, outgoing, announced, pop_and_send_segments_lem, stamp_lem,
}
use sponge_fa.TcpSender as Sender
use sponge_fa.TcpConnection.{
  TcpConnection, active, inbound, segment_received, set_errors, positive_unclean_shutdown,
  rst_header, stamp, pop_and_send_segments,
}

-- Both streams have been ended and emptied.
abbrev pub BothEnded : TcpConnection → Type 0
BothEnded c = (Stream.eof c.sender.stream ≡ true) × (Stream.eof (inbound c) ≡ true)

abbrev pub Failed : TcpConnection → Type 0
Failed c = (c.sender.stream.error ≡ true) × ((inbound c).error ≡ true)

-- A segment that arrives at a connection which is not active changes nothing.
pub segment_received-inactive :
    (c : TcpConnection) (seg : TcpSegment) → active c ≡ false → segment_received c seg ≡ c
unfolding segment_received
segment_received-inactive c seg e = rw e refl

pub segment_received-rst :
    (c : TcpConnection) (seg : TcpSegment)
    → active c ≡ true
    → seg.header.rst ≡ true
    → segment_received c seg ≡ set_errors (record c { time_since_last_segment_received = 0 })
unfolding segment_received
segment_received-rst c seg e rst = rw (e, rst) refl

active-running :
    (c : TcpConnection)
    → (Stream.eof c.sender.stream ≡ false) ⊎ (Stream.eof (inbound c) ≡ false)
    → Failed c
    → active c ≡ false
unfolding active
active-running c (inl a) (f, g) = rw (a, f) refl
active-running c (inr b) (f, g) = elim (Bool-cases (Stream.eof c.sender.stream)) [
  | inl a ↦ rw (a, b, f) refl
  | inr a ↦ rw (a, f) refl
]

active-in_flight :
    (c : TcpConnection) → BothEnded c → Sender.bytes_in_flight c.sender ≢ 0 → active c ≡ true
unfolding active
active-in_flight c (a, b) flying = rw (a, b, ne→== _ 0 flying) refl

ended_or_over :
    (c c' : TcpConnection)
    → Stream.eof c'.sender.stream ≡ Stream.eof c.sender.stream
    → Stream.eof (inbound c') ≡ Stream.eof (inbound c)
    → Failed c'
    → BothEnded c ⊎ (active c' ≡ false)
ended_or_over c c' out in_ failed = elim (Bool-cases (Stream.eof c.sender.stream)) [
  | inr a ↦ inr (active-running c' (inl (out ∙ a)) failed)
  | inl a ↦ elim (Bool-cases (Stream.eof (inbound c))) [
    | inr b ↦ inr (active-running c' (inr (in_ ∙ b)) failed)
    | inl b ↦ inl (a, b)
  ]
]

-- A segment with RST puts both streams of an active connection into the error state, and queues
-- nothing; the connection is then over, unless both streams have ended.
pub rst_lem :
    (c : TcpConnection) (seg : TcpSegment)
    → active c ≡ true
    → seg.header.rst ≡ true
    → let c' = segment_received c seg in
      Failed c'
      × (c'.segments_out ≡ c.segments_out)
      × (c'.sender.segments_out ≡ c.sender.segments_out)
      × (BothEnded c ⊎ (active c' ≡ false))
unfolding set_errors Stream.set_error Stream.eof
rst_lem c seg on rst =
    let e = segment_received-rst c seg on rst in
    let c' : TcpConnection = set_errors (record c { time_since_last_segment_received = 0 }) in
    rw e ((refl, refl), refl, refl, ended_or_over c c' refl refl (refl, refl))

-- Both streams have ended, but something is in flight, the FIN say: then an RST does not end the
-- connection, since `active` looks at what is in flight before it looks for errors.
pub rst_ignored :
    (c : TcpConnection) (seg : TcpSegment)
    → BothEnded c
    → Sender.bytes_in_flight c.sender ≢ 0
    → seg.header.rst ≡ true
    → Failed (segment_received c seg) × (active (segment_received c seg) ≡ true)
unfolding set_errors Stream.set_error Stream.eof Sender.bytes_in_flight
rst_ignored c seg ended flying rst =
    let e = segment_received-rst c seg (active-in_flight c ended flying) rst in
    let c' : TcpConnection = set_errors (record c { time_since_last_segment_received = 0 }) in
    rw e ((refl, refl), active-in_flight c' ended flying)

-- The segment that an unclean shutdown sends.
abbrev pub rst_segment : TcpConnection → TcpSegment
rst_segment c = Sender.numbered c.sender (record default_segment { header = rst_header })

send_rst :
    (c : TcpConnection)
    → c.sender.next_seqno < 2 ^ 64
    → Sender.send_empty_segment_with_this_header
        (record (c.sender) { segments_out = [] })
        rst_header
      ≡ record (c.sender) { segments_out = rst_segment c ∷ [] }
unfolding Sender.send_empty_segment_with_this_header length_in_sequence_space Sender.numbered
    Sender.relative_next_seqno
send_rst c small =
    send_segment-empty (record (c.sender) { segments_out = [] })
      (record default_segment { header = rst_header }) false refl small

pub shutdown_lem :
    (c : TcpConnection)
    → c.sender.next_seqno < 2 ^ 64
    → positive_unclean_shutdown c
      ≡ set_errors (record c {
        sender = record (c.sender) { segments_out = [] };
        segments_out =
            c.segments_out
            ++ (stamp (Receiver.ackno c.receiver) (announced c) (rst_segment c) ∷ []);
      })
unfolding positive_unclean_shutdown outgoing stamped
shutdown_lem c small =
    ap (λ s. set_errors (pop_and_send_segments (record c { sender = s }))) (send_rst c small)
    ∙ ap set_errors (
        pop_and_send_segments_lem
          (record c { sender = record (c.sender) { segments_out = rst_segment c ∷ [] } }))

-- An unclean shutdown drops what the sender had queued, queues one segment, which has RST set and
-- carries the sender's next number, and puts both streams into the error state; what is in flight
-- and all numbers stay.
pub positive_unclean_shutdown_lem :
    (c : TcpConnection)
    → c.sender.next_seqno < 2 ^ 64
    → let c' = positive_unclean_shutdown c in
      Failed c'
      × (c'.segments_out
          ≡ c.segments_out
            ++ (stamp (Receiver.ackno c.receiver) (announced c) (rst_segment c) ∷ []))
      × ((stamp (Receiver.ackno c.receiver) (announced c) (rst_segment c)).header.rst ≡ true)
      × (c'.sender.segments_out ≡ [])
      × (c'.sender.next_seqno ≡ c.sender.next_seqno)
      × (c'.sender.segments_outstanding ≡ c.sender.segments_outstanding)
unfolding set_errors Stream.set_error Sender.numbered
positive_unclean_shutdown_lem c small =
    let flagged =
      (stamp_lem (Receiver.ackno c.receiver) (announced c) (rst_segment c) (omega arith) refl
        refl).4 in
    rw (shutdown_lem c small) ((refl, refl), refl, flagged, refl, refl, refl)
