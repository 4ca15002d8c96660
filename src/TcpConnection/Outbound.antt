-- ===== src/TcpConnection/Outbound.antt =====
-- What every operation of a connection keeps of its sender.
use sponge_fa.Prelude.{
  ℕ, ◌+◌, ◌^◌, ◌≤◌, ◌<◌, ◌≡◌, inl, inr, refl, ap, sym, false, List, [], length, Option, ltb, arith,
  ne→==, eq→==, ℕ_discrete, Bool-cases, if◌then◌else◌,
}
use mathlib.Core.Path.{subst}
use sponge_fa.WrappingInt32.{WrappingInt32}
use sponge_fa.ByteStream as Stream
use sponge_fa.ByteStream.Invariant as StreamInvariant
use sponge_fa.TcpConfig.{max_retx_attempts}
use sponge_fa.TcpSegment.{TcpSegment, length_in_sequence_space, default_segment}
use sponge_fa.TcpReceiver as Receiver
use sponge_fa.TcpSender as Sender
use sponge_fa.TcpSender.{TcpSender, is_empty}
use sponge_fa.TcpSender.Invariant.{IsValid, IsSmall, send_segment-IsValid, send_segment-empty}
use sponge_fa.TcpSender.Window.{fill_window-IsValid, fill_window-space}
use sponge_fa.TcpSender.Ack.{ack_received-IsValid, ack_received-space}
use sponge_fa.TcpSender.Timer.{tick-IsValid, tick-next_seqno}
use sponge_fa.TcpConnection.{
  TcpConnection, active, segment_received, write, end_input_stream, connect, tick, reply,
  is_keep_alive, set_errors, positive_unclean_shutdown, pop_and_send_segments,
}
use sponge_fa.TcpConnection.Queue.{pop_and_send_segments_lem}
use sponge_fa.TcpConnection.Reset.{segment_received-inactive, shutdown_lem, segment_received-rst}
use sponge_fa.TcpConnection.Answer.{acked, handed, segment_received-taken}

-- What a fresh or a drained sender has to send.
abbrev pub load : TcpSender → ℕ
load s = s.next_seqno + length s.stream.buffer

IsValid-queue :
    (s : TcpSender) (q : List TcpSegment) → IsValid s → IsValid (record s { segments_out = q })
IsValid-queue s q v = record {
  stream = v.stream;
  oldest = v.oldest;
  flight = v.flight;
  acked = v.acked;
  window = v.window;
  opening = v.opening;
}

IsValid-stream :
    (s : TcpSender) (st : Stream.ByteStream)
    → StreamInvariant.IsValid st
    → IsValid s
    → IsValid (record s { stream = st })
IsValid-stream s st w v = record {
  stream = w;
  oldest = v.oldest;
  flight = v.flight;
  acked = v.acked;
  window = v.window;
  opening = v.opening;
}

send_empty-lem :
    (s : TcpSender)
    → s.next_seqno < 2 ^ 64
    → IsValid s
    → IsValid (Sender.send_empty_segment s) × (load (Sender.send_empty_segment s) ≡ load s)
unfolding Sender.send_empty_segment
send_empty-lem s small v = (
  send_segment-IsValid s default_segment false (omega arith)
      (unfold length_in_sequence_space in omega arith) v,
  ap load
      (send_segment-empty s default_segment false (unfold length_in_sequence_space in refl) small),
)

reply-IsValid :
    (seg : TcpSegment) (ackno : Option WrappingInt32) (s : TcpSender)
    → IsValid s
    → IsSmall s
    → IsValid (reply seg ackno s)
unfolding reply
reply-IsValid seg ackno s v small =
    let s₁ = if is_keep_alive ackno seg then Sender.send_empty_segment s else s in
    let s₂ = Sender.fill_window s₁ in
    let kept : IsValid s₁ × (load s₁ ≡ load s) = elim (Bool-cases (is_keep_alive ackno seg)) [
      | inl e ↦ rw e (send_empty-lem s (omega arith) v)
      | inr e ↦ rw e (v, refl)
    ] in
    let small₁ : IsSmall s₁ = omega (arith, kept.1) in
    let v₂ = fill_window-IsValid s₁ kept.0 small₁ in
    let grown = fill_window-space s₁ kept.0 small₁ in
    elim (ℕ_discrete (length_in_sequence_space seg) 0) [
      | yes none_ ↦ rw (eq→== _ 0 none_) kept.0
      | no some_ ↦ elim (Bool-cases (is_empty s₂.segments_out)) [
        | inl e ↦ rw (ne→== _ 0 some_, e) (send_empty-lem s₂ (omega (arith, grown, kept.1)) v₂).0
        | inr e ↦ rw (ne→== _ 0 some_, e) v₂
      ]
    ]

-- The operations of the owner, and the arrival of a segment.
pub data Operation : Type 0 where
  connects ends : Operation
  writes : List ℕ → Operation
  ticks : ℕ → Operation
  receives : TcpSegment → Operation

unfoldable pub step : TcpConnection → Operation → TcpConnection
unfolding connect end_input_stream write tick segment_received
step c connects = connect c
step c ends = end_input_stream c
step c (writes bytes) = (write c bytes).0
step c (ticks ms) = tick c ms
step c (receives seg) = segment_received c seg

-- A window has 16 bits.
abbrev pub IsShort : Operation → Type 0
IsShort (receives seg) = seg.header.win < 2 ^ 16
IsShort connects = Unit
IsShort ends = Unit
IsShort (writes bytes) = Unit
IsShort (ticks ms) = Unit

-- The sender is valid, and has handed everything that it queued to the connection.
abbrev pub IsDrained : TcpConnection → Type 0
IsDrained c = IsValid c.sender × (c.sender.segments_out ≡ [])

drained : (c : TcpConnection) → IsValid c.sender → IsDrained (pop_and_send_segments c)
drained c v = rw (pop_and_send_segments_lem c) (IsValid-queue c.sender [] v, refl)

filled-IsDrained :
    (c : TcpConnection)
    → IsValid c.sender
    → IsSmall c.sender
    → IsDrained (pop_and_send_segments (record c { sender = Sender.fill_window c.sender }))
filled-IsDrained c v small =
    drained (record c { sender = Sender.fill_window c.sender })
      (fill_window-IsValid c.sender v small)

set_errors-IsValid : (c : TcpConnection) → IsValid c.sender → IsValid (set_errors c).sender
unfolding set_errors
set_errors-IsValid c v =
    IsValid-stream c.sender (Stream.set_error c.sender.stream)
      (StreamInvariant.set_error-IsValid v.stream) v

set_errors-queue :
    (c : TcpConnection) → c.sender.segments_out ≡ [] → (set_errors c).sender.segments_out ≡ []
unfolding set_errors
set_errors-queue c q = q

shutdown-IsValid :
    (c : TcpConnection)
    → IsValid c.sender
    → c.sender.next_seqno < 2 ^ 64
    → IsValid (positive_unclean_shutdown c).sender
shutdown-IsValid c v small =
    subst (λ (d : TcpConnection). IsValid d.sender) (sym (shutdown_lem c small))
      (set_errors-IsValid _ (IsValid-queue c.sender [] v))

ended-IsDrained :
    (c : TcpConnection) → IsValid c.sender → IsSmall c.sender → IsDrained (end_input_stream c)
unfolding end_input_stream Stream.end_input
ended-IsDrained c v small =
    let st = Stream.end_input c.sender.stream in
    filled-IsDrained (record c { sender = record (c.sender) { stream = st } })
      (IsValid-stream c.sender st (StreamInvariant.end_input-IsValid v.stream) v) small

written-IsDrained :
    (c : TcpConnection) (bytes : List ℕ)
    → IsValid c.sender
    → c.sender.next_seqno + c.sender.stream.capacity + 2 ^ 18 < 2 ^ 64
    → IsDrained (write c bytes).0
unfolding write Stream.write
written-IsDrained c bytes v small =
    let st = (Stream.write c.sender.stream bytes).0 in
    let w = StreamInvariant.write-IsValid bytes v.stream in
    let same : st.capacity ≡ c.sender.stream.capacity = ground arith in
    filled-IsDrained (record c { sender = record (c.sender) { stream = st } })
      (IsValid-stream c.sender st w v) (omega (arith, same, w.bounded))

tick-IsDrained :
    (c : TcpConnection) (ms : ℕ)
    → IsValid c.sender
    → c.sender.next_seqno < 2 ^ 64
    → IsDrained (tick c ms)
unfolding tick
tick-IsDrained c ms v small =
    let c₁ : TcpConnection = record c { sender = Sender.tick c.sender ms } in
    let v₁ = tick-IsValid c.sender ms v in
    elim (Bool-cases (ltb max_retx_attempts c₁.sender.consecutive_retransmissions_count)) [
      | inl over ↦ rw over (
          drained (positive_unclean_shutdown c₁)
            (shutdown-IsValid c₁ v₁ (omega (arith, tick-next_seqno c.sender ms))))
      | inr calm ↦ rw calm (drained c₁ v₁)
    ]

acked-lem :
    (c : TcpConnection) (seg : TcpSegment)
    → IsValid c.sender
    → IsSmall c.sender
    → seg.header.win < 2 ^ 16
    → IsValid (acked c seg) × (load (acked c seg) ≤ load c.sender + 2)
acked-lem c seg v small short = elim (Bool-cases seg.header.ack) [
  | inl e ↦ rw e (
    ack_received-IsValid c.sender seg.header.ackno seg.header.win v small short,
    ack_received-space c.sender seg.header.ackno seg.header.win v small short,
  )
  | inr e ↦ rw e (v, omega arith)
]

-- Every operation of a connection keeps its sender valid and empties its sender's queue, as long as
-- the numbers in use stay below 2 ^ 64 by a margin.
pub step-IsDrained :
    (c : TcpConnection) (op : Operation)
    → IsDrained c
    → c.sender.next_seqno + c.sender.stream.capacity + 2 ^ 18 < 2 ^ 64
    → IsShort op
    → IsDrained (step c op)
unfolding step
step-IsDrained c connects (v, q) small short =
    unfold connect in filled-IsDrained c v (omega (arith, v.stream.bounded))
step-IsDrained c ends (v, q) small short = ended-IsDrained c v (omega (arith, v.stream.bounded))
step-IsDrained c (writes bytes) (v, q) small short = written-IsDrained c bytes v small
step-IsDrained c (ticks ms) (v, q) small short = tick-IsDrained c ms v (omega arith)
step-IsDrained c (receives seg) (v, q) small short = elim (Bool-cases (active c)) [
  | inr off ↦ rw (segment_received-inactive c seg off) (v, q)
  | inl on ↦ elim (Bool-cases seg.header.rst) [
    | inl rst ↦
        let c' : TcpConnection = record c { time_since_last_segment_received = 0 } in
        rw (segment_received-rst c seg on rst) (set_errors-IsValid c' v, set_errors-queue c' q)
    | inr plain ↦
        let a = acked-lem c seg v (omega (arith, v.stream.bounded)) short in
        let h = handed c seg in
        rw (segment_received-taken c seg on plain) (
          IsValid-queue h.sender [] (
              reply-IsValid seg (Receiver.ackno h.receiver) (acked c seg) a.0
                (omega (arith, a.1, v.stream.bounded))),
          refl,
        )
  ]
]
