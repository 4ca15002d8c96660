-- ===== src/Transfer.antt =====
-- From the stream that is written at one end to the output at the other: the sender of
-- libsponge/tcp_sender.cc and the receiver of libsponge/tcp_receiver.cc, with a network between them
-- that may lose, repeat and reorder segments.
mod Tests
use sponge_fa.Prelude.{
  ◌≢◌, ◌⊎◌, inl, inr, ℕ, ◌+◌, ◌-◌, ◌^◌, ◌≤◌, ◌<◌, ◌≡◌, ◌∙◌, refl, ap, sym, Bool, true, false, List,
  [], ◌∷◌, ◌++◌, length, length-append, arith, Option,
}
use mathlib.Core.List.{Memᴰ}
use mathlib.Core.List.Memᴰ
use mathlib.Core.Path.{subst}
use sponge_fa.WrappingInt32.{WrappingInt32, wrap}
use sponge_fa.WrappingInt32.Nearest.{distance}
use sponge_fa.StreamReassembler.Carried.{Genuine, Carries}
use sponge_fa.TcpSegment.{TcpSegment}
use sponge_fa.TcpSender as Sender
use sponge_fa.TcpSender.{TcpSender}
use sponge_fa.TcpSender.Pieces.{AllSent-extend, IsSyn, IsPiece, IsSent, AllSent}
use sponge_fa.TcpSender.Streams.{Streams}
use sponge_fa.TcpSender.History.{Op, run, offered, AllOrdinary, Streams-run, new-Streams}
use sponge_fa.TcpReceiver as Receiver
use sponge_fa.TcpReceiver.{TcpReceiver, stream_out}
use sponge_fa.TcpReceiver.Delivery.{receive, FromPeer, AllFromPeer, segments, receive-Carries}

-- Segments that were in a queue, in any order, as often as one likes, none with the initial number.
abbrev pub Delivered : WrappingInt32 → List TcpSegment → List TcpSegment → Type 0
Delivered isn queue [] = Unit
Delivered isn queue (seg ∷ segs) =
    Memᴰ seg queue × (seg.header.seqno ≢ isn) × Delivered isn queue segs

AllSent-Mem :
    (isn : WrappingInt32) (out : List ℕ) (closed : Bool) (queue : List TcpSegment)
    (seg : TcpSegment)
    → AllSent isn out closed queue
    → Memᴰ seg queue
    → IsSent isn out closed seg
AllSent-Mem isn out closed [] seg all m = absurd (Memᴰ.not-nil m)
AllSent-Mem isn out closed (x ∷ queue) seg all m = elim (Memᴰ.cases_cons m) [
  | inl e ↦ subst (IsSent isn out closed) (sym e) all.0
  | inr m ↦ AllSent-Mem isn out closed queue seg all.1 m
]

-- What is queued, seen as pieces of all that was written.
queue-AllSent :
    (isn : WrappingInt32) (whole : List ℕ) (s : TcpSender)
    → Streams isn whole s
    → AllSent isn whole s.fin_sent s.segments_out
queue-AllSent isn whole s t =
    subst (λ w. AllSent isn w s.fin_sent s.segments_out) t.split
      (AllSent-extend isn t.out s.stream.buffer s.fin_sent s.fin_sent s.segments_out
        (λ e. (e, (t.closed e).0)) t.queue)

wrap-zero : (isn : WrappingInt32) → isn < 2 ^ 32 → wrap 0 isn ≡ isn
unfolding wrap
wrap-zero isn small = omega arith

-- A segment that was sent and does not have the initial number is a piece or an empty segment.
IsSent-FromPeer :
    (isn : WrappingInt32) (whole : List ℕ) (closed : Bool) (seg : TcpSegment) (last : ℕ)
    → isn < 2 ^ 32
    → length whole + 2 < 2 ^ 31
    → last ≤ length whole + 1
    → seg.header.seqno ≢ isn
    → IsSent isn whole closed seg
    → (m : ℕ) × FromPeer whole isn last m seg
IsSent-FromPeer isn whole closed seg last initial short near other sent = elim sent [
  | inl syn ↦ absurd (other (syn.number ∙ wrap-zero isn initial))
  | inr (inl b) ↦
      let later : b.seqno ≢ 0 =
        λ z. other (b.number ∙ (ap (λ n. wrap n isn) z ∙ wrap-zero isn initial)) in
      (
        b.seqno,
        record {
          number = b.number;
          behind_syn = omega arith;
          near = omega (arith, b.bounded);
          bounded = b.bounded;
          piece = inr (record { no_payload = b.no_payload; no_fin = b.no_fin });
        },
      )
  | inr (inr p) ↦ (
    p.seqno,
    record {
      number = p.number;
      behind_syn = p.behind_syn;
      near = omega (arith, p.piece.within);
      bounded = omega (arith, p.piece.within);
      piece = inl p.piece;
    },
  )
]

-- The segments that are delivered, with their numbers.
Delivered-FromPeer :
    (isn : WrappingInt32) (whole : List ℕ) (closed : Bool) (queue segs : List TcpSegment) (last : ℕ)
    → isn < 2 ^ 32
    → length whole + 2 < 2 ^ 31
    → last ≤ length whole + 1
    → AllSent isn whole closed queue
    → Delivered isn queue segs
    → (pairs : List (ℕ × TcpSegment)) × (segments pairs ≡ segs) × AllFromPeer whole isn last pairs
Delivered-FromPeer isn whole closed queue [] last initial short near all d = ([], refl, record {})
Delivered-FromPeer isn whole closed queue (seg ∷ segs) last initial short near all d =
    let (m, first) =
      IsSent-FromPeer isn whole closed seg last initial short near d.1
        (AllSent-Mem isn whole closed queue seg all d.0) in
    let (pairs, e, rest) =
      Delivered-FromPeer isn whole closed queue segs (m - 1) initial short
        (omega (arith, first.bounded)) all d.2 in
    ((m, seg) ∷ pairs, ap (◌∷◌ seg) e, (first, rest))

-- The SYN itself.
syn-first :
    (isn : WrappingInt32) (whole : List ℕ) (closed : Bool) (seg : TcpSegment)
    → isn < 2 ^ 32
    → seg.header.syn ≡ true
    → IsSent isn whole closed seg
    → (seg.header.seqno ≡ isn) × Genuine whole seg.payload 0 seg.header.fin
syn-first isn whole closed seg small on sent = elim sent [
  | inr (inl b) ↦ absurd (let off = b.plain in cc)
  | inr (inr p) ↦ absurd (let off = p.plain in cc)
  | inl syn ↦
      let nothing = ap length syn.no_payload in
      (
        syn.number ∙ wrap-zero isn small,
        record {
          within = omega (arith, nothing);
          agrees = λ j h. absurd (omega (arith, nothing));
          last = λ e. absurd (let off = syn.no_fin in cc);
        },
      )
]

-- From a sender's history to the receiver: take any calls of the methods of a new sender, and let
-- `whole` be what its stream has taken, if the writer offers less than 2 ^ 31 - 2 bytes in all, the
-- acknowledgments have windows of 16 bits, and the headers of empty segments have neither SYN nor FIN.
-- Give a receiver first the SYN and then any of the segments that the sender has queued, in any order,
-- lost or repeated, but none that has the number of the SYN. Then the output of the receiver is a
-- prefix of `whole`, what it holds behind is of `whole`, and if its output has ended, it is all of
-- `whole`.
pub receive-run :
    (send_capacity timeout recv_capacity : ℕ) (fixed_isn : Option WrappingInt32)
    (random : WrappingInt32) (ops : List Op) (s : TcpSender) (whole : List ℕ) (syn : TcpSegment)
    (segs : List TcpSegment)
    → send_capacity < 2 ^ 64
    → recv_capacity < 2 ^ 63
    → (Sender.new send_capacity timeout fixed_isn random).isn < 2 ^ 32
    → offered ops + 2 < 2 ^ 31
    → AllOrdinary ops
    → run (Sender.new send_capacity timeout fixed_isn random) [] ops ≡ (s, whole)
    → Memᴰ syn s.segments_out
    → syn.header.syn ≡ true
    → Delivered syn.header.seqno s.segments_out segs
    → let r = receive (Receiver.new recv_capacity) (syn ∷ segs) in
      Carries whole recv_capacity [] r.reassembler
      × (((stream_out r).end_input ≡ false) ⊎ ((stream_out r).buffer ≡ whole))
receive-run send_capacity timeout recv_capacity fixed_isn random ops s whole syn segs sized received
      initial few short history first on rest =
    let s₀ = Sender.new send_capacity timeout fixed_isn random in
    let (t₀, fits₀) =
      Streams-run s₀.isn ops s₀ [] (omega arith) short
        (new-Streams send_capacity timeout fixed_isn random sized) in
    let t = subst (λ (h : TcpSender × List ℕ). Streams s₀.isn h.1 h.0) history t₀ in
    let fits : length whole ≤ offered ops = omega (arith, fits₀, ap (λ h. length h.1) history) in
    let all = queue-AllSent s₀.isn whole s t in
    let (number, piece) =
      syn-first s₀.isn whole s.fin_sent syn initial on
        (AllSent-Mem s₀.isn whole s.fin_sent s.segments_out syn all first) in
    let (pairs, e, peer) =
      Delivered-FromPeer s₀.isn whole s.fin_sent s.segments_out segs 0 initial (omega (arith, fits))
        (omega arith) all (subst (λ i. Delivered i s.segments_out segs) number rest) in
    let result =
      receive-Carries whole recv_capacity syn pairs (omega (arith, fits)) on (omega (arith, number))
        piece (subst (λ i. AllFromPeer whole i 0 pairs) (sym number) peer) in
    subst
      (λ segs.
        let r = receive (Receiver.new recv_capacity) (syn ∷ segs) in
        Carries whole recv_capacity [] r.reassembler
        × (((stream_out r).end_input ≡ false) ⊎ ((stream_out r).buffer ≡ whole)))
      e result
