-- ===== src/TcpReceiver/Acknowledged.antt =====
-- What a receiver acknowledges of the stream that its peer sends.
use sponge_fa.Prelude.{
  inl, inr, ◌⊎◌, ◌∙◌, ap, sym, ℕ, ◌+◌, ◌-◌, ◌^◌, ◌<◌, ◌≡◌, refl, true, false, List, [], ◌∷◌, length,
  length-take, take, some, arith,
}
use mathlib.Core.Path.{subst}
use sponge_fa.WrappingInt32.{WrappingInt32, wrap}
use sponge_fa.StreamReassembler.Carried.{Genuine, Carries}
use sponge_fa.TcpSegment.{TcpSegment}
use sponge_fa.TcpReceiver.{
  TcpReceiver, new, segment_received, place_segment, ackno, window_size, stream_out,
}
use sponge_fa.TcpReceiver.Placement.{placed, segment_received-first}
use sponge_fa.TcpReceiver.Invariant.{IsValid, ackno_lem, ended_count, absolute_ackno}
use sponge_fa.TcpReceiver.Delivery.{receive, AllFromPeer, segments, receive-Carries}

step_started :
    (r : TcpReceiver) (seg : TcpSegment)
    → r.syn_recived ≡ true
    → ((segment_received r seg).syn_recived ≡ true) × ((segment_received r seg).isn ≡ r.isn)
unfolding segment_received place_segment
step_started r seg on = rw on (refl, refl)

-- Once it knows the SYN, a receiver keeps the initial number.
receive_started :
    (r : TcpReceiver) (segs : List TcpSegment)
    → r.syn_recived ≡ true
    → ((receive r segs).syn_recived ≡ true) × ((receive r segs).isn ≡ r.isn)
unfolding receive
receive_started r [] on = (on, refl)
receive_started r (seg ∷ segs) on =
    let (on', same) = receive_started (segment_received r seg) segs (step_started r seg on).0 in
    (on', same ∙ (step_started r seg on).1)

first_started :
    (capacity : ℕ) (syn : TcpSegment) (segs : List TcpSegment)
    → syn.header.syn ≡ true
    → syn.header.seqno < 2 ^ 32
    → let r = receive (new capacity) (syn ∷ segs) in
      (r.syn_recived ≡ true) × (r.isn ≡ syn.header.seqno)
unfolding receive new
first_started capacity syn segs is_syn initial =
    let r₀ = new capacity in
    let r₁ : TcpReceiver =
      placed (record r₀ { syn_recived = true; isn = syn.header.seqno }) syn 0 in
    let e : segment_received r₀ syn ≡ r₁ = segment_received-first r₀ syn refl refl is_syn initial in
    subst (λ t. ((receive t segs).syn_recived ≡ true) × ((receive t segs).isn ≡ syn.header.seqno))
      (sym e) (receive_started r₁ segs refl)

-- What a receiver with the initial number `isn` acknowledges and announces, whose output is all that it
-- has taken of the stream.
abbrev pub Acknowledges : List ℕ → ℕ → WrappingInt32 → TcpReceiver → Type 0
Acknowledges whole capacity isn r =
    let out = (stream_out r).buffer in
    (ackno r ≡ some (wrap (length out + 1 + ended_count r) isn))
    × (window_size r ≡ capacity - length out)
    × (out ≡ take (length out) whole)
    × ((stream_out r).end_input ≡ true → out ≡ whole)

Carries-Acknowledges :
    (whole : List ℕ) (capacity : ℕ) (isn : WrappingInt32) (r : TcpReceiver)
    → length whole + capacity < 2 ^ 64 - 2 ^ 33
    → isn < 2 ^ 32
    → (r.syn_recived ≡ true) × (r.isn ≡ isn)
    → Carries whole capacity [] r.reassembler
    → ((stream_out r).end_input ≡ false) ⊎ ((stream_out r).buffer ≡ whole)
    → Acknowledges whole capacity isn r
Carries-Acknowledges whole capacity isn r small initial (on, same) c ends =
    let out = (stream_out r).buffer in
    let next : length out ≡ r.reassembler.next_index =
      omega (arith, ap length c.got, length-take r.reassembler.next_index whole, c.inside) in
    let valid : IsValid r = record {
      reassembler = c.valid;
      initial = omega (arith, same);
      silent = λ off. absurd cc;
    } in
    let (acks, room) = ackno_lem r valid (omega (arith, c.inside)) in
    (
      acks
          ∙ rw on (
              ap (λ i. some (wrap (absolute_ackno r) i)) same
              ∙ ap (λ n. some (wrap (n + 1 + ended_count r) isn)) (sym next)),
      room ∙ ap (λ n. n - length out) c.sized,
      c.got ∙ ap (λ n. take n whole) (sym next),
      λ end_. elim ends [ inl open_ ↦ absurd cc | inr all ↦ all ],
    )

-- A receiver that gets the peer's SYN first and then segments of the peer's stream or empty ones, in
-- any order, repeated or lost, each within 2 ^ 31 of the one before, none with the number of the SYN,
-- and whose output is not read: it acknowledges exactly the SYN, the bytes in its output, which are a
-- prefix of the peer's stream, and the FIN if the output has ended, which is then the whole stream; and
-- it announces the room that is left.
pub receive-Acknowledges :
    (whole : List ℕ) (capacity : ℕ) (syn : TcpSegment) (segs : List (ℕ × TcpSegment))
    → length whole + capacity < 2 ^ 64 - 2 ^ 33
    → syn.header.syn ≡ true
    → syn.header.seqno < 2 ^ 32
    → Genuine whole syn.payload 0 syn.header.fin
    → AllFromPeer whole syn.header.seqno 0 segs
    → Acknowledges whole capacity syn.header.seqno (receive (new capacity) (syn ∷ segments segs))
receive-Acknowledges whole capacity syn segs small is_syn initial piece all =
    let (c, ends) = receive-Carries whole capacity syn segs small is_syn initial piece all in
    Carries-Acknowledges whole capacity syn.header.seqno
      (receive (new capacity) (syn ∷ segments segs)) small initial
      (first_started capacity syn (segments segs) is_syn initial) c ends
