-- ===== src/TcpSender/Invariant.antt =====
-- The invariant of a sender: the remembered segments are consecutive up to `next_seqno`, and
-- `bytes_in_flight` is the sequence space that they take.
use sponge_fa.Prelude.{
  ℕ_discrete, Option, add64, ℕ, ◌+◌, ◌-◌, ◌^◌, ◌≤◌, ◌<◌, ◌≡◌, refl, sym, Bool, List, [], ◌∷◌, ◌++◌,
  length, arith,
}
use mathlib.Core.Path.{subst}
use sponge_fa.ByteStream.Invariant as StreamInvariant
use sponge_fa.TcpSegment.{TcpSegment, length_in_sequence_space}
use sponge_fa.TcpConfig.{max_payload_size}
use sponge_fa.TcpSender.{
  TcpSender, send_segment, numbered, Outstanding, new, sum_in_flight, bytes_in_flight,
}
use sponge_fa.TcpSender.Segments.{book, InFlight, InFlight-book, InFlight-append, InFlight-le}
use sponge_fa.TcpSender.Fill.{Filled, send_segment_lem}

pub record IsValid (s : TcpSender) : Type 0 where
  pub stream : StreamInvariant.IsValid s.stream
  pub oldest : ℕ
  pub flight : InFlight s.isn oldest s.segments_outstanding s.next_seqno
  pub acked : s.last_ackno ≤ s.next_seqno
  pub window : s.window_size < 2 ^ 16
  pub opening : s.next_seqno ≡ 0 → s.window_size ≡ 1

-- Numbers stay below 2 ^ 64 for what is buffered, the FIN and a full window.
abbrev pub IsSmall : TcpSender → Type 0
IsSmall s = s.next_seqno + length s.stream.buffer + 2 ^ 17 < 2 ^ 64

pub new-IsValid :
    (capacity timeout : ℕ) (isn : Option ℕ) (random : ℕ)
    → capacity < 2 ^ 64
    → IsValid (new capacity timeout isn random)
unfolding new
new-IsValid capacity timeout isn random h = record {
  stream = StreamInvariant.new-IsValid capacity h;
  oldest = 0;
  flight = refl;
  acked = omega arith;
  window = omega arith;
  opening = λ e. refl;
}

sum_in_flight_lem :
    (isn lo hi total : ℕ) (xs : List Outstanding)
    → InFlight isn lo xs hi
    → total + (hi - lo) < 2 ^ 64
    → sum_in_flight total xs + lo ≡ total + hi
unfolding sum_in_flight
sum_in_flight_lem isn lo hi total [] f h = omega arith
sum_in_flight_lem isn lo hi total (o ∷ xs) f h =
    let n : ℕ = length_in_sequence_space o.segment in
    let below = InFlight-le isn (lo + n) hi xs f.4 in
    let e : add64 total n ≡ total + n = omega arith in
    rw e (omega (arith, sum_in_flight_lem isn (lo + n) hi (total + n) xs f.4 (omega arith)))

-- `bytes_in_flight` counts exactly the sequence numbers from the oldest segment that is remembered
-- up to the next one to send.
pub bytes_in_flight_lem :
    (s : TcpSender) (v : IsValid s)
    → s.next_seqno < 2 ^ 64
    → bytes_in_flight s + v.oldest ≡ s.next_seqno
unfolding bytes_in_flight
bytes_in_flight_lem s v h = omega (
  arith,
  sum_in_flight_lem s.isn v.oldest s.next_seqno 0 s.segments_outstanding v.flight (omega arith),
)

-- Filling the window keeps the invariant.
pub Filled-IsValid :
    (s : TcpSender) (num : ℕ) (z : Bool) (s' : TcpSender)
    → 0 < s.next_seqno
    → IsValid s
    → Filled s num z s'
    → IsValid s'
Filled-IsValid s num z s' started v f =
    let booked = InFlight-book s.isn s.next_seqno s'.next_seqno z f.sent f.numbers in
    let grown =
      InFlight-append s.isn v.oldest s.next_seqno s'.next_seqno s.segments_outstanding _ v.flight
        booked in
    let above = InFlight-le s.isn s.next_seqno s'.next_seqno _ booked in
    record {
      stream = f.stream;
      oldest = v.oldest;
      flight =
          subst (λ i. InFlight i v.oldest s'.segments_outstanding s'.next_seqno) (sym f.same.0)
            (subst (λ xs. InFlight s.isn v.oldest xs s'.next_seqno) (sym f.remembered) grown);
      acked = omega (arith, f.same, v.acked);
      window = omega (arith, f.same, v.window);
      opening = λ e. absurd (omega arith);
    }

-- A segment without sequence space is queued, and nothing else changes.
pub send_segment-empty :
    (s : TcpSender) (seg : TcpSegment) (z : Bool)
    → length_in_sequence_space seg ≡ 0
    → s.next_seqno < 2 ^ 64
    → send_segment s seg z ≡ record s { segments_out = s.segments_out ++ (numbered s seg ∷ []) }
unfolding send_segment
send_segment-empty s seg z none_ small = ground arith

-- Sending any one segment keeps the invariant.
pub send_segment-IsValid :
    (s : TcpSender) (seg : TcpSegment) (z : Bool)
    → length seg.payload ≤ max_payload_size
    → s.next_seqno + length_in_sequence_space seg < 2 ^ 64
    → IsValid s
    → IsValid (send_segment s seg z)
unfolding numbered length_in_sequence_space
send_segment-IsValid s seg z fits small v = elim (ℕ_discrete (length_in_sequence_space seg) 0) [
  | yes none_ ↦ rw (send_segment-empty s seg z none_ (omega arith)) (record {
    stream = v.stream;
    oldest = v.oldest;
    flight = v.flight;
    acked = v.acked;
    window = v.window;
    opening = v.opening;
  })
  | no some_ ↦
      let next : ℕ = s.next_seqno + length_in_sequence_space seg in
      let segs = numbered s seg ∷ [] in
      rw (send_segment_lem s seg z (omega arith) small) (record {
        stream = v.stream;
        oldest = v.oldest;
        flight =
            InFlight-append s.isn v.oldest s.next_seqno next s.segments_outstanding
              (book s.next_seqno z segs) v.flight
              (InFlight-book s.isn s.next_seqno next z segs (refl, omega arith, fits, refl));
        acked = omega (arith, v.acked);
        window = v.window;
        opening = λ e. absurd (omega arith);
      })
]
