-- ===== src/TcpSender/History.antt =====
-- Any history of a sender's methods that send, and of what is written to its stream.
use sponge_fa.Prelude.{
  false, inl, ℕ, ◌+◌, ◌^◌, ◌≤◌, ◌<◌, ◌≡◌, refl, sym, List, [], ◌∷◌, ◌++◌, append-nil, length,
  length-append, take, length-take, arith, Option,
}
use mathlib.Core.Path.{subst}
use sponge_fa.WrappingInt32.{WrappingInt32}
use sponge_fa.TcpHeader.{TcpHeader, default_header}
use sponge_fa.ByteStream as Stream
use sponge_fa.ByteStream.{ByteStream}
use sponge_fa.TcpSender as Sender
use sponge_fa.TcpSender.{TcpSender, Outstanding, new, note_ack, remove_outstanding_segments}
use sponge_fa.TcpSender.Invariant.{new-IsValid}
use sponge_fa.TcpSender.Streams.{Streams, in_flight, Streams-fill_window}
use sponge_fa.TcpSender.Steps.{
  Streams-IsSmall, Streams-write, Streams-end_input, Streams-tick, Streams-ack_received,
  Streams-empty,
}

-- The calls of the writer, of the peer's acknowledgments, of the clock and of the connection.
pub data Op : Type 0 where
  write : List ℕ → Op
  end_input : Op
  fill_window : Op
  ack_received : WrappingInt32 → ℕ → Op
  tick : ℕ → Op
  send_empty_segment : Op
  send_empty_segment_with_this_header : TcpHeader → Op

-- One call: the sender, and what its stream has taken.
unfoldable pub step : TcpSender → Op → TcpSender × List ℕ
unfolding Stream.write Stream.end_input Sender.fill_window Sender.ack_received Sender.tick
    Sender.send_empty_segment Sender.send_empty_segment_with_this_header
step s (Op.write bytes) =
    let (stream', n) = Stream.write s.stream bytes in (record s { stream = stream' }, take n bytes)
step s Op.end_input = (record s { stream = Stream.end_input s.stream }, [])
step s Op.fill_window = (Sender.fill_window s, [])
step s (Op.ack_received ackno window_size) = (Sender.ack_received s ackno window_size, [])
step s (Op.tick ms) = (Sender.tick s ms, [])
step s Op.send_empty_segment = (Sender.send_empty_segment s, [])
step s (Op.send_empty_segment_with_this_header header) =
    (Sender.send_empty_segment_with_this_header s header, [])

-- All calls in order, and all that the stream has taken, behind `taken`.
unfoldable pub run : TcpSender → List ℕ → List Op → TcpSender × List ℕ
unfolding step
run s taken [] = (s, taken)
run s taken (op ∷ ops) = let (s', more) = step s op in run s' (taken ++ more) ops

-- What is written at most.
abbrev pub offered : List Op → ℕ
offered [] = 0
offered (Op.write bytes ∷ ops) = length bytes + offered ops
offered (op ∷ ops) = offered ops

-- Windows of 16 bits, and no SYN or FIN in the header of an empty segment.
abbrev pub AllOrdinary : List Op → Type 0
AllOrdinary [] = Unit
AllOrdinary (Op.ack_received ackno window_size ∷ ops) = (window_size < 2 ^ 16) × AllOrdinary ops
AllOrdinary (Op.send_empty_segment_with_this_header header ∷ ops) =
    (header.syn ≡ false) × (header.fin ≡ false) × AllOrdinary ops
AllOrdinary (op ∷ ops) = AllOrdinary ops

-- One call keeps the sender in step with its stream.
Streams-step :
    (isn : WrappingInt32) (whole : List ℕ) (s : TcpSender) (op : Op)
    → length whole < 2 ^ 32
    → AllOrdinary (op ∷ [])
    → Streams isn whole s
    → Streams isn (whole ++ (step s op).1) (step s op).0
unfolding step
Streams-step isn whole s (Op.write bytes) few short t = Streams-write isn whole bytes s t
Streams-step isn whole s Op.end_input few short t =
    subst (λ w. Streams isn w (record s { stream = Stream.end_input s.stream }))
      (sym (append-nil whole)) (Streams-end_input isn whole s t)
Streams-step isn whole s Op.fill_window few short t =
    subst (λ w. Streams isn w (Sender.fill_window s)) (sym (append-nil whole))
      (Streams-fill_window isn whole s (Streams-IsSmall isn whole s few t) t)
Streams-step isn whole s (Op.ack_received ackno window_size) few short t =
    subst (λ w. Streams isn w (Sender.ack_received s ackno window_size)) (sym (append-nil whole))
      (Streams-ack_received isn whole s ackno window_size (Streams-IsSmall isn whole s few t)
        short.0 t)
Streams-step isn whole s (Op.tick ms) few short t =
    subst (λ w. Streams isn w (Sender.tick s ms)) (sym (append-nil whole))
      (Streams-tick isn whole s ms t)
Streams-step isn whole s Op.send_empty_segment few short t =
    subst (λ w. Streams isn w (Sender.send_empty_segment s)) (sym (append-nil whole))
      (Streams-empty isn whole s default_header refl refl (Streams-IsSmall isn whole s few t) t)
Streams-step isn whole s (Op.send_empty_segment_with_this_header header) few short t =
    subst (λ w. Streams isn w (Sender.send_empty_segment_with_this_header s header))
      (sym (append-nil whole))
      (Streams-empty isn whole s header short.0 short.1 (Streams-IsSmall isn whole s few t) t)

step-offered : (s : TcpSender) (op : Op) → length (step s op).1 ≤ offered (op ∷ [])
unfolding step
step-offered s (Op.write bytes) = omega (arith, length-take (Stream.write s.stream bytes).1 bytes)
step-offered s Op.end_input = omega arith
step-offered s Op.fill_window = omega arith
step-offered s (Op.ack_received ackno window_size) = omega arith
step-offered s (Op.tick ms) = omega arith
step-offered s Op.send_empty_segment = omega arith
step-offered s (Op.send_empty_segment_with_this_header header) = omega arith

offered-cons : (op : Op) (ops : List Op) → offered (op ∷ ops) ≡ offered (op ∷ []) + offered ops
offered-cons (Op.write bytes) ops = omega arith
offered-cons Op.end_input ops = omega arith
offered-cons Op.fill_window ops = omega arith
offered-cons (Op.ack_received ackno window_size) ops = omega arith
offered-cons (Op.tick ms) ops = omega arith
offered-cons Op.send_empty_segment ops = omega arith
offered-cons (Op.send_empty_segment_with_this_header header) ops = omega arith

AllOrdinary-cons :
    (op : Op) (ops : List Op) → AllOrdinary (op ∷ ops) → AllOrdinary (op ∷ []) × AllOrdinary ops
AllOrdinary-cons (Op.write bytes) ops a = (record {}, a)
AllOrdinary-cons Op.end_input ops a = (record {}, a)
AllOrdinary-cons Op.fill_window ops a = (record {}, a)
AllOrdinary-cons (Op.ack_received ackno window_size) ops a = ((a.0, record {}), a.1)
AllOrdinary-cons (Op.tick ms) ops a = (record {}, a)
AllOrdinary-cons Op.send_empty_segment ops a = (record {}, a)
AllOrdinary-cons (Op.send_empty_segment_with_this_header header) ops (a, b, rest) =
    ((a, b, record {}), rest)

-- A whole history keeps the sender in step with what its stream has taken.
pub Streams-run :
    (isn : WrappingInt32) (ops : List Op) (s : TcpSender) (whole : List ℕ)
    → length whole + offered ops < 2 ^ 32
    → AllOrdinary ops
    → Streams isn whole s
    → Streams isn (run s whole ops).1 (run s whole ops).0
      × (length (run s whole ops).1 ≤ length whole + offered ops)
unfolding run
Streams-run isn [] s whole few short t = (t, omega arith)
Streams-run isn (op ∷ ops) s whole few short t =
    let (first, rest) = AllOrdinary-cons op ops short in
    let more = (step s op).1 in
    let grown = length-append whole more in
    let le = step-offered s op in
    let sum = offered-cons op ops in
    let (t', fits) =
      Streams-run isn ops (step s op).0 (whole ++ more) (omega (arith, grown, le, sum)) rest
        (Streams-step isn whole s op (omega arith) first t) in
    (t', omega (arith, fits, grown, le, sum))

pub new-Streams :
    (capacity timeout : ℕ) (isn : Option WrappingInt32) (random : WrappingInt32)
    → capacity < 2 ^ 64
    → Streams (new capacity timeout isn random).isn [] (new capacity timeout isn random)
unfolding new Stream.new in_flight
new-Streams capacity timeout isn random h = record {
  valid = new-IsValid capacity timeout isn random h;
  initial = refl;
  out = [];
  split = refl;
  position = inl (refl, refl, refl);
  closed = λ e. absurd cc;
  flight = record {};
  queue = record {};
}
