-- ===== src/TcpSender/Window.antt =====
-- `fill_window`: how much is sent, and what the invariant says behind it.
use sponge_fa.Prelude.{
  ◌≢◌, ne→==, eq→==, ℕ_discrete, add64, ℕ, ◌+◌, ◌-◌, ◌^◌, ◌≤◌, ◌<◌, ◌≡◌, inl, inr, refl, ap, sym,
  Bool, true, false, [], ◌∷◌, ◌++◌, length, if◌then◌else◌, arith, ◌==◌, ◌&&◌, Bool-cases,
}
use mathlib.Core.Path.{subst}
use sponge_fa.TcpSegment.{length_in_sequence_space}
use sponge_fa.TcpSender.{
  TcpSender, send_segment, syn_segment, numbered, window_left, fill_open_window, fill_window,
}
use sponge_fa.TcpSender.Segments.{flag-le-one, flag, book}
use sponge_fa.TcpSender.Fill.{Filled, send_segment_lem}
use sponge_fa.TcpSender.Loop.{fill_loop-Filled}
use sponge_fa.TcpSender.Invariant.{IsValid, IsSmall, Filled-IsValid, send_segment-IsValid}

-- Whether a zero window is probed.
abbrev pub probing : TcpSender → Bool
probing s = s.window_size == 0 && s.window_zero_valid

-- What may be sent: the rest of the window, and one byte for a probe.
abbrev pub budget : TcpSender → ℕ
budget s = (s.last_ackno + s.window_size - s.next_seqno) + flag (probing s)

window_left_lem :
    (s : TcpSender)
    → s.last_ackno + s.window_size < 2 ^ 64
    → window_left s ≡ s.last_ackno + s.window_size - s.next_seqno
unfolding window_left
window_left_lem s h = ground arith

Filled-probe :
    (s s' : TcpSender) (num : ℕ) (z : Bool)
    → Filled (record s { window_zero_valid = false }) num z s'
    → Filled s num z s'
Filled-probe s s' num z f = record {
  sent = f.sent;
  queued = f.queued;
  remembered = f.remembered;
  numbers = f.numbers;
  bytes = f.bytes;
  within = f.within;
  greedy = f.greedy;
  space = f.space;
  same = f.same;
  stream = f.stream;
  same_end = f.same_end;
  fins = f.fins;
  finished = f.finished;
}

pub fill_open_window-Filled :
    (s : TcpSender)
    → IsValid s
    → s.next_seqno + length s.stream.buffer + 2 ^ 16 + 2 < 2 ^ 64
    → Filled s (budget s) (probing s) (fill_open_window s)
unfolding fill_open_window
fill_open_window-Filled s v small =
    let left = window_left_lem s (omega arith) in
    let room : s.next_seqno + length s.stream.buffer + 1 < 2 ^ 64 + flag s.fin_sent = omega arith in
    let w : ℕ = s.last_ackno + s.window_size - s.next_seqno in
    elim (Bool-cases (probing s)) [
      | inl probe ↦
          let e : add64 (window_left s) 1 ≡ w + 1 = omega (arith, left) in
          rw (probe, e)
            (Filled-probe s _ (w + 1) true (
              fill_loop-Filled (w + 1) (w + 1) (record s { window_zero_valid = false }) true
                (omega arith) (omega arith) room v.stream))
      | inr plain ↦
          let e : w + 0 ≡ w = omega arith in
          rw (plain, left, e)
            (fill_loop-Filled w w s false (omega arith) (omega arith) room v.stream)
    ]

-- The sender behind the SYN that `fill_window` sends first, if nothing was sent yet.
abbrev pub opened : TcpSender → TcpSender
opened s = if s.next_seqno == 0 then send_segment s syn_segment false else s

length-syn : (s : TcpSender) → length_in_sequence_space syn_segment ≡ 1
unfolding length_in_sequence_space
length-syn s = refl

pub open_lem :
    (s : TcpSender)
    → s.next_seqno ≡ 0
    → send_segment s syn_segment false ≡ record s {
      next_seqno = s.next_seqno + length_in_sequence_space syn_segment;
      segments_out = s.segments_out ++ (numbered s syn_segment ∷ []);
      timer_enable = true;
      segments_outstanding =
          s.segments_outstanding ++ book s.next_seqno false (numbered s syn_segment ∷ []);
    }
open_lem s e =
    send_segment_lem s syn_segment false (omega (arith, length-syn s)) (omega (arith, length-syn s))

-- Opening keeps the invariant, and leaves a sender that has started.
pub opened-IsValid :
    (s : TcpSender)
    → IsValid s
    → IsSmall s
    → IsValid (opened s)
      × (0 < (opened s).next_seqno)
      × ((opened s).next_seqno ≤ s.next_seqno + 1)
      × ((opened s).stream ≡ s.stream)
opened-IsValid s v small = elim (ℕ_discrete s.next_seqno 0) [
  | yes e ↦
      let kept =
        send_segment-IsValid s syn_segment false (omega arith) (omega (arith, length-syn s)) v in
      let sent = open_lem s e in
      rw (eq→== s.next_seqno 0 e) (
        kept,
        rw sent (omega (arith, length-syn s)),
        rw sent (omega (arith, length-syn s)),
        rw sent refl,
      )
  | no ne ↦ rw (ne→== s.next_seqno 0 ne) (v, omega arith, omega arith, refl)
]

fill_window_lem : (s : TcpSender) → s.fin_sent ≡ false → fill_window s ≡ fill_open_window (opened s)
unfolding fill_window
fill_window_lem s unsent = elim (ℕ_discrete s.next_seqno 0) [
  | yes e ↦ rw (unsent, eq→== s.next_seqno 0 e) refl
  | no ne ↦ rw (unsent, ne→== s.next_seqno 0 ne) refl
]

-- `fill_window` of a sender that has not sent its FIN, for sequence numbers that stay below 2 ^ 64:
-- behind the SYN, if that was still to be sent, it sends consecutively numbered segments of at most
-- the maximal payload that cut the front off the stream; it spends at most what the window leaves,
-- and one more byte to probe a zero window; and it stops only when that is used up, or when the
-- stream is empty and not ended, or the FIN is sent.
pub fill_window-Filled :
    (s : TcpSender)
    → IsValid s
    → IsSmall s
    → s.fin_sent ≡ false
    → Filled (opened s) (budget (opened s)) (probing (opened s)) (fill_window s)
fill_window-Filled s v small unsent =
    let o = opened-IsValid s v small in
    let same = ap (λ st. length st.buffer) o.3 in
    subst (Filled (opened s) (budget (opened s)) (probing (opened s)))
      (sym (fill_window_lem s unsent))
      (fill_open_window-Filled (opened s) o.0 (omega (arith, o.2, same)))

pub fill_window-fin : (s : TcpSender) → s.fin_sent ≡ true → fill_window s ≡ s
unfolding fill_window
fill_window-fin s e = rw e

-- What is numbered and what is buffered grow by the SYN and the FIN at most.
pub fill_window-space :
    (s : TcpSender)
    → IsValid s
    → IsSmall s
    → (fill_window s).next_seqno + length (fill_window s).stream.buffer
      ≤ s.next_seqno + length s.stream.buffer + 2
fill_window-space s v small = elim (Bool-cases s.fin_sent) [
  | inl e ↦
      let same = ap (λ t. t.next_seqno + length t.stream.buffer) (fill_window-fin s e) in
      omega (arith, same)
  | inr e ↦
      let o = opened-IsValid s v small in
      let f = fill_window-Filled s v small e in
      let same = ap (λ st. length st.buffer) o.3 in
      omega (arith, o.2, same, f.space, flag-le-one (fill_window s).fin_sent)
]

-- `fill_window` keeps the invariant.
pub fill_window-IsValid : (s : TcpSender) → IsValid s → IsSmall s → IsValid (fill_window s)
fill_window-IsValid s v small = elim (Bool-cases s.fin_sent) [
  | inl e ↦ subst IsValid (sym (fill_window-fin s e)) v
  | inr e ↦
      let o = opened-IsValid s v small in
      Filled-IsValid (opened s) _ _ (fill_window s) o.1 o.0 (fill_window-Filled s v small e)
]

-- A zero window that is still to be probed is probed also while sequence numbers behind the
-- acknowledged one are in flight: for a valid sender that has started, has bytes to send and has
-- not sent its FIN, `fill_window` then sends at least one more number, up to one that is not the first
-- behind the acknowledged one, though a window of zero counts as a window of one.
pub probe_overrun :
    (s : TcpSender)
    → IsValid s
    → IsSmall s
    → s.fin_sent ≡ false
    → s.window_size ≡ 0
    → s.window_zero_valid ≡ true
    → s.last_ackno < s.next_seqno
    → 0 < length s.stream.buffer
    → (s.next_seqno < (fill_window s).next_seqno) × (s.last_ackno + 1 < (fill_window s).next_seqno)
probe_overrun s v small unsent closed probe flying some_ =
    let started : s.next_seqno ≢ 0 = λ e. omega arith in
    let same : opened s ≡ s = rw (ne→== s.next_seqno 0 started) refl in
    let f : Filled s (budget s) (probing s) (fill_window s) =
      subst (λ t. Filled t (budget t) (probing t) (fill_window s)) same
        (fill_window-Filled s v small unsent) in
    let probed : probing s ≡ true = rw (eq→== s.window_size 0 closed, probe) refl in
    let one : budget s ≡ 1 = let counts = ap flag probed in omega (arith, counts) in
    elim f.greedy [
      | inl e ↦ (omega (arith, one, e), omega (arith, one, e))
      | inr e ↦
          let rest = ap length e.0 in
          let more : s.next_seqno < (fill_window s).next_seqno =
            omega (arith, f.space, rest, ap flag unsent) in
          (more, omega (arith, more))
    ]
