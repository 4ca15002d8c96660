-- ===== src/TcpSender/Timer.antt =====
-- `tick`: the retransmission timer and its back-off.
use sponge_fa.Prelude.{
  append_assoc, append-nil, dec_le, Bool-cases, ℕ, zero, suc, ◌+◌, ◌*◌, ◌^◌, ◌≤◌, ◌<◌, ◌≡◌, ◌∙◌,
  ◌⊎◌, inl, inr, refl, ap, sym, true, false, List, [], ◌∷◌, ◌++◌, arith, leb, u32, add32, add64,
}
use mathlib.Core.Path.{subst}
use sponge_fa.ByteStream.Invariant as StreamInvariant
use sponge_fa.TcpSender.Segments.{InFlight}
use sponge_fa.TcpSegment.{TcpSegment}
use sponge_fa.TcpSender.{TcpSender, Outstanding, tick}
use sponge_fa.TcpSender.Invariant.{IsValid}

-- The oldest segment in flight.
abbrev pub oldest_of : List Outstanding → List TcpSegment
oldest_of [] = []
oldest_of (o ∷ rest) = o.segment ∷ []

-- Time changes neither what is in flight nor any number: a tick at most queues the oldest segment
-- in flight once more.
pub record Ticked (s s' : TcpSender) : Type 0 where
  pub out :
      (s'.segments_out ≡ s.segments_out)
      ⊎ (s'.segments_out ≡ s.segments_out ++ oldest_of s.segments_outstanding)
  pub same :
      (s'.isn ≡ s.isn)
      × (s'.segments_outstanding ≡ s.segments_outstanding)
      × (s'.stream ≡ s.stream)
      × (s'.next_seqno ≡ s.next_seqno)
      × (s'.last_ackno ≡ s.last_ackno)
      × (s'.window_size ≡ s.window_size)
      × (s'.window_zero_valid ≡ s.window_zero_valid)
      × (s'.fin_sent ≡ s.fin_sent)

-- The clock that a tick of an enabled timer reaches.
abbrev pub clock : TcpSender → ℕ → ℕ
clock s ms = u32 (add64 s.retransmission_timeout ms)

tick-idle : (s : TcpSender) (ms : ℕ) → s.timer_enable ≡ false → tick s ms ≡ s
unfolding tick
tick-idle s ms off = rw off refl

pub tick-early :
    (s : TcpSender) (ms : ℕ)
    → s.timer_enable ≡ true
    → clock s ms < s.initial_retransmission_timeout
    → tick s ms ≡ record s { retransmission_timeout = clock s ms }
unfolding tick
tick-early s ms on early =
    let t : leb s.initial_retransmission_timeout (clock s ms) ≡ false = ground arith in
    rw (on, t) refl

-- An expiry with a segment in flight that is no probe.
pub tick-expired :
    (s : TcpSender) (ms : ℕ) (o : Outstanding) (rest : List Outstanding)
    → s.timer_enable ≡ true
    → s.initial_retransmission_timeout ≤ clock s ms
    → s.segments_outstanding ≡ o ∷ rest
    → o.window_zero_flag ≡ false
    → tick s ms ≡ record s {
      retransmission_timeout = 0;
      timer_enable = true;
      segments_out = s.segments_out ++ (o.segment ∷ []);
      initial_retransmission_timeout = u32 (s.initial_retransmission_timeout * 2);
      consecutive_retransmissions_count = add32 s.consecutive_retransmissions_count 1;
    }
unfolding tick
tick-expired s ms o rest on late flight plain =
    let t : leb s.initial_retransmission_timeout (clock s ms) ≡ true = ground arith in
    rw (on, t, flight, plain) refl

-- A probe of a zero window is sent again with no back-off.
pub tick-probe :
    (s : TcpSender) (ms : ℕ) (o : Outstanding) (rest : List Outstanding)
    → s.timer_enable ≡ true
    → s.initial_retransmission_timeout ≤ clock s ms
    → s.segments_outstanding ≡ o ∷ rest
    → o.window_zero_flag ≡ true
    → tick s ms ≡ record s {
      retransmission_timeout = 0;
      timer_enable = true;
      segments_out = s.segments_out ++ (o.segment ∷ []);
    }
unfolding tick
tick-probe s ms o rest on late flight probe =
    let t : leb s.initial_retransmission_timeout (clock s ms) ≡ true = ground arith in
    rw (on, t, flight, probe) refl

tick-empty :
    (s : TcpSender) (ms : ℕ)
    → s.timer_enable ≡ true
    → s.initial_retransmission_timeout ≤ clock s ms
    → s.segments_outstanding ≡ []
    → tick s ms ≡ record s {
      retransmission_timeout = 0;
      timer_enable = true;
      initial_retransmission_timeout = s.init_timer_backup;
      consecutive_retransmissions_count = 0;
    }
unfolding tick
tick-empty s ms on late flight =
    let t : leb s.initial_retransmission_timeout (clock s ms) ≡ true = ground arith in
    rw (on, t, flight) refl

outstanding-cases :
    (xs : List Outstanding)
    → (xs ≡ []) ⊎ ((o : Outstanding) × (rest : List Outstanding) × (xs ≡ o ∷ rest))
outstanding-cases [] = inl refl
outstanding-cases (o ∷ rest) = inr (o, rest, refl)

pub tick-Ticked : (s : TcpSender) (ms : ℕ) → Ticked s (tick s ms)
tick-Ticked s ms = elim (Bool-cases s.timer_enable) [
  | inr off ↦
      rw (tick-idle s ms off)
        (record { out = inl refl; same = (refl, refl, refl, refl, refl, refl, refl, refl) })
  | inl on ↦ elim (dec_le s.initial_retransmission_timeout (clock s ms)) [
    | no early ↦
        rw (tick-early s ms on (omega arith))
          (record { out = inl refl; same = (refl, refl, refl, refl, refl, refl, refl, refl) })
    | yes late ↦ elim (outstanding-cases s.segments_outstanding) [
      | inl e ↦
          rw (tick-empty s ms on late e)
            (record { out = inl refl; same = (refl, refl, refl, refl, refl, refl, refl, refl) })
      | inr (o, rest, e) ↦
          let head : o.segment ∷ [] ≡ oldest_of s.segments_outstanding = ap oldest_of (sym e) in
          let out = ap (◌++◌ s.segments_out) head in
          elim (Bool-cases o.window_zero_flag) [
            | inl probe ↦
                rw (tick-probe s ms o rest on late e probe) (record {
                  out = inr out;
                  same = (refl, refl, refl, refl, refl, refl, refl, refl);
                })
            | inr plain ↦
                rw (tick-expired s ms o rest on late e plain) (record {
                  out = inr out;
                  same = (refl, refl, refl, refl, refl, refl, refl, refl);
                })
          ]
    ]
  ]
]

pub tick-next_seqno : (s : TcpSender) (ms : ℕ) → (tick s ms).next_seqno ≡ s.next_seqno
tick-next_seqno s ms = (tick-Ticked s ms).same.3

-- `tick` keeps the invariant.
pub tick-IsValid : (s : TcpSender) (ms : ℕ) → IsValid s → IsValid (tick s ms)
tick-IsValid s ms v =
    let t = tick-Ticked s ms in
    let s' = tick s ms in
    record {
      stream = subst StreamInvariant.IsValid (sym t.same.2) v.stream;
      oldest = v.oldest;
      flight =
          subst (λ i. InFlight i v.oldest s'.segments_outstanding s'.next_seqno) (sym t.same.0)
            (subst (λ xs. InFlight s.isn v.oldest xs s'.next_seqno) (sym t.same.1)
              (subst (λ n. InFlight s.isn v.oldest s.segments_outstanding n) (sym t.same.3)
                v.flight));
      acked = omega (arith, t.same, v.acked);
      window = omega (arith, t.same, v.window);
      opening = λ e. t.same.5 ∙ v.opening (sym t.same.3 ∙ e);
    }

-- `n` expirations in a row: each tick takes as long as the timer has left.
unfoldable pub expire : ℕ → TcpSender → TcpSender
unfolding tick
expire zero s = s
expire (suc n) s = expire n (tick s s.initial_retransmission_timeout)

unfoldable pub copies : ℕ → TcpSegment → List TcpSegment
copies zero seg = []
copies (suc n) seg = seg ∷ copies n seg

mul_double : (x n : ℕ) → x * 2 * 2 ^ n ≡ x * 2 ^ suc n
mul_double x n = grind arith

mul_pow-le : (x n : ℕ) → x ≤ x * 2 ^ n
mul_pow-le x zero = omega arith
mul_pow-le x (suc n) = omega (arith, mul_pow-le (x * 2) n, mul_double x n)

-- As long as the timeout fits 32 bits, `n` expirations in a row that are not acknowledged double it
-- `n` times, count `n` retransmissions, and queue the oldest segment in flight `n` times and no
-- other; the rest of the sender stays.
pub expire-backoff :
    (n : ℕ) (s : TcpSender) (o : Outstanding) (rest : List Outstanding)
    → s.timer_enable ≡ true
    → s.retransmission_timeout ≡ 0
    → s.segments_outstanding ≡ o ∷ rest
    → o.window_zero_flag ≡ false
    → s.initial_retransmission_timeout * 2 ^ n < 2 ^ 32
    → s.consecutive_retransmissions_count + n < 2 ^ 32
    → expire n s ≡ record s {
      segments_out = s.segments_out ++ copies n o.segment;
      initial_retransmission_timeout = s.initial_retransmission_timeout * 2 ^ n;
      consecutive_retransmissions_count = s.consecutive_retransmissions_count + n;
    }
unfolding expire copies
expire-backoff zero s o rest on start flight plain fits few =
    let once : s.initial_retransmission_timeout * 1 ≡ s.initial_retransmission_timeout =
      omega arith in
    let none_ : s.consecutive_retransmissions_count + 0 ≡ s.consecutive_retransmissions_count =
      omega arith in
    rw (append-nil s.segments_out, once, none_) refl
expire-backoff (suc n) s o rest on start flight plain fits few =
    let rto = s.initial_retransmission_timeout in
    let count = s.consecutive_retransmissions_count in
    let doubles : rto * 2 * 2 ^ n ≡ rto * 2 ^ suc n = mul_double rto n in
    let fit : rto * 2 < 2 ^ 32 = omega (arith, doubles, mul_pow-le (rto * 2) n) in
    let double : u32 (rto * 2) ≡ rto * 2 = omega arith in
    let counted : add32 count 1 ≡ count + 1 = omega arith in
    let late : rto ≤ clock s rto = omega arith in
    let t : TcpSender = record s {
      retransmission_timeout = 0;
      timer_enable = true;
      segments_out = s.segments_out ++ (o.segment ∷ []);
      initial_retransmission_timeout = rto * 2;
      consecutive_retransmissions_count = count + 1;
    } in
    let step : tick s rto ≡ t =
      tick-expired s rto o rest on late flight plain ∙ rw (double, counted) refl in
    let more =
      expire-backoff n t o rest refl refl flight plain (omega (arith, doubles)) (omega arith) in
    let joined = append_assoc s.segments_out (o.segment ∷ []) (copies n o.segment) in
    let added : count + 1 + n ≡ count + suc n = omega arith in
    ap (expire n) step ∙ (more ∙ rw (joined, doubles, added, start, on) refl)
