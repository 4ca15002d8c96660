-- ===== src/TcpSender/Removal.antt =====
-- `remove_outstanding_segments`: what an acknowledged number removes from the segments in flight.
use sponge_fa.Prelude.{
  inl, inr, ◌⊎◌, dec_le, add64, ℕ, ◌+◌, ◌^◌, ◌≤◌, ◌<◌, ◌≡◌, refl, ap, Bool, true, false, List, [],
  ◌∷◌, ◌++◌, arith, leb,
}
use sponge_fa.WrappingInt32.{WrappingInt32}
use sponge_fa.TcpSegment.{length_in_sequence_space}
use sponge_fa.TcpSender.{Outstanding, drop_acked}
use sponge_fa.TcpSender.Segments.{InFlight, InFlight-le}

-- The first of the segments, if there is one, ends behind the acknowledged number.
abbrev pub Unacked : ℕ → List Outstanding → Type 0
Unacked last_ackno [] = Unit
Unacked last_ackno (o ∷ rest) = last_ackno < o.abs_seqno + length_in_sequence_space o.segment

-- How the segments from `lo` to `hi` are cut at an acknowledged number: those before `mid` go, and
-- they end at or before it; the first of those that stay ends behind it.
pub record Dropped (isn : WrappingInt32) (lo hi last_ackno : ℕ) (xs rest : List Outstanding)
    : Type 0 where
  pub gone : List Outstanding
  pub mid : ℕ
  pub split : xs ≡ gone ++ rest
  pub acked : InFlight isn lo gone mid
  pub kept : InFlight isn mid rest hi
  pub before : (mid ≡ lo) ⊎ (mid ≤ last_ackno)
  pub behind : Unacked last_ackno rest

Dropped-keep :
    (isn : WrappingInt32) (lo hi last_ackno : ℕ) (xs : List Outstanding)
    → InFlight isn lo xs hi
    → Unacked last_ackno xs
    → Dropped isn lo hi last_ackno xs xs
Dropped-keep isn lo hi last_ackno xs f u = record {
  gone = [];
  mid = lo;
  split = refl;
  acked = refl;
  kept = f;
  before = inl refl;
  behind = u;
}

Dropped-next :
    (isn : WrappingInt32) (lo hi last_ackno : ℕ) (o : Outstanding) (xs rest : List Outstanding)
    → InFlight isn lo (o ∷ xs) hi
    → lo + length_in_sequence_space o.segment ≤ last_ackno
    → Dropped isn (lo + length_in_sequence_space o.segment) hi last_ackno xs rest
    → Dropped isn lo hi last_ackno (o ∷ xs) rest
Dropped-next isn lo hi last_ackno o xs rest f le d = record {
  gone = o ∷ d.gone;
  mid = d.mid;
  split = ap (◌∷◌ o) d.split;
  acked = (f.0, f.1, f.2, f.3, d.acked);
  kept = d.kept;
  before = inr (elim d.before [ inl e ↦ omega arith | inr e ↦ e ]);
  behind = d.behind;
}

-- The loop of `remove_outstanding_segments` removes exactly the segments that are acknowledged to
-- their end.
pub drop_acked-Dropped :
    (isn : WrappingInt32) (lo hi last_ackno : ℕ) (popped : Bool) (xs : List Outstanding)
    → InFlight isn lo xs hi
    → hi < 2 ^ 64
    → Dropped isn lo hi last_ackno xs (drop_acked last_ackno popped xs).0
unfolding drop_acked
drop_acked-Dropped isn lo hi last_ackno popped [] f small =
    Dropped-keep isn lo hi last_ackno [] f (record {})
drop_acked-Dropped isn lo hi last_ackno popped (o ∷ xs) f small =
    let n : ℕ = length_in_sequence_space o.segment in
    let below = InFlight-le isn (lo + n) hi xs f.4 in
    let e : add64 o.abs_seqno n ≡ lo + n = omega (arith, f.0) in
    elim (dec_le (lo + n) last_ackno) [
      | yes le ↦
          let t : leb (add64 o.abs_seqno n) last_ackno ≡ true = ground (arith, e) in
          rw t (
            Dropped-next isn lo hi last_ackno o xs _ f le
              (drop_acked-Dropped isn (lo + n) hi last_ackno true xs f.4 small))
      | no gt ↦
          let t : leb (add64 o.abs_seqno n) last_ackno ≡ false = ground (arith, e) in
          rw t (Dropped-keep isn lo hi last_ackno (o ∷ xs) f (omega (arith, f.0)))
    ]
