-- ===== src/TcpSender/Ack.antt =====
-- `ack_received`: what an acknowledgment removes, and the window that it leaves.
use sponge_fa.Prelude.{
  ◌-◌, inl, inr, ◌⊎◌, ne→==, eq→==, ℕ_discrete, dec_le, ℕ, ◌+◌, ◌^◌, ◌≤◌, ◌<◌, ◌≡◌, ◌∙◌, refl, ap,
  sym, true, false, length, arith, ltb, max, Bool-cases,
}
use mathlib.Core.Path.{subst, ap₂}
use sponge_fa.ByteStream.Invariant as StreamInvariant
use sponge_fa.WrappingInt32.{WrappingInt32, unwrap}
use sponge_fa.TcpSender.{
  TcpSender, drop_acked, remove_outstanding_segments, note_ack, ack_received, fill_window,
}
use sponge_fa.TcpSender.Segments.{InFlight}
use sponge_fa.TcpSender.Removal.{Dropped, drop_acked-Dropped}
use sponge_fa.TcpSender.Invariant.{IsValid, IsSmall}
use sponge_fa.TcpSender.Window.{
  budget, probing, opened, fill_window-IsValid, fill_window-space, fill_window-fin,
  fill_window-Filled,
}
use sponge_fa.TcpSender.Fill.{Filled}

-- An acknowledgment that is not impossible, with what is removed for it.
abbrev pub acknowledged : TcpSender → ℕ → ℕ → TcpSender
acknowledged s new_ackno window_size =
    remove_outstanding_segments (note_ack s new_ackno window_size)

-- `note_ack` never takes the acknowledged number back; the window's right edge is the new one, or the
-- acknowledged number if that is greater.
pub note_ack_lem :
    (s : TcpSender) (new_ackno window_size : ℕ)
    → new_ackno + window_size < 2 ^ 64
    → let t = note_ack s new_ackno window_size in
      (t.last_ackno ≡ max s.last_ackno new_ackno)
      × (t.last_ackno + t.window_size ≡ max t.last_ackno (new_ackno + window_size))
      × (t.window_size ≤ window_size)
      × (t.isn ≡ s.isn)
      × (t.segments_outstanding ≡ s.segments_outstanding)
      × (t.next_seqno ≡ s.next_seqno)
      × (t.stream ≡ s.stream)
      × (t.fin_sent ≡ s.fin_sent)
unfolding note_ack
note_ack_lem s new_ackno window_size small = ground arith

-- `remove_outstanding_segments` changes no number, window or stream.
pub remove_outstanding_lem :
    (s : TcpSender)
    → let t = remove_outstanding_segments s in
      (t.segments_outstanding ≡ (drop_acked s.last_ackno false s.segments_outstanding).0)
      × (t.last_ackno ≡ s.last_ackno)
      × (t.window_size ≡ s.window_size)
      × (t.isn ≡ s.isn)
      × (t.next_seqno ≡ s.next_seqno)
      × (t.stream ≡ s.stream)
      × (t.fin_sent ≡ s.fin_sent)
unfolding remove_outstanding_segments
remove_outstanding_lem s = ground arith

module _ (s : TcpSender) (v : IsValid s) (small : IsSmall s) (new_ackno window_size : ℕ)
    (possible : new_ackno ≤ s.next_seqno) (short : window_size < 2 ^ 16) where
  pub acknowledged-Dropped :
      Dropped s.isn v.oldest s.next_seqno
        (max s.last_ackno new_ackno)
        s.segments_outstanding
        (acknowledged s new_ackno window_size).segments_outstanding
  acknowledged-Dropped =
      let t = note_ack s new_ackno window_size in
      let noted = note_ack_lem s new_ackno window_size (omega arith) in
      let removed = remove_outstanding_lem t in
      let d =
        drop_acked-Dropped s.isn v.oldest s.next_seqno (max s.last_ackno new_ackno) false
          s.segments_outstanding v.flight (omega arith) in
      let e : (drop_acked t.last_ackno false t.segments_outstanding).0
          ≡ (drop_acked (max s.last_ackno new_ackno) false s.segments_outstanding).0 =
        ap₂ (λ a xs. (drop_acked a false xs).0) noted.0 noted.4 in
      subst
        (Dropped s.isn v.oldest s.next_seqno (max s.last_ackno new_ackno) s.segments_outstanding)
        (sym (removed.0 ∙ e)) d

  -- Behind an acknowledgment the sender is valid, and remembers from where the cut was made.
  pub acknowledged-IsValid : 0 < s.next_seqno → IsValid (acknowledged s new_ackno window_size)
  acknowledged-IsValid started =
      let t = note_ack s new_ackno window_size in
      let u = acknowledged s new_ackno window_size in
      let noted = note_ack_lem s new_ackno window_size (omega arith) in
      let removed = remove_outstanding_lem t in
      let d = acknowledged-Dropped in
      record {
        stream = subst StreamInvariant.IsValid (sym (removed.5 ∙ noted.6)) v.stream;
        oldest = d.mid;
        flight =
            subst (λ i. InFlight i d.mid u.segments_outstanding u.next_seqno)
              (sym (removed.3 ∙ noted.3))
              (subst (λ n. InFlight s.isn d.mid u.segments_outstanding n)
                (sym (removed.4 ∙ noted.5)) d.kept);
        acked = omega (arith, noted, removed, v.acked);
        window = omega (arith, noted, removed);
        opening = λ e. absurd (omega (arith, noted, removed));
      }

  pub acknowledged-IsSmall : IsSmall (acknowledged s new_ackno window_size)
  acknowledged-IsSmall =
      let t = note_ack s new_ackno window_size in
      let noted = note_ack_lem s new_ackno window_size (omega arith) in
      let removed = remove_outstanding_lem t in
      let e = ap (λ st. length st.buffer) (removed.5 ∙ noted.6) in omega (arith, noted, removed, e)

-- What an acknowledgment of `new_ackno` with a window does to a sender: behind `t`, the window is
-- filled.
pub record AckTaken (s : TcpSender) (oldest new_ackno window_size : ℕ) (s' : TcpSender)
    : Type 0 where
  pub between : TcpSender
  pub cut :
      Dropped s.isn oldest s.next_seqno
        (max s.last_ackno new_ackno)
        s.segments_outstanding
        between.segments_outstanding
  pub ackno : between.last_ackno ≡ max s.last_ackno new_ackno
  pub right_edge :
      between.last_ackno + between.window_size ≡ max between.last_ackno (new_ackno + window_size)
  pub unsent : between.next_seqno ≡ s.next_seqno
  pub filled :
      ((between.fin_sent ≡ true) × (s' ≡ between))
      ⊎ Filled between (budget between) (probing between) s'

pub ack_received-taken :
    (s : TcpSender) (ackno : WrappingInt32) (window_size : ℕ)
    → 0 < s.next_seqno
    → unwrap ackno s.isn s.last_ackno ≤ s.next_seqno
    → ack_received s ackno window_size
      ≡ fill_window (acknowledged s (unwrap ackno s.isn s.last_ackno) window_size)
unfolding ack_received
ack_received-taken s ackno window_size started possible =
    let t : ltb s.next_seqno (unwrap ackno s.isn s.last_ackno) ≡ false = ground arith in
    rw (ne→== s.next_seqno 0 (λ e. omega arith), t) refl

pub ack_received-ignored :
    (s : TcpSender) (ackno : WrappingInt32) (window_size : ℕ)
    → (s.next_seqno ≡ 0) ⊎ (s.next_seqno < unwrap ackno s.isn s.last_ackno)
    → ack_received s ackno window_size ≡ s
unfolding ack_received
ack_received-ignored s ackno window_size why = elim (ℕ_discrete s.next_seqno 0) [
  | yes e ↦ rw (eq→== s.next_seqno 0 e) refl
  | no ne ↦
      let t : ltb s.next_seqno (unwrap ackno s.isn s.last_ackno) ≡ true = ground arith in
      rw (ne→== s.next_seqno 0 ne, t) refl
]

opened-started : (s : TcpSender) → 0 < s.next_seqno → opened s ≡ s
opened-started s started = rw (ne→== s.next_seqno 0 (λ e. omega arith)) refl

AckTaken-fill :
    (s : TcpSender) (v : IsValid s) (new_ackno window_size : ℕ)
    → IsSmall s
    → window_size < 2 ^ 16
    → 0 < s.next_seqno
    → new_ackno ≤ s.next_seqno
    → AckTaken s v.oldest new_ackno window_size (fill_window (acknowledged s new_ackno window_size))
AckTaken-fill s v new_ackno window_size small short started possible =
    let t = note_ack s new_ackno window_size in
    let u = acknowledged s new_ackno window_size in
    let noted = note_ack_lem s new_ackno window_size (omega arith) in
    let removed = remove_outstanding_lem t in
    record {
      between = u;
      cut = acknowledged-Dropped s v small new_ackno window_size possible short;
      ackno = removed.1 ∙ noted.0;
      right_edge = omega (arith, noted, removed);
      unsent = removed.4 ∙ noted.5;
      filled = elim (Bool-cases u.fin_sent) [
        | inl e ↦ inl (e, fill_window-fin u e)
        | inr e ↦ inr (
            rw (opened-started u (omega (arith, noted, removed))) at (
              fill_window-Filled u
                (acknowledged-IsValid s v small new_ackno window_size possible short started)
                (acknowledged-IsSmall s v small new_ackno window_size possible short) e))
      ];
    }

-- For a valid sender that has sent its SYN, with sequence numbers that stay below 2 ^ 64: an
-- acknowledgment of a number that was not sent yet changes nothing. Any other one removes exactly
-- the segments that are acknowledged to their end, does not take the acknowledged number back, sets
-- the window's right edge to the number that is acknowledged here plus its window, or to the
-- acknowledged number if that is greater, and fills the window that is left. What results is valid.
pub ack_received-AckTaken :
    (s : TcpSender) (v : IsValid s) (ackno : WrappingInt32) (window_size : ℕ)
    → IsSmall s
    → window_size < 2 ^ 16
    → 0 < s.next_seqno
    → let new_ackno = unwrap ackno s.isn s.last_ackno in
      let s' = ack_received s ackno window_size in
      IsValid s'
      × (((s.next_seqno < new_ackno) × (s' ≡ s))
          ⊎ ((new_ackno ≤ s.next_seqno) × AckTaken s v.oldest new_ackno window_size s'))
ack_received-AckTaken s v ackno window_size small short started =
    let new_ackno = unwrap ackno s.isn s.last_ackno in
    elim (dec_le new_ackno s.next_seqno) [
      | yes possible ↦ rw (ack_received-taken s ackno window_size started possible) (
        fill_window-IsValid (acknowledged s new_ackno window_size)
            (acknowledged-IsValid s v small new_ackno window_size possible short started)
            (acknowledged-IsSmall s v small new_ackno window_size possible short),
        inr (possible, AckTaken-fill s v new_ackno window_size small short started possible),
      )
      | no beyond ↦
          let e = ack_received-ignored s ackno window_size (inr (omega arith)) in
          rw e (v, inl (omega arith, refl))
    ]

pub ack_received-IsValid :
    (s : TcpSender) (ackno : WrappingInt32) (window_size : ℕ)
    → IsValid s
    → IsSmall s
    → window_size < 2 ^ 16
    → IsValid (ack_received s ackno window_size)
ack_received-IsValid s ackno window_size v small short = elim (ℕ_discrete s.next_seqno 0) [
  | yes e ↦ rw (ack_received-ignored s ackno window_size (inl e)) v
  | no ne ↦ (ack_received-AckTaken s v ackno window_size small short (omega arith)).0
]

pub ack_received-space :
    (s : TcpSender) (ackno : WrappingInt32) (window_size : ℕ)
    → IsValid s
    → IsSmall s
    → window_size < 2 ^ 16
    → (ack_received s ackno window_size).next_seqno
        + length (ack_received s ackno window_size).stream.buffer
      ≤ s.next_seqno + length s.stream.buffer + 2
ack_received-space s ackno window_size v small short =
    let n : ℕ = unwrap ackno s.isn s.last_ackno in
    elim (dec_le (n + (1 - s.next_seqno)) s.next_seqno) [
      | yes possible ↦
          let u = acknowledged s n window_size in
          let taken = ack_received-taken s ackno window_size (omega arith) (omega arith) in
          let noted = note_ack_lem s n window_size (omega arith) in
          let removed = remove_outstanding_lem (note_ack s n window_size) in
          let same = ap (λ st. length st.buffer) (removed.5 ∙ noted.6) in
          let grown =
            fill_window-space u
              (acknowledged-IsValid s v small n window_size (omega arith) short (omega arith))
              (acknowledged-IsSmall s v small n window_size (omega arith) short) in
          rw taken (omega (arith, grown, same, removed, noted))
      | no beyond ↦
          let why : (s.next_seqno ≡ 0) ⊎ (s.next_seqno < n) = elim (ℕ_discrete s.next_seqno 0) [
            | yes e ↦ inl e
            | no ne ↦ inr (omega arith)
          ] in
          rw (ack_received-ignored s ackno window_size why) (omega arith)
    ]
