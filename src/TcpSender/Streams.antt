-- ===== src/TcpSender/Streams.antt =====
-- A sender and the stream that is written to it: how far it is in that stream, and that filling the
-- window sends pieces of it.
use sponge_fa.Prelude.{
  eq→==, ne→==, ◌⊎◌, inl, inr, ℕ, ◌+◌, ◌≡◌, ◌∙◌, refl, ap, sym, Bool, true, false, Bool-cases,
  ℕ_discrete, List, [], ◌∷◌, ◌++◌, append_assoc, length, length-append, arith,
}
use mathlib.Core.Path.{subst}
use sponge_fa.WrappingInt32.{WrappingInt32, wrap}
use sponge_fa.TcpSegment.{TcpSegment, length_in_sequence_space}
use sponge_fa.TcpSender.{
  TcpSender, Outstanding, fill_window, syn_segment, numbered, relative_next_seqno,
}
use sponge_fa.TcpSender.Segments.{flag, book, payloads, Numbered}
use sponge_fa.TcpSender.Pieces.{IsSyn, AllSent, AllSent-append, AllSent-extend, AllSent-Numbered}
use sponge_fa.TcpSender.Fill.{Filled}
use sponge_fa.TcpSender.Invariant.{IsValid, IsSmall}
use sponge_fa.TcpSender.Window.{
  budget, probing, opened, opened-IsValid, open_lem, fill_window-Filled, fill_window-IsValid,
  fill_window-fin,
}

unfoldable pub in_flight : List Outstanding → List TcpSegment
in_flight [] = []
in_flight (o ∷ rest) = o.segment ∷ in_flight rest

pub in_flight-append :
    (xs ys : List Outstanding) → in_flight (xs ++ ys) ≡ in_flight xs ++ in_flight ys
unfolding in_flight
in_flight-append [] ys = refl
in_flight-append (x ∷ xs) ys = ap (◌∷◌ x.segment) (in_flight-append xs ys)

in_flight-book : (lo : ℕ) (z : Bool) (segs : List TcpSegment) → in_flight (book lo z segs) ≡ segs
unfolding in_flight book
in_flight-book lo z [] = refl
in_flight-book lo z (seg ∷ rest) =
    ap (◌∷◌ seg) (in_flight-book (lo + length_in_sequence_space seg) z rest)

-- Where a sender is in its stream, of which `whole` has been written: `out` has been sent, and with it
-- the FIN if that is out, and the rest waits.
pub record Streams (isn : WrappingInt32) (whole : List ℕ) (s : TcpSender) : Type 0 where
  pub valid : IsValid s
  pub initial : s.isn ≡ isn
  pub out : List ℕ
  pub split : out ++ s.stream.buffer ≡ whole
  pub position :
      ((s.next_seqno ≡ 0) × (out ≡ []) × (s.fin_sent ≡ false))
      ⊎ (s.next_seqno ≡ 1 + length out + flag s.fin_sent)
  pub closed : s.fin_sent ≡ true → (s.stream.buffer ≡ []) × (s.stream.end_input ≡ true)
  pub flight : AllSent isn out s.fin_sent (in_flight s.segments_outstanding)
  pub queue : AllSent isn out s.fin_sent s.segments_out

-- Numbers, stream and FIN stay; what is in flight or queued is still of the stream.
pub Streams-same :
    (isn : WrappingInt32) (whole : List ℕ) (s s' : TcpSender) (t : Streams isn whole s)
    → IsValid s'
    → (s'.isn ≡ s.isn)
      × (s'.stream ≡ s.stream)
      × (s'.next_seqno ≡ s.next_seqno)
      × (s'.fin_sent ≡ s.fin_sent)
    → AllSent isn t.out s.fin_sent (in_flight s'.segments_outstanding)
    → AllSent isn t.out s.fin_sent s'.segments_out
    → Streams isn whole s'
Streams-same isn whole s s' t v (same_isn, same_stream, same_next, same_fin) flight queue = record {
  valid = v;
  initial = same_isn ∙ t.initial;
  out = t.out;
  split = ap (λ st. t.out ++ st.buffer) same_stream ∙ t.split;
  position = elim t.position [
    | inl p ↦ inl (same_next ∙ p.0, p.1, same_fin ∙ p.2)
    | inr e ↦ inr (same_next ∙ (e ∙ ap (λ b. 1 + length t.out + flag b) (sym same_fin)))
  ];
  closed = λ e.
      let c = t.closed (sym same_fin ∙ e) in
      (ap (λ st. st.buffer) same_stream ∙ c.0, ap (λ st. st.end_input) same_stream ∙ c.1);
  flight =
      subst (λ b. AllSent isn t.out b (in_flight s'.segments_outstanding)) (sym same_fin) flight;
  queue = subst (λ b. AllSent isn t.out b s'.segments_out) (sym same_fin) queue;
}

-- Filling the window behind the SYN.
Streams-Filled :
    (isn : WrappingInt32) (whole : List ℕ) (s s' : TcpSender) (num : ℕ) (z : Bool)
    (t : Streams isn whole s)
    → IsValid s'
    → s.next_seqno ≡ 1 + length t.out
    → s.fin_sent ≡ false
    → Filled s num z s'
    → Streams isn whole s'
Streams-Filled isn whole s s' num z t v next unsent f =
    let fresh =
      AllSent-Numbered isn t.out s'.fin_sent s.next_seqno s'.next_seqno f.sent next (λ d. d.0)
        (subst (λ i. Numbered i s.next_seqno f.sent s'.next_seqno) t.initial f.numbers) f.fins in
    let later : (segs : List TcpSegment)
        → AllSent isn t.out s.fin_sent segs
        → AllSent isn (t.out ++ payloads f.sent) s'.fin_sent segs =
      λ segs.
        AllSent-extend isn t.out (payloads f.sent) s.fin_sent s'.fin_sent segs (λ e. absurd cc) in
    record {
      valid = v;
      initial = f.same.0 ∙ t.initial;
      out = t.out ++ payloads f.sent;
      split =
          append_assoc t.out (payloads f.sent) s'.stream.buffer
          ∙ (ap (◌++◌ t.out) f.bytes ∙ t.split);
      position = inr (
          omega (
            arith,
            f.space,
            ap length f.bytes,
            length-append (payloads f.sent) s'.stream.buffer,
            length-append t.out (payloads f.sent),
            ap flag unsent,
          ));
      closed = λ e. elim f.finished [ inl same ↦ absurd cc | inr d ↦ (d.1, f.same_end ∙ d.2) ];
      flight =
          subst (AllSent isn (t.out ++ payloads f.sent) s'.fin_sent)
            (sym (
              ap in_flight f.remembered
              ∙ (in_flight-append s.segments_outstanding (book s.next_seqno z f.sent)
                  ∙ ap (◌++◌ (in_flight s.segments_outstanding))
                      (in_flight-book s.next_seqno z f.sent))))
            (AllSent-append isn (t.out ++ payloads f.sent) s'.fin_sent
              (in_flight s.segments_outstanding) f.sent
              (later (in_flight s.segments_outstanding) t.flight) fresh);
      queue = subst (AllSent isn (t.out ++ payloads f.sent) s'.fin_sent) (sym f.queued) (
          AllSent-append isn (t.out ++ payloads f.sent) s'.fin_sent s.segments_out f.sent
            (later s.segments_out t.queue) fresh);
    }

numbered-IsSyn :
    (isn : WrappingInt32) (s : TcpSender)
    → s.isn ≡ isn
    → s.next_seqno ≡ 0
    → IsSyn isn (numbered s syn_segment)
unfolding numbered relative_next_seqno
numbered-IsSyn isn s initial start = record {
  number = ap (wrap s.next_seqno) initial ∙ ap (λ n. wrap n isn) start;
  syn = refl;
  no_fin = refl;
  no_payload = refl;
}

length-numbered_syn : (s : TcpSender) → length_in_sequence_space (numbered s syn_segment) ≡ 1
unfolding length_in_sequence_space numbered
length-numbered_syn s = refl

length-syn_segment : length_in_sequence_space syn_segment ≡ 1
unfolding length_in_sequence_space
length-syn_segment = refl

Streams-opened :
    (isn : WrappingInt32) (whole : List ℕ) (s : TcpSender)
    → IsSmall s
    → s.fin_sent ≡ false
    → Streams isn whole s
    → (t : Streams isn whole (opened s)) × ((opened s).next_seqno ≡ 1 + length t.out)
      × ((opened s).fin_sent ≡ false)
unfolding in_flight book
Streams-opened isn whole s small unsent t = elim (ℕ_discrete s.next_seqno 0) [
  | no ne ↦ rw (ne→== s.next_seqno 0 ne) (
    t,
    elim t.position [
      | inl p ↦ absurd (omega (arith, p.0))
      | inr e ↦ omega (arith, e, ap flag unsent)
    ],
    unsent,
  )
  | yes e ↦
      let nothing : t.out ≡ [] = elim t.position [ inl p ↦ p.1 | inr q ↦ absurd (omega arith) ] in
      let v = (opened-IsValid s t.valid small).0 in
      let v' = rw (eq→== s.next_seqno 0 e, open_lem s e) at v in
      let syn : AllSent isn t.out s.fin_sent (numbered s syn_segment ∷ []) =
        (inl (numbered-IsSyn isn s t.initial e), record {}) in
      rw (eq→== s.next_seqno 0 e, open_lem s e)
        (
          record {
            valid = v';
            initial = t.initial;
            out = t.out;
            split = t.split;
            position = inr (omega (arith, ap length nothing, ap flag unsent, length-syn_segment));
            closed = t.closed;
            flight =
                subst (AllSent isn t.out s.fin_sent)
                  (sym (
                    in_flight-append s.segments_outstanding
                      (book s.next_seqno false (numbered s syn_segment ∷ []))))
                  (AllSent-append isn t.out s.fin_sent (in_flight s.segments_outstanding)
                    (numbered s syn_segment ∷ []) t.flight syn);
            queue =
                AllSent-append isn t.out s.fin_sent s.segments_out (numbered s syn_segment ∷ [])
                  t.queue syn;
          },
          omega (arith, ap length nothing, length-syn_segment),
          unsent,
        )
]

-- `fill_window` keeps the sender in step with its stream.
pub Streams-fill_window :
    (isn : WrappingInt32) (whole : List ℕ) (s : TcpSender)
    → IsSmall s
    → Streams isn whole s
    → Streams isn whole (fill_window s)
Streams-fill_window isn whole s small t = elim (Bool-cases s.fin_sent) [
  | inl sent ↦ subst (Streams isn whole) (sym (fill_window-fin s sent)) t
  | inr unsent ↦
      let (t', next, unsent') = Streams-opened isn whole s small unsent t in
      Streams-Filled isn whole (opened s) (fill_window s) (budget (opened s)) (probing (opened s))
        t' (fill_window-IsValid s t.valid small) next unsent'
        (fill_window-Filled s t.valid small unsent)
]
