-- ===== src/TcpSender/Loop.antt =====
-- The loop of `fill_window` from its first round to its end.
use sponge_fa.Prelude.{
  Bool-cases, ne→==, eq→==, length-append, ℕ_discrete, nil_of_length, zero, suc, ℕ, ◌+◌, ◌^◌, ◌≤◌,
  ◌<◌, ◌≡◌, ◌∙◌, inl, inr, refl, ap, sym, Bool, true, ◌++◌, length, arith,
}
use sponge_fa.ByteStream.{ByteStream, eof, buffer_empty, input_ended}
use sponge_fa.ByteStream.Invariant as StreamInvariant
use sponge_fa.TcpSegment.{length_in_sequence_space}
use sponge_fa.TcpSender.{TcpSender, send_segment, fill_round, fill_loop}
use sponge_fa.TcpSender.Segments.{flag, flag-le-one}
use sponge_fa.TcpSender.Rounds.{
  round_payload, round_syn, round_fin, round_left, length-round, round_fin_sent, round_idle,
  flag_fin_sent,
}
use sponge_fa.TcpSender.Fill.{
  Filled, Filled-stop, RoundFin, Filled-next, fill_loop-suc, send_segment_lem,
}

eof_lem : (st : ByteStream) → eof st ≡ true → (length st.buffer ≡ 0) × (st.end_input ≡ true)
unfolding eof buffer_empty input_ended
eof_lem st e = (ground (arith, e), ground (arith, e))

round-RoundFin :
    (s : TcpSender) (num : ℕ)
    → StreamInvariant.IsValid s.stream
    → num < 2 ^ 64
    → let r = fill_round s num in RoundFin s r.sender.stream r.sender.fin_sent r.segment
round-RoundFin s num v small =
    let r = fill_round s num in
    let fin = round_fin s num v small in
    let sent = round_fin_sent s num v small in
    (
      round_syn s num,
      elim (Bool-cases r.segment.header.fin) [
        | inl e ↦
            (let at_end : eof r.sender.stream ≡ true = ground (arith, fin, e) in
              inr (
                e,
                ground (arith, sent, e),
                nil_of_length r.sender.stream.buffer (eof_lem r.sender.stream at_end).0,
                (eof_lem r.sender.stream at_end).1,
              ))
        | inr e ↦ inl (e, ground (arith, sent, e))
      ],
    )

module _ (s : TcpSender) (num : ℕ) (v : StreamInvariant.IsValid s.stream)
    (small : num < 2 ^ 64) where
  fill_idle :
      (z : Bool)
      → 0 < num
      → length_in_sequence_space (fill_round s num).segment ≡ 0
      → Filled s num z (fill_round s num).sender
  unfolding fill_round
  fill_idle z pos idle =
      let r = fill_round s num in
      let (bytes, size, valid, end_) = round_payload s num v small in
      let none_sent : length r.segment.payload ≡ 0 = omega (arith, length-round s num v small) in
      let same_buffer : r.sender.stream.buffer ≡ s.stream.buffer =
        ap (λ p. p ++ r.sender.stream.buffer) (sym (nil_of_length r.segment.payload none_sent))
        ∙ bytes in
      Filled-stop s r.sender num z refl refl refl same_buffer
        (ground (arith, length-round s num v small, round_fin_sent s num v small))
        (inr (round_idle s num v small pos idle)) (refl, refl, refl) valid end_

  fill_next :
      (z : Bool) (s' : TcpSender)
      → s.next_seqno + length s.stream.buffer + 1 < 2 ^ 64 + flag s.fin_sent
      → 0 < length_in_sequence_space (fill_round s num).segment
      → let r = fill_round s num in
        Filled (send_segment r.sender r.segment z) r.num_bytes_to_send z s' → Filled s num z s'
  unfolding fill_round
  fill_next z s' room pos f =
      let r = fill_round s num in
      let (bytes, size, valid, end_) = round_payload s num v small in
      let taken = ap length bytes in
      let split = length-append r.segment.payload r.sender.stream.buffer in
      let len = length-round s num v small in
      let once = flag_fin_sent s num v small in
      let flag-le = flag-le-one r.sender.fin_sent in
      let inside : s.next_seqno + length_in_sequence_space r.segment < 2 ^ 64 =
        omega (arith, taken, split, len, once, size, flag-le) in
      Filled-next s s' r.sender.stream r.sender.fin_sent r.segment num r.num_bytes_to_send z bytes
        (omega (arith, size)) pos (omega (arith, len, round_left s num v small))
        (omega (arith, taken, split, len, once, size)) end_ (round-RoundFin s num v small)
        (rw (send_segment_lem r.sender r.segment z pos inside) at f)

  -- What the next round may rely on.
  fill_room :
      (z : Bool)
      → s.next_seqno + length s.stream.buffer + 1 < 2 ^ 64 + flag s.fin_sent
      → 0 < length_in_sequence_space (fill_round s num).segment
      → let r = fill_round s num in
        let t = send_segment r.sender r.segment z in
        (t.next_seqno + length t.stream.buffer + 1 < 2 ^ 64 + flag t.fin_sent)
        × StreamInvariant.IsValid t.stream
        × (r.num_bytes_to_send < num)
  unfolding fill_round
  fill_room z room pos =
      let r = fill_round s num in
      let (bytes, size, valid, end_) = round_payload s num v small in
      let taken = ap length bytes in
      let split = length-append r.segment.payload r.sender.stream.buffer in
      let len = length-round s num v small in
      let once = flag_fin_sent s num v small in
      let flag-le = flag-le-one r.sender.fin_sent in
      let inside : s.next_seqno + length_in_sequence_space r.segment < 2 ^ 64 =
        omega (arith, taken, split, len, once, size, flag-le) in
      let left = round_left s num v small in
      (
        rw (send_segment_lem r.sender r.segment z pos inside)
            (omega (arith, taken, split, len, once, size)),
        rw (send_segment_lem r.sender r.segment z pos inside) valid,
        omega (arith, left, len),
      )

-- The loop, given fuel for as many rounds as there are bytes to send, cuts the front of the stream
-- into consecutively numbered segments of at most the maximal payload, stays within the bytes to
-- send, and stops only when these are used up or nothing is left to send.
pub fill_loop-Filled :
    (fuel num : ℕ) (s : TcpSender) (z : Bool)
    → num ≤ fuel
    → num < 2 ^ 64
    → s.next_seqno + length s.stream.buffer + 1 < 2 ^ 64 + flag s.fin_sent
    → StreamInvariant.IsValid s.stream
    → Filled s num z (fill_loop fuel s num z)
fill_loop-Filled zero num s z enough small room v =
    unfold fill_loop in
    Filled-stop s s num z refl refl refl refl refl (inl (omega arith)) (refl, refl, refl) v refl
fill_loop-Filled (suc fuel) num s z enough small room v =
    rw (fill_loop-suc fuel num s z) (elim (ℕ_discrete num 0) [
      | yes done ↦
          rw (eq→== num 0 done)
            (Filled-stop s s num z refl refl refl refl refl (inl done) (refl, refl, refl) v refl)
      | no more ↦
          rw (ne→== num 0 more)
            (elim (ℕ_discrete (length_in_sequence_space (fill_round s num).segment) 0) [
              | yes idle ↦ rw (eq→== _ 0 idle) (fill_idle s num v small z (omega arith) idle)
              | no busy ↦
                  let r = fill_round s num in
                  let (room', valid, less) = fill_room s num v small z room (omega arith) in
                  rw (ne→== _ 0 busy) (
                    fill_next s num v small z _ room (omega arith) (
                      fill_loop-Filled fuel r.num_bytes_to_send (send_segment r.sender r.segment z)
                        z (omega arith) (omega arith) room' valid))
            ])
    ])
