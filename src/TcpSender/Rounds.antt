-- ===== src/TcpSender/Rounds.antt =====
-- One round of the loop of `fill_window`.
use sponge_fa.Prelude.{
  length-append, nil_of_length, sub64, ◌||◌, ℕ, ◌+◌, ◌-◌, ◌^◌, ◌<◌, ◌≡◌, ◌∙◌, ◌⊎◌, refl, ap, Bool,
  true, false, not, ◌&&◌, [], ◌++◌, length, arith, min, length-take, take-append-drop, ltb,
}
use sponge_fa.ByteStream as Stream
use sponge_fa.ByteStream.{ByteStream}
use sponge_fa.ByteStream.Invariant as StreamInvariant
use sponge_fa.TcpConfig.{max_payload_size}
use sponge_fa.TcpSegment.{length_in_sequence_space}
use sponge_fa.TcpSender.{TcpSender, Round, fill_round}
use sponge_fa.TcpSender.Segments.{flag, length_in_sequence_space_lem}

pub round_syn : (s : TcpSender) (num : ℕ) → (fill_round s num).segment.header.syn ≡ false
unfolding fill_round
round_syn s num = refl

module _ (s : TcpSender) (num : ℕ) (v : StreamInvariant.IsValid s.stream)
    (small : num < 2 ^ 64) where
  abbrev round : Round
  round = fill_round s num

  abbrev size : ℕ
  size = min (min num max_payload_size) (length s.stream.buffer)

  pub round_payload :
      (round.segment.payload ++ round.sender.stream.buffer ≡ s.stream.buffer)
      × (length round.segment.payload ≡ size)
      × StreamInvariant.IsValid round.sender.stream
      × (round.sender.stream.end_input ≡ s.stream.end_input)
  unfolding fill_round Stream.pop_output Stream.peek_output
  round_payload = (
    take-append-drop size s.stream.buffer,
    omega (arith, length-take size s.stream.buffer),
    StreamInvariant.pop_output-IsValid (min num max_payload_size) v,
    refl,
  )

  -- Whether the round's segment carries the FIN.
  abbrev fin : Bool
  fin = round.segment.header.fin

  left_lem : sub64 num (length round.segment.payload) ≡ num - size
  left_lem = omega (arith, round_payload.1)

  pub round_fin : fin ≡ (Stream.eof round.sender.stream && (ltb 0 (num - size) && not s.fin_sent))
  unfolding fill_round
  round_fin = ap (λ (n : ℕ). Stream.eof round.sender.stream && (ltb 0 n && not s.fin_sent)) left_lem

  fin-left : fin ≡ true → 0 < num - size
  fin-left e = ground (arith, round_fin)

  pub round_left : round.num_bytes_to_send + size + flag fin ≡ num
  unfolding fill_round
  round_left = ground (arith, left_lem, fin-left)

  pub length-round : length_in_sequence_space round.segment ≡ size + flag fin
  unfolding fill_round
  length-round =
      length_in_sequence_space_lem round.segment (omega (arith, round_payload.1))
      ∙ omega (arith, round_payload.1)

  pub round_fin_sent : round.sender.fin_sent ≡ (s.fin_sent || fin)
  unfolding fill_round
  round_fin_sent = refl

  -- The FIN is sent at most once.
  pub flag_fin_sent : flag round.sender.fin_sent ≡ flag s.fin_sent + flag fin
  flag_fin_sent = ground (arith, round_fin, round_fin_sent)

  -- A round that sends nothing has found nothing to send: the stream is empty, and not ended
  -- unless the FIN is out.
  pub round_idle :
      0 < num
      → length_in_sequence_space round.segment ≡ 0
      → (s.stream.buffer ≡ []) × ((s.stream.end_input ≡ false) ⊎ (s.fin_sent ≡ true))
  unfolding Stream.eof
  round_idle pos idle =
      let none_left : length s.stream.buffer ≡ 0 = omega (arith, length-round) in
      let rest = ap length round_payload.0 ∙ none_left in
      (
        nil_of_length s.stream.buffer none_left,
        ground (
          arith,
          length-round,
          round_fin,
          rest,
          length-append round.segment.payload round.sender.stream.buffer,
          round_payload.3,
        ),
      )
