-- ===== src/TcpState/Summary.antt =====
-- What the summaries say of a sender and of a connection.
use sponge_fa.Prelude.{
  inr, inl, ◌||◌, ◌==◌, ℕ, ◌+◌, ◌^◌, ◌<◌, ◌≡◌, ◌⊎◌, refl, Bool, true, false, arith, add64, ltb,
  if◌then◌else◌, not,
}
use sponge_fa.WrappingInt32.{WrappingInt32}
use sponge_fa.ByteStream as Stream
use sponge_fa.TcpConfig.{TcpConfig}
use sponge_fa.TcpSegment.{TcpSegment}
use sponge_fa.TcpSender as Sender
use sponge_fa.TcpSender.{TcpSender}
use sponge_fa.TcpSender.Invariant.{IsValid, bytes_in_flight_lem}
use sponge_fa.TcpConnection.{TcpConnection, new, connect, active, segment_received}
use sponge_fa.TcpConnection.Reset.{BothEnded, rst_lem, Failed}
use sponge_fa.TcpState.{SenderSummary, State, of_official, sender_summary, state}

-- The tests of `sender_summary`, on the values that it reads.
abbrev summary_of : Bool → Bool → ℕ → ℕ → ℕ → SenderSummary
summary_of error eof next flying written =
    if error
    then SenderSummary.error
    else (if next == 0
        then SenderSummary.closed
        else (if next == flying
            then SenderSummary.syn_sent
            else (if not eof
                then SenderSummary.syn_acked
                else (if ltb next (add64 written 2)
                    then SenderSummary.syn_acked
                    else (if flying == 0
                        then SenderSummary.fin_acked
                        else SenderSummary.fin_sent)))))

summary_of_lem :
    (s : TcpSender)
    → sender_summary s
      ≡ summary_of s.stream.error
          (Stream.eof s.stream)
          s.next_seqno
          (Sender.bytes_in_flight s)
          s.stream.bytes_written
unfolding sender_summary
summary_of_lem s = refl

-- For a valid sender that has sent its SYN and has no error, with its numbers below 2 ^ 64, the
-- summary is read off the oldest number in flight: nothing is acknowledged while that is the SYN;
-- the stream goes on until it is empty and ended with its FIN sent; then the FIN is sent, and
-- acknowledged once nothing is in flight.
pub sender_summary_lem :
    (s : TcpSender) (v : IsValid s)
    → s.next_seqno < 2 ^ 64
    → s.stream.bytes_written + 2 < 2 ^ 64
    → s.stream.error ≡ false
    → 0 < s.next_seqno
    → sender_summary s ≡ (
        if v.oldest == 0
        then SenderSummary.syn_sent
        else (if not (Stream.eof s.stream) || ltb s.next_seqno (s.stream.bytes_written + 2)
            then SenderSummary.syn_acked
            else (if v.oldest == s.next_seqno
                then SenderSummary.fin_acked
                else SenderSummary.fin_sent)))
sender_summary_lem s v small written fine started =
    let flying = bytes_in_flight_lem s v small in
    rw (summary_of_lem s, fine) (ground (arith, flying))

-- A connection that has just been made listens, and `connect` takes it to SYN_SENT.
pub new-listen :
    (cfg : TcpConfig) (random : WrappingInt32)
    → (state (new cfg random) ≡ of_official State.listen)
      × (state (connect (new cfg random)) ≡ of_official State.syn_sent)
unfolding state of_official new connect
new-listen cfg random = (refl, refl)

Failed-reset : (c : TcpConnection) → Failed c → active c ≡ false → state c ≡ of_official State.reset
unfolding state of_official
Failed-reset c (out, in_) off = rw (off, out, in_) refl

-- An RST takes an active connection to RESET, unless both streams have ended.
pub rst-reset :
    (c : TcpConnection) (seg : TcpSegment)
    → active c ≡ true
    → seg.header.rst ≡ true
    → BothEnded c ⊎ (state (segment_received c seg) ≡ of_official State.reset)
rst-reset c seg on rst =
    let r = rst_lem c seg on rst in
    elim r.3 [
      | inl ended ↦ inl ended
      | inr over ↦ inr (Failed-reset (segment_received c seg) r.0 over)
    ]
