-- ===== src/TcpState.antt =====
-- libsponge/tcp_helpers/tcp_state.hh and tcp_state.cc: how a connection's state is summarised, and
-- the states of the TCP specification. The summaries are strings in the code, no two alike; here
-- they are constructors.
pub mod Official
pub mod Summary
mod Tests
use sponge_fa.Prelude.{
  ℕ, ◌+◌, Bool, true, false, not, ltb, ◌==◌, if◌then◌else◌, Option, none, some, add64,
}
use sponge_fa.WrappingInt32.{WrappingInt32}
use sponge_fa.ByteStream as Stream
use sponge_fa.TcpReceiver as Receiver
use sponge_fa.TcpReceiver.{TcpReceiver}
use sponge_fa.TcpSender as Sender
use sponge_fa.TcpSender.{TcpSender}
use sponge_fa.TcpConnection.{TcpConnection, active}

pub data ReceiverSummary : Type 0 where
  error listen syn_recv fin_recv : ReceiverSummary

pub data SenderSummary : Type 0 where
  error closed syn_sent syn_acked fin_sent fin_acked : SenderSummary

pub record TcpState : Type 0 where
  pub sender : SenderSummary
  pub receiver : ReceiverSummary
  pub active : Bool
  pub linger_after_streams_finish : Bool

-- `TCPState::State`.
pub data State : Type 0 where
  listen syn_rcvd syn_sent established close_wait last_ack fin_wait_1 fin_wait_2 : State
  closing time_wait closed reset : State

abbrev state_of : SenderSummary → ReceiverSummary → Bool → Bool → TcpState
state_of sender receiver active linger = record {
  sender = sender;
  receiver = receiver;
  active = active;
  linger_after_streams_finish = linger;
}

unfoldable pub of_official : State → TcpState
of_official State.listen = state_of SenderSummary.closed ReceiverSummary.listen true true
of_official State.syn_rcvd = state_of SenderSummary.syn_sent ReceiverSummary.syn_recv true true
of_official State.syn_sent = state_of SenderSummary.syn_sent ReceiverSummary.listen true true
of_official State.established = state_of SenderSummary.syn_acked ReceiverSummary.syn_recv true true
of_official State.close_wait = state_of SenderSummary.syn_acked ReceiverSummary.fin_recv true false
of_official State.last_ack = state_of SenderSummary.fin_sent ReceiverSummary.fin_recv true false
of_official State.closing = state_of SenderSummary.fin_sent ReceiverSummary.fin_recv true true
of_official State.fin_wait_1 = state_of SenderSummary.fin_sent ReceiverSummary.syn_recv true true
of_official State.fin_wait_2 = state_of SenderSummary.fin_acked ReceiverSummary.syn_recv true true
of_official State.time_wait = state_of SenderSummary.fin_acked ReceiverSummary.fin_recv true true
of_official State.reset = state_of SenderSummary.error ReceiverSummary.error false false
of_official State.closed = state_of SenderSummary.fin_acked ReceiverSummary.fin_recv false false

abbrev has_value {ℓ} : {A : Type ℓ} → Option A → Bool
has_value none = false
has_value (some a) = true

unfoldable pub receiver_summary : TcpReceiver → ReceiverSummary
unfolding Receiver.ackno Stream.input_ended
receiver_summary r =
    let stream = r.reassembler.output in
    if stream.error
    then ReceiverSummary.error
    else (if not (has_value (Receiver.ackno r))
        then ReceiverSummary.listen
        else (if Stream.input_ended stream
            then ReceiverSummary.fin_recv
            else ReceiverSummary.syn_recv))

unfoldable pub sender_summary : TcpSender → SenderSummary
unfolding Sender.bytes_in_flight Stream.eof
sender_summary s =
    if s.stream.error
    then SenderSummary.error
    else (if s.next_seqno == 0
        then SenderSummary.closed
        else (if s.next_seqno == Sender.bytes_in_flight s
            then SenderSummary.syn_sent
            else (if not (Stream.eof s.stream)
                then SenderSummary.syn_acked
                else (if ltb s.next_seqno (add64 s.stream.bytes_written 2)
                    then SenderSummary.syn_acked
                    else (if Sender.bytes_in_flight s == 0
                        then SenderSummary.fin_acked
                        else SenderSummary.fin_sent)))))

-- `TCPConnection::state`, with the constructor that it calls.
unfoldable pub state : TcpConnection → TcpState
unfolding active receiver_summary sender_summary
state c =
    let on = active c in
    record {
      sender = sender_summary c.sender;
      receiver = receiver_summary c.receiver;
      active = on;
      linger_after_streams_finish = if on then c.linger_after_streams_finish else false;
    }
