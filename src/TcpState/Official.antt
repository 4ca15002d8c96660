-- ===== src/TcpState/Official.antt =====
-- The states of the specification are told apart by their summaries.
use sponge_fa.Prelude.{◌∙◌, sym, ◌≡◌, refl, ap, Bool, true, false, Option, none, some}
use sponge_fa.TcpState.{TcpState, of_official, SenderSummary, ReceiverSummary, State}

-- The state of the specification that a summary stands for, if there is one.
abbrev pub official : SenderSummary → ReceiverSummary → Bool → Bool → Option State
official SenderSummary.closed ReceiverSummary.listen true true = some State.listen
official SenderSummary.syn_sent ReceiverSummary.syn_recv true true = some State.syn_rcvd
official SenderSummary.syn_sent ReceiverSummary.listen true true = some State.syn_sent
official SenderSummary.syn_acked ReceiverSummary.syn_recv true true = some State.established
official SenderSummary.syn_acked ReceiverSummary.fin_recv true false = some State.close_wait
official SenderSummary.fin_sent ReceiverSummary.fin_recv true false = some State.last_ack
official SenderSummary.fin_sent ReceiverSummary.fin_recv true true = some State.closing
official SenderSummary.fin_sent ReceiverSummary.syn_recv true true = some State.fin_wait_1
official SenderSummary.fin_acked ReceiverSummary.syn_recv true true = some State.fin_wait_2
official SenderSummary.fin_acked ReceiverSummary.fin_recv true true = some State.time_wait
official SenderSummary.error ReceiverSummary.error false false = some State.reset
official SenderSummary.fin_acked ReceiverSummary.fin_recv false false = some State.closed
official s r a l = none

-- The summary of a state of the specification stands for that state and for no other one.
pub official-of_official :
    (st : State)
    → let t = of_official st in
      official t.sender t.receiver t.active t.linger_after_streams_finish ≡ some st
unfolding of_official
official-of_official State.listen = refl
official-of_official State.syn_rcvd = refl
official-of_official State.syn_sent = refl
official-of_official State.established = refl
official-of_official State.close_wait = refl
official-of_official State.last_ack = refl
official-of_official State.closing = refl
official-of_official State.fin_wait_1 = refl
official-of_official State.fin_wait_2 = refl
official-of_official State.time_wait = refl
official-of_official State.reset = refl
official-of_official State.closed = refl

pub of_official-injective : (a b : State) → of_official a ≡ of_official b → a ≡ b
of_official-injective a b e =
    let decode : TcpState → Option State =
      λ t. official t.sender t.receiver t.active t.linger_after_streams_finish in
    let same : decode (of_official a) ≡ decode (of_official b) = ap decode e in
    let one = official-of_official a in
    let other = official-of_official b in
    let some_same : some a ≡ some b = sym one ∙ (same ∙ other) in cc
