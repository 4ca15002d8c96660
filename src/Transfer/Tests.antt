-- ===== src/Transfer/Tests.antt =====
-- A stream that is sent and received.
use sponge_fa.Prelude.{◌≡◌, ◌⊎◌, refl, true, false, List, [], ◌∷◌, some, arith}
use mathlib.Core.List.Memᴰ
use sponge_fa.StreamReassembler.Carried.{Carries}
use sponge_fa.TcpHeader.{default_header}
use sponge_fa.TcpSegment.{TcpSegment}
use sponge_fa.TcpSender as Sender
use sponge_fa.TcpSender.{TcpSender}
use sponge_fa.TcpSender.History.{Op, run}
use sponge_fa.TcpReceiver as Receiver
use sponge_fa.TcpReceiver.{stream_out}
use sponge_fa.TcpReceiver.Delivery.{receive}
use sponge_fa.Transfer.{receive-run}

-- The SYN is acknowledged, an empty segment goes out, three bytes are written and sent, and with two more the FIN.
abbrev ops : List Op
ops =
    Op.fill_window
    ∷ Op.ack_received 8 10
    ∷ Op.send_empty_segment
    ∷ Op.write (1 ∷ 2 ∷ 3 ∷ [])
    ∷ Op.fill_window
    ∷ Op.write (4 ∷ 5 ∷ [])
    ∷ Op.end_input
    ∷ Op.fill_window
    ∷ Op.tick 1000
    ∷ []

abbrev sender : TcpSender
sender = (run (Sender.new 100 1000 (some 7) 0) [] ops).0

abbrev syn : TcpSegment
syn = record { header = record default_header { seqno = 7; syn = true }; payload = [] }

abbrev bare : TcpSegment
bare = record { header = record default_header { seqno = 8 }; payload = [] }

abbrev data_ : TcpSegment
data_ = record { header = record default_header { seqno = 8 }; payload = 1 ∷ 2 ∷ 3 ∷ [] }

abbrev last : TcpSegment
last = record { header = record default_header { seqno = 11; fin = true }; payload = 4 ∷ 5 ∷ [] }

queue : sender.segments_out ≡ syn ∷ bare ∷ data_ ∷ last ∷ data_ ∷ []
unfolding run Sender.new
queue = refl

-- The segments arrive in the wrong order.
arrives :
    (stream_out (receive (Receiver.new 50) (syn ∷ last ∷ data_ ∷ bare ∷ []))).buffer
    ≡ 1 ∷ 2 ∷ 3 ∷ 4 ∷ 5 ∷ []
unfolding receive Receiver.new
arrives = refl

receive-run_example :
    let r = receive (Receiver.new 50) (syn ∷ last ∷ data_ ∷ bare ∷ []) in
    Carries (1 ∷ 2 ∷ 3 ∷ 4 ∷ 5 ∷ []) 50 [] r.reassembler
    × (((stream_out r).end_input ≡ false) ⊎ ((stream_out r).buffer ≡ 1 ∷ 2 ∷ 3 ∷ 4 ∷ 5 ∷ []))
unfolding run Sender.new
receive-run_example =
    receive-run 100 1000 50 (some 7) 0 ops sender (1 ∷ 2 ∷ 3 ∷ 4 ∷ 5 ∷ []) syn
      (last ∷ data_ ∷ bare ∷ []) (omega arith) (omega arith) (omega arith) (omega arith)
      (omega arith, record {}) refl (Memᴰ.head refl) refl
      (
        Memᴰ.tail (Memᴰ.tail (Memᴰ.tail (Memᴰ.head refl))),
        (λ e. absurd (omega arith)),
        (
          Memᴰ.tail (Memᴰ.tail (Memᴰ.head refl)),
          (λ e. absurd (omega arith)),
          (Memᴰ.tail (Memᴰ.head refl), (λ e. absurd (omega arith)), record {}),
        ),
      )
