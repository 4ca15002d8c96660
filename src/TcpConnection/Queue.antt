-- ===== src/TcpConnection/Queue.antt =====
-- `pop_and_send_segments`: what leaves the connection.
use sponge_fa.Prelude.{
  Bool, eq→==, ℕ, ◌-◌, ◌^◌, ◌<◌, ◌≡◌, ◌∙◌, refl, ap, sym, true, false, List, [], ◌∷◌, ◌++◌, Option,
  none, some, min, append_assoc, append-nil, arith, u16,
}
use sponge_fa.WrappingInt32.{WrappingInt32}
use sponge_fa.TcpSegment.{TcpSegment}
use sponge_fa.TcpReceiver as Receiver
use sponge_fa.TcpConnection.{TcpConnection, stamp, pop_loop, pop_and_send_segments}

-- The segments with the acknowledgment and the window in them.
unfoldable pub stamped : Option WrappingInt32 → ℕ → List TcpSegment → List TcpSegment
stamped ackno win_size [] = []
stamped ackno win_size (seg ∷ rest) = stamp ackno win_size seg ∷ stamped ackno win_size rest

pop_loop-stamped :
    (ackno : Option WrappingInt32) (win_size : ℕ) (segs out : List TcpSegment)
    → pop_loop ackno win_size segs out ≡ out ++ stamped ackno win_size segs
unfolding pop_loop stamped
pop_loop-stamped ackno win_size [] out = sym (append-nil out)
pop_loop-stamped ackno win_size (seg ∷ rest) out =
    pop_loop-stamped ackno win_size rest (out ++ (stamp ackno win_size seg ∷ []))
    ∙ append_assoc out _ _

-- The window that the connection announces.
abbrev pub announced : TcpConnection → ℕ
announced c = min (Receiver.window_size c.receiver) (2 ^ 16 - 1)

unfoldable pub outgoing : TcpConnection → List TcpSegment
unfolding stamped Receiver.ackno Receiver.window_size
outgoing c = stamped (Receiver.ackno c.receiver) (announced c) c.sender.segments_out

-- `pop_and_send_segments` empties the sender's queue, and appends what was in it, in order, with
-- the receiver's acknowledgment and window added; nothing else changes.
pub pop_and_send_segments_lem :
    (c : TcpConnection)
    → pop_and_send_segments c ≡ record c {
      sender = record (c.sender) { segments_out = [] };
      segments_out = c.segments_out ++ outgoing c;
    }
unfolding pop_and_send_segments outgoing
pop_and_send_segments_lem c =
    ap (λ out. record c { sender = record (c.sender) { segments_out = [] }; segments_out = out })
      (pop_loop-stamped (Receiver.ackno c.receiver) (announced c) c.sender.segments_out
        c.segments_out)

abbrev pub is_some : Option WrappingInt32 → Bool
is_some none = false
is_some (some a) = true

abbrev pub value_or : Option WrappingInt32 → WrappingInt32 → WrappingInt32
value_or none b = b
value_or (some a) b = a

-- What `stamp` does to a segment that the sender has made (no acknowledgment, no window): the
-- acknowledgment is set exactly if the receiver has one, the window always, and sequence number,
-- flags and payload stay.
pub stamp_lem :
    (ackno : Option WrappingInt32) (win_size : ℕ) (seg : TcpSegment)
    → win_size < 2 ^ 16
    → seg.header.ack ≡ false
    → seg.header.win ≡ 0
    → let t = stamp ackno win_size seg in
      (t.payload ≡ seg.payload)
      × (t.header.seqno ≡ seg.header.seqno)
      × (t.header.syn ≡ seg.header.syn)
      × (t.header.fin ≡ seg.header.fin)
      × (t.header.rst ≡ seg.header.rst)
      × (t.header.win ≡ win_size)
      × (t.header.ack ≡ is_some ackno)
      × (t.header.ackno ≡ value_or ackno seg.header.ackno)
unfolding stamp
stamp_lem none win_size seg small plain unset =
    let fits : u16 win_size ≡ win_size = omega arith in
    rw (eq→== seg.header.win 0 unset) (refl, refl, refl, refl, refl, fits, plain, refl)
stamp_lem (some a) win_size seg small plain unset =
    let fits : u16 win_size ≡ win_size = omega arith in
    rw (plain, eq→== seg.header.win 0 unset) (refl, refl, refl, refl, refl, fits, refl, refl)
