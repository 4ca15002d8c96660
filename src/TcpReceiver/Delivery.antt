-- ===== src/TcpReceiver/Delivery.antt =====
-- From the segments of a peer's stream to the receiver's output.
use sponge_fa.Prelude.{
  ◌⊎◌, false, ℕ, ◌+◌, ◌-◌, ◌^◌, ◌<◌, ◌≤◌, inl, inr, ◌≡◌, refl, sym, true, List, [], ◌∷◌, length,
  arith,
}
use mathlib.Core.Path.{subst}
use sponge_fa.WrappingInt32.{WrappingInt32, wrap}
use sponge_fa.WrappingInt32.Nearest.{distance}
use sponge_fa.StreamReassembler.Carried.{Genuine, Carries, Carries-ended}
use sponge_fa.StreamReassembler.History.{new-Carries, Carries-push_substring}
use sponge_fa.StreamReassembler.Empty.{Carries-push_empty}
use sponge_fa.TcpSegment.{TcpSegment}
use sponge_fa.TcpReceiver.{TcpReceiver, new, segment_received, stream_out}
use sponge_fa.TcpReceiver.Placement.{placed, segment_received-placed, segment_received-first}

unfoldable pub receive : TcpReceiver → List TcpSegment → TcpReceiver
unfolding segment_received
receive r [] = r
receive r (seg ∷ segs) = receive (segment_received r seg) segs

-- A segment that carries nothing.
pub record IsEmpty (seg : TcpSegment) : Type 0 where
  pub no_payload : seg.payload ≡ []
  pub no_fin : seg.header.fin ≡ false

-- A segment with the number `m`, near the checkpoint `last`: a piece of the peer's stream, or one that
-- carries nothing and has a number in the stream or right behind its FIN.
pub record FromPeer (whole : List ℕ) (isn : WrappingInt32) (last m : ℕ) (seg : TcpSegment)
    : Type 0 where
  pub number : seg.header.seqno ≡ wrap m isn
  pub behind_syn : 0 < m
  pub near : distance m last < 2 ^ 31
  pub bounded : m ≤ length whole + 2
  pub piece : Genuine whole seg.payload (m - 1) seg.header.fin ⊎ IsEmpty seg

-- Segments in any order, each near the one before.
abbrev pub AllFromPeer : List ℕ → WrappingInt32 → ℕ → List (ℕ × TcpSegment) → Type 0
AllFromPeer whole isn last [] = Unit
AllFromPeer whole isn last ((m, seg) ∷ rest) =
    FromPeer whole isn last m seg × AllFromPeer whole isn (m - 1) rest

abbrev pub segments : List (ℕ × TcpSegment) → List TcpSegment
segments [] = []
segments ((m, seg) ∷ rest) = seg ∷ segments rest

module _ (whole taken : List ℕ) (capacity : ℕ)
    (small : length whole + capacity < 2 ^ 64 - 2 ^ 33) where
  receive-step :
      (r : TcpReceiver) (segs : List (ℕ × TcpSegment))
      → r.syn_recived ≡ true
      → r.isn < 2 ^ 32
      → r.last_stream_no < 2 ^ 64 - 2 ^ 32
      → AllFromPeer whole r.isn r.last_stream_no segs
      → Carries whole capacity taken r.reassembler
      → Carries whole capacity taken (receive r (segments segs)).reassembler
  unfolding receive
  receive-step r [] on initial low all c = c
  receive-step r ((m, seg) ∷ segs) on initial low all c =
      let f = all.0 in
      let r' : TcpReceiver = placed r seg (m - 1) in
      let e : segment_received r seg ≡ r' =
        segment_received-placed r seg m on initial low f.behind_syn (omega (arith, f.bounded))
          f.near f.number in
      let c' : Carries whole capacity taken r'.reassembler = elim f.piece [
        | inl g ↦
            Carries-push_substring whole capacity (omega arith) taken r.reassembler seg.payload
              (m - 1) seg.header.fin g c
        | inr e ↦
            rw (e.no_payload, e.no_fin)
              (Carries-push_empty whole capacity taken r.reassembler (m - 1) (omega arith) c)
      ] in
      subst (λ t. Carries whole capacity taken (receive t (segments segs)).reassembler) (sym e)
        (receive-step r' segs on initial (omega (arith, f.bounded)) all.1 c')

-- A receiver that gets the peer's SYN first and then segments of the peer's stream or empty ones, in
-- any order, repeated or lost, each within 2 ^ 31 of the one before, none with the number of the SYN: its output is a
-- prefix of the peer's stream, what it holds behind is the stream's, and the output ends only where
-- the peer's stream does.
pub receive-Carries :
    (whole : List ℕ) (capacity : ℕ) (syn : TcpSegment) (segs : List (ℕ × TcpSegment))
    → length whole + capacity < 2 ^ 64 - 2 ^ 33
    → syn.header.syn ≡ true
    → syn.header.seqno < 2 ^ 32
    → Genuine whole syn.payload 0 syn.header.fin
    → AllFromPeer whole syn.header.seqno 0 segs
    → let r = receive (new capacity) (syn ∷ segments segs) in
      Carries whole capacity [] r.reassembler
      × (((stream_out r).end_input ≡ false) ⊎ ((stream_out r).buffer ≡ whole))
unfolding receive new
receive-Carries whole capacity syn segs small is_syn initial piece all =
    let r₀ = new capacity in
    let r₁ : TcpReceiver =
      placed (record r₀ { syn_recived = true; isn = syn.header.seqno }) syn 0 in
    let e : segment_received r₀ syn ≡ r₁ = segment_received-first r₀ syn refl refl is_syn initial in
    let c₁ =
      Carries-push_substring whole capacity (omega arith) [] r₀.reassembler syn.payload 0
        syn.header.fin piece (new-Carries whole capacity (omega arith)) in
    let c =
      subst (λ t. Carries whole capacity [] (receive t (segments segs)).reassembler) (sym e)
        (receive-step whole [] capacity small r₁ segs refl initial (omega arith) all c₁) in
    (
      c,
      Carries-ended whole capacity []
          (receive (segment_received r₀ syn) (segments segs)).reassembler c,
    )
