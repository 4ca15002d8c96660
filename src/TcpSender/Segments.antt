-- ===== src/TcpSender/Segments.antt =====
-- Lists of segments as the sender numbers them.
use sponge_fa.Prelude.{
  ◌⊎◌, inl, inr, refl, sym, sym, ℕ, ◌+◌, ◌≤◌, ◌<◌, ◌≡◌, Bool, true, false, List, [], ◌∷◌, ◌++◌,
  length, arith,
}
use mathlib.Core.Path.{subst}
use sponge_fa.WrappingInt32.{WrappingInt32, wrap}
use sponge_fa.TcpConfig.{max_payload_size}
use sponge_fa.TcpSegment.{TcpSegment, length_in_sequence_space}
use sponge_fa.TcpSender.{Outstanding}

abbrev pub flag : Bool → ℕ
flag true = 1
flag false = 0

pub flag-le-one : (b : Bool) → flag b ≤ 1
flag-le-one true = omega arith
flag-le-one false = omega arith

-- Sequence space of a segment whose payload is of a size that the sender makes.
pub length_in_sequence_space_lem :
    (seg : TcpSegment)
    → length seg.payload ≤ max_payload_size
    → length_in_sequence_space seg ≡ length seg.payload + flag seg.header.syn + flag seg.header.fin
unfolding length_in_sequence_space
length_in_sequence_space_lem seg h = ground arith

-- The segments carry the numbers from `lo` up to `hi`, with no gap and no empty segment.
abbrev pub Numbered : WrappingInt32 → ℕ → List TcpSegment → ℕ → Type 0
Numbered isn lo [] hi = lo ≡ hi
Numbered isn lo (seg ∷ rest) hi =
    (seg.header.seqno ≡ wrap lo isn)
    × (0 < length_in_sequence_space seg)
    × (length seg.payload ≤ max_payload_size)
    × Numbered isn (lo + length_in_sequence_space seg) rest hi

pub Numbered-le :
    (isn : WrappingInt32) (lo hi : ℕ) (segs : List TcpSegment) → Numbered isn lo segs hi → lo ≤ hi
Numbered-le isn lo hi [] n = omega arith
Numbered-le isn lo hi (seg ∷ rest) n =
    omega (arith, Numbered-le isn (lo + length_in_sequence_space seg) hi rest n.3)

-- No numbers, no segments.
pub Numbered-none :
    (isn : WrappingInt32) (lo hi : ℕ) (segs : List TcpSegment)
    → Numbered isn lo segs hi
    → hi ≤ lo
    → segs ≡ []
Numbered-none isn lo hi [] n h = refl
Numbered-none isn lo hi (seg ∷ rest) n h =
    absurd (omega (arith, n.1, Numbered-le isn (lo + length_in_sequence_space seg) hi rest n.3))

-- No segment is a SYN, and only the last one may be the FIN, if `done` holds.
abbrev pub FinLast : Type 0 → List TcpSegment → Type 0
FinLast done [] = Unit
FinLast done (seg ∷ rest) =
    (seg.header.syn ≡ false) × ((seg.header.fin ≡ false) ⊎ ((rest ≡ []) × done)) × FinLast done rest

pub FinLast-map :
    {D E : Type 0} → (D → E) → (segs : List TcpSegment) → FinLast D segs → FinLast E segs
FinLast-map f [] l = record {}
FinLast-map f (seg ∷ rest) l =
    (l.0, elim l.1 [ inl e ↦ inl e | inr (e, d) ↦ inr (e, f d) ], FinLast-map f rest l.2)

-- What the sender remembers of them.
unfoldable pub book : ℕ → Bool → List TcpSegment → List Outstanding
book lo zero_window [] = []
book lo zero_window (seg ∷ rest) =
    record { abs_seqno = lo; window_zero_flag = zero_window; segment = seg }
    ∷ book (lo + length_in_sequence_space seg) zero_window rest

unfoldable pub payloads : List TcpSegment → List ℕ
payloads [] = []
payloads (seg ∷ rest) = seg.payload ++ payloads rest

-- The remembered segments carry the numbers from `lo` up to `hi` in the same way.
abbrev pub InFlight : WrappingInt32 → ℕ → List Outstanding → ℕ → Type 0
InFlight isn lo [] hi = lo ≡ hi
InFlight isn lo (o ∷ rest) hi =
    (o.abs_seqno ≡ lo)
    × (o.segment.header.seqno ≡ wrap lo isn)
    × (0 < length_in_sequence_space o.segment)
    × (length o.segment.payload ≤ max_payload_size)
    × InFlight isn (lo + length_in_sequence_space o.segment) rest hi

pub InFlight-book :
    (isn : WrappingInt32) (lo hi : ℕ) (z : Bool) (segs : List TcpSegment)
    → Numbered isn lo segs hi
    → InFlight isn lo (book lo z segs) hi
unfolding book
InFlight-book isn lo hi z [] n = n
InFlight-book isn lo hi z (seg ∷ rest) n =
    (refl, n.0, n.1, n.2, InFlight-book isn (lo + length_in_sequence_space seg) hi z rest n.3)

pub InFlight-append :
    (isn : WrappingInt32) (lo mid hi : ℕ) (xs ys : List Outstanding)
    → InFlight isn lo xs mid
    → InFlight isn mid ys hi
    → InFlight isn lo (xs ++ ys) hi
InFlight-append isn lo mid hi [] ys f g = subst (λ (l : ℕ). InFlight isn l ys hi) (sym f) g
InFlight-append isn lo mid hi (o ∷ xs) ys f g = (
  f.0,
  f.1,
  f.2,
  f.3,
  InFlight-append isn (lo + length_in_sequence_space o.segment) mid hi xs ys f.4 g,
)

pub InFlight-le :
    (isn : WrappingInt32) (lo hi : ℕ) (xs : List Outstanding) → InFlight isn lo xs hi → lo ≤ hi
InFlight-le isn lo hi [] f = omega arith
InFlight-le isn lo hi (o ∷ xs) f =
    omega (arith, InFlight-le isn (lo + length_in_sequence_space o.segment) hi xs f.4)
