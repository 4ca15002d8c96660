-- ===== src/TcpSender/Pieces.antt =====
-- Segments as pieces of the stream that is sent.
use sponge_fa.Prelude.{
  ◌⊎◌, inl, inr, ℕ, ◌+◌, ◌-◌, ◌<◌, ◌≤◌, ◌≡◌, ◌∙◌, ap, sym, Bool, true, false, List, [], ◌∷◌, ◌++◌,
  append_assoc, length, length-append, get_elem?-append, arith,
}
use mathlib.Core.Path.{subst}
use sponge_fa.WrappingInt32.{WrappingInt32, wrap}
use sponge_fa.StreamReassembler.Carried.{Genuine}
use sponge_fa.TcpSegment.{TcpSegment, length_in_sequence_space}
use sponge_fa.TcpSender.Segments.{flag, Numbered, FinLast, payloads, length_in_sequence_space_lem}

-- The SYN.
pub record IsSyn (isn : WrappingInt32) (seg : TcpSegment) : Type 0 where
  pub number : seg.header.seqno ≡ wrap 0 isn
  pub syn : seg.header.syn ≡ true
  pub no_fin : seg.header.fin ≡ false
  pub no_payload : seg.payload ≡ []

-- A segment with the number `seqno` of a stream of which `out` has been sent, to its end if `closed`.
pub record IsPiece (isn : WrappingInt32) (out : List ℕ) (closed : Bool) (seg : TcpSegment)
    : Type 0 where
  pub seqno : ℕ
  pub number : seg.header.seqno ≡ wrap seqno isn
  pub behind_syn : 0 < seqno
  pub plain : seg.header.syn ≡ false
  pub piece : Genuine out seg.payload (seqno - 1) seg.header.fin
  pub fin : seg.header.fin ≡ true → closed ≡ true

-- An empty segment, which takes no number.
pub record IsBare (isn : WrappingInt32) (out : List ℕ) (seg : TcpSegment) : Type 0 where
  pub seqno : ℕ
  pub number : seg.header.seqno ≡ wrap seqno isn
  pub bounded : seqno ≤ length out + 2
  pub plain : seg.header.syn ≡ false
  pub no_fin : seg.header.fin ≡ false
  pub no_payload : seg.payload ≡ []

abbrev pub IsSent : WrappingInt32 → List ℕ → Bool → TcpSegment → Type 0
IsSent isn out closed seg = IsSyn isn seg ⊎ (IsBare isn out seg ⊎ IsPiece isn out closed seg)

abbrev pub AllSent : WrappingInt32 → List ℕ → Bool → List TcpSegment → Type 0
AllSent isn out closed [] = Unit
AllSent isn out closed (seg ∷ segs) = IsSent isn out closed seg × AllSent isn out closed segs

pub AllSent-append :
    (isn : WrappingInt32) (out : List ℕ) (closed : Bool) (xs ys : List TcpSegment)
    → AllSent isn out closed xs
    → AllSent isn out closed ys
    → AllSent isn out closed (xs ++ ys)
AllSent-append isn out closed [] ys a b = b
AllSent-append isn out closed (x ∷ xs) ys a b = (a.0, AllSent-append isn out closed xs ys a.1 b)

pub AllSent-behind :
    (isn : WrappingInt32) (out : List ℕ) (closed : Bool) (xs ys : List TcpSegment)
    → AllSent isn out closed (xs ++ ys)
    → AllSent isn out closed ys
AllSent-behind isn out closed [] ys a = a
AllSent-behind isn out closed (x ∷ xs) ys a = AllSent-behind isn out closed xs ys a.1

-- What is sent later does not change what was sent, if the stream was not closed.
Genuine-extend :
    (out more bytes : List ℕ) (index : ℕ) (eof : Bool)
    → Genuine out bytes index eof
    → (eof ≡ true → more ≡ [])
    → Genuine (out ++ more) bytes index eof
Genuine-extend out more bytes index eof g end_ = record {
  within = omega (arith, length-append out more, g.within);
  agrees = λ j h. g.agrees j h ∙ ground (arith, get_elem?-append out more (index + j), g.within);
  last = λ e. g.last e ∙ (omega (arith, length-append out more, ap length (end_ e)));
}

pub AllSent-extend :
    (isn : WrappingInt32) (out more : List ℕ) (closed closed' : Bool) (segs : List TcpSegment)
    → (closed ≡ true → (closed' ≡ true) × (more ≡ []))
    → AllSent isn out closed segs
    → AllSent isn (out ++ more) closed' segs
AllSent-extend isn out more closed closed' [] kept a = record {}
AllSent-extend isn out more closed closed' (seg ∷ segs) kept a = (
  elim a.0 [
    | inl syn ↦ inl syn
    | inr (inl b) ↦ inr (
        inl (record {
          seqno = b.seqno;
          number = b.number;
          bounded = omega (arith, b.bounded, length-append out more);
          plain = b.plain;
          no_fin = b.no_fin;
          no_payload = b.no_payload;
        }))
    | inr (inr p) ↦ inr (
        inr (record {
          seqno = p.seqno;
          number = p.number;
          behind_syn = p.behind_syn;
          plain = p.plain;
          piece =
              Genuine-extend out more seg.payload (p.seqno - 1) seg.header.fin p.piece
                (λ e. (kept (p.fin e)).1);
          fin = λ e. (kept (p.fin e)).0;
        }))
  ],
  AllSent-extend isn out more closed closed' segs kept a.1,
)

-- A payload behind what was sent before.
Genuine-middle :
    (before bytes after_ : List ℕ) (fin : Bool)
    → (fin ≡ true → after_ ≡ [])
    → Genuine (before ++ (bytes ++ after_)) bytes (length before) fin
Genuine-middle before bytes after_ fin end_ =
    let a = length-append before (bytes ++ after_) in
    let b = length-append bytes after_ in
    record {
      within = omega (arith, a, b);
      agrees = λ j h. ground (
        arith,
        get_elem?-append before (bytes ++ after_) (length before + j),
        get_elem?-append bytes after_ j,
        h,
      );
      last = λ e. omega (arith, a, b, ap length (end_ e));
    }

-- Consecutively numbered segments, the first right behind what was sent before, are pieces.
pub AllSent-Numbered :
    {D : Type 0} (isn : WrappingInt32) (before : List ℕ) (closed : Bool) (lo hi : ℕ)
    (segs : List TcpSegment)
    → lo ≡ 1 + length before
    → (D → closed ≡ true)
    → Numbered isn lo segs hi
    → FinLast D segs
    → AllSent isn (before ++ payloads segs) closed segs
unfolding payloads
AllSent-Numbered isn before closed lo hi [] at done n l = record {}
AllSent-Numbered {D = D} isn before closed lo hi (seg ∷ rest) at done n l =
    let fin_end : seg.header.fin ≡ true → (rest ≡ []) × D =
      λ e. elim l.1 [ inl no_fin ↦ absurd cc | inr d ↦ d ] in
    (
      inr (
          inr (record {
            seqno = lo;
            number = n.0;
            behind_syn = omega arith;
            plain = l.0;
            piece =
                subst
                  (λ i.
                    Genuine (before ++ (seg.payload ++ payloads rest)) seg.payload i seg.header.fin)
                  (omega arith)
                  (Genuine-middle before seg.payload (payloads rest) seg.header.fin
                    (λ e. ap payloads (fin_end e).0));
            fin = λ e. done (fin_end e).1;
          })),
      elim l.1 [
        | inl no_fin ↦
            let next : lo + length_in_sequence_space seg ≡ 1 + length (before ++ seg.payload) =
              omega (
                arith,
                length_in_sequence_space_lem seg n.2,
                length-append before seg.payload,
                ap flag l.0,
                ap flag no_fin,
              ) in
            subst (λ out. AllSent isn out closed rest)
              (append_assoc before seg.payload (payloads rest))
              (AllSent-Numbered isn (before ++ seg.payload) closed
                (lo + length_in_sequence_space seg) hi rest next done n.3 l.2)
        | inr (none_, d) ↦
            subst (λ segs. AllSent isn (before ++ (seg.payload ++ payloads rest)) closed segs)
              (sym none_) (record {})
      ],
    )
