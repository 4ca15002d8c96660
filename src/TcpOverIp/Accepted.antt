-- ===== src/TcpOverIp/Accepted.antt =====
-- Which datagrams reach the connection, and what they do to the adapter.
use sponge_fa.Prelude.{
  sym, ℕ, ◌≡◌, true, false, not, ◌&&◌, ◌⊎◌, inl, inr, Bool-cases, Option, none, some, ◌==◌, arith,
  refl, ==_iff,
}
use mathlib.Core.Path.{subst}
use sponge_fa.Buffer.{Buffer, to_buffer}
use sponge_fa.FdAdapter.{FdAdapter, Reading}
use sponge_fa.Ipv4Datagram.{Ipv4Datagram}
use sponge_fa.Ipv4Header.{Ipv4Header, pseudo_cksum}
use sponge_fa.Parser.{ParseResult, is_error}
use sponge_fa.TcpSegment.{TcpSegment, default_segment}
use sponge_fa.TcpSegment.Verified.{IsVerified, Verifies, parse-Verifies}
use sponge_fa.TcpOverIp.{
  unwrap_tcp_in_ip, parsed_segment, parse_payload, check_ports, from_peer, retarget, proto_tcp,
}

-- Whether a payload is one buffer whose bytes have the checksum zero.
abbrev pub IsGood : Option Buffer → ℕ → Type 0
IsGood none layer = ⊥
IsGood (some b) layer = IsVerified b layer

-- Whether the adapter has stayed, or has answered a SYN as a listener.
abbrev pub Kept : FdAdapter → FdAdapter → TcpSegment → Type 0
Kept a a' seg = (a' ≡ a) ⊎ ((a.listen ≡ true) × (seg.header.syn ≡ true) × (seg.header.rst ≡ false))

-- A segment that is handed on belongs to the connection of the adapter as it is then.
pub record IsFromPeer (a : FdAdapter) (d : Ipv4Datagram) (a' : FdAdapter) (seg : TcpSegment)
    : Type 0 where
  pub quiet : a'.listen ≡ false
  pub here : d.header.dst ≡ a'.cfg.source.ip
  pub there : d.header.src ≡ a'.cfg.destination.ip
  pub proto : d.header.proto ≡ proto_tcp
  pub dport : seg.header.dport ≡ a'.cfg.source.port
  pub sport : seg.header.sport ≡ a'.cfg.destination.port
  pub port : a'.cfg.source.port ≡ a.cfg.source.port
  pub checksum : IsGood (to_buffer d.payload) (pseudo_cksum d.header)
  pub kept : Kept a a' seg

-- An exception, nothing and the adapter as it was, or a segment from the peer.
abbrev pub Answered : FdAdapter → Ipv4Datagram → Option Reading → Type 0
Answered a d none = Unit
Answered a d (some (none, a')) = a' ≡ a
Answered a d (some (some seg, a')) = IsFromPeer a d a' seg

module _ (a : FdAdapter) (d : Ipv4Datagram) (proto : d.header.proto ≡ proto_tcp)
    (good : IsGood (to_buffer d.payload) (pseudo_cksum d.header)) (seg : TcpSegment) where
  check_quiet :
      a.listen ≡ false
      → d.header.dst ≡ a.cfg.source.ip
      → d.header.src ≡ a.cfg.destination.ip
      → seg.header.dport ≡ a.cfg.source.port
      → Answered a d (some (from_peer a seg))
  check_quiet quiet here there dport =
      elim (Bool-cases (seg.header.sport == a.cfg.destination.port)) [
        | inl same ↦ rw same (record {
          quiet = quiet;
          here = here;
          there = there;
          proto = proto;
          dport = dport;
          sport = (==_iff seg.header.sport a.cfg.destination.port).0 same;
          port = refl;
          checksum = good;
          kept = inl refl;
        })
        | inr other ↦ rw other refl
      ]

  check_listening :
      a.listen ≡ true
      → seg.header.syn ≡ true
      → seg.header.rst ≡ false
      → seg.header.dport ≡ a.cfg.source.port
      → Answered a d (some (from_peer (retarget a d.header seg) seg))
  check_listening listening syn rst dport =
      let same : (seg.header.sport == seg.header.sport) ≡ true = ground arith in
      rw same (record {
        quiet = refl;
        here = refl;
        there = refl;
        proto = proto;
        dport = dport;
        sport = refl;
        port = refl;
        checksum = good;
        kept = inr (listening, syn, rst);
      })

  check_ports-Answered :
      (a.listen ≡ true) ⊎ ((d.header.dst ≡ a.cfg.source.ip) × (d.header.src ≡ a.cfg.destination.ip))
      → Answered a d (some (check_ports a d.header seg))
  check_ports-Answered addressed = elim (Bool-cases (seg.header.dport == a.cfg.source.port)) [
    | inr other ↦ rw other refl
    | inl mine ↦
        let dport = (==_iff seg.header.dport a.cfg.source.port).0 mine in
        elim (Bool-cases a.listen) [
          | inl listening ↦ elim (Bool-cases seg.header.syn) [
            | inr plain ↦ rw (mine, listening, plain) refl
            | inl syn ↦ elim (Bool-cases seg.header.rst) [
              | inl rst ↦ rw (mine, listening, syn, rst) refl
              | inr rst ↦
                  subst (λ r. Answered a d (some r)) (sym (rw (mine, listening, syn, rst) refl))
                    (check_listening listening syn rst dport)
            ]
          ]
          | inr quiet ↦ elim addressed [
            | inl listening ↦ absurd cc
            | inr (here, there) ↦
                subst (λ r. Answered a d (some r)) (sym (rw (mine, quiet) refl))
                  (check_quiet quiet here there dport)
          ]
        ]
  ]

parsed_segment-Answered :
    (a : FdAdapter) (d : Ipv4Datagram)
    → d.header.proto ≡ proto_tcp
    → (a.listen ≡ true) ⊎ ((d.header.dst ≡ a.cfg.source.ip) × (d.header.src ≡ a.cfg.destination.ip))
    → (o : Option (TcpSegment × ParseResult))
    → Verifies o (IsGood (to_buffer d.payload) (pseudo_cksum d.header))
    → Answered a d (parsed_segment a d.header o)
parsed_segment-Answered a d proto addressed none v = record {}
parsed_segment-Answered a d proto addressed (some (seg, r)) v = elim (Bool-cases (is_error r)) [
  | inl bad ↦ rw bad refl
  | inr fine ↦ elim v [
    | inl bad ↦ absurd cc
    | inr good ↦ rw fine (check_ports-Answered a d proto good seg addressed)
  ]
]

parse_payload-Verifies :
    (b : Option Buffer) (layer : ℕ) → Verifies (parse_payload b layer) (IsGood b layer)
parse_payload-Verifies none layer = record {}
parse_payload-Verifies (some b) layer = parse-Verifies default_segment b layer

-- The filter of addresses: a listening adapter takes any, else both must be those of the connection.
addressed_cases :
    (a : FdAdapter) (h : Ipv4Header)
    → ((not a.listen && not (h.dst == a.cfg.source.ip)) ≡ true)
      ⊎ (((not a.listen && not (h.dst == a.cfg.source.ip)) ≡ false)
          × ((not a.listen && not (h.src == a.cfg.destination.ip)) ≡ true))
      ⊎ (((not a.listen && not (h.dst == a.cfg.source.ip)) ≡ false)
          × ((not a.listen && not (h.src == a.cfg.destination.ip)) ≡ false)
          × ((a.listen ≡ true) ⊎ ((h.dst ≡ a.cfg.source.ip) × (h.src ≡ a.cfg.destination.ip))))
addressed_cases a h = elim (Bool-cases a.listen) [
  | inl listening ↦ inr (inr (rw listening refl, rw listening refl, inl listening))
  | inr quiet ↦ elim (Bool-cases (h.dst == a.cfg.source.ip)) [
    | inr other ↦ inl (rw (quiet, other) refl)
    | inl here ↦ elim (Bool-cases (h.src == a.cfg.destination.ip)) [
      | inr other ↦ inr (inl (rw (quiet, here) refl, rw (quiet, other) refl))
      | inl there ↦ inr (
          inr (
            rw (quiet, here) refl,
            rw (quiet, there) refl,
            inr (
              (==_iff h.dst a.cfg.source.ip).0 here,
              (==_iff h.src a.cfg.destination.ip).0 there,
            ),
          ))
    ]
  ]
]

-- A segment that comes out of a datagram has TCP's protocol number, a good checksum over the whole
-- payload, and the addresses and ports of the connection as the adapter has it afterwards, which listens
-- no longer; the adapter has changed only if it was listening and the segment is a SYN without RST,
-- and its own port never. If nothing comes out, the adapter stays as it was.
pub unwrap_tcp_in_ip-Answered :
    (a : FdAdapter) (d : Ipv4Datagram) → Answered a d (unwrap_tcp_in_ip a d)
unfolding unwrap_tcp_in_ip
unwrap_tcp_in_ip-Answered a d = elim (addressed_cases a d.header) [
  | inl other ↦ rw other refl
  | inr (inl (here, other)) ↦ rw (here, other) refl
  | inr (inr (here, there, addressed)) ↦ elim (Bool-cases (d.header.proto == proto_tcp)) [
    | inr foreign ↦ rw (here, there, foreign) refl
    | inl tcp ↦
        rw (here, there, tcp)
          (parsed_segment-Answered a d ((==_iff d.header.proto proto_tcp).0 tcp) addressed
            (parse_payload (to_buffer d.payload) (pseudo_cksum d.header))
            (parse_payload-Verifies (to_buffer d.payload) (pseudo_cksum d.header)))
  ]
]
