-- ===== src/Ipv4Header/Parsing.antt =====
-- What `parse` accepts.
use sponge_fa.Prelude.{
  refl, if◌then◌else◌, ◌-◌, eq→==, le→ltb, ◌-◌, ◌*◌, ◌≤◌, ◌≡◌, ◌==◌, arith, Option, none, some,
  Bool-cases, true, inl, inr, ltb,
}
use sponge_fa.Buffer as Buffers
use sponge_fa.Buffer.{Buffer}
use sponge_fa.Parser as Parser
use sponge_fa.Parser.{new, NetParser, ParseResult, is_error}
use sponge_fa.Ipv4Header.{
  Ipv4Header, parse, parse_fields, check_fields, verified, header_checksum, header_length,
}

-- Whether a parse gave a header without error.
abbrev pub Accepted : Option (Ipv4Header × NetParser × ParseResult) → (Ipv4Header → Type 0) → Type 0
Accepted none good = Unit
Accepted (some (h, p, ParseResult.no_error)) good = good h
Accepted (some (h, p, r)) good = Unit

-- A header that fits the datagram, of version 4, with the checksum zero over its bytes.
pub record IsSound (original : Buffer) (h : Ipv4Header) : Type 0 where
  pub version : h.ver ≡ 4
  pub minimal : 5 ≤ h.hlen
  pub inside : 4 * h.hlen ≤ Buffers.size original
  pub whole : Buffers.size original ≡ h.len
  pub checksum : header_checksum original (4 * h.hlen) ≡ 0

refused :
    (r : ParseResult)
    → is_error r ≡ true
    → (h : Ipv4Header) (p : NetParser) (good : Ipv4Header → Type 0) → Accepted (some (h, p, r)) good
refused ParseResult.no_error e h p good = absurd cc
refused ParseResult.bad_checksum e h p good = record {}
refused ParseResult.packet_too_short e h p good = record {}
refused ParseResult.wrong_ip_version e h p good = record {}
refused ParseResult.header_too_short e h p good = record {}
refused ParseResult.truncated_packet e h p good = record {}
refused ParseResult.unsupported e h p good = record {}

verified-Accepted :
    (original : Buffer) (h : Ipv4Header) (p : Option NetParser)
    → (header_checksum original (4 * h.hlen) ≡ 0 → IsSound original h)
    → Accepted (verified original h p) (IsSound original)
verified-Accepted original h none sound = record {}
verified-Accepted original h (some p) sound = elim (Bool-cases (is_error p.error)) [
  | inl bad ↦ rw bad (refused p.error bad h p (IsSound original))
  | inr fine ↦ elim (Bool-cases (header_checksum original (4 * h.hlen) == 0)) [
    | inl z ↦ rw (fine, z) (sound (ground arith))
    | inr nz ↦ rw (fine, nz) (record {})
  ]
]

check_fields-Accepted :
    (original : Buffer) (o : Option (Ipv4Header × NetParser))
    → Accepted (check_fields original o) (IsSound original)
check_fields-Accepted original none = record {}
check_fields-Accepted original (some (h, p)) =
    elim (Bool-cases (ltb (Buffers.size original) (4 * h.hlen))) [
      | inl a ↦ rw a (record {})
      | inr a ↦ elim (Bool-cases (h.ver == 4)) [
        | inr b ↦ rw (a, b) (record {})
        | inl b ↦ elim (Bool-cases (ltb h.hlen 5)) [
          | inl c ↦ rw (a, b, c) (record {})
          | inr c ↦ elim (Bool-cases (Buffers.size original == h.len)) [
            | inr d ↦ rw (a, b, c, d) (record {})
            | inl d ↦
                rw (a, b, c, d)
                  (verified-Accepted original h _ (λ z. record {
                    version = ground arith;
                    minimal = ground arith;
                    inside = ground arith;
                    whole = ground arith;
                    checksum = z;
                  }))
          ]
        ]
      ]
    ]

-- What `parse` accepts without error is a header of version 4, of at least 20 bytes that lie in the
-- buffer, whose length field is the size of the whole buffer, and whose bytes have the checksum
-- zero.
pub parse-Accepted : (h : Ipv4Header) (p : NetParser) → Accepted (parse h p) (IsSound p.buffer)
unfolding parse
parse-Accepted h p = elim (Bool-cases (ltb (Buffers.size p.buffer) header_length)) [
  | inl a ↦ rw a (record {})
  | inr a ↦ rw a (check_fields-Accepted p.buffer (parse_fields p))
]

-- A header that passes the tests of its fields is left to the test of the checksum.
pub check_fields-whole :
    (original : Buffer) (h : Ipv4Header) (p : NetParser) (b : Buffer)
    → h.ver ≡ 4
    → 5 ≤ h.hlen
    → 4 * h.hlen ≤ Buffers.size original
    → Buffers.size original ≡ h.len
    → Parser.remove_prefix p (h.hlen * 4 - header_length) ≡ some (new b)
    → check_fields original (some (h, p))
      ≡ some (
        h,
        new b,
        if header_checksum original (4 * h.hlen) == 0
            then ParseResult.no_error
            else ParseResult.bad_checksum,
      )
check_fields-whole original h p b version minimal inside whole e =
    rw
      (
        le→ltb (Buffers.size original) (4 * h.hlen) inside,
        eq→== h.ver 4 version,
        le→ltb h.hlen 5 minimal,
        eq→== (Buffers.size original) h.len whole,
        e,
      )
      (elim (Bool-cases (header_checksum original (4 * h.hlen) == 0)) [
        | inl z ↦ rw z refl
        | inr nz ↦ rw nz refl
      ])
