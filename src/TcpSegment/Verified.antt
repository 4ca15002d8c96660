-- ===== src/TcpSegment/Verified.antt =====
-- What `parse` accepts has the checksum zero.
use sponge_fa.Prelude.{
  ==_iff, ◌⊎◌, ℕ, ◌≡◌, true, inl, inr, Bool-cases, Option, none, some, ◌==◌, refl,
}
use sponge_fa.Buffer as Buffers
use sponge_fa.Buffer.{Buffer}
use sponge_fa.InternetChecksum as Checksum
use sponge_fa.Parser.{ParseResult, is_error, new}
use sponge_fa.TcpHeader as Header
use sponge_fa.TcpSegment.{TcpSegment, parse, with_payload}

-- The checksum over a whole buffer.
abbrev pub IsVerified : Buffer → ℕ → Type 0
IsVerified b layer = Checksum.value (Checksum.add (Checksum.new layer) (Buffers.str b)) ≡ 0

-- A result that is an exception or an error, or else comes with a good checksum.
abbrev pub Verifies : Option (TcpSegment × ParseResult) → Type 0 → Type 0
Verifies none good = Unit
Verifies (some (seg, r)) good = (is_error r ≡ true) ⊎ good

Verifies-any : (o : Option (TcpSegment × ParseResult)) (good : Type 0) → good → Verifies o good
Verifies-any none good g = record {}
Verifies-any (some (seg, r)) good g = inr g

pub parse-Verifies :
    (old : TcpSegment) (b : Buffer) (layer : ℕ) → Verifies (parse old b layer) (IsVerified b layer)
unfolding parse
parse-Verifies old b layer =
    let v = Checksum.value (Checksum.add (Checksum.new layer) (Buffers.str b)) in
    elim (Bool-cases (v == 0)) [
      | inl z ↦ rw z (
          Verifies-any (with_payload (Header.parse old.header (new b))) (IsVerified b layer)
            ((==_iff v 0).0 z))
      | inr nz ↦ rw nz (inl refl)
    ]
