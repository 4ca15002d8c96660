-- ===== src/Parser/Tests.antt =====
-- Runs of a parser, and the theorems at concrete buffers.
use sponge_fa.Prelude.{◌≡◌, refl, [], ◌∷◌, arith, some}
use sponge_fa.Buffer.{Buffer, str}
use sponge_fa.Buffer.Prefix.{IsValid}
use sponge_fa.Parser.{ParseResult, new, parse_int, unparse_u32}

abbrev five : Buffer
five = record { storage = some (9 ∷ 1 ∷ 2 ∷ 3 ∷ 4 ∷ 5 ∷ []); starting_offset = 1 }

five-IsValid : IsValid five
unfolding str
five-IsValid = record { sized = omega arith }

writes_big_endian : unparse_u32 [] 0x0102_0304 ≡ 1 ∷ 2 ∷ 3 ∷ 4 ∷ []
unfolding unparse_u32
writes_big_endian = refl

-- Six bytes are too many.
too_short :
    parse_int 6 (new five) ≡ some (0, record (new five) { error = ParseResult.packet_too_short })
unfolding parse_int
too_short = refl
