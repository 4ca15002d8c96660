-- ===== src/Ipv4Header/Tests.antt =====
-- A header that is written and read.
use sponge_fa.Prelude.{ℕ, ◌≡◌, ◌++◌, refl, List, [], ◌∷◌, some}
use sponge_fa.Buffer.{Buffer}
use sponge_fa.Parser.{ParseResult, new}
use sponge_fa.Ipv4Header.{Ipv4Header, default_header, parse, serialize, payload_length}
use sponge_fa.Ipv4Header.Parsing.{Accepted, IsSound, parse-Accepted}

-- 10.0.0.1 to 10.0.0.2, with the checksum filled in.
abbrev header : Ipv4Header
header = record default_header { len = 21; src = 0x0a00_0001; dst = 0x0a00_0002; cksum = 0xe6e0 }

abbrev bytes : List ℕ
bytes =
    0x45 ∷ 0 ∷ 0 ∷ 21 ∷ 0 ∷ 0 ∷ 0x40 ∷ 0 ∷ 128 ∷ 6 ∷ 0xe6 ∷ 0xe0 ∷ 10 ∷ 0 ∷ 0 ∷ 1 ∷ 10 ∷ 0 ∷ 0 ∷ 2
    ∷ []

writes : serialize header ≡ some bytes
unfolding serialize
writes = refl

abbrev datagram : Buffer
datagram = record { storage = some (bytes ++ (7 ∷ [])); starting_offset = 0 }

reads_back :
    parse default_header (new datagram)
    ≡ some (
      header,
      new (record { storage = some (bytes ++ (7 ∷ [])); starting_offset = 20 }),
      ParseResult.no_error,
    )
unfolding parse
reads_back = refl

payload_is_one : payload_length header ≡ 1
unfolding payload_length
payload_is_one = refl

parse_example : Accepted (parse default_header (new datagram)) (IsSound datagram)
parse_example = parse-Accepted default_header (new datagram)
