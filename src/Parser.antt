-- ===== src/Parser.antt =====
-- libsponge/util/parser.hh and parser.cc: integers in network byte order, read from a buffer and
-- written to a string. A method that throws returns `none` where it does; the templates take the
-- size of the integer type in bytes.
pub mod Integers
pub mod Fields
mod Tests
use sponge_fa.Prelude.{
  ℕ, zero, suc, ◌+◌, ◌*◌, ◌/◌, ◌%◌, ◌^◌, Bool, true, false, List, [], ◌∷◌, ◌++◌, Option, none, some,
  ltb, if◌then◌else◌,
}
use sponge_fa.Buffer as Buffers
use sponge_fa.Buffer.{Buffer}

pub data ParseResult : Type 0 where
  no_error bad_checksum packet_too_short wrong_ip_version header_too_short : ParseResult
  truncated_packet unsupported : ParseResult

pub record NetParser : Type 0 where
  pub buffer : Buffer
  pub error : ParseResult

abbrev pub new : Buffer → NetParser
new buffer = record { buffer = buffer; error = ParseResult.no_error }

abbrev pub is_error : ParseResult → Bool
is_error ParseResult.no_error = false
is_error r = true

unfoldable pub check_size : NetParser → ℕ → NetParser
unfolding Buffers.size
check_size p size =
    if ltb (Buffers.size p.buffer) size
    then record p { error = ParseResult.packet_too_short }
    else p

-- One round of the loop, in an integer type of `len` bytes.
abbrev pub shift_in : ℕ → ℕ → ℕ → ℕ
shift_in len ret byte = (ret * 2 ^ 8 % 2 ^ (8 * len) + byte % 2 ^ 8) % 2 ^ (8 * len)

abbrev pub with_byte : Option ℕ → (ℕ → Option ℕ) → Option ℕ
with_byte none next = none
with_byte (some byte) next = next byte

-- The loop, with `rounds` rounds left, at index `i`.
unfoldable pub parse_loop : ℕ → ℕ → ℕ → ℕ → Buffer → Option ℕ
unfolding Buffers.at
parse_loop len zero i ret b = some ret
parse_loop len (suc rounds) i ret b =
    with_byte (Buffers.at b i) (λ byte. parse_loop len rounds (i + 1) (shift_in len ret byte) b)

abbrev pub parsed : NetParser → Option ℕ → Option Buffer → Option (ℕ × NetParser)
parsed p none b = none
parsed p (some ret) none = none
parsed p (some ret) (some b) = some (ret, record p { buffer = b })

unfoldable pub parse_int : ℕ → NetParser → Option (ℕ × NetParser)
unfolding check_size parse_loop Buffers.remove_prefix
parse_int len p =
    let p' = check_size p len in
    if is_error p'.error
    then some (0, p')
    else parsed p' (parse_loop len len 0 0 p'.buffer) (Buffers.remove_prefix p'.buffer len)

abbrev pub with_buffer : NetParser → Option Buffer → Option NetParser
with_buffer p none = none
with_buffer p (some b) = some (record p { buffer = b })

unfoldable pub remove_prefix : NetParser → ℕ → Option NetParser
unfolding check_size Buffers.remove_prefix
remove_prefix p n =
    let p' = check_size p n in
    if is_error p'.error then some p' else with_buffer p' (Buffers.remove_prefix p'.buffer n)

unfoldable pub u32 : NetParser → Option (ℕ × NetParser)
unfolding parse_int
u32 p = parse_int 4 p

unfoldable pub u16 : NetParser → Option (ℕ × NetParser)
unfolding parse_int
u16 p = parse_int 2 p

unfoldable pub u8 : NetParser → Option (ℕ × NetParser)
unfolding parse_int
u8 p = parse_int 1 p

-- The bytes that `_unparse_int` appends; with `suc k` of them left, `len - i - 1` is `k`.
unfoldable pub int_bytes : ℕ → ℕ → List ℕ
int_bytes zero val = []
int_bytes (suc k) val = (val / 2 ^ (k * 8)) % 2 ^ 8 ∷ int_bytes k val

unfoldable pub unparse_int : ℕ → List ℕ → ℕ → List ℕ
unfolding int_bytes
unparse_int len s val = s ++ int_bytes len val

unfoldable pub unparse_u32 : List ℕ → ℕ → List ℕ
unfolding unparse_int
unparse_u32 s val = unparse_int 4 s val

unfoldable pub unparse_u16 : List ℕ → ℕ → List ℕ
unfolding unparse_int
unparse_u16 s val = unparse_int 2 s val

unfoldable pub unparse_u8 : List ℕ → ℕ → List ℕ
unfolding unparse_int
unparse_u8 s val = unparse_int 1 s val

-- A value that was read is handed on with the parser behind it; an exception ends the whole.
abbrev pub and_then {ℓ} :
    {A : Type ℓ} → Option (ℕ × NetParser) → (ℕ → NetParser → Option A) → Option A
and_then none next = none
and_then (some (val, p)) next = next val p
