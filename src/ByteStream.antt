-- ===== src/ByteStream.antt =====
-- libsponge/byte_stream.hh and byte_stream.cc: the bounded in-memory byte stream.
-- A method that changes the stream returns the new stream, beside its result where it has one.
pub mod Invariant
pub mod Fifo
mod Tests
use sponge_fa.Prelude.{
  ℕ, min, Bool, true, false, ◌&&◌, List, [], ◌++◌, length, take, drop, ◌==◌, if◌then◌else◌, add64,
  sub64,
}

-- The fields of `ByteStream`; the deque is a list, its front first. A byte is a number.
pub record ByteStream : Type 0 where
  pub capacity : ℕ
  pub buffer : List ℕ
  pub error : Bool
  pub end_input : Bool
  pub bytes_read : ℕ
  pub bytes_written : ℕ

unfoldable pub new : ℕ → ByteStream
new capacity = record {
  capacity = capacity;
  buffer = [];
  error = false;
  end_input = false;
  bytes_read = 0;
  bytes_written = 0;
}

unfoldable pub input_ended : ByteStream → Bool
input_ended s = s.end_input

unfoldable pub buffer_size : ByteStream → ℕ
buffer_size s = length s.buffer

unfoldable pub remaining_capacity : ByteStream → ℕ
remaining_capacity s = sub64 s.capacity (length s.buffer)

unfoldable pub write : ByteStream → List ℕ → ByteStream × ℕ
unfolding input_ended remaining_capacity
write s bytes =
    let max_bytes_written = min (length bytes) (remaining_capacity s) in
    if input_ended s then (s, 0) else (
      record s {
        buffer = s.buffer ++ take max_bytes_written bytes;
        bytes_written = add64 s.bytes_written max_bytes_written;
      },
      max_bytes_written,
    )

unfoldable pub peek_output : ByteStream → ℕ → List ℕ
peek_output s len = take (min len (length s.buffer)) s.buffer

unfoldable pub pop_output : ByteStream → ℕ → ByteStream
pop_output s len =
    let max_bytes_pop = min len (length s.buffer) in
    record s { buffer = drop max_bytes_pop s.buffer; bytes_read = add64 s.bytes_read max_bytes_pop }

unfoldable pub read : ByteStream → ℕ → ByteStream × List ℕ
unfolding peek_output pop_output
read s len = let str_bytes_read = peek_output s len in (pop_output s len, str_bytes_read)

unfoldable pub end_input : ByteStream → ByteStream
end_input s = record s { end_input = true }

unfoldable pub set_error : ByteStream → ByteStream
set_error s = record s { error = true }

unfoldable pub buffer_empty : ByteStream → Bool
buffer_empty s = length s.buffer == 0

unfoldable pub eof : ByteStream → Bool
unfolding buffer_empty input_ended
eof s = buffer_empty s && input_ended s
