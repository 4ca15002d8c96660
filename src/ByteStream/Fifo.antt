-- ===== src/ByteStream/Fifo.antt =====
-- A `ByteStream` against its abstract view: one sequence of bytes, extended at the back by the
-- writer and consumed at the front by the reader.
use sponge_fa.Prelude.{
  ℕ, min, ◌≡◌, List, [], ◌∷◌, ◌++◌, append-nil, append_assoc, length, take, take-append-drop, arith,
}
use sponge_fa.ByteStream.{ByteStream, write, peek_output, pop_output, read, end_input, set_error}
use sponge_fa.ByteStream.Invariant.{
  IsValid, write-IsValid, pop_output-IsValid, end_input-IsValid, set_error-IsValid,
}

-- The calls that change a stream.
pub data Call : Type 0 where
  writes : List ℕ → Call
  reads pops : ℕ → Call
  ends fails : Call

-- A state with all bytes that the writer's calls reported as accepted, and all that left the front.
pub record History : Type 0 where
  pub stream : ByteStream
  pub accepted : List ℕ
  pub taken : List ℕ

pub step : History → Call → History
unfolding write read pop_output peek_output end_input set_error
step h (writes bytes) =
    let (s, n) = write h.stream bytes in
    record h { stream = s; accepted = h.accepted ++ take n bytes }
step h (reads len) =
    let (s, out) = read h.stream len in record h { stream = s; taken = h.taken ++ out }
step h (pops len) = record h {
  stream = pop_output h.stream len;
  taken = h.taken ++ peek_output h.stream len;
}
step h ends = record h { stream = end_input h.stream }
step h fails = record h { stream = set_error h.stream }

unfoldable pub run : History → List Call → History
unfolding step
run h [] = h
run h (c ∷ cs) = run (step h c) cs

-- What was accepted is what was taken followed by what is still buffered.
abbrev pub IsFifo : History → Type 0
IsFifo h = (h.accepted ≡ h.taken ++ h.stream.buffer) × IsValid h.stream

write-buffer :
    (s : ByteStream) (bytes : List ℕ)
    → (write s bytes).0.buffer ≡ s.buffer ++ take (write s bytes).1 bytes
unfolding write
write-buffer s bytes = ground (arith, append-nil s.buffer)

pub read-buffer :
    (s : ByteStream) (len : ℕ) → peek_output s len ++ (pop_output s len).buffer ≡ s.buffer
unfolding peek_output pop_output
read-buffer s len = take-append-drop (min len (length s.buffer)) s.buffer

read_fifo : (a t p b b' : List ℕ) → a ≡ t ++ b → p ++ b' ≡ b → a ≡ (t ++ p) ++ b'
read_fifo a t p b b' e f = rw (append_assoc, f) e

step-IsFifo : (h : History) (c : Call) → IsFifo h → IsFifo (step h c)
unfolding step read
step-IsFifo h (writes bytes) f =
    (rw (f.0, write-buffer h.stream bytes) (append_assoc h.taken _ _), write-IsValid bytes f.1)
step-IsFifo h (reads len) f = (
  read_fifo h.accepted h.taken (peek_output h.stream len) h.stream.buffer _ f.0
      (read-buffer h.stream len),
  pop_output-IsValid len f.1,
)
step-IsFifo h (pops len) f = (
  read_fifo h.accepted h.taken (peek_output h.stream len) h.stream.buffer _ f.0
      (read-buffer h.stream len),
  pop_output-IsValid len f.1,
)
step-IsFifo h ends f = (unfold end_input in f.0, end_input-IsValid f.1)
step-IsFifo h fails f = (unfold set_error in f.0, set_error-IsValid f.1)

-- Over any sequence of calls that starts with it, this holds: the bytes that the writer's calls
-- reported as accepted are those taken from the front followed by those buffered, and the stream's
-- invariant of capacity and counters.
pub run-IsFifo : (h : History) (cs : List Call) → IsFifo h → IsFifo (run h cs)
unfolding run
run-IsFifo h [] f = f
run-IsFifo h (c ∷ cs) f = run-IsFifo (step h c) cs (step-IsFifo h c f)
