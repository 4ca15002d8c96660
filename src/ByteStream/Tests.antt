-- ===== src/ByteStream/Tests.antt =====
-- Runs of a small byte stream, and the theorems at it.
use sponge_fa.Prelude.{◌≡◌, refl, false, List, [], ◌∷◌, arith}
use sponge_fa.ByteStream.{new, write}
use sponge_fa.ByteStream.Fifo.{Call, writes, reads, pops, ends, History, run, IsFifo, run-IsFifo}

abbrev start : History
start = record {
  stream = record {
    capacity = 4;
    buffer = [];
    error = false;
    end_input = false;
    bytes_read = 0;
    bytes_written = 0;
  };
  accepted = [];
  taken = [];
}

abbrev script : List Call
script =
    writes (1 ∷ 2 ∷ 3 ∷ [])
    ∷ reads 1
    ∷ writes (4 ∷ 5 ∷ 6 ∷ [])
    ∷ pops 2
    ∷ ends
    ∷ writes (7 ∷ [])
    ∷ []

write_stops_when_full : (write (new 2) (1 ∷ 2 ∷ 3 ∷ [])).1 ≡ 2
unfolding write new
write_stops_when_full = refl

run_keeps_order :
    ((run start script).stream.buffer ≡ 4 ∷ 5 ∷ []) × ((run start script).taken ≡ 1 ∷ 2 ∷ 3 ∷ [])
unfolding run
run_keeps_order = (refl, refl)

start-IsFifo : IsFifo start
start-IsFifo = (refl, omega arith)

run-IsFifo_example : IsFifo (run start script)
run-IsFifo_example = run-IsFifo start script start-IsFifo
