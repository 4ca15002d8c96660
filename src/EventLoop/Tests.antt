-- ===== src/EventLoop/Tests.antt =====
-- Rounds of an event loop with one rule, whose state is the descriptor that it reads.
use sponge_fa.Prelude.{ℕ, ◌≡◌, refl, true, [], ◌∷◌, none, some}
use sponge_fa.FileDescriptor.{FileDescriptor, new, register_read, close}
use sponge_fa.EventLoop.{
  Rule, Direction, Revents, no_revents, Poll, Result, set_up, wait_next_event,
}
use sponge_fa.EventLoop.Failed.{wait_next_event-failed}

abbrev reader : Rule FileDescriptor
reader = record {
  fd = λ w. w;
  direction = Direction.poll_in;
  callback = λ w. some (register_read w);
  interest = λ w. true;
  cancel = some;
}

-- A callback that does not read.
abbrev idler : Rule FileDescriptor
idler = record reader { callback = some }

abbrev readable : ℕ → Revents
readable idx = record no_revents { readable = true }

abbrev hung_up : ℕ → Revents
hung_up idx = record no_revents { hup = true }

reads :
    wait_next_event (reader ∷ []) new (Poll.answered readable)
    ≡ some (record new { read_count = 1 }, reader ∷ [], Result.success)
unfolding wait_next_event
reads = refl

hangs_up :
    wait_next_event (reader ∷ []) new (Poll.answered hung_up) ≡ some (new, [], Result.success)
unfolding wait_next_event
hangs_up = refl

ends : wait_next_event (reader ∷ []) (close new) Poll.timeout ≡ some (close new, [], Result.exit)
unfolding wait_next_event
ends = refl

busy : wait_next_event (idler ∷ []) new (Poll.answered readable) ≡ none
unfolding wait_next_event
busy = refl

polls : set_up (reader ∷ []) new ≡ some (new, (reader, true) ∷ [])
unfolding set_up
polls = refl

wait_next_event-failed_example :
    wait_next_event (reader ∷ []) new Poll.failed ≡ some (new, reader ∷ [], Result.success)
wait_next_event-failed_example =
    wait_next_event-failed (reader ∷ []) new new ((reader, true) ∷ []) polls refl
