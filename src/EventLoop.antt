-- ===== src/EventLoop.antt =====
-- libsponge/util/eventloop.hh and eventloop.cc: rules on descriptors, and one round of poll(2). The
-- callbacks of the rules share a state `W`; what poll(2) answers is an argument. `none` is an
-- exception. No callback adds rules.
pub mod Outcome
pub mod Failed
mod Tests
use sponge_fa.Prelude.{
  ℕ, ◌+◌, Bool, true, false, not, ◌&&◌, ◌||◌, List, [], ◌∷◌, ◌++◌, Option, none, some, ◌==◌,
  if◌then◌else◌,
}
use sponge_fa.FileDescriptor.{FileDescriptor}

pub data Direction : Type 0 where
  poll_in poll_out : Direction

abbrev is_in : Direction → Bool
is_in Direction.poll_in = true
is_in Direction.poll_out = false

pub record Rule (W : Type 0) : Type 0 where
  pub fd : W → FileDescriptor
  pub direction : Direction
  pub callback : W → Option W
  pub interest : W → Bool
  pub cancel : W → Option W

-- The bits of `revents` for one entry: POLLERR or POLLNVAL, POLLHUP, POLLIN and POLLOUT.
pub record Revents : Type 0 where
  pub error : Bool
  pub hup : Bool
  pub readable : Bool
  pub writable : Bool

abbrev no_revents : Revents
no_revents = record { error = false; hup = false; readable = false; writable = false }

-- What poll(2) does: nothing within the time, EINTR, another error, or the answer for each entry.
pub data Poll : Type 0 where
  timeout interrupted failed : Poll
  answered : (ℕ → Revents) → Poll

pub data Result : Type 0 where
  success timeout exit : Result

abbrev pub is_ready : Direction → Revents → Bool
is_ready Direction.poll_in e = e.readable
is_ready Direction.poll_out e = e.writable

infixl 5 ◌>>=◌
abbrev pub ◌>>=◌ : {A B : Type 0} → Option A → (A → Option B) → Option B
none >>= f = none
some a >>= f = f a

module _ {W : Type 0} where
  abbrev pub add_rule : List (Rule W) → Rule W → List (Rule W)
  add_rule rules r = rules ++ (r ∷ [])

  unfoldable pub service_count : Rule W → W → ℕ
  service_count r w = if is_in r.direction then (r.fd w).read_count else (r.fd w).write_count

  -- A rule that is not polled any more.
  unfoldable pub is_defunct : Rule W → W → Bool
  is_defunct r w = (is_in r.direction && (r.fd w).eof) || (r.fd w).closed

  -- The first loop of `wait_next_event`: the rules that stay, each with whether it is polled for.
  unfoldable pub set_up : List (Rule W) → W → Option (W × List (Rule W × Bool))
  unfolding is_defunct
  set_up [] w = some (w, [])
  set_up (r ∷ rest) w = do
    w' ← if is_defunct r w then r.cancel w else some w
    (w'', polled) ← set_up rest w'
    some (w'', if is_defunct r w then polled else (r, r.interest w) ∷ polled)

  abbrev pub something_to_poll : List (Rule W × Bool) → Bool
  something_to_poll [] = false
  something_to_poll ((r, asked) ∷ rest) = asked || something_to_poll rest

  -- A callback, and the test for a busy wait behind it.
  unfoldable pub run_callback : Rule W → W → Option W
  unfolding service_count
  run_callback r w = do
    w' ← r.callback w
    if (service_count r w == service_count r w') && r.interest w' then none else some w'

  -- What the second loop does with one rule.
  unfoldable pub serve_one : Rule W → Bool → Revents → W → Option (W × Bool)
  unfolding run_callback
  serve_one r asked e w =
      let poll_ready = asked && is_ready r.direction e in
      if e.error
      then none
      else (if e.hup && (asked && not poll_ready)
          then (r.cancel w >>= λ w'. some (w', false))
          else (if poll_ready
              then (run_callback r w >>= λ w'. some (w', true))
              else some (w, true)))

  -- The second loop, from the entry `idx` on: the rules that stay.
  unfoldable pub serve : List (Rule W × Bool) → ℕ → (ℕ → Revents) → W → Option (W × List (Rule W))
  unfolding serve_one
  serve [] idx revents w = some (w, [])
  serve ((r, asked) ∷ rest) idx revents w = do
    (w', stays) ← serve_one r asked (revents idx) w
    (w'', rules) ← serve rest (idx + 1) revents w'
    some (w'', if stays then r ∷ rules else rules)

  abbrev pub rules_of : List (Rule W × Bool) → List (Rule W)
  rules_of [] = []
  rules_of ((r, asked) ∷ rest) = r ∷ rules_of rest

  abbrev succeed : W × List (Rule W) → Option (W × List (Rule W) × Result)
  succeed (w, rules) = some (w, rules, Result.success)

  -- Behind the call of poll(2). An error other than EINTR is dropped, and no entry has an answer.
  unfoldable pub go_through : List (Rule W × Bool) → W → Poll → Option (W × List (Rule W) × Result)
  unfolding serve
  go_through polled w Poll.timeout = some (w, rules_of polled, Result.timeout)
  go_through polled w Poll.interrupted = some (w, rules_of polled, Result.exit)
  go_through polled w Poll.failed = serve polled 0 (λ _. no_revents) w >>= succeed
  go_through polled w (Poll.answered revents) = serve polled 0 revents w >>= succeed

  unfoldable pub wait_next_event : List (Rule W) → W → Poll → Option (W × List (Rule W) × Result)
  unfolding set_up go_through
  wait_next_event rules w poll = do
    (w', polled) ← set_up rules w
    if something_to_poll polled
        then go_through polled w' poll
        else some (w', rules_of polled, Result.exit)
