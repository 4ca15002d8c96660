-- ===== src/EventLoop/Failed.antt =====
-- What a round does when poll(2) fails.
use sponge_fa.Prelude.{ℕ, ◌+◌, ◌≡◌, refl, Bool, true, false, List, [], ◌∷◌, some, ◌&&◌}
use sponge_fa.EventLoop.{
  Rule, Direction, is_ready, no_revents, Poll, Result, set_up, serve_one, serve, rules_of,
  go_through, something_to_poll, wait_next_event,
}

not_ready : (asked : Bool) (d : Direction) → (asked && is_ready d no_revents) ≡ false
not_ready false d = refl
not_ready true Direction.poll_in = refl
not_ready true Direction.poll_out = refl

module _ {W : Type 0} where
  serve_one-no_revents :
      (r : Rule W) (asked : Bool) (w : W) → serve_one r asked no_revents w ≡ some (w, true)
  unfolding serve_one
  serve_one-no_revents r asked w = rw (not_ready asked r.direction) refl

  serve-no_revents :
      (polled : List (Rule W × Bool)) (idx : ℕ) (w : W)
      → serve polled idx (λ _. no_revents) w ≡ some (w, rules_of polled)
  unfolding serve
  serve-no_revents [] idx w = refl
  serve-no_revents ((r, asked) ∷ rest) idx w =
      rw (serve_one-no_revents r asked w, serve-no_revents rest (idx + 1) w) refl

  -- When poll(2) fails with an error other than EINTR, a round that has something to poll for throws
  -- nothing: it calls no callback, drops no rule that `set_up` has kept, and reports success.
  pub wait_next_event-failed :
      (rules : List (Rule W)) (w w' : W) (polled : List (Rule W × Bool))
      → set_up rules w ≡ some (w', polled)
      → something_to_poll polled ≡ true
      → wait_next_event rules w Poll.failed ≡ some (w', rules_of polled, Result.success)
  unfolding wait_next_event go_through
  wait_next_event-failed rules w w' polled set something =
      rw (set, something, serve-no_revents polled 0 w') refl
