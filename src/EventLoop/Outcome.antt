-- ===== src/EventLoop/Outcome.antt =====
-- What holds behind a callback that throws nothing, and when the test for a busy wait passes.
use sponge_fa.Prelude.{◌≡◌, refl, Bool, false, ◌&&◌, Option, none, some, ◌==◌, if◌then◌else◌}
use sponge_fa.EventLoop.{Rule, service_count, run_callback, ◌>>=◌}

-- What is to hold unless there was an exception.
abbrev pub Holds : {W : Type 0} → (W → Type 0) → Option W → Type 0
Holds I none = Unit
Holds I (some w) = I w

-- What holds of the result follows from what else holds of it.
pub Holds-map :
    {W : Type 0} {I J : W → Type 0} (o : Option W) → ((w : W) → I w → J w) → Holds I o → Holds J o
Holds-map none f h = record {}
Holds-map (some w) f h = f w h

passed :
    {W : Type 0} (test : W → Bool) (o : Option W)
    → Holds (λ w'. test w' ≡ false) o
    → (o >>= λ w'. if test w' then none else some w') ≡ o
passed test none h = refl
passed test (some w') h = rw h refl

-- The test passes if the callback has used the descriptor or is not interested any more.
pub run_callback_lem :
    {W : Type 0} (r : Rule W) (w : W)
    → Holds
        (λ w'. ((service_count r w == service_count r w') && r.interest w') ≡ false)
        (r.callback w)
    → run_callback r w ≡ r.callback w
unfolding run_callback
run_callback_lem {W} r w h =
    let idle : W → Bool = λ w'. (service_count r w == service_count r w') && r.interest w' in
    passed idle (r.callback w) h
