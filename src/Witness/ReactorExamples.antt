-- ===== src/Witness/ReactorExamples.antt =====
-- A reactor with two callbacks, of which the one for 3 removes 3, and the one for 4 does nothing.
use kalshi_cpp.Prelude.{ℕ, ◌==◌, ◌≡◌, refl, true, List, [], ◌∷◌, if◌then◌else◌}
use kalshi_cpp.Sim.Reactor.{Reactor, Call, add, remove, run_events, flush, run, ready}
use kalshi_cpp.Sim.Reactor.Batches.{has, batch-has}

-- The callback 1 removes its file descriptor, 2 also adds it again, and the others make no call.
abbrev act : ℕ → ℕ → ℕ → List (Call ℕ)
act c fd flags =
    if c == 1 then remove fd ∷ [] else (if c == 2 then remove fd ∷ add fd 0 true ∷ [] else [])

abbrev reactor : Reactor ℕ
reactor = record { running = true; callbacks = (3, 1) ∷ (4, 0) ∷ []; pending_removes = [] }

abbrev events : List (ℕ × ℕ)
events = (3, 1) ∷ (4, 1) ∷ []

abbrev removing : Reactor ℕ
removing = record reactor { pending_removes = 3 ∷ [] }

batch-has_example : has 4 (flush (run_events act events reactor)).callbacks ≡ true
unfolding run_events
batch-has_example = batch-has act events 4 reactor refl refl

batch_run : (run act (ready events ∷ []) reactor).1.callbacks ≡ (4, 0) ∷ []
unfolding run
batch_run = refl

-- A file descriptor that is removed and added again in one batch has no callback after it.
readd_run :
    (run act (ready ((5, 1) ∷ []) ∷ []) (record reactor { callbacks = (5, 2) ∷ [] })).1.callbacks
    ≡ []
unfolding run
readd_run = refl
