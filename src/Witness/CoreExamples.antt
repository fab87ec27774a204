-- ===== src/Witness/CoreExamples.antt =====
-- The queue of capacity 2 under an interleaving.
use kalshi_cpp.Prelude.{
  ℕ, ◌+◌, ◌≤◌, ◌<◌, ◌≡◌, ◌↔◌, ◌≢◌, refl, true, none, some, List, [], ◌∷◌, arith, length, take,
  replicate, get_elem?,
}
use kalshi_cpp.Core.Spsc.{slot, try_push, try_pop, front, pop as pop_front}
use kalshi_cpp.Core.Spsc.Machine.{Machine, Popping, Move, push, pop, run, start, step}
use kalshi_cpp.Core.Spsc.Machine.Invariant.{IsCapacity}
use kalshi_cpp.Core.Spsc.Machine.Steps.{start-Inv}
use kalshi_cpp.Core.Spsc.Machine.Fifo.{fifo, full_when_push_refused}
use kalshi_cpp.Core.Spsc.Machine.Calls.{try_push_lem, try_pop_lem, after_push, front-pop}

two-IsCapacity : IsCapacity 2
two-IsCapacity = record { width = 1; power = refl; small = omega arith; narrow = omega arith }

abbrev fresh : Machine ℕ
fresh = start 2 0

abbrev five : ℕ
five = 5

abbrev unread : ℕ
unread = 0

-- Two pushes interleaved with a pop, then a third push, which finds the queue full.
abbrev moves : List (Move ℕ)
moves = push 5 ∷ pop ∷ push 5 ∷ pop ∷ push 5 ∷ push 6 ∷ push 6 ∷ push 6 ∷ push 7 ∷ []

fifo_example :
    let m = run 2 moves (start 2 0) in
    (m.popped ≡ take (length m.popped) m.pushed)
    × (length m.popped ≤ length m.pushed)
    × (length m.pushed ≤ length m.popped + 2)
    × (m.consumer ≢ Popping.fault)
fifo_example = fifo 2 two-IsCapacity 0 moves

full_when_push_refused_example :
    length (run 2 moves (start 2 0)).pushed ≡ length (run 2 moves (start 2 0)).popped + 2
unfolding run step start slot
full_when_push_refused_example = full_when_push_refused 2 two-IsCapacity 0 moves 7 7 2 refl refl

try_push_lem_example :
    ((n : ℕ) × (run 2 (replicate n (push five)) fresh ≡ after_push 2 five fresh))
    × (((try_push 2 five fresh.queue).0 ≡ true) ↔ (length fresh.pushed < length fresh.popped + 2))
unfolding start
try_push_lem_example = try_push_lem 2 two-IsCapacity fresh (start-Inv 2 two-IsCapacity 0) five refl

try_pop_lem_example : (try_pop 2 fresh.queue).0 ≡ get_elem? fresh.pushed (length fresh.popped)
unfolding start
try_pop_lem_example = (try_pop_lem 2 two-IsCapacity fresh (start-Inv 2 two-IsCapacity 0) refl).1

front-pop_example :
    let (p, q1) = front 2 fresh.queue in
    let (_, q2) = pop_front 2 q1 in
    ((elim p [ none ↦ none | some i ↦ get_elem? fresh.queue.buf i ]), q2) ≡ try_pop 2 fresh.queue
front-pop_example = front-pop 2 fresh.queue
