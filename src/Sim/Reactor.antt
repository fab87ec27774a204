-- ===== src/Sim/Reactor.antt =====
-- sim/reactor.h, sim/reactor.cpp: callbacks by file descriptor, and removals put off to the end of a
-- batch of events. A callback is a value of `C`; `act` says which calls of the reactor it makes, and
-- each call carries the answer of epoll_ctl.
pub mod Batches
use kalshi_cpp.Prelude.{
  ℕ, ◌==◌, Bool, true, false, not, Option, none, some, List, [], ◌∷◌, ◌++◌, if◌then◌else◌,
}

pub record Reactor (C : Type 0) : Type 0 where
  pub running : Bool
  pub callbacks : List (ℕ × C)
  pub pending_removes : List ℕ

pub data Call (C : Type 0) : Type 0 where
  add : ℕ → C → Bool → Call C
  modify : ℕ → Bool → Call C
  remove : ℕ → Call C
  stop : Call C

-- What epoll_wait answers: EINTR, another error, or events, each a file descriptor with its flags.
pub data Wait : Type 0 where
  interrupted : Wait
  failed : Wait
  ready : List (ℕ × ℕ) → Wait

module _ {C : Type 0} where
  -- `callbacks_.find(fd)`
  abbrev pub find_callback : ℕ → List (ℕ × C) → Option C
  find_callback fd [] = none
  find_callback fd (b ∷ bs) = if fd == b.0 then some b.1 else find_callback fd bs

  -- `callbacks_[fd] = cb`
  abbrev pub set_callback : ℕ → C → List (ℕ × C) → List (ℕ × C)
  set_callback fd cb [] = (fd, cb) ∷ []
  set_callback fd cb (b ∷ bs) = if fd == b.0 then (fd, cb) ∷ bs else b ∷ set_callback fd cb bs

  -- `callbacks_.erase(fd)`
  abbrev pub erase_callback : ℕ → List (ℕ × C) → List (ℕ × C)
  erase_callback fd [] = []
  erase_callback fd (b ∷ bs) = if fd == b.0 then erase_callback fd bs else b ∷ erase_callback fd bs

  unfoldable pub add_fd : ℕ → C → Bool → Reactor C → Bool × Reactor C
  add_fd fd cb ok r =
      if ok then (true, record r { callbacks = set_callback fd cb r.callbacks }) else (false, r)

  unfoldable pub mod_fd : ℕ → Bool → Reactor C → Bool × Reactor C
  mod_fd fd ok r = (ok, r)

  -- The error of epoll_ctl is reported, and the removal stands.
  unfoldable pub remove_fd : ℕ → Reactor C → Reactor C
  remove_fd fd r = record r { pending_removes = r.pending_removes ++ (fd ∷ []) }

  unfoldable pub stop_running : Reactor C → Reactor C
  stop_running r = record r { running = false }

  unfoldable pub make_call : Call C → Reactor C → Reactor C
  unfolding add_fd mod_fd remove_fd stop_running
  make_call (add fd cb ok) r = (add_fd fd cb ok r).1
  make_call (modify fd ok) r = (mod_fd fd ok r).1
  make_call (remove fd) r = remove_fd fd r
  make_call stop r = stop_running r

  unfoldable pub make_calls : List (Call C) → Reactor C → Reactor C
  unfolding make_call
  make_calls [] r = r
  make_calls (c ∷ cs) r = make_calls cs (make_call c r)

  unfoldable pub erase_all : List ℕ → List (ℕ × C) → List (ℕ × C)
  erase_all [] cs = cs
  erase_all (fd ∷ fds) cs = erase_all fds (erase_callback fd cs)

  unfoldable pub flush : Reactor C → Reactor C
  unfolding erase_all
  flush r = record r { callbacks = erase_all r.pending_removes r.callbacks; pending_removes = [] }

module _ {C : Type 0} (act : C → ℕ → ℕ → List (Call C)) where
  unfoldable pub dispatch : Option C → ℕ × ℕ → Reactor C → Reactor C
  unfolding make_calls
  dispatch none event r = r
  dispatch (some cb) event r = make_calls (act cb event.0 event.1) r

  unfoldable pub run_events : List (ℕ × ℕ) → Reactor C → Reactor C
  unfolding dispatch
  run_events [] r = r
  run_events (event ∷ events) r =
      run_events events (dispatch (find_callback event.0 r.callbacks) event r)

  -- The loop of `run` on the answers of epoll_wait, the true at the end if it waits for another one.
  unfoldable pub loop : List Wait → Reactor C → Bool × Reactor C
  unfolding run_events flush
  loop [] r = (r.running, r)
  loop (w ∷ ws) r = elim r.running [
    | false ↦ (false, r)
    | true ↦ elim w [
      | interrupted ↦ loop ws r
      | failed ↦ (false, r)
      | ready events ↦ loop ws (flush (run_events events r))
    ]
  ]

  unfoldable pub run : List Wait → Reactor C → Bool × Reactor C
  unfolding loop
  run ws r = loop ws (record r { running = true })
