-- ===== src/Sim/Reactor/Batches.antt =====
-- sim/reactor.cpp: which callbacks there are during a batch of events, and after it.
use kalshi_cpp.Prelude.{
  ℕ, ◌==◌, ◌≡◌, refl, ◌∙◌, Bool, true, false, ◌||◌, Option, none, some, List, [], ◌∷◌, arith,
  if◌then◌else◌,
}
use kalshi_cpp.Sim.Reactor.{
  Reactor, Call, add, modify, remove, stop, find_callback, set_callback, erase_callback, add_fd,
  mod_fd, remove_fd, stop_running, make_call, make_calls, dispatch, run_events, erase_all, flush,
}

abbrev pub mem : ℕ → List ℕ → Bool
mem fd [] = false
mem fd (g ∷ gs) = fd == g || mem fd gs

module _ {C : Type 0} where
  abbrev pub has : ℕ → List (ℕ × C) → Bool
  has fd [] = false
  has fd (b ∷ bs) = fd == b.0 || has fd bs

  has-set_callback :
      (fd g : ℕ) (cb : C) (bs : List (ℕ × C))
      → has fd bs ≡ true
      → has fd (set_callback g cb bs) ≡ true
  has-set_callback fd g cb [] h = cc
  has-set_callback fd g cb (b ∷ bs) h = ground (arith, has-set_callback fd g cb bs)

  make_call-has :
      (c : Call C) (fd : ℕ) (r : Reactor C)
      → has fd r.callbacks ≡ true
      → has fd (make_call c r).callbacks ≡ true
  unfolding make_call add_fd mod_fd remove_fd stop_running
  make_call-has (add g cb true) fd r h = has-set_callback fd g cb r.callbacks h
  make_call-has (add g cb false) fd r h = h
  make_call-has (modify g ok) fd r h = h
  make_call-has (remove g) fd r h = h
  make_call-has stop fd r h = h

  make_calls-has :
      (cs : List (Call C)) (fd : ℕ) (r : Reactor C)
      → has fd r.callbacks ≡ true
      → has fd (make_calls cs r).callbacks ≡ true
  unfolding make_calls
  make_calls-has [] fd r h = h
  make_calls-has (c ∷ cs) fd r h = make_calls-has cs fd (make_call c r) (make_call-has c fd r h)

  find-erase_callback :
      (fd g : ℕ) (bs : List (ℕ × C))
      → find_callback fd (erase_callback g bs) ≡ (if fd == g then none else find_callback fd bs)
  find-erase_callback fd g [] = ground arith
  find-erase_callback fd g (b ∷ bs) = ground (arith, find-erase_callback fd g bs)

  find-erase_all :
      (fds : List ℕ) (fd : ℕ) (bs : List (ℕ × C))
      → find_callback fd (erase_all fds bs) ≡ (if mem fd fds then none else find_callback fd bs)
  unfolding erase_all
  find-erase_all [] fd bs = refl
  find-erase_all (g ∷ gs) fd bs =
      find-erase_all gs fd (erase_callback g bs) ∙ ground (arith, find-erase_callback fd g bs)

  -- The end of a batch takes away the callbacks of the file descriptors removed in it and no other,
  -- and leaves no removal pending.
  pub flush-find :
      (fd : ℕ) (r : Reactor C)
      → (find_callback fd (flush r).callbacks
          ≡ (if mem fd r.pending_removes then none else find_callback fd r.callbacks))
        × ((flush r).pending_removes ≡ [])
  unfolding flush
  flush-find fd r = (find-erase_all r.pending_removes fd r.callbacks, refl)

  has-erase_callback :
      (fd g : ℕ) (bs : List (ℕ × C)) → (fd == g) ≡ false → has fd (erase_callback g bs) ≡ has fd bs
  has-erase_callback fd g [] h = refl
  has-erase_callback fd g (b ∷ bs) h = ground (arith, has-erase_callback fd g bs)

  has-erase_all :
      (fds : List ℕ) (fd : ℕ) (bs : List (ℕ × C))
      → mem fd fds ≡ false
      → has fd (erase_all fds bs) ≡ has fd bs
  unfolding erase_all
  has-erase_all [] fd bs h = refl
  has-erase_all (g ∷ gs) fd bs h =
      has-erase_all gs fd (erase_callback g bs) (ground arith)
      ∙ has-erase_callback fd g bs (ground arith)

module _ {C : Type 0} (act : C → ℕ → ℕ → List (Call C)) where
  dispatch-has :
      (o : Option C) (event : ℕ × ℕ) (fd : ℕ) (r : Reactor C)
      → has fd r.callbacks ≡ true
      → has fd (dispatch act o event r).callbacks ≡ true
  unfolding dispatch
  dispatch-has none event fd r h = h
  dispatch-has (some cb) event fd r h = make_calls-has (act cb event.0 event.1) fd r h

  -- While a batch of events is dispatched no file descriptor loses its callback, whatever the
  -- callbacks remove.
  pub run_events-has :
      (events : List (ℕ × ℕ)) (fd : ℕ) (r : Reactor C)
      → has fd r.callbacks ≡ true
      → has fd (run_events act events r).callbacks ≡ true
  unfolding run_events
  run_events-has [] fd r h = h
  run_events-has (event ∷ events) fd r h =
      run_events-has events fd (dispatch act (find_callback event.0 r.callbacks) event r)
        (dispatch-has (find_callback event.0 r.callbacks) event fd r h)

  -- A file descriptor with a callback keeps one over a whole batch, unless a callback of the batch
  -- removes it.
  pub batch-has :
      (events : List (ℕ × ℕ)) (fd : ℕ) (r : Reactor C)
      → has fd r.callbacks ≡ true
      → mem fd (run_events act events r).pending_removes ≡ false
      → has fd (flush (run_events act events r)).callbacks ≡ true
  unfolding flush
  batch-has events fd r h m =
      has-erase_all (run_events act events r).pending_removes fd (run_events act events r).callbacks
        m
      ∙ run_events-has events fd r h
