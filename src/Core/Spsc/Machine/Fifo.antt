-- ===== src/Core/Spsc/Machine/Fifo.antt =====
-- What the two threads see: a bounded first-in first-out queue, whatever the interleaving.
use kalshi_cpp.Prelude.{
  size_mod, sub_size, ℕ, ◌+◌, ◌%◌, ◌≤◌, ◌≡◌, sym, ap, subst, ◌∙◌, ◌≢◌, inl, inr, true, List, arith,
  ◌==◌, length, take, Bool-cases, take-of_get_elem?,
}
use kalshi_cpp.Core.Spsc.Machine.{
  Pushing, Popping, Machine, Move, push, pop, push_step, pop_step, step, run, start,
}
use kalshi_cpp.Core.Spsc.Machine.Invariant.{PushingOk, PoppingOk, Inv, IsCapacity}
use kalshi_cpp.Core.Spsc.Machine.Steps.{run-Inv, start-Inv}

module _ {T : Type 0} (capacity : ℕ) (cap_ok : IsCapacity capacity) where
  Inv-no_fault : (m : Machine T) → Inv capacity m → m.consumer ≢ Popping.fault
  Inv-no_fault m v e = subst (λ pc. PoppingOk v.ch pc m.popped m.pushed) e v.popping

  -- Under every interleaving of the two threads, from a fresh queue whose capacity is a power of two
  -- up to 2 ^ 62: what was popped is, in order, the beginning of what was pushed; never more than the
  -- capacity is pushed and not yet popped; and the consumer never reads outside the slots. The
  -- counters may wrap on the way.
  pub fifo :
      (filler : T) (vs : List (Move T))
      → let m = run capacity vs (start capacity filler) in
        (m.popped ≡ take (length m.popped) m.pushed)
        × (length m.popped ≤ length m.pushed)
        × (length m.pushed ≤ length m.popped + capacity)
        × (m.consumer ≢ Popping.fault)
  fifo filler vs =
      let m = run capacity vs (start capacity filler) in
      let v =
        run-Inv capacity cap_ok vs (start capacity filler) (start-Inv capacity cap_ok filler) in
      (
        take-of_get_elem? m.popped m.pushed (omega (arith, v.counts.le_ch, v.counts.ch_le))
            v.is_prefix,
        omega (arith, v.counts.le_ch, v.counts.ch_le),
        omega (arith, v.counts.ct_le, v.counts.room),
        Inv-no_fault m v,
      )

  module _ (m : Machine T) (v : Inv capacity m) where
    full_now :
        (h : ℕ)
        → h ≡ length m.pushed % size_mod
        → (sub_size h m.queue.tail == capacity) ≡ true
        → length m.pushed ≡ length m.popped + capacity
    full_now h e t = ground arith

    empty_now :
        (t : ℕ)
        → t ≡ length m.popped % size_mod
        → (sub_size m.queue.head t == 0) ≡ true
        → length m.pushed ≡ length m.popped
    empty_now t e h = ground arith

  push_refused :
      (x item : T) (h : ℕ) (m : Machine T)
      → Inv capacity m
      → m.producer ≡ Pushing.refresh h item
      → (push_step capacity (Pushing.refresh h item) x m).producer ≡ Pushing.ready
      → length m.pushed ≡ length m.popped + capacity
  unfolding push_step
  push_refused x item h m v at gives_up =
      let eh = subst (λ pc. PushingOk capacity v.ct pc m.pushed m.queue.buf) at v.pushing in
      elim (Bool-cases (sub_size h m.queue.tail == capacity)) [
        | inl full ↦ full_now m v h eh full
        | inr more ↦ absurd (ground arith)
      ]

  pop_refused :
      (t : ℕ) (m : Machine T)
      → Inv capacity m
      → m.consumer ≡ Popping.refresh t
      → (pop_step capacity (Popping.refresh t) m).consumer ≡ Popping.ready
      → length m.pushed ≡ length m.popped
  unfolding pop_step
  pop_refused t m v at gives_up =
      let et = subst (λ pc. PoppingOk v.ch pc m.popped m.pushed) at v.popping in
      elim (Bool-cases (sub_size m.queue.head t == 0)) [
        | inl out ↦ empty_now m v t et out
        | inr more ↦ absurd (ground arith)
      ]

  -- Whatever came before, the step at which `try_push` gives up finds the queue full at that moment.
  pub full_when_push_refused :
      (filler : T) (vs : List (Move T)) (x item : T) (h : ℕ)
      → (run capacity vs (start capacity filler)).producer ≡ Pushing.refresh h item
      → (step capacity (push x) (run capacity vs (start capacity filler))).producer ≡ Pushing.ready
      → length (run capacity vs (start capacity filler)).pushed
        ≡ length (run capacity vs (start capacity filler)).popped + capacity
  unfolding step
  full_when_push_refused filler vs x item h at gives_up =
      let m = run capacity vs (start capacity filler) in
      push_refused x item h m
        (run-Inv capacity cap_ok vs (start capacity filler) (start-Inv capacity cap_ok filler)) at
        (ap (λ pc. (push_step capacity pc x m).producer) (sym at) ∙ gives_up)

  -- Whatever came before, the step at which `try_pop` gives up finds the queue empty at that moment.
  pub empty_when_pop_refused :
      (filler : T) (vs : List (Move T)) (t : ℕ)
      → (run capacity vs (start capacity filler)).consumer ≡ Popping.refresh t
      → (step capacity pop (run capacity vs (start capacity filler))).consumer ≡ Popping.ready
      → length (run capacity vs (start capacity filler)).pushed
        ≡ length (run capacity vs (start capacity filler)).popped
  unfolding step
  empty_when_pop_refused filler vs t at gives_up =
      let m = run capacity vs (start capacity filler) in
      pop_refused t m
        (run-Inv capacity cap_ok vs (start capacity filler) (start-Inv capacity cap_ok filler)) at
        (ap (λ pc. (pop_step capacity pc m).consumer) (sym at) ∙ gives_up)
