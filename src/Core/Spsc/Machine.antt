-- ===== src/Core/Spsc/Machine.antt =====
-- core/spsc_queue.h, run by two threads: `try_push` and `try_pop` cut at each access of an atomic or
-- of a slot, with every interleaving of the pieces. A piece runs atomically and in program order,
-- which the release and acquire orders of the source give for the data that the counters guard.
pub mod Invariant
pub mod Steps
pub mod Fifo
pub mod Calls
use kalshi_cpp.Prelude.{
  sub_size, next_size, ℕ, ◌+◌, ◌-◌, Bool, true, false, Option, none, some, List, [], ◌∷◌, ◌++◌,
  ◌==◌, if◌then◌else◌, get_elem?, set, replicate,
}
use kalshi_cpp.Core.Spsc.{Spsc, slot}

-- Where the producer stands in `try_push(item)`, with its local `h`.
pub data Pushing (T : Type 0) : Type 0 where
  ready : Pushing T
  refresh : ℕ → T → Pushing T
  write : ℕ → T → Pushing T
  publish : ℕ → T → Pushing T

-- Where the consumer stands in `try_pop`, with its local `t`; `fault` is a read outside `data_`.
pub data Popping (T : Type 0) : Type 0 where
  ready : Popping T
  refresh : ℕ → Popping T
  read : ℕ → Popping T
  release : ℕ → T → Popping T
  fault : Popping T

-- The queue, the two threads, and what their calls have returned: the items whose `try_push`
-- returned true, and those that `try_pop` handed out, each oldest first.
pub record Machine (T : Type 0) : Type 0 where
  pub queue : Spsc T
  pub producer : Pushing T
  pub consumer : Popping T
  pub pushed : List T
  pub popped : List T

-- Who moves next; `push x` is a move of the producer, which starts `try_push(x)` if it is between calls.
pub data Move (T : Type 0) : Type 0 where
  push : T → Move T
  pop : Move T

abbrev pub after_read : {T : Type 0} → ℕ → Option T → Popping T
after_read t none = Popping.fault
after_read t (some item) = Popping.release t item

module _ {T : Type 0} (capacity : ℕ) where
  push_step : Pushing T → T → Machine T → Machine T
  push_step Pushing.ready x m =
      let q = m.queue in
      record m {
        producer =
            if sub_size q.head q.cached_tail == capacity
            then Pushing.refresh q.head x
            else Pushing.write q.head x;
      }
  push_step (Pushing.refresh h item) x m =
      let q = m.queue in
      record m {
        queue = record q { cached_tail = q.tail };
        producer = if sub_size h q.tail == capacity then Pushing.ready else Pushing.write h item;
      }
  push_step (Pushing.write h item) x m =
      let q = m.queue in
      record m {
        queue = record q { buf = set q.buf (slot capacity h) item };
        producer = Pushing.publish h item;
      }
  push_step (Pushing.publish h item) x m =
      let q = m.queue in
      record m {
        queue = record q { head = next_size h };
        producer = Pushing.ready;
        pushed = m.pushed ++ (item ∷ []);
      }

  pop_step : Popping T → Machine T → Machine T
  pop_step Popping.ready m =
      let q = m.queue in
      record m {
        consumer =
            if sub_size q.cached_head q.tail == 0
            then Popping.refresh q.tail
            else Popping.read q.tail;
      }
  pop_step (Popping.refresh t) m =
      let q = m.queue in
      record m {
        queue = record q { cached_head = q.head };
        consumer = if sub_size q.head t == 0 then Popping.ready else Popping.read t;
      }
  pop_step (Popping.read t) m = record m {
    consumer = after_read t (get_elem? m.queue.buf (slot capacity t));
  }
  pop_step (Popping.release t item) m =
      let q = m.queue in
      record m {
        queue = record q { tail = next_size t };
        consumer = Popping.ready;
        popped = m.popped ++ (item ∷ []);
      }
  pop_step Popping.fault m = m

  unfoldable pub step : Move T → Machine T → Machine T
  unfolding push_step pop_step
  step (push x) m = push_step m.producer x m
  step pop m = pop_step m.consumer m

  -- An interleaving is the list of the moves.
  unfoldable pub run : List (Move T) → Machine T → Machine T
  run [] m = m
  run (v ∷ vs) m = run vs (step v m)

  -- A fresh queue; what its slots hold does not matter.
  unfoldable pub start : T → Machine T
  start filler = record {
    queue = record {
      head = 0;
      cached_tail = 0;
      tail = 0;
      cached_head = 0;
      buf = replicate capacity filler;
    };
    producer = Pushing.ready;
    consumer = Popping.ready;
    pushed = [];
    popped = [];
  }
