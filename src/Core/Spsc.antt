-- ===== src/Core/Spsc.antt =====
-- core/spsc_queue.h: `SPSCQueue`, a ring of `Capacity` slots between one producer and one consumer.
-- The indices are size_t counters that wrap; each thread keeps a cached copy of the other's.
pub mod Wrap
pub mod Machine
use Prim.Native.Nat.{bit_and}
use kalshi_cpp.Prelude.{
  size_mod, sub_size, next_size, ℕ, suc, ◌+◌, ◌-◌, ◌%◌, ◌^◌, Bool, true, false, Option, none, some,
  List, ◌==◌, if◌then◌else◌, get_elem?, set,
}

-- `Capacity` slots, in a type that the queue does not look into.
pub record Spsc (T : Type 0) : Type 0 where
  pub head : ℕ
  pub cached_tail : ℕ
  pub tail : ℕ
  pub cached_head : ℕ
  pub buf : List T

-- `x & mask_`
unfoldable pub slot : ℕ → ℕ → ℕ
slot capacity x = bit_and x (capacity - 1)

module _ {T : Type 0} (capacity : ℕ) where
  -- The body behind the test: the write and the release of the slot.
  fill : ℕ → T → Spsc T → Bool × Spsc T
  fill h item q = (true, record q { buf = set q.buf (slot capacity h) item; head = next_size h })

  -- `try_push`, `try_emplace`
  pub try_push : T → Spsc T → Bool × Spsc T
  unfolding fill
  try_push item q =
      let h = q.head in
      if sub_size h q.cached_tail == capacity
      then (let q' = record q { cached_tail = q.tail } in
          if sub_size h q.tail == capacity then (false, q') else fill h item q')
      else fill h item q

  take_slot : ℕ → Spsc T → Option T × Spsc T
  take_slot t q = (get_elem? q.buf (slot capacity t), record q { tail = next_size t })

  -- `try_pop`: `none` is `return false`.
  pub try_pop : Spsc T → Option T × Spsc T
  unfolding take_slot
  try_pop q =
      let t = q.tail in
      if sub_size q.cached_head t == 0
      then (let q' = record q { cached_head = q.head } in
          if sub_size q.head t == 0 then (none, q') else take_slot t q')
      else take_slot t q

  -- `front`: the slot that the pointer points to, `none` for `nullptr`.
  pub front : Spsc T → Option ℕ × Spsc T
  front q =
      let t = q.tail in
      if sub_size q.cached_head t == 0
      then (let q' = record q { cached_head = q.head } in
          if sub_size q.head t == 0 then (none, q') else (some (slot capacity t), q'))
      else (some (slot capacity t), q)

  pub pop : Spsc T → Bool × Spsc T
  pop q =
      let t = q.tail in
      if sub_size q.cached_head t == 0
      then (let q' = record q { cached_head = q.head } in
          if sub_size q.head t == 0 then (false, q') else (true, record q' { tail = next_size t }))
      else (true, record q { tail = next_size t })

module _ {T : Type 0} where
  pub size : Spsc T → ℕ
  size q = sub_size q.head q.tail

  pub is_empty : Spsc T → Bool
  unfolding size
  is_empty q = size q == 0
