-- ===== src/Core/Spsc/Machine/Invariant.antt =====
-- What every interleaving keeps: the counters in order, the live slots intact, and each thread's
-- local index in step with its own counter.
use native.Mathlib.Nat.{one-le-pow}
use kalshi_cpp.Prelude.{
  size_mod, ℕ, ◌+◌, ◌%◌, ◌^◌, ◌≤◌, ◌<◌, ◌≡◌, ◌∙◌, some, List, [], ◌∷◌, ◌++◌, arith, get_elem?,
  length, get_elem?-append_lt,
}
use kalshi_cpp.Core.Spsc.Machine.{Pushing, Popping, Machine}

module _ {T : Type 0} where
  -- `head_`, `tail_` and the cached copies stand for counters that do not wrap: the number of items
  -- pushed and popped so far, and two earlier such numbers.
  pub record Counts (capacity ct ch : ℕ) (m : Machine T) : Type 0 where
    pub head : m.queue.head ≡ length m.pushed % size_mod
    pub tail : m.queue.tail ≡ length m.popped % size_mod
    pub cached_tail : m.queue.cached_tail ≡ ct % size_mod
    pub cached_head : m.queue.cached_head ≡ ch % size_mod
    pub ct_le : ct ≤ length m.popped
    pub le_ch : length m.popped ≤ ch
    pub ch_le : ch ≤ length m.pushed
    pub room : length m.pushed ≤ ct + capacity
    pub width : length m.queue.buf ≡ capacity

  -- Slot `i % capacity` holds the item number `i`, for every item that is pushed and not popped.
  abbrev pub Cells : ℕ → Machine T → Type 0
  Cells capacity m =
      (i : ℕ)
      → length m.popped ≤ i
      → i < length m.pushed
      → get_elem? m.queue.buf (i % capacity) ≡ get_elem? m.pushed i

  -- The popped items are the first of the pushed ones.
  abbrev pub IsPrefix : Machine T → Type 0
  IsPrefix m = (i : ℕ) → i < length m.popped → get_elem? m.popped i ≡ get_elem? m.pushed i

  -- The producer at `pc`, with the items pushed and the slots as they are.
  abbrev pub PushingOk : ℕ → ℕ → Pushing T → List T → List T → Type 0
  PushingOk capacity ct Pushing.ready pushed buf = Unit {0}
  PushingOk capacity ct (Pushing.refresh h x) pushed buf = h ≡ length pushed % size_mod
  PushingOk capacity ct (Pushing.write h x) pushed buf =
      (h ≡ length pushed % size_mod) × (length pushed < ct + capacity)
  PushingOk capacity ct (Pushing.publish h x) pushed buf =
      (h ≡ length pushed % size_mod)
      × (length pushed < ct + capacity)
      × (get_elem? buf (length pushed % capacity) ≡ some x)

  -- The consumer at `pc`, with the items popped and pushed as they are.
  abbrev pub PoppingOk : ℕ → Popping T → List T → List T → Type 0
  PoppingOk ch Popping.ready popped pushed = Unit {0}
  PoppingOk ch (Popping.refresh t) popped pushed = t ≡ length popped % size_mod
  PoppingOk ch (Popping.read t) popped pushed =
      (t ≡ length popped % size_mod) × (length popped < ch)
  PoppingOk ch (Popping.release t x) popped pushed =
      (t ≡ length popped % size_mod)
      × (length popped < ch)
      × (get_elem? pushed (length popped) ≡ some x)
  PoppingOk ch Popping.fault popped pushed = ⊥

  pub record Inv (capacity : ℕ) (m : Machine T) : Type 0 where
    pub ct : ℕ
    pub ch : ℕ
    pub counts : Counts capacity ct ch m
    pub cells : Cells capacity m
    pub is_prefix : IsPrefix m
    pub pushing : PushingOk capacity ct m.producer m.pushed m.queue.buf
    pub popping : PoppingOk ch m.consumer m.popped m.pushed

  -- An item more on the list leaves the consumer where it is.
  pub PoppingOk-append :
      (ch : ℕ) (pc : Popping T) (popped pushed : List T) (x : T)
      → ch ≤ length pushed
      → PoppingOk ch pc popped pushed
      → PoppingOk ch pc popped (pushed ++ (x ∷ []))
  PoppingOk-append ch Popping.ready popped pushed x h v = tt
  PoppingOk-append ch (Popping.refresh t) popped pushed x h v = v
  PoppingOk-append ch (Popping.read t) popped pushed x h v = v
  PoppingOk-append ch (Popping.release t y) popped pushed x h v =
      (v.0, v.1, get_elem?-append_lt pushed (x ∷ []) (length popped) (omega arith) ∙ v.2)
  PoppingOk-append ch Popping.fault popped pushed x h v = v

-- Capacities are powers of two, at most 2 ^ 62.
pub record IsCapacity (capacity : ℕ) : Type 0 where
  pub width : ℕ
  pub power : capacity ≡ 2 ^ width
  pub small : capacity ≤ 2 ^ 62
  pub narrow : width ≤ 64

pub IsCapacity-pos : (capacity : ℕ) → IsCapacity capacity → 0 < capacity
IsCapacity-pos capacity c = omega (arith, one-le-pow c.width 2 (omega arith))
