-- ===== src/Core/FlatHashMap.antt =====
-- core/flat_hash_map.h: `FlatHashMap`, Robin Hood hashing with erasure by shifting back.
-- Keys are 64-bit words; the table has `size` slots, a power of two. A free slot has the key EMPTY
-- and a value that nothing reads.
pub mod Probe
pub mod Valid
pub mod Used
pub mod Find
pub mod Insert
pub mod Erase
pub mod Lookup
pub mod Size
use Prim.Native.Nat.{bit_and, bit_xor}
use kalshi_cpp.Prelude.{
  ℕ, zero, suc, ◌+◌, ◌-◌, ◌*◌, ◌/◌, ◌%◌, ◌^◌, ◌==◌, Bool, true, false, ◌||◌, Option, none, some,
  List, [], ◌∷◌, get_elem?, set, replicate, if◌then◌else◌, ltb, size_mod, sub_size, next_size,
}

-- `EMPTY`, `static_cast<Key>(-1)`
abbrev pub free_key : ℕ
free_key = 2 ^ 64 - 1

pub record Slot (V : Type 0) : Type 0 where
  pub key : ℕ
  pub value : V

pub record FlatHashMap (V : Type 0) : Type 0 where
  pub slots : List (Slot V)
  pub count : ℕ

-- `x ^= x >> 30; x *= …; x ^= x >> 27; x *= …; x ^= x >> 31`
mix : ℕ → ℕ → ℕ
mix shift x = bit_xor x (x / 2 ^ shift)

unfoldable pub hash : ℕ → ℕ
unfolding mix
hash key =
    let x = mix 30 key * 0xbf58476d1ce4e5b9 % size_mod in
    mix 31 (mix 27 x * 0x94d049bb133111eb % size_mod) % size_mod

-- `hash_(key) & mask_`
unfoldable pub home : ℕ → ℕ → ℕ
home size key = bit_and (hash key) (size - 1)

-- `(pos + 1) & mask_`
unfoldable pub next : ℕ → ℕ → ℕ
next size pos = bit_and (pos + 1) (size - 1)

unfoldable pub probe_distance : ℕ → ℕ → ℕ → ℕ
probe_distance size key pos = bit_and (sub_size pos (hash key)) (size - 1)

-- What the loop of insert leaves: its answer, whether it took a free slot, the slots.
pub record Placed (V : Type 0) : Type 0 where
  pub ok : Bool
  pub inserting_new : Bool
  pub slots : List (Slot V)

-- The loop of insert ends at a free slot or at the key that it carries.
abbrev pub stops : ℕ → ℕ → Bool
stops resident k = resident == free_key || resident == k

module _ {V : Type 0} where
  unfoldable pub init_map : ℕ → V → FlatHashMap V
  init_map size zeroed = record {
    slots = replicate size (record { key = free_key; value = zeroed });
    count = 0;
  }

  -- `slots_[pos].key`, with EMPTY past the end.
  abbrev pub key_at : List (Slot V) → ℕ → ℕ
  key_at [] pos = free_key
  key_at (s ∷ slots) zero = s.key
  key_at (s ∷ slots) (suc pos) = key_at slots pos

  -- `slots_[pos].value`, with a default past the end.
  abbrev pub value_at : List (Slot V) → ℕ → V → V
  value_at [] pos v = v
  value_at (s ∷ slots) zero v = s.value
  value_at (s ∷ slots) (suc pos) v = value_at slots pos v

  abbrev pub fill_slot : List (Slot V) → ℕ → V → ℕ → Placed V
  fill_slot slots k v pos = record {
    ok = true;
    inserting_new = key_at slots pos == free_key;
    slots = set slots pos (record { key = k; value = v });
  }

  abbrev pub refused : List (Slot V) → Placed V
  refused slots = record { ok = false; inserting_new = false; slots = slots }

  -- `slots_[pos].key = key`
  abbrev pub set_key : List (Slot V) → ℕ → ℕ → List (Slot V)
  set_key [] pos key = []
  set_key (s ∷ slots) zero key = record s { key = key } ∷ slots
  set_key (s ∷ slots) (suc pos) key = s ∷ set_key slots pos key

  -- `slots_[pos] = slots_[from]`
  abbrev pub copy_slot : List (Slot V) → ℕ → ℕ → List (Slot V)
  copy_slot slots pos from = elim (get_elem? slots from) [ none ↦ slots | some s ↦ set slots pos s ]

  -- The search of find and erase from `pos` on, with `left = Capacity - ctr`.
  unfoldable pub seek : ℕ → List (Slot V) → ℕ → ℕ → ℕ → Option ℕ
  seek size slots key pos zero = if key_at slots pos == key then some pos else none
  seek size slots key pos (suc left) =
      let rest = seek size slots key (next size pos) left in
      if key_at slots pos == key
      then some pos
      else (if key_at slots pos == free_key then none else rest)

  -- The slot whose value find points to.
  unfoldable pub find : ℕ → ℕ → FlatHashMap V → Option ℕ
  unfolding seek
  find size key m = seek size m.slots key (home size key) size

  -- The loop of insert at `pos`, carrying a key and its value `dist` from its home, with
  -- `left + 1 = Capacity - ctr`.
  unfoldable pub place : ℕ → List (Slot V) → ℕ → V → ℕ → ℕ → ℕ → Placed V
  place size slots k v pos dist zero =
      if stops (key_at slots pos) k then fill_slot slots k v pos else refused slots
  place size slots k v pos dist (suc left) =
      let resident = key_at slots pos in
      let resident_dist = probe_distance size resident pos in
      let swapped = ltb resident_dist dist in
      let rest =
        place size (if swapped then set slots pos (record { key = k; value = v }) else slots)
          (if swapped then resident else k) (if swapped then value_at slots pos v else v)
          (next size pos) ((if swapped then resident_dist else dist) + 1) left in
      if stops resident k then fill_slot slots k v pos else rest

  -- `if (inserting_new) size_++`, and the answer.
  unfoldable pub counted : Placed V → FlatHashMap V → Bool × FlatHashMap V
  counted r m = (
    r.ok,
    record { slots = r.slots; count = if r.inserting_new then next_size m.count else m.count },
  )

  unfoldable pub insert : ℕ → ℕ → V → FlatHashMap V → Bool × FlatHashMap V
  unfolding place counted
  insert size key value m = counted (place size m.slots key value (home size key) 0 (size - 1)) m

  -- The loop of erase: the slot at `pos` is free, `n` bounds the steps.
  unfoldable pub shift_back : ℕ → List (Slot V) → ℕ → ℕ → ℕ → Option (List (Slot V))
  shift_back size slots pos from zero = none
  shift_back size slots pos from (suc n) =
      let rest =
        shift_back size (set_key (copy_slot slots pos from) from free_key) from (next size from)
          n in
      if key_at slots from == free_key || probe_distance size (key_at slots from) from == 0
      then some slots
      else rest

  unfoldable pub erased : FlatHashMap V → Option (List (Slot V)) → Option (Bool × FlatHashMap V)
  erased m none = none
  erased m (some slots) = some (true, record { slots = slots; count = sub_size m.count 1 })

  unfoldable pub erase_at : ℕ → Option ℕ → FlatHashMap V → Option (Bool × FlatHashMap V)
  unfolding shift_back erased
  erase_at size none m = some (false, m)
  erase_at size (some pos) m =
      erased m (shift_back size (set_key m.slots pos free_key) pos (next size pos) (size * size))

  -- `none` if the steps given to the loop do not suffice.
  unfoldable pub erase : ℕ → ℕ → FlatHashMap V → Option (Bool × FlatHashMap V)
  unfolding find erase_at
  erase size key m = erase_at size (find size key m) m
