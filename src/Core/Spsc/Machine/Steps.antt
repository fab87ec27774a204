-- ===== src/Core/Spsc/Machine/Steps.antt =====
-- Every move of either thread keeps the invariant.
use native.Mathlib.Nat.{mod-lt}
use kalshi_cpp.Prelude.{
  size_mod, sub_size, ℕ, ◌+◌, ◌%◌, ◌^◌, ◌≤◌, ◌<◌, ◌≡◌, refl, sym, ap, subst, ◌∙◌, ◌≢◌, inl, inr,
  false, some, List, [], ◌∷◌, ◌++◌, arith, ◌==◌, get_elem?, length, length-append, length-set,
  length-replicate, Bool-cases, dec_lt, get_elem?-set_self, get_elem?-set_ne, get_elem?-append_lt,
  get_elem?-append_end, get_elem?-lt,
}
use kalshi_cpp.Core.Spsc.{slot}
use kalshi_cpp.Core.Spsc.Wrap.{mod-ne, slot-mod}
use kalshi_cpp.Core.Spsc.Machine.{
  Pushing, Popping, Machine, Move, push, pop, push_step, pop_step, after_read, step, run, start,
}
use kalshi_cpp.Core.Spsc.Machine.Invariant.{
  PushingOk, PoppingOk, Inv, PoppingOk-append, IsCapacity, IsCapacity-pos,
}

-- What the producer's test and the consumer's test say of the counters that do not wrap.
pub room_left :
    (a b n h t : ℕ)
    → h ≡ a % size_mod
    → t ≡ b % size_mod
    → b ≤ a
    → a ≤ b + n
    → n ≤ 2 ^ 62
    → (sub_size h t == n) ≡ false
    → a < b + n
room_left a b n h t eh et le room small test = ground arith

pub some_left :
    (a b n h t : ℕ)
    → h ≡ a % size_mod
    → t ≡ b % size_mod
    → b ≤ a
    → a ≤ b + n
    → n ≤ 2 ^ 62
    → (sub_size h t == 0) ≡ false
    → b < a
some_left a b n h t eh et le room small test = ground arith

module _ {T : Type 0} (capacity : ℕ) (cap_ok : IsCapacity capacity) where
  push_ready :
      (x : T) (m : Machine T) → Inv capacity m → Inv capacity (push_step capacity Pushing.ready x m)
  unfolding push_step
  push_ready x m v = record {
    ct = v.ct;
    ch = v.ch;
    counts = omega arith;
    cells = v.cells;
    is_prefix = v.is_prefix;
    pushing = elim (Bool-cases (sub_size m.queue.head m.queue.cached_tail == capacity)) [
      | inl full ↦ rw full v.counts.head
      | inr more ↦ rw more (
        v.counts.head,
        room_left _ _ capacity _ _ v.counts.head v.counts.cached_tail (omega arith) v.counts.room
            cap_ok.small more,
      )
    ];
    popping = v.popping;
  }

  push_refresh :
      (x item : T) (h : ℕ) (m : Machine T)
      → Inv capacity m
      → h ≡ length m.pushed % size_mod
      → Inv capacity (push_step capacity (Pushing.refresh h item) x m)
  unfolding push_step
  push_refresh x item h m v eh = record {
    ct = length m.popped;
    ch = v.ch;
    counts = omega arith;
    cells = v.cells;
    is_prefix = v.is_prefix;
    pushing = elim (Bool-cases (sub_size h m.queue.tail == capacity)) [
      | inl full ↦ rw full tt
      | inr more ↦ rw more (
        eh,
        room_left _ _ capacity _ _ eh v.counts.tail (omega arith) (omega arith) cap_ok.small more,
      )
    ];
    popping = v.popping;
  }

  push_write :
      (x item : T) (h : ℕ) (m : Machine T) (v : Inv capacity m)
      → PushingOk capacity v.ct (Pushing.write h item) m.pushed m.queue.buf
      → Inv capacity (push_step capacity (Pushing.write h item) x m)
  unfolding push_step
  push_write x item h m v ok = record {
    ct = v.ct;
    ch = v.ch;
    counts = omega (arith, length-set m.queue.buf (slot capacity h) item);
    cells = λ i low high.
        rw at_slot (get_elem?-set_ne m.queue.buf next (i % capacity) item (other i low high))
        ∙ v.cells i low high;
    is_prefix = v.is_prefix;
    pushing = (ok.0, ok.1, rw at_slot (get_elem?-set_self m.queue.buf next item in_range));
    popping = v.popping;
  }
    where
      next : ℕ
      next = length m.pushed % capacity

      at_slot : slot capacity h ≡ next
      at_slot =
          ap (slot capacity) ok.0
          ∙ slot-mod cap_ok.width capacity (length m.pushed) cap_ok.power cap_ok.narrow

      in_range : next < length m.queue.buf
      in_range =
          omega (arith, v.counts.width, mod-lt (length m.pushed) (IsCapacity-pos capacity cap_ok))

      other : (i : ℕ) → length m.popped ≤ i → i < length m.pushed → next ≢ i % capacity
      other i low high e =
          mod-ne capacity i (length m.pushed) high (omega (arith, ok.1, v.counts.ct_le)) (sym e)

  push_publish :
      (x item : T) (h : ℕ) (m : Machine T) (v : Inv capacity m)
      → PushingOk capacity v.ct (Pushing.publish h item) m.pushed m.queue.buf
      → Inv capacity (push_step capacity (Pushing.publish h item) x m)
  unfolding push_step
  push_publish x item h m v ok = record {
    ct = v.ct;
    ch = v.ch;
    counts = omega (arith, grown, ok.0, ok.1);
    cells = λ i low high. cell i low (omega (arith, grown));
    is_prefix = λ i l.
        v.is_prefix i l
        ∙ sym (
            get_elem?-append_lt m.pushed (item ∷ []) i
              (omega (arith, v.counts.le_ch, v.counts.ch_le)));
    pushing = tt;
    popping = PoppingOk-append v.ch m.consumer m.popped m.pushed item v.counts.ch_le v.popping;
  }
    where
      grown : length (m.pushed ++ (item ∷ [])) ≡ length m.pushed + 1
      grown = length-append m.pushed (item ∷ [])

      cell :
          (i : ℕ)
          → length m.popped ≤ i
          → i < length m.pushed + 1
          → get_elem? m.queue.buf (i % capacity) ≡ get_elem? (m.pushed ++ (item ∷ [])) i
      cell i low high = elim (dec_lt i (length m.pushed)) [
        | yes l ↦ v.cells i low l ∙ sym (get_elem?-append_lt m.pushed (item ∷ []) i l)
        | no n ↦
            let e : i ≡ length m.pushed = omega arith in
            rw e (ok.2 ∙ sym (get_elem?-append_end m.pushed (length m.pushed) item refl))
      ]

  pop_ready : (m : Machine T) → Inv capacity m → Inv capacity (pop_step capacity Popping.ready m)
  unfolding pop_step
  pop_ready m v = record {
    ct = v.ct;
    ch = v.ch;
    counts = omega arith;
    cells = v.cells;
    is_prefix = v.is_prefix;
    pushing = v.pushing;
    popping = elim (Bool-cases (sub_size m.queue.cached_head m.queue.tail == 0)) [
      | inl none_left ↦ rw none_left v.counts.tail
      | inr more ↦ rw more (
        v.counts.tail,
        some_left v.ch (length m.popped) capacity _ _ v.counts.cached_head v.counts.tail
            v.counts.le_ch (omega arith) cap_ok.small more,
      )
    ];
  }

  pop_refresh :
      (t : ℕ) (m : Machine T)
      → Inv capacity m
      → t ≡ length m.popped % size_mod
      → Inv capacity (pop_step capacity (Popping.refresh t) m)
  unfolding pop_step
  pop_refresh t m v et = record {
    ct = v.ct;
    ch = length m.pushed;
    counts = omega arith;
    cells = v.cells;
    is_prefix = v.is_prefix;
    pushing = v.pushing;
    popping = elim (Bool-cases (sub_size m.queue.head t == 0)) [
      | inl none_left ↦ rw none_left tt
      | inr more ↦ rw more (
        et,
        some_left (length m.pushed) (length m.popped) capacity _ _ v.counts.head et (omega arith)
            (omega arith) cap_ok.small more,
      )
    ];
  }

  pop_read :
      (t : ℕ) (m : Machine T) (v : Inv capacity m)
      → PoppingOk v.ch (Popping.read t) m.popped m.pushed
      → Inv capacity (pop_step capacity (Popping.read t) m)
  unfolding pop_step
  pop_read t m v ok =
      let (item, here) = get_elem?-lt m.pushed (length m.popped) (omega (arith, ok.1)) in
      let found : get_elem? m.queue.buf (slot capacity t) ≡ some item =
        ap (get_elem? m.queue.buf) (
          ap (slot capacity) ok.0
          ∙ slot-mod cap_ok.width capacity (length m.popped) cap_ok.power cap_ok.narrow)
        ∙ (v.cells (length m.popped) (omega arith) (omega (arith, ok.1)) ∙ here) in
      record {
        ct = v.ct;
        ch = v.ch;
        counts = omega arith;
        cells = v.cells;
        is_prefix = v.is_prefix;
        pushing = v.pushing;
        popping =
            subst (λ pc. PoppingOk v.ch pc m.popped m.pushed) (sym (ap (after_read t) found))
              (ok.0, ok.1, here);
      }

  pop_release :
      (t : ℕ) (item : T) (m : Machine T) (v : Inv capacity m)
      → PoppingOk v.ch (Popping.release t item) m.popped m.pushed
      → Inv capacity (pop_step capacity (Popping.release t item) m)
  unfolding pop_step
  pop_release t item m v ok = record {
    ct = v.ct;
    ch = v.ch;
    counts = omega (arith, grown, ok.0, ok.1);
    cells = λ i low high. v.cells i (omega (arith, grown)) high;
    is_prefix = λ i l. prefix i (omega (arith, grown));
    pushing = v.pushing;
    popping = tt;
  }
    where
      grown : length (m.popped ++ (item ∷ [])) ≡ length m.popped + 1
      grown = length-append m.popped (item ∷ [])

      prefix :
          (i : ℕ)
          → i < length m.popped + 1
          → get_elem? (m.popped ++ (item ∷ [])) i ≡ get_elem? m.pushed i
      prefix i l = elim (dec_lt i (length m.popped)) [
        | yes less ↦ get_elem?-append_lt m.popped (item ∷ []) i less ∙ v.is_prefix i less
        | no n ↦
            let e : i ≡ length m.popped = omega arith in
            rw e (get_elem?-append_end m.popped (length m.popped) item refl ∙ sym ok.2)
      ]

  -- Every move keeps the invariant.
  pub step-Inv : (v : Move T) (m : Machine T) → Inv capacity m → Inv capacity (step capacity v m)
  unfolding step
  step-Inv (push x) m v = go m.producer refl
    where
      go : (pc : Pushing T) → m.producer ≡ pc → Inv capacity (push_step capacity pc x m)
      go Pushing.ready e = push_ready x m v
      go (Pushing.refresh h item) e =
          push_refresh x item h m v
            (subst (λ pc. PushingOk capacity v.ct pc m.pushed m.queue.buf) e v.pushing)
      go (Pushing.write h item) e =
          push_write x item h m v
            (subst (λ pc. PushingOk capacity v.ct pc m.pushed m.queue.buf) e v.pushing)
      go (Pushing.publish h item) e =
          push_publish x item h m v
            (subst (λ pc. PushingOk capacity v.ct pc m.pushed m.queue.buf) e v.pushing)
  step-Inv pop m v = go m.consumer refl
    where
      go : (pc : Popping T) → m.consumer ≡ pc → Inv capacity (pop_step capacity pc m)
      go Popping.ready e = pop_ready m v
      go (Popping.refresh t) e =
          pop_refresh t m v (subst (λ pc. PoppingOk v.ch pc m.popped m.pushed) e v.popping)
      go (Popping.read t) e =
          pop_read t m v (subst (λ pc. PoppingOk v.ch pc m.popped m.pushed) e v.popping)
      go (Popping.release t item) e =
          pop_release t item m v (subst (λ pc. PoppingOk v.ch pc m.popped m.pushed) e v.popping)
      go Popping.fault e = absurd (subst (λ pc. PoppingOk v.ch pc m.popped m.pushed) e v.popping)

  pub run-Inv :
      (vs : List (Move T)) (m : Machine T) → Inv capacity m → Inv capacity (run capacity vs m)
  unfolding run
  run-Inv [] m v = v
  run-Inv (x ∷ vs) m v = run-Inv vs (step capacity x m) (step-Inv x m v)

  pub start-Inv : (filler : T) → Inv capacity (start capacity filler)
  unfolding start
  start-Inv filler = record {
    ct = 0;
    ch = 0;
    counts = omega (arith, length-replicate capacity filler);
    cells = λ i low high. absurd (omega arith);
    is_prefix = λ i l. absurd (omega arith);
    pushing = tt;
    popping = tt;
  }
