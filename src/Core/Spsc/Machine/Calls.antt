-- ===== src/Core/Spsc/Machine/Calls.antt =====
-- A whole call of `try_push` or `try_pop`, as the source writes it, is a run of the thread's moves;
-- and on its own each call does what a bounded queue does.
use kalshi_cpp.Prelude.{
  sub_size, ℕ, ◌+◌, ◌<◌, ◌≡◌, ◌↔◌, ap, ◌∙◌, inl, inr, true, false, none, some, [], ◌∷◌, ◌++◌, arith,
  ◌==◌, if◌then◌else◌, length, replicate, Bool-cases, get_elem?, get_elem?-lt, get_elem?-ge,
}
use kalshi_cpp.Core.Spsc.{Spsc, slot, try_push, try_pop, front, pop as pop_front}
use kalshi_cpp.Core.Spsc.Wrap.{slot-mod}
use kalshi_cpp.Core.Spsc.Machine.{Pushing, Popping, Machine, push, pop, step, run}
use kalshi_cpp.Core.Spsc.Machine.Invariant.{Inv, IsCapacity}
use kalshi_cpp.Core.Spsc.Machine.Steps.{room_left, some_left}

module _ {T : Type 0} (capacity : ℕ) where
  -- What a call of `try_push(x)` leaves, with the log of the accepted items.
  abbrev pub after_push : T → Machine T → Machine T
  after_push x m =
      let (ok, q) = try_push capacity x m.queue in
      record m { queue = q; pushed = if ok then m.pushed ++ (x ∷ []) else m.pushed }

  try_push-run :
      (x : T) (m : Machine T)
      → m.producer ≡ Pushing.ready
      → (n : ℕ) × (run capacity (replicate n (push x)) m ≡ after_push x m)
  unfolding run step try_push
  try_push-run x m e = elim (Bool-cases (sub_size m.queue.head m.queue.cached_tail == capacity)) [
    | inl full ↦ elim (Bool-cases (sub_size m.queue.head m.queue.tail == capacity)) [
      | inl still ↦ (2, ground arith)
      | inr more ↦ (4, ground arith)
    ]
    | inr more ↦ (3, ground arith)
  ]

  module _ (cap_ok : IsCapacity capacity) (m : Machine T) (v : Inv capacity m) where
    -- A call of `try_push`, made when the producer is between calls, is a run of its moves, and
    -- succeeds exactly when fewer than `Capacity` items are pushed and not yet popped.
    pub try_push_lem :
        (x : T)
        → m.producer ≡ Pushing.ready
        → ((n : ℕ) × (run capacity (replicate n (push x)) m ≡ after_push x m))
          × (((try_push capacity x m.queue).0 ≡ true)
              ↔ (length m.pushed < length m.popped + capacity))
    unfolding try_push
    try_push_lem x e = (
      try_push-run x m e,
      (
        λ h. elim (Bool-cases (sub_size m.queue.head m.queue.cached_tail == capacity)) [
          | inl full ↦ elim (Bool-cases (sub_size m.queue.head m.queue.tail == capacity)) [
            | inl still ↦ absurd (ground arith)
            | inr more ↦
                room_left (length m.pushed) (length m.popped) capacity _ _ v.counts.head
                  v.counts.tail (omega (arith, v.counts.le_ch, v.counts.ch_le))
                  (omega (arith, v.counts.ct_le, v.counts.room)) cap_ok.small more
          ]
          | inr more ↦
              let r =
                room_left (length m.pushed) v.ct capacity _ _ v.counts.head v.counts.cached_tail
                  (omega (arith, v.counts.ct_le, v.counts.le_ch, v.counts.ch_le)) v.counts.room
                  cap_ok.small more in
              omega (arith, v.counts.ct_le)
        ],
        λ h. ground arith,
      ),
    )

    -- The oldest item not yet popped, where `tail_` says.
    at_tail :
        length m.popped < length m.pushed
        → get_elem? m.queue.buf (slot capacity m.queue.tail) ≡ get_elem? m.pushed (length m.popped)
    at_tail h =
        ap (λ t. get_elem? m.queue.buf (slot capacity t)) v.counts.tail
        ∙ (ap (get_elem? m.queue.buf)
              (slot-mod cap_ok.width capacity (length m.popped) cap_ok.power cap_ok.narrow)
            ∙ v.cells (length m.popped) (omega arith) h)

    empty_left :
        (sub_size m.queue.head m.queue.tail == 0) ≡ true → length m.pushed ≡ length m.popped
    empty_left t = ground arith

    -- What a call of `try_pop` leaves, with the log of the items handed out.
    abbrev pub after_pop : Machine T
    after_pop =
        let (r, q) = try_pop capacity m.queue in
        record m { queue = q; popped = elim r [ none ↦ m.popped | some x ↦ m.popped ++ (x ∷ []) ] }

    some_now : (sub_size m.queue.head m.queue.tail == 0) ≡ false → length m.popped < length m.pushed
    some_now more =
        some_left (length m.pushed) (length m.popped) capacity _ _ v.counts.head v.counts.tail
          (omega (arith, v.counts.le_ch, v.counts.ch_le))
          (omega (arith, v.counts.ct_le, v.counts.room)) cap_ok.small more

    some_cached :
        (sub_size m.queue.cached_head m.queue.tail == 0) ≡ false → length m.popped < length m.pushed
    some_cached more =
        let l =
          some_left v.ch (length m.popped) capacity _ _ v.counts.cached_head v.counts.tail
            v.counts.le_ch (omega (arith, v.counts.ct_le, v.counts.room, v.counts.ch_le))
            cap_ok.small more in
        omega (arith, l, v.counts.ch_le)

    found :
        length m.popped < length m.pushed
        → (x : T) × (get_elem? m.queue.buf (slot capacity m.queue.tail) ≡ some x)
    found l = let (x, here) = get_elem?-lt m.pushed (length m.popped) l in (x, at_tail l ∙ here)

    try_pop-result : (try_pop capacity m.queue).0 ≡ get_elem? m.pushed (length m.popped)
    unfolding try_pop
    try_pop-result = elim (Bool-cases (sub_size m.queue.cached_head m.queue.tail == 0)) [
      | inl out ↦ elim (Bool-cases (sub_size m.queue.head m.queue.tail == 0)) [
        | inl still ↦ ground (arith, empty_left still, get_elem?-ge m.pushed (length m.popped))
        | inr more ↦ ground (arith, at_tail (some_now more))
      ]
      | inr more ↦ ground (arith, at_tail (some_cached more))
    ]

    try_pop-run :
        m.consumer ≡ Popping.ready → (n : ℕ) × (run capacity (replicate n pop) m ≡ after_pop)
    unfolding run step try_pop
    try_pop-run e = elim (Bool-cases (sub_size m.queue.cached_head m.queue.tail == 0)) [
      | inl out ↦ elim (Bool-cases (sub_size m.queue.head m.queue.tail == 0)) [
        | inl still ↦ (2, ground arith)
        | inr more ↦ let (x, here) = found (some_now more) in (4, ground arith)
      ]
      | inr more ↦ let (x, here) = found (some_cached more) in (3, ground arith)
    ]

    -- A call of `try_pop`, made when the consumer is between calls, is a run of its moves, and hands
    -- out the oldest item that is pushed and not yet popped, or nothing if there is none.
    pub try_pop_lem :
        m.consumer ≡ Popping.ready
        → ((n : ℕ) × (run capacity (replicate n pop) m ≡ after_pop))
          × ((try_pop capacity m.queue).0 ≡ get_elem? m.pushed (length m.popped))
    try_pop_lem e = (try_pop-run e, try_pop-result)

-- `front` and a read through its pointer, then `pop`, hand out and leave what `try_pop` does.
pub front-pop :
    {T : Type 0} (capacity : ℕ) (q : Spsc T)
    → let (p, q1) = front capacity q in
      let (_, q2) = pop_front capacity q1 in
      ((elim p [ none ↦ none | some i ↦ get_elem? q.buf i ]), q2) ≡ try_pop capacity q
unfolding front pop_front try_pop
front-pop capacity q = ground arith
