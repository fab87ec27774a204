-- ===== src/Sim/Handlers/Orders.antt =====
-- sim/http/handlers.cpp: which orders reach an engine, and what an order that does not changes.
use Prim.Native.String.{String}
use kalshi_cpp.Prelude.{
  ℕ, ◌≤◌, ◌≡◌, ◌⊎◌, inl, inr, refl, sym, ap, ◌∙◌, subst, Bool, true, false, ◌||◌, not, Option, none,
  some, List, [], ◌∷◌, arith, ltb_ℤ, if◌then◌else◌, Bool-cases, Option-cases, ℤ, pos, negsuc, Bytes,
  codes, bytes_eq, bytes_eq→eq, bytes_eq_sym,
}
use kalshi_cpp.Prelude.Runs.{
  value, returns, throws, undefined, running, ◌>>=◌, or_return-value, bind-value,
}
use kalshi_cpp.Sim.MatchingEngine.State.{Side, yes_side, no_side, PlaceResult, MatchingEngine}
use kalshi_cpp.Sim.MatchingEngine.Calls.{place_limit}
use kalshi_cpp.Sim.MarketRegistry.{MarketRegistry, find_engine, get_engine}
use kalshi_cpp.Sim.RestServer.{Request, Response}
use kalshi_cpp.Sim.Handlers.{
  Json, make_error, Placement, Checking, check, need, no_text, read_side, to_u8, to_u32,
  read_ticker, read_order_side, read_price, read_qty, read_order, order_response, set_engine,
  place_order, answer_order, handle_place_order,
}

abbrev pub order_side_text : Side → Bytes
order_side_text yes_side = codes "YES"
order_side_text no_side = codes "NO"

-- The document has the fields of the order, in range.
pub record Fields (json : Json) (body : Bytes) (p : Placement) : Type 0 where
  pub doc : json.Document
  pub parsed : json.iterate body ≡ some doc
  pub ticker : json.get_string doc "ticker" ≡ some p.ticker
  pub not_empty : no_text p.ticker ≡ false
  pub side : json.get_string doc "side" ≡ some (order_side_text p.side)
  pub price : json.get_int64 doc "price" ≡ some (pos p.price)
  pub price_range : (1 ≤ p.price) × (p.price ≤ 99)
  pub qty : json.get_int64 doc "qty" ≡ some (pos p.qty)
  pub qty_range : (1 ≤ p.qty) × (p.qty ≤ 1000000)

read_side-text : (text : Bytes) (s : Side) → read_side text ≡ some s → text ≡ order_side_text s
unfolding read_side
read_side-text text s h = elim (Bool-cases (bytes_eq text (codes "YES"))) [
  | inl e ↦
      let same : s ≡ yes_side = ground (arith, h, e) in
      bytes_eq→eq text (codes "YES") e ∙ ap order_side_text (sym same)
  | inr e ↦ elim (Bool-cases (bytes_eq text (codes "NO"))) [
    | inl f ↦
        let same : s ≡ no_side = ground (arith, h, e, f) in
        bytes_eq→eq text (codes "NO") f ∙ ap order_side_text (sym same)
    | inr f ↦ absurd (ground (arith, h, e, f))
  ]
]

text-read_side : (s : Side) → read_side (order_side_text s) ≡ some s
unfolding read_side
text-read_side yes_side = refl
text-read_side no_side = refl

check-value : (b : Bool) (msg : String) (u : Unit {0}) → check b msg ≡ value u → b ≡ false
check-value true msg u h = cc
check-value false msg u h = refl

price_of :
    (a : ℤ) (n : ℕ)
    → (ltb_ℤ a (pos 1) || ltb_ℤ (pos 99) a) ≡ false
    → to_u8 a ≡ n
    → (a ≡ pos n) × ((1 ≤ n) × (n ≤ 99))
price_of (pos k) n c v =
    let small : k ≡ n = ground (arith, c, v) in
    (ap pos small, (ground (arith, c, small), ground (arith, c, small)))
price_of (negsuc k) n c v = absurd (ground (arith, c))

qty_of :
    (a : ℤ) (n : ℕ)
    → (not (ltb_ℤ (pos 0) a) || ltb_ℤ (pos 1000000) a) ≡ false
    → to_u32 a ≡ n
    → (a ≡ pos n) × ((1 ≤ n) × (n ≤ 1000000))
qty_of (pos k) n c v =
    let small : k ≡ n = ground (arith, c, v) in
    (ap pos small, (ground (arith, c, small), ground (arith, c, small)))
qty_of (negsuc k) n c v = absurd (ground (arith, c))

module _ (json : Json) (doc : json.Document) where
  read_ticker-value :
      (t : Bytes)
      → read_ticker json doc ≡ value t
      → (json.get_string doc "ticker" ≡ some t) × (no_text t ≡ false)
  unfolding read_ticker
  read_ticker-value t h =
      let (a, e, r) =
        bind-value (need (json.get_string doc "ticker") "missing or invalid 'ticker'") _ t h in
      let (u, c, v) = bind-value (check (no_text a) "ticker empty") _ t r in
      let same : a ≡ t = cc in
      (
        or_return-value _ _ a e ∙ ap some same,
        subst (λ x. no_text x ≡ false) same (check-value (no_text a) "ticker empty" u c),
      )

  read_order_side-value :
      (s : Side)
      → read_order_side json doc ≡ value s
      → json.get_string doc "side" ≡ some (order_side_text s)
  unfolding read_order_side
  read_order_side-value s h =
      let (a, e, r) =
        bind-value (need (json.get_string doc "side") "missing or invalid 'side'") _ s h in
      or_return-value _ _ a e ∙ ap some (read_side-text a s (or_return-value _ _ s r))

  read_price-value :
      (n : ℕ)
      → read_price json doc ≡ value n
      → (json.get_int64 doc "price" ≡ some (pos n)) × ((1 ≤ n) × (n ≤ 99))
  unfolding read_price
  read_price-value n h =
      let (a, e, r) =
        bind-value (need (json.get_int64 doc "price") "missing or invalid 'price'") _ n h in
      let (u, c, v) =
        bind-value (check (ltb_ℤ a (pos 1) || ltb_ℤ (pos 99) a) "price out of range (1-99)") _ n
          r in
      let (same, range) =
        price_of a n (check-value (ltb_ℤ a (pos 1) || ltb_ℤ (pos 99) a) _ u c) (cc) in
      (or_return-value _ _ a e ∙ ap some same, range)

  read_qty-value :
      (n : ℕ)
      → read_qty json doc ≡ value n
      → (json.get_int64 doc "qty" ≡ some (pos n)) × ((1 ≤ n) × (n ≤ 1000000))
  unfolding read_qty
  read_qty-value n h =
      let (a, e, r) =
        bind-value (need (json.get_int64 doc "qty") "missing or invalid 'qty'") _ n h in
      let (u, c, v) =
        bind-value (check (not (ltb_ℤ (pos 0) a) || ltb_ℤ (pos 1000000) a) "qty out of range") _ n
          r in
      let (same, range) =
        qty_of a n (check-value (not (ltb_ℤ (pos 0) a) || ltb_ℤ (pos 1000000) a) _ u c) (cc) in
      (or_return-value _ _ a e ∙ ap some same, range)

read_order-Fields :
    (json : Json) (body : Bytes) (p : Placement)
    → read_order json body ≡ value p
    → Fields json body p
unfolding read_order
read_order-Fields json body p h =
    let (doc, e0, h0) = bind-value (need (json.iterate body) "malformed JSON") _ p h in
    let (t, e1, h1) = bind-value (read_ticker json doc) _ p h0 in
    let (s, e2, h2) = bind-value (read_order_side json doc) _ p h1 in
    let (n, e3, h3) = bind-value (read_price json doc) _ p h2 in
    let (k, e4, h4) = bind-value (read_qty json doc) _ p h3 in
    let same : record { ticker = t; side = s; price = n; qty = k } ≡ p = cc in
    subst (Fields json body) same (record {
      doc = doc;
      parsed = or_return-value _ _ doc e0;
      ticker = (read_ticker-value json doc t e1).0;
      not_empty = (read_ticker-value json doc t e1).1;
      side = read_order_side-value json doc s e2;
      price = (read_price-value json doc n e3).0;
      price_range = (read_price-value json doc n e3).1;
      qty = (read_qty-value json doc k e4).0;
      qty_range = (read_qty-value json doc k e4).1;
    })

Fields-read_order :
    (json : Json) (body : Bytes) (p : Placement)
    → Fields json body p
    → read_order json body ≡ value p
unfolding read_order read_ticker read_order_side read_price read_qty
Fields-read_order json body p f =
    let side = text-read_side p.side in
    let price : to_u8 (pos p.price) ≡ p.price = ground (arith, f.price_range) in
    let qty : to_u32 (pos p.qty) ≡ p.qty = ground (arith, f.qty_range) in
    ground (
      arith, f.parsed, f.ticker, f.not_empty, f.side, f.price, f.price_range, f.qty, f.qty_range,
      side, price, qty,
    )

-- The checks go on, or return an error of status 400.
abbrev Checked : {A : Type 0} → Checking A → Type 0
Checked (value a) = Unit {0}
Checked (returns r) = r.status ≡ 400
Checked throws = ⊥
Checked undefined = ⊥
Checked running = ⊥

Checked-bind :
    {A B : Type 0} (m : Checking A) (f : A → Checking B)
    → Checked m
    → ((a : A) → Checked (f a))
    → Checked (m >>= f)
Checked-bind (value a) f h g = g a
Checked-bind (returns r) f h g = h
Checked-bind throws f h g = h
Checked-bind undefined f h g = h
Checked-bind running f h g = h

Checked-need : {A : Type 0} (o : Option A) (msg : String) → Checked (need o msg)
Checked-need none msg = unfold make_error in refl
Checked-need (some a) msg = tt

Checked-check : (b : Bool) (msg : String) → Checked (check b msg)
Checked-check true msg = unfold make_error in refl
Checked-check false msg = tt

Checked-read_order : (json : Json) (body : Bytes) → Checked (read_order json body)
unfolding read_order read_ticker read_order_side read_price read_qty
Checked-read_order json body =
    Checked-bind (need (json.iterate body) "malformed JSON") _ (Checked-need _ _) λ doc.
      Checked-bind (read_ticker json doc) _
        (Checked-bind (need (json.get_string doc "ticker") _) _ (Checked-need _ _)
          λ t. Checked-bind (check (no_text t) "ticker empty") _ (Checked-check _ _) λ _. tt)
        λ t.
          Checked-bind (read_order_side json doc) _
            (Checked-bind (need (json.get_string doc "side") _) _ (Checked-need _ _)
              λ s. Checked-need (read_side s) _)
            λ s.
              Checked-bind (read_price json doc) _
                (Checked-bind (need (json.get_int64 doc "price") _) _ (Checked-need _ _) λ z.
                  Checked-bind (check (ltb_ℤ z (pos 1) || ltb_ℤ (pos 99) z) _) _ (Checked-check _ _)
                    λ _. tt)
                λ n.
                  Checked-bind (read_qty json doc) _
                    (Checked-bind (need (json.get_int64 doc "qty") _) _ (Checked-need _ _) λ z.
                      Checked-bind (check (not (ltb_ℤ (pos 0) z) || ltb_ℤ (pos 1000000) z) _) _
                        (Checked-check _ _) λ _. tt)
                    λ k. tt

find-set_engine :
    (t ticker : Bytes) (e e' : MatchingEngine) (ms : List (Bytes × MatchingEngine))
    → find_engine ticker ms ≡ some e
    → find_engine t (set_engine ticker e' ms)
      ≡ (if bytes_eq t ticker then some e' else find_engine t ms)
unfolding find_engine set_engine
find-set_engine t ticker e e' [] h = cc
find-set_engine t ticker e e' (m ∷ ms) h = elim (Bool-cases (bytes_eq ticker m.0)) [
  | inl same ↦
      let agree : bytes_eq t m.0 ≡ bytes_eq t ticker =
        ap (bytes_eq t) (sym (bytes_eq→eq ticker m.0 same)) in
      ground (arith, same, agree)
  | inr other ↦ elim (Bool-cases (bytes_eq t m.0)) [
    | inl at ↦
        let apart : bytes_eq t ticker ≡ false =
          ap (λ u. bytes_eq u ticker) (bytes_eq→eq t m.0 at) ∙ (bytes_eq_sym m.0 ticker ∙ other) in
        ground (arith, other, at, apart)
    | inr away ↦
        let later : find_engine ticker ms ≡ some e = ground (arith, h, other) in
        ground (arith, other, away, find-set_engine t ticker e e' ms later)
  ]
]

module _ (json : Json) (req : Request) (now : ℕ) (reg : MarketRegistry) where
  -- The outcome is that of the handler: an answer and the registry, or undefined behaviour.
  abbrev pub Outcome : Type 0
  Outcome = Option (Response × MarketRegistry)

  -- The body is no order: an error of status 400, and nothing changes.
  abbrev pub Refused : Outcome → Type 0
  Refused o =
      ((p : Placement) → ¬ Fields json req.body p)
      × (r : Response) × (o ≡ some (r, reg))
      × (r.status ≡ 400)

  -- An order for a ticker without a market: an error of status 404, and nothing changes.
  abbrev pub NoMarket : Outcome → Type 0
  NoMarket o =
      (p : Placement) × Fields json req.body p
      × (get_engine p.ticker reg ≡ none)
      × (o ≡ some (make_error 404 "no such market", reg))

  -- An order that goes to the engine of its ticker, and to no other.
  abbrev pub SentOn : Outcome → Type 0
  SentOn o =
      (p : Placement) × Fields json req.body p
      × (engine : MatchingEngine) × (get_engine p.ticker reg ≡ some engine)
      × (((place_limit 1 p.side p.price p.qty now engine ≡ none) × (o ≡ none))
          ⊎ ((result : PlaceResult) × (engine' : MatchingEngine) × (place_limit 1 p.side p.price
                  p.qty now engine
                ≡ some (result, engine'))
              × (reg' : MarketRegistry) × (o ≡ some (order_response result, reg'))
              × ((t : Bytes)
                  → get_engine t reg'
                    ≡ (if bytes_eq t p.ticker then some engine' else get_engine t reg))))

  place_order-cases :
      (p : Placement)
      → Fields json req.body p
      → NoMarket (place_order p now reg) ⊎ SentOn (place_order p now reg)
  unfolding place_order get_engine
  place_order-cases p f = elim (Option-cases (get_engine p.ticker reg)) [
    | inl e ↦ inl (p, f, e, ground (arith, e))
    | inr (engine, e) ↦ inr (
      p,
      f,
      engine,
      e,
      elim (Option-cases (place_limit 1 p.side p.price p.qty now engine)) [
        | inl u ↦ inl (u, ground (arith, e, u))
        | inr (x, u) ↦ inr (
          x.0,
          x.1,
          u,
          record { engines = set_engine p.ticker x.1 reg.engines },
          ground (arith, e, u),
          λ t. find-set_engine t p.ticker engine x.1 reg.engines e,
        )
      ],
    )
  ]

  answer_order-cases :
      (r : Checking Placement)
      → read_order json req.body ≡ r
      → Checked r
      → Refused (answer_order r now reg)
        ⊎ (NoMarket (answer_order r now reg) ⊎ SentOn (answer_order r now reg))
  unfolding answer_order
  answer_order-cases (value p) e c = inr (place_order-cases p (read_order-Fields json req.body p e))
  answer_order-cases (returns error) e c = inl (
    (λ p f.
        let clash : value p ≡ returns error = sym (Fields-read_order json req.body p f) ∙ e in cc),
    error,
    refl,
    c,
  )
  answer_order-cases throws e c = absurd c
  answer_order-cases undefined e c = absurd c
  answer_order-cases running e c = absurd c

  -- The handler refuses a body that has not all the fields of an order, in range, with status 400,
  -- refuses an order for a ticker without a market with status 404, both without a change, and gives
  -- every other order to the engine of its ticker: then its answer is the text of the engine's, and the
  -- registry changes at that ticker only (it is undefined where the engine is).
  pub handle_place_order_lem :
      Refused (handle_place_order json req now reg)
      ⊎ (NoMarket (handle_place_order json req now reg)
          ⊎ SentOn (handle_place_order json req now reg))
  unfolding handle_place_order
  handle_place_order_lem =
      answer_order-cases (read_order json req.body) refl (Checked-read_order json req.body)
