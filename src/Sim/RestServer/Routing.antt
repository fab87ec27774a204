-- ===== src/Sim/RestServer/Routing.antt =====
-- sim/http/rest_server.cpp: `route` and `dispatch_` as a table by method and path.
use kalshi_cpp.Prelude.{
  ◌≡◌, ◌≢◌, refl, sym, ap, ◌∙◌, Bool, true, false, ◌&&◌, Option, some, [], ◌∷◌, arith,
  if◌then◌else◌, Bytes, bytes_eq, bytes_eq→eq, bytes_eq_sym, Bool-cases, inl, inr,
}
use kalshi_cpp.Sim.RestServer.{
  Request, Handler, Routes, route_key, find_route, set_route, route, answer_with, dispatch,
}

-- A method has no space.
abbrev pub NoSpace : Bytes → Type 0
NoSpace [] = Unit {0}
NoSpace (c ∷ cs) = (c ≢ 32) × NoSpace cs

other : (k key u : Bytes) → bytes_eq k u ≡ false → key ≡ u → bytes_eq key k ≡ false
other k key u e same = ap (λ t. bytes_eq t k) same ∙ (bytes_eq_sym u k ∙ e)

find-set_route :
    (key k : Bytes) (h : Handler) (rs : Routes)
    → find_route key (set_route k h rs) ≡ (if bytes_eq key k then some h else find_route key rs)
find-set_route key k h [] = refl
find-set_route key k h (r ∷ rs) = elim (Bool-cases (bytes_eq k r.0)) [
  | inl e ↦
      let same : k ≡ r.0 = bytes_eq→eq k r.0 e in
      let agree : bytes_eq key r.0 ≡ bytes_eq key k = ap (bytes_eq key) (sym same) in
      ground (arith, e, agree)
  | inr e ↦ elim (Bool-cases (bytes_eq key r.0)) [
    | inl f ↦
        let same : key ≡ r.0 = bytes_eq→eq key r.0 f in
        let apart : bytes_eq key k ≡ false = other k key r.0 e same in ground (arith, e, f, apart)
    | inr f ↦ ground (arith, e, f, find-set_route key k h rs)
  ]
]

-- Keys of methods without a space are the same when the methods and the paths are.
bytes_eq-route_key :
    (m m' p p' : Bytes)
    → NoSpace m
    → NoSpace m'
    → bytes_eq (route_key m p) (route_key m' p') ≡ (bytes_eq m m' && bytes_eq p p')
bytes_eq-route_key [] [] p p' s s' = refl
bytes_eq-route_key [] (c ∷ m') p p' s s' = ground (arith, s'.0)
bytes_eq-route_key (c ∷ m) [] p p' s s' = ground (arith, s.0)
bytes_eq-route_key (c ∷ m) (d ∷ m') p p' s s' =
    ground (arith, bytes_eq-route_key m m' p p' s.1 s'.1)

answer-if :
    (b : Bool) (h : Handler) (o : Option Handler) (req : Request)
    → answer_with (if b then some h else o) req ≡ (if b then h req else answer_with o req)
unfolding answer_with
answer-if true h o req = refl
answer-if false h o req = refl

-- After route, a request with the method and the path gets the new handler's answer, and every other
-- request the answer that it got before; the methods have no space.
pub dispatch-route :
    (method path : Bytes) (h : Handler) (req : Request) (routes : Routes)
    → NoSpace method
    → NoSpace req.method
    → dispatch req (route method path h routes) ≡ (
        if bytes_eq req.method method && bytes_eq req.path path then h req else dispatch req routes)
unfolding dispatch route
dispatch-route method path h req routes s s' =
    let key : Bytes = route_key req.method req.path in
    ap (λ o. answer_with o req) (find-set_route key (route_key method path) h routes)
    ∙ (answer-if (bytes_eq key (route_key method path)) h (find_route key routes) req
        ∙ ap (λ b. if b then h req else answer_with (find_route key routes) req)
            (bytes_eq-route_key req.method method req.path path s' s))
