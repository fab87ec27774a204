-- ===== src/Sim/RestServer/Listener/Descriptors.antt =====
-- sim/http/rest_server.cpp: which descriptors are closed, and which have a callback.
use kalshi_cpp.Prelude.{
  ℕ, ◌≡◌, inl, inr, refl, subst, sym, Bool, true, false, ◌&&◌, ◌||◌, none, some, List, [], ◌∷◌,
  ◌==◌, arith, if◌then◌else◌, Bool-cases,
}
use kalshi_cpp.Sim.Reactor.{Reactor, find_callback, set_callback, add_fd}
use kalshi_cpp.Sim.Reactor.Batches.{mem}
use kalshi_cpp.Sim.RestServer.Listener.{
  Listener, Setup, init_listener, bind_and_listen, Callback, connection, destroy, Accept, client,
  accept_again, accept_failed, take_client, on_listener_event,
}

-- The descriptors that the destructor leaves closed, when `bind_and_listen_` ran on a new server
-- without connections: the socket, once if every call succeeded, and twice if a call behind socket failed.
abbrev pub all_well : Setup → Bool
all_well os = os.fcntl && (os.setsockopt && (os.bind && os.listen))

pub destroy-bind_and_listen :
    (os : Setup) (port fd : ℕ)
    → os.socket ≡ some fd
    → ((bind_and_listen os (init_listener port)).0 ≡ all_well os)
      × ((destroy [] (bind_and_listen os (init_listener port)).1).closed
          ≡ (if all_well os then fd ∷ [] else fd ∷ fd ∷ []))
unfolding bind_and_listen destroy
destroy-bind_and_listen os port fd e = ground (arith, e)

-- The clients that accept answers before its first EAGAIN.
abbrev pub accepted : List Accept → List ℕ
accepted [] = []
accepted (accept_again ∷ answers) = []
accepted (accept_failed ∷ answers) = accepted answers
accepted (client fd nonblocking added ∷ answers) = fd ∷ accepted answers

abbrev pub has_callback : ℕ → Reactor Callback → Bool
has_callback fd r = elim (find_callback fd r.callbacks) [ none ↦ false | some _ ↦ true ]

-- The descriptor has a callback or is closed.
abbrev pub settled : ℕ → Listener → Reactor Callback → Bool
settled fd s r = has_callback fd r || mem fd s.closed

has_callback-set :
    (fd g : ℕ) (cb : Callback) (bs : List (ℕ × Callback))
    → find_callback fd (set_callback g cb bs) ≡ (if fd == g then some cb else find_callback fd bs)
has_callback-set fd g cb [] = refl
has_callback-set fd g cb (b ∷ bs) = ground (arith, has_callback-set fd g cb bs)

take_client-settles :
    (fd : ℕ) (nonblocking added : Bool) (s : Listener) (r : Reactor Callback)
    → settled fd (take_client fd nonblocking added s r).0 (take_client fd nonblocking added s r).1
      ≡ true
unfolding take_client add_fd
take_client-settles fd true true s r = ground (arith, has_callback-set fd fd connection r.callbacks)
take_client-settles fd true false s r = ground arith
take_client-settles fd false added s r = ground arith

take_client-keeps :
    (fd g : ℕ) (nonblocking added : Bool) (s : Listener) (r : Reactor Callback)
    → settled fd s r ≡ true
    → settled fd (take_client g nonblocking added s r).0 (take_client g nonblocking added s r).1
      ≡ true
unfolding take_client add_fd
take_client-keeps fd g true true s r h =
    ground (arith, h, has_callback-set fd g connection r.callbacks)
take_client-keeps fd g true false s r h = ground (arith, h)
take_client-keeps fd g false added s r h = ground (arith, h)

abbrev after : List Accept → Listener → Reactor Callback → ℕ → Bool
after answers s r fd =
    settled fd (on_listener_event answers s r).1 (on_listener_event answers s r).2

on_listener_event-keeps :
    (answers : List Accept) (s : Listener) (r : Reactor Callback) (fd : ℕ)
    → settled fd s r ≡ true
    → after answers s r fd ≡ true
unfolding on_listener_event
on_listener_event-keeps [] s r fd h = h
on_listener_event-keeps (accept_again ∷ answers) s r fd h = h
on_listener_event-keeps (accept_failed ∷ answers) s r fd h =
    on_listener_event-keeps answers s r fd h
on_listener_event-keeps (client g nonblocking added ∷ answers) s r fd h =
    on_listener_event-keeps answers (take_client g nonblocking added s r).0
      (take_client g nonblocking added s r).1 fd (take_client-keeps fd g nonblocking added s r h)

-- No descriptor that accept hands out is lost: after the event it has a callback or is closed.
pub on_listener_event-settles :
    (answers : List Accept) (s : Listener) (r : Reactor Callback) (fd : ℕ)
    → mem fd (accepted answers) ≡ true
    → settled fd (on_listener_event answers s r).1 (on_listener_event answers s r).2 ≡ true
unfolding on_listener_event
on_listener_event-settles [] s r fd h = cc
on_listener_event-settles (accept_again ∷ answers) s r fd h = cc
on_listener_event-settles (accept_failed ∷ answers) s r fd h =
    on_listener_event-settles answers s r fd h
on_listener_event-settles (client g nonblocking added ∷ answers) s r fd h =
    elim (Bool-cases (fd == g)) [
      | inl e ↦
          let same : fd ≡ g = ground arith in
          on_listener_event-keeps answers (take_client g nonblocking added s r).0
            (take_client g nonblocking added s r).1 fd
            (subst
              (λ n.
                settled n (take_client g nonblocking added s r).0
                  (take_client g nonblocking added s r).1
                ≡ true)
              (sym same) (take_client-settles g nonblocking added s r))
      | inr e ↦
          on_listener_event-settles answers (take_client g nonblocking added s r).0
            (take_client g nonblocking added s r).1 fd (ground (arith, h, e))
    ]
