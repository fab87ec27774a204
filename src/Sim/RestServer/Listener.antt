-- ===== src/Sim/RestServer/Listener.antt =====
-- sim/http/rest_server.cpp: the constructor and the destructor, `bind_and_listen_`, `start` and
-- `on_listener_event_`, on what the operating system answers. A file descriptor that is closed is noted.
pub mod Descriptors
use kalshi_cpp.Prelude.{
  ℕ, ◌-◌, ◌^◌, Bool, true, false, Option, none, some, List, [], ◌∷◌, ◌++◌, if◌then◌else◌,
}
use kalshi_cpp.Sim.Reactor.{Reactor, add_fd}

-- `listen_fd_`, with `none` for the negative numbers, and the descriptors closed so far, the last first.
pub record Listener : Type 0 where
  pub port : ℕ
  pub listen_fd : Option ℕ
  pub closed : List ℕ

-- What socket answers, and whether each further call succeeds.
pub record Setup : Type 0 where
  pub socket : Option ℕ
  pub fcntl : Bool
  pub setsockopt : Bool
  pub bind : Bool
  pub listen : Bool

abbrev pub init_listener : ℕ → Listener
init_listener port = record { port = port; listen_fd = none; closed = [] }

-- `close(fd)`
abbrev pub close_fd : ℕ → Listener → Listener
close_fd fd s = record s { closed = fd ∷ s.closed }

-- `perror(…); close(listen_fd_); return false;`, which leaves `listen_fd_` as it is
abbrev pub give_up : ℕ → Listener → Bool × Listener
give_up fd s = (false, close_fd fd s)

-- The calls behind socket, each left with its own early return.
unfoldable pub set_up : Setup → ℕ → Listener → Bool × Listener
set_up os fd s =
    if os.fcntl
    then (if os.setsockopt
        then (if os.bind then (if os.listen then (true, s) else give_up fd s) else give_up fd s)
        else give_up fd s)
    else give_up fd s

unfoldable pub bind_and_listen : Setup → Listener → Bool × Listener
unfolding set_up
bind_and_listen os s = elim os.socket [
  | none ↦ (false, record s { listen_fd = none })
  | some fd ↦ set_up os fd (record s { listen_fd = some fd })
]

-- What runs when an event comes: `on_listener_event_` or `on_connection_event_`.
pub data Callback : Type 0 where
  listener connection : Callback

-- `start`: the listener is added to the reactor, where epoll_ctl answers `added`.
unfoldable pub start :
    Setup → Bool → Listener → Reactor Callback → Bool × Listener × Reactor Callback
unfolding bind_and_listen
start os added s r =
    let (ok, s') = bind_and_listen os s in
    elim ok [
      | false ↦ (false, s', r)
      | true ↦ elim s'.listen_fd [
        | none ↦ (false, s', r)
        | some fd ↦ let (done, r') = add_fd fd listener added r in (done, s', r')
      ]
    ]

-- `for (auto& [fd, _] : connections_) close(fd);`
abbrev close_all : List ℕ → Listener → Listener
close_all [] s = s
close_all (fd ∷ fds) s = close_all fds (close_fd fd s)

-- The destructor, on the descriptors in `connections_`.
unfoldable pub destroy : List ℕ → Listener → Listener
destroy connections s =
    close_all connections (elim s.listen_fd [ none ↦ s | some fd ↦ close_fd fd s ])

-- What accept answers: a descriptor, with the answers of fcntl and of epoll_ctl for it, EAGAIN, or
-- another error.
pub data Accept : Type 0 where
  client : ℕ → Bool → Bool → Accept
  accept_again : Accept
  accept_failed : Accept

-- A client that can be neither set up nor added is closed.
unfoldable pub take_client :
    ℕ → Bool → Bool → Listener → Reactor Callback → Listener × Reactor Callback
unfolding add_fd
take_client fd nonblocking added s r =
    if nonblocking
    then (let (ok, r') = add_fd fd connection added r in
        if ok then (s, r') else (close_fd fd s, r'))
    else (close_fd fd s, r)

-- The loop of `on_listener_event_`; the first component is false while it waits for another answer.
unfoldable pub on_listener_event :
    List Accept → Listener → Reactor Callback → Bool × Listener × Reactor Callback
unfolding take_client
on_listener_event [] s r = (false, s, r)
on_listener_event (accept_again ∷ answers) s r = (true, s, r)
on_listener_event (accept_failed ∷ answers) s r = on_listener_event answers s r
on_listener_event (client fd nonblocking added ∷ answers) s r =
    let (s', r') = take_client fd nonblocking added s r in on_listener_event answers s' r'
