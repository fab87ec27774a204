-- ===== src/Net/RestClient/Descriptor.antt =====
-- src/net/rest_client.cpp: the descriptor of a client whose `connect` failed.
use kalshi_cpp.Prelude.{◌≡◌, ℕ, true, some, [], ◌∷◌, if◌then◌else◌, arith, Bytes}
use kalshi_cpp.Net.RestClient.{init_client, Dialled, connect, destroy}

-- The descriptors that a client leaves closed when `connect` got one: the descriptor, once when the
-- connection stood, and twice when it was refused, by `connect` and by the destructor.
pub destroy-connect :
    (os : Dialled) (host port : Bytes) (fd : ℕ)
    → os.resolved ≡ true
    → os.socket ≡ some fd
    → ((connect os (init_client host port)).0 ≡ os.connected)
      × ((destroy (connect os (init_client host port)).1).closed
          ≡ (if os.connected then fd ∷ [] else fd ∷ fd ∷ []))
unfolding connect destroy
destroy-connect os host port fd e f = ground (arith, e, f)
