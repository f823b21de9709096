-- ===== src/Docker/Clients.antt =====
-- internal/docker/client.go: the client of the engine and AtomicClient, and what internal/api/server.go and
-- cmd/runner/main.go do with them. What the library answers on a socket is an argument.
use dockhand.Prelude.{
  ◌≡◌, refl, Bool, true, false, ◌&&◌, not, arith, Option, none, some, List, [], ◌∷◌, ◌++◌, is_some,
  Text, codes, Result, ok, err,
}
use dockhand.Startup.{Attempt, init_failed, ping_failed, connected, docker_retry_loop}

-- Client
pub record Client : Type 0 where
  pub socket : Text

-- What client.NewClientWithOpts and Ping answer at one time.
pub record Dial : Type 0 where
  pub init_fault : Option Text
  pub ping_fault : Option Text

-- New
unfoldable pub new : Option Text → Text → Result Client
new (some e) socket = err (codes "docker client: " ++ e)
new none socket = ok (record { socket = socket })

-- AtomicClient
pub record AtomicClient : Type 0 where
  pub client : Option Client
  pub socket : Text

-- NewAtomicClient
unfoldable pub new_atomic_client : Option Client → Text → AtomicClient
new_atomic_client c socket = record { client = c; socket = socket }

-- AtomicClient.Get
unfoldable pub get : AtomicClient → Option Client
get ac = ac.client

-- AtomicClient.Set
unfoldable pub set : Client → AtomicClient → AtomicClient
set c ac = record ac { client = some c }

-- Client.Ping
abbrev pub ping : (Text → Option Text) → Client → Option Text
ping answer c = answer c.socket

-- dockerOK in New of the server, and dockerOKFn in main
unfoldable pub docker_ok : (Text → Option Text) → AtomicClient → Bool
unfolding get
docker_ok answer ac = elim (get ac) [
  | none ↦ false
  | some c ↦ elim (ping answer c) [ none ↦ true | some e ↦ false ]
]

-- What an attempt comes to.
abbrev pub attempt : Dial → Attempt
attempt d = elim d.init_fault [
  | some e ↦ init_failed
  | none ↦ elim d.ping_fault [ some e ↦ ping_failed | none ↦ connected ]
]

-- dockerRetryLoop on its AtomicClient
unfoldable pub retry : List Dial → AtomicClient → AtomicClient
unfolding new set
retry [] ac = ac
retry (d ∷ ds) ac =
    let rest = retry ds ac in
    elim (new d.init_fault ac.socket) [
      | err e ↦ rest
      | ok c ↦ elim d.ping_fault [ some e ↦ rest | none ↦ set c ac ]
    ]

abbrev attempts : List Dial → List Attempt
attempts [] = []
attempts (d ∷ ds) = attempt d ∷ attempts ds

-- From the time at which the loop has connected, `dockerOK` answers what a ping of the configured socket
-- answers, and before it answers false.
pub docker_ok-retry :
    (answer : Text → Option Text) (ds : List Dial) (socket : Text)
    → docker_ok answer (retry ds (new_atomic_client none socket))
      ≡ ((docker_retry_loop (attempts ds)).available && not (is_some (answer socket)))
unfolding docker_ok retry new_atomic_client docker_retry_loop
docker_ok-retry answer [] socket = refl
docker_ok-retry answer (d ∷ ds) socket = ground (arith, docker_ok-retry answer ds socket)
