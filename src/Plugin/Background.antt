-- ===== src/Plugin/Background.antt =====
-- The goroutines that NewPlugin starts (pkg/plugin/plugin.go, pkg/plugin/cache.go): the listener to
-- Docker's events, and the two loops with a ticker. What comes to one, until its context is done, is
-- a list.
pub mod Alive
mod Examples
use docker_net_dhcp.Shared.{ℕ, ◌*◌, List, [], ◌∷◌, Bool, true, false, Option, none, some}
use docker_net_dhcp.Shared.Text.{Text}
use docker_net_dhcp.Shared.Dict.{Dict}
use docker_net_dhcp.Driver.{DhcpNetworkOptions}
use docker_net_dhcp.Cache.Disk.{Outcome, NetworkCache}
use docker_net_dhcp.Cache.Reconcile.{Answer, reconcile}
use docker_net_dhcp.Pending.{Pending, prune_expired_pending}
use docker_net_dhcp.Plugin.{Plugin}
use docker_net_dhcp.Plugin.Events.{Docker, Message, on_message}

-- What the listener's select gets: a message, at a time and with Docker's answers about it; an error
-- of the stream; the end of the stream, without one or with a context that is done; or the context.
pub data Incoming : Type 0 where
  message : Docker → ℕ → Outcome → Message → Incoming
  stream_error stream_end cancelled : Incoming

pub data Listening : Type 0 where
  listening stopped : Listening

-- watchDockerEvents: after an error it starts itself again with a new stream, so what follows comes
-- from that
unfoldable pub watch_docker_events : List Incoming → Plugin → Plugin × Listening
unfolding on_message
watch_docker_events [] p = (p, listening)
watch_docker_events (message docker now os msg ∷ more) p =
    watch_docker_events more (on_message docker now os msg p)
watch_docker_events (stream_error ∷ more) p = watch_docker_events more p
watch_docker_events (stream_end ∷ more) p = (p, stopped)
watch_docker_events (cancelled ∷ more) p = (p, stopped)

-- a ticker's loop: `none` is the end of the context
unfoldable pub ticker_loop {ℓ ℓ'} :
    {A : Type ℓ} {S : Type ℓ'} → (A → S → S) → List (Option A) → S → S
ticker_loop tick [] s = s
ticker_loop tick (none ∷ more) s = s
ticker_loop tick (some a ∷ more) s = ticker_loop tick more (tick a s)

-- two minutes, in nanoseconds
abbrev pub max_age : ℕ
max_age = 120000000000

-- scavengerLoop, on the times of its ticks
unfoldable pub scavenger_loop : List (Option ℕ) → Pending → Pending
unfolding ticker_loop
scavenger_loop = ticker_loop (λ now p. prune_expired_pending now max_age p)

-- ReconcileLoop, on what the file system and Docker do at each tick
unfoldable pub reconcile_loop :
    (Dict Text → Option DhcpNetworkOptions)
    → List (Option (Outcome × Answer))
    → NetworkCache
    → NetworkCache
unfolding ticker_loop
reconcile_loop decode_opts = ticker_loop (λ t c. reconcile decode_opts t.0 t.1 c)
