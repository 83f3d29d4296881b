-- ===== src/Plugin/Events/Endpoints.antt =====
-- What Docker's events do to the cache of pkg/plugin/cache.go.
use docker_net_dhcp.Shared.{
  ap, ℕ, [], ◌∷◌, Bool, true, false, ◌≡◌, refl, ◌∙◌, arith, Option-cases, Bool-cases, inl, inr,
}
use docker_net_dhcp.Shared.Text.{Text, is_empty}
use docker_net_dhcp.Shared.Dict.{Dict}
use docker_net_dhcp.Cache.Disk.{Outcome}
use docker_net_dhcp.Cache.Ops.{get_endpoint}
use docker_net_dhcp.Cache.Ops.Lookup.{get_endpoint-set_metadata}
use docker_net_dhcp.Plugin.{Plugin}
use docker_net_dhcp.Plugin.Events.{
  Docker, Container, Settings, Message, is_special, register_pending_for_network_meta,
  register_pending_for_network, on_create, on_start, on_die, on_connect, on_message,
}
use docker_net_dhcp.Plugin.Events.Handled.{on_message-cases}

module _ (docker : Docker) (now : ℕ) where
  cache-network_meta :
      (net name hostname : Text) (p : Plugin)
      → (register_pending_for_network_meta docker now net name hostname p).cache ≡ p.cache
  unfolding register_pending_for_network_meta
  cache-network_meta net name hostname p = elim (Option-cases (docker.network_inspect net)) [
    | inl h ↦ ground (arith, h)
    | inr (n, h) ↦ ground (arith, h)
  ]

  cache-network :
      (net name hostname : Text) (forward : Bool) (p : Plugin)
      → (register_pending_for_network docker now net name hostname forward p).cache ≡ p.cache
  unfolding register_pending_for_network
  cache-network net name hostname forward p = elim (Option-cases (docker.network_inspect net)) [
    | inl h ↦ ground (arith, h)
    | inr (n, h) ↦ ground (arith, h)
  ]

  get_endpoint-start :
      (os : Outcome) (name hostname : Text) (networks : Dict Settings) (p : Plugin) (n e : Text)
      → get_endpoint n e (on_start docker now os name hostname networks p).cache
        ≡ get_endpoint n e p.cache
  unfolding on_start
  get_endpoint-start os name hostname [] p n e = refl
  get_endpoint-start os name hostname ((net_name, settings) ∷ networks) p n e =
      elim (Bool-cases (is_empty settings.endpoint_id)) [
        | inl h ↦
            rw (h, on_start)
              (get_endpoint-start os name hostname networks _ n e
                ∙ ap (get_endpoint n e) (cache-network_meta net_name name hostname p))
        | inr h ↦
            rw (h, on_start)
              (get_endpoint-start os name hostname networks _ n e
                ∙ (get_endpoint-set_metadata os _ now _ _ n e _
                    ∙ ap (get_endpoint n e) (cache-network_meta net_name name hostname p)))
      ]

  cache-die :
      (name hostname : Text) (networks : Dict Settings) (p : Plugin)
      → (on_die docker now name hostname networks p).cache ≡ p.cache
  unfolding on_die
  cache-die name hostname [] p = refl
  cache-die name hostname ((net_name, settings) ∷ networks) p =
      cache-die name hostname networks _ ∙ cache-network net_name name hostname false p

  cache-create :
      (name : Text) (ctr : Container) (p : Plugin)
      → (on_create docker now name ctr p).cache ≡ p.cache
  unfolding on_create
  cache-create name ctr p = elim (Bool-cases (is_special ctr.network_mode)) [
    | inl h ↦ rw (h, on_create) refl
    | inr h ↦ rw (h, on_create) (cache-network ctr.network_mode name _ true p)
  ]

  -- No message of Docker's event stream changes an endpoint of the cache.
  pub get_endpoint-on_message :
      (os : Outcome) (msg : Message) (p : Plugin) (n e : Text)
      → get_endpoint n e (on_message docker now os msg p).cache ≡ get_endpoint n e p.cache
  unfolding on_connect
  get_endpoint-on_message os msg p n e =
      on_message-cases docker now (λ q. get_endpoint n e q.cache ≡ get_endpoint n e p.cache) os msg
        p refl (λ name ctr c. ap (get_endpoint n e) (cache-create name ctr p))
        (λ name hostname networks. get_endpoint-start os name hostname networks p n e)
        (λ name hostname networks c. ap (get_endpoint n e) (cache-die name hostname networks p))
        (λ net_id ctr. refl)
