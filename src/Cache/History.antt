-- ===== src/Cache/History.antt =====
-- The cache of pkg/plugin/cache.go over time: any sequence of calls of its methods, each with any
-- outcome of the operating system. (The methods exclude one another by the cache's lock.)
pub mod Restart
mod Examples
use docker_net_dhcp.Shared.{
  ℕ, List, [], ◌∷◌, Bool, true, false, Option, none, some, if◌then◌else◌, ◌≡◌, ◌≢◌, refl, arith,
  Option-cases, Bool-cases, inl, inr, ap, ◌⊎◌, sym,
}
use docker_net_dhcp.Shared.Text.{Text}
use docker_net_dhcp.Shared.Dict
use docker_net_dhcp.Shared.Dict.{Dict, keys}
use docker_net_dhcp.Driver.{DhcpNetworkOptions}
use docker_net_dhcp.Cache.State.{EndpointState, ContainerMetadata, NetworkState}
use docker_net_dhcp.Cache.Json.{encode_networks}
use docker_net_dhcp.Cache.Disk.{NetworkCache, Outcome, Write, written, failed, document, save}
use docker_net_dhcp.Cache.Disk.Atomic.{save_atomic}
use docker_net_dhcp.Cache.Ops.{
  set_metadata, prune_networks, prune_metadata, set_network, set_endpoint, delete_endpoint,
  delete_network,
}
use docker_net_dhcp.Cache.Ops.Lookup.{networks-save}
use docker_net_dhcp.Cache.Reconcile.{
  Answer, cancelled, list_failed, listed, plugin_networks, reconciled, reconcile,
}

-- the cache's file is the document of these networks
abbrev pub Holds : NetworkCache → Dict NetworkState → Type 0
Holds c networks = c.disk.file ≡ some (document (encode_networks networks))

-- one of the steps of `save` that come before the file is replaced, or that, fails
abbrev pub Fails : Outcome → Type 0
Fails os =
    (os.marshal ≡ false) ⊎ ((os.mkdir ≡ false) ⊎ ((os.write ≢ written) ⊎ (os.rename ≡ false)))

-- a save either reaches the disk or fails and leaves the file alone
save-settles :
    (os : Outcome) (c : NetworkCache) (networks : Dict NetworkState)
    → let c' = (save os (record c { networks = networks })).0 in
      Holds c' c'.networks ⊎ (Fails os × (c'.disk.file ≡ c.disk.file))
unfolding save
save-settles os c networks = go os.marshal os.mkdir os.write os.rename
  where
    go :
        (marshal mkdir : Bool) (write : Write) (rename : Bool)
        → let os' : Outcome = record {
          marshal = marshal;
          mkdir = mkdir;
          write = write;
          rename = rename;
          remove = os.remove;
        } in
          let c' = (save os' (record c { networks = networks })).0 in
          Holds c' c'.networks ⊎ (Fails os' × (c'.disk.file ≡ c.disk.file))
    go false mkdir write rename = inr (inl refl, refl)
    go true false write rename = inr (inr (inl refl), refl)
    go true true (failed left) rename = inr (inr (inr (inl (λ p. cc))), refl)
    go true true written false = inr (inr (inr (inr refl)), refl)
    go true true written true = inl refl

or_fails {ℓ ℓ' κ} :
    {A : Type ℓ} {B : Type ℓ'} {F : Type κ} (C : Type ℓ') → A ⊎ (F × B) → A ⊎ ((F ⊎ C) × B)
or_fails C (inl a) = inl a
or_fails C (inr (f, b)) = inr (inl f, b)

module _ (decode_opts : Dict Text → Option DhcpNetworkOptions) where
  pub data Step (c : NetworkCache) : NetworkCache → Type 0 where
    sets_metadata :
        (now : ℕ) (os : Outcome) (n e : Text) (meta : ContainerMetadata)
        → Step c (set_metadata now os n e meta c)
    prunes_metadata :
        (now : ℕ) (os : Outcome) (max_age : ℕ) → Step c (prune_metadata now os max_age c)
    sets_network : (os : Outcome) (state : NetworkState) → Step c (set_network os state c).0
    sets_endpoint :
        (os : Outcome) (n : Text) (ep : EndpointState) → Step c (set_endpoint os n ep c).0
    deletes_endpoint : (os : Outcome) (n e : Text) → Step c (delete_endpoint os n e c).0
    deletes_network : (os : Outcome) (n : Text) → Step c (delete_network os n c).0
    reconciles : (os : Outcome) (answer : Answer) → Step c (reconcile decode_opts os answer c)

  pub data Reach (c : NetworkCache) : NetworkCache → Type 0 where
    here : Reach c c
    next : {d e : NetworkCache} → Reach c d → Step d e → Reach c e

  -- the call does not write the file: its save fails, or it has nothing to save
  abbrev pub Unsaved : {c d : NetworkCache} → Step c d → Type 0
  Unsaved {c} (sets_metadata now os n e meta) = Fails os
  Unsaved {c} (prunes_metadata now os max_age) =
      Fails os ⊎ ((prune_networks now max_age (keys c.networks) (c.networks, false)).1 ≡ false)
  Unsaved {c} (sets_network os state) = Fails os
  Unsaved {c} (sets_endpoint os n ep) = Fails os ⊎ (Dict.get n c.networks ≡ none)
  Unsaved {c} (deletes_endpoint os n e) = Fails os ⊎ (Dict.get n c.networks ≡ none)
  Unsaved {c} (deletes_network os n) = Fails os
  Unsaved {c} (reconciles os (listed ns)) =
      Fails os ⊎ ((reconciled decode_opts (plugin_networks ns []) c.networks).1 ≡ false)
  Unsaved (reconciles os cancelled) = Unit
  Unsaved (reconciles os list_failed) = Unit

  -- a cache that a history goes through, its two ends among them, and after which no call has written
  -- the file
  abbrev pub IsLastSaved : {c d : NetworkCache} → Reach c d → NetworkCache → Type 0
  IsLastSaved {d = d} here p = p ≡ d
  IsLastSaved {d = d} (next r st) p = (p ≡ d) ⊎ (Unsaved st × IsLastSaved r p)

  pub Step-settles :
      {c d : NetworkCache} (st : Step c d)
      → Holds d d.networks ⊎ (Unsaved st × (d.disk.file ≡ c.disk.file))
  unfolding set_metadata prune_metadata set_network set_endpoint delete_endpoint delete_network
      reconcile
  Step-settles {c} (sets_metadata now os n e meta) = save-settles os c _
  Step-settles {c} (prunes_metadata now os max_age) =
      let pruned = prune_networks now max_age (keys c.networks) (c.networks, false) in
      elim (Bool-cases pruned.1) [
        | inl h ↦ rw (h, prune_metadata) (or_fails _ (save-settles os c pruned.0))
        | inr h ↦ rw (h, prune_metadata) (inr (inr refl, refl))
      ]
  Step-settles {c} (sets_network os state) = save-settles os c _
  Step-settles {c} (sets_endpoint os n ep) = elim (Option-cases (Dict.get n c.networks)) [
    | inl h ↦ rw (h, set_endpoint) (inr (inr refl, refl))
    | inr (net, h) ↦ rw (h, set_endpoint) (or_fails _ (save-settles os c _))
  ]
  Step-settles {c} (deletes_endpoint os n e) = elim (Option-cases (Dict.get n c.networks)) [
    | inl h ↦ rw (h, delete_endpoint) (inr (inr refl, refl))
    | inr (net, h) ↦ rw (h, delete_endpoint) (or_fails _ (save-settles os c _))
  ]
  Step-settles {c} (deletes_network os n) = save-settles os c _
  Step-settles {c} (reconciles os (listed ns)) =
      let made = reconciled decode_opts (plugin_networks ns []) c.networks in
      elim (Bool-cases made.1) [
        | inl h ↦ rw (h, reconcile) (or_fails _ (save-settles os c made.0))
        | inr h ↦ rw (h, reconcile) (inr (inr refl, refl))
      ]
  Step-settles (reconciles os cancelled) = inr (tt, refl)
  Step-settles (reconciles os list_failed) = inr (tt, refl)
