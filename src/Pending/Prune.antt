-- ===== src/Pending/Prune.antt =====
-- pruneExpiredPending of pkg/plugin/plugin.go drops exactly what is too old.
use docker_net_dhcp.Shared.{
  ℕ, List, [], ◌∷◌, Bool, false, not, Option, none, some, if◌then◌else◌, ◌≡◌, refl, ap, ◌∙◌, arith,
  keep, Bool-cases, Option-cases, List-cases, inl, inr,
}
use docker_net_dhcp.Shared.Text.{Text, str_eq, str_eq_iff}
use docker_net_dhcp.Shared.Dict
use docker_net_dhcp.Shared.Dict.{Dict, keys, member, get-put, get-del, get-keys}
use docker_net_dhcp.Shared.Dict.Range.{sweep, spare, get-sweep}
use docker_net_dhcp.Shared.Slice.{compact, compact-keep}
use mathlib.Core.Option
use docker_net_dhcp.Pending.{
  PendingContainer, Pending, or_nil, queue_of, is_stale, prune_queue, prune_queues, prune_meta,
  prune_metas, prune_expired_pending, lookup_pending_meta,
}

module _ (now max_age : ℕ) where
  abbrev pub is_fresh : PendingContainer → Bool
  is_fresh pc = not (is_stale now max_age pc)

  keep_idem : (q : List PendingContainer) → keep is_fresh (keep is_fresh q) ≡ keep is_fresh q
  unfolding keep
  keep_idem [] = refl
  keep_idem (pc ∷ q) = ground (arith, keep_idem q)

  queue-prune_queue :
      (k m : Text) (queues : Dict (List PendingContainer))
      → or_nil (Dict.get m (prune_queue now max_age k queues)) ≡ (
          if str_eq k m
          then keep is_fresh (or_nil (Dict.get m queues))
          else or_nil (Dict.get m queues))
  unfolding prune_queue keep
  queue-prune_queue k m queues = elim (Option-cases (Dict.get k queues)) [
    | inl h ↦ ground (arith, h, str_eq_iff k m)
    | inr (q, h) ↦ elim (List-cases (compact is_fresh q)) [
      | inl e ↦ ground (arith, h, e, compact-keep is_fresh q, str_eq_iff k m, get-del k m queues)
      | inr (pc, r, e) ↦
          ground (arith, h, e, compact-keep is_fresh q, str_eq_iff k m, get-put k m (pc ∷ r) queues)
    ]
  ]

  queue-prune_queues :
      (ks : List Text) (m : Text) (queues : Dict (List PendingContainer))
      → or_nil (Dict.get m (prune_queues now max_age ks queues)) ≡ (
          if member m ks
          then keep is_fresh (or_nil (Dict.get m queues))
          else or_nil (Dict.get m queues))
  unfolding prune_queues member
  queue-prune_queues [] m queues = refl
  queue-prune_queues (k ∷ ks) m queues = ground (
    arith,
    queue-prune_queues ks m (prune_queue now max_age k queues),
    queue-prune_queue k m queues,
    keep_idem (or_nil (Dict.get m queues)),
  )

  pub queue_of-prune :
      (p : Pending) (m : Text)
      → queue_of m (prune_expired_pending now max_age p) ≡ keep is_fresh (queue_of m p)
  unfolding queue_of prune_expired_pending keep
  queue_of-prune p m = elim (Bool-cases (member m (keys p.pending_queue))) [
    | inl h ↦ ground (arith, h, queue-prune_queues (keys p.pending_queue) m p.pending_queue)
    | inr h ↦ ground (
      arith,
      h,
      queue-prune_queues (keys p.pending_queue) m p.pending_queue,
      get-keys m p.pending_queue,
    )
  ]

  -- an entry of the metadata that is not too old
  abbrev pub fresh_name : Option PendingContainer → Option Text
  fresh_name none = none
  fresh_name (some pc) = if is_stale now max_age pc then none else some pc.hostname

  abbrev stale : Text → PendingContainer → Bool
  stale name pc = is_stale now max_age pc

  abbrev pub entry : Text → Option (Dict PendingContainer) → Option PendingContainer
  entry name none = none
  entry name (some m) = Dict.get name m

  spare_twice :
      (name : Text) (o : Option PendingContainer)
      → spare stale name (spare stale name o) ≡ spare stale name o
  spare_twice name o = ground arith

  get-nil : (name : Text) (m : Dict PendingContainer) → m ≡ [] → Dict.get name m ≡ none
  unfolding Dict.get
  get-nil name m h = rw h

  entry-prune_meta :
      (k n name : Text) (metas : Dict (Dict PendingContainer))
      → entry name (Dict.get n (prune_meta now max_age k metas)) ≡ (
          if str_eq k n
          then spare stale name (entry name (Dict.get n metas))
          else entry name (Dict.get n metas))
  unfolding prune_meta
  entry-prune_meta k n name metas = elim (Option-cases (Dict.get k metas)) [
    | inl h ↦ ground (arith, h, str_eq_iff k n)
    | inr (m, h) ↦
        let kept : Dict PendingContainer = (sweep stale (keys m) (m, false)).0 in
        elim (List-cases kept) [
          | inl e ↦ ground (
            arith,
            h,
            e,
            get-sweep stale name m false,
            get-nil name kept e,
            str_eq_iff k n,
            get-del k n metas,
          )
          | inr (x, r, e) ↦ ground (
            arith,
            h,
            e,
            get-sweep stale name m false,
            ap (Dict.get name) e,
            str_eq_iff k n,
            get-put k n (x ∷ r) metas,
          )
        ]
  ]

  entry-prune_metas :
      (ks : List Text) (n name : Text) (metas : Dict (Dict PendingContainer))
      → entry name (Dict.get n (prune_metas now max_age ks metas)) ≡ (
          if member n ks
          then spare stale name (entry name (Dict.get n metas))
          else entry name (Dict.get n metas))
  unfolding prune_metas member
  entry-prune_metas [] n name metas = refl
  entry-prune_metas (k ∷ ks) n name metas = ground (
    arith,
    entry-prune_metas ks n name (prune_meta now max_age k metas),
    entry-prune_meta k n name metas,
    spare_twice name (entry name (Dict.get n metas)),
  )

  lookup-entry :
      (n name : Text) (p : Pending)
      → lookup_pending_meta n name p
        ≡ Option.map (λ pc. pc.hostname) (entry name (Dict.get n p.pending_meta))
  unfolding lookup_pending_meta
  lookup-entry n name p = ground arith

  entry-prune_all :
      (n name : Text) (metas : Dict (Dict PendingContainer))
      → entry name (Dict.get n (prune_metas now max_age (keys metas) metas))
        ≡ spare stale name (entry name (Dict.get n metas))
  entry-prune_all n name metas = elim (Bool-cases (member n (keys metas))) [
    | inl h ↦ ground (arith, h, entry-prune_metas (keys metas) n name metas)
    | inr h ↦ ground (arith, h, entry-prune_metas (keys metas) n name metas, get-keys n metas)
  ]

  -- After pruneExpiredPending, every queue holds exactly its entries that are not too old, in their
  -- order, and the metadata of a container is found exactly if it was there and is not too old. It
  -- holds whatever the order in which Go meets the networks and the names.
  pub prune_expired_pending_lem :
      (p : Pending) (n name : Text)
      → (queue_of n (prune_expired_pending now max_age p) ≡ keep is_fresh (queue_of n p))
        × (lookup_pending_meta n name (prune_expired_pending now max_age p)
            ≡ fresh_name (entry name (Dict.get n p.pending_meta)))
  unfolding prune_expired_pending
  prune_expired_pending_lem p n name = (
    queue_of-prune p n,
    lookup-entry n name (prune_expired_pending now max_age p)
        ∙ ground (arith, entry-prune_all n name p.pending_meta),
  )
