-- ===== src/Network/Stops.antt =====
-- How often Leave and DeleteEndpoint of pkg/plugin/network.go stop the DHCP manager of an endpoint. A
-- second Stop would close a closed channel, which panics.
use docker_net_dhcp.Shared.{
  ℕ, ◌+◌, List, [], ◌∷◌, ◌++◌, none, if◌then◌else◌, ◌≡◌, refl, ap, ◌∙◌, arith, inl, inr,
  Option-cases,
}
use docker_net_dhcp.Shared.Text.{Text, str_eq, str_eq_iff, str_eq_refl}
use docker_net_dhcp.Shared.Result.{Result-cases}
use docker_net_dhcp.Cache.Ops.{get_endpoint}
use docker_net_dhcp.Shared.Dict
use docker_net_dhcp.Shared.Dict.{get-del}
use docker_net_dhcp.Plugin.{Plugin, Call, link_add, link_del, stop, link_set_mac}
use docker_net_dhcp.Network.{
  World, EndpointRequest, drop_manager, drop_link, remember, leave, remove_endpoint,
  veth_pair_names,
}

-- the times that a manager of the endpoint was stopped
abbrev pub stops : Text → List Call → ℕ
stops e [] = 0
stops e (stop x ∷ calls) = (if str_eq x e then 1 else 0) + stops e calls
stops e (c ∷ calls) = stops e calls

-- 1 if the endpoint has a manager
abbrev pub runs : Text → Plugin → ℕ
runs e p = if Dict.has e p.persistent_dhcp then 1 else 0

stops-append :
    (e : Text) (calls more : List Call) → stops e (calls ++ more) ≡ stops e calls + stops e more
stops-append e [] more = omega arith
stops-append e (stop x ∷ calls) more = omega (arith, stops-append e calls more)
stops-append e (link_add h p m ∷ calls) more = stops-append e calls more
stops-append e (link_del h ∷ calls) more = stops-append e calls more
stops-append e (link_set_mac l m ∷ calls) more = stops-append e calls more

drop_manager-stops :
    (id e : Text) (p : Plugin)
    → stops e (drop_manager id p).calls + runs e (drop_manager id p) ≡ stops e p.calls + runs e p
unfolding drop_manager Dict.has
drop_manager-stops id e p = elim (Option-cases (Dict.get id p.persistent_dhcp)) [
  | inl g ↦ rw (drop_manager, g) refl
  | inr (m, g) ↦ ground (
    arith,
    g,
    stops-append e p.calls (stop id ∷ []),
    get-del id e p.persistent_dhcp,
    str_eq_iff id e,
  )
]

-- the endpoint has a manager after a removal only if it had one and is another endpoint
get-drop_manager :
    (id e : Text) (p : Plugin)
    → Dict.get e (drop_manager id p).persistent_dhcp
      ≡ (if str_eq id e then none else Dict.get e p.persistent_dhcp)
unfolding drop_manager
get-drop_manager id e p = elim (Option-cases (Dict.get id p.persistent_dhcp)) [
  | inl g ↦ ground (arith, g, str_eq_iff id e)
  | inr (m, g) ↦ ground (arith, g, get-del id e p.persistent_dhcp)
]

-- a request of Docker to take an endpoint down, with the answers to it
pub data Removal : Type 0 where
  leaves deletes : World → EndpointRequest → Removal

abbrev pub remove : Removal → Plugin → Plugin
remove (leaves w r) p = leave w r p
remove (deletes w r) p = remove_endpoint w r p

abbrev pub endpoint_of : Removal → Text
endpoint_of (leaves w r) = r.endpoint_id
endpoint_of (deletes w r) = r.endpoint_id

abbrev pub remove_all : List Removal → Plugin → Plugin
remove_all [] p = p
remove_all (x ∷ xs) p = remove_all xs (remove x p)

-- what comes before the removal of the manager stops none and keeps the managers
remember-same :
    (w : World) (r : EndpointRequest) (p : Plugin)
    → ((remember w r p).persistent_dhcp ≡ p.persistent_dhcp) × ((remember w r p).calls ≡ p.calls)
unfolding remember
remember-same w r p = elim (Option-cases (get_endpoint r.network_id r.endpoint_id p.cache)) [
  | inl g ↦ rw (remember, g) (refl, refl)
  | inr (ep, g) ↦ ground (arith, g)
]

drop_link-same :
    (w : World) (host e : Text) (p : Plugin)
    → ((drop_link w host p).persistent_dhcp ≡ p.persistent_dhcp)
      × (stops e (drop_link w host p).calls ≡ stops e p.calls)
unfolding drop_link
drop_link-same w host e p = elim (Result-cases (w.link_by_name host)) [
  | inl (err, h) ↦ rw (drop_link, h) (refl, refl)
  | inr (kind, h) ↦
      rw (drop_link, h) (refl, omega (arith, stops-append e p.calls (link_del host ∷ [])))
]

same_count :
    (e : Text) (q p : Plugin)
    → q.persistent_dhcp ≡ p.persistent_dhcp
    → stops e q.calls ≡ stops e p.calls
    → stops e q.calls + runs e q ≡ stops e p.calls + runs e p
same_count e q p same calls = rw (same, calls) refl

remove-stops :
    (x : Removal) (e : Text) (p : Plugin)
    → (stops e (remove x p).calls + runs e (remove x p) ≡ stops e p.calls + runs e p)
      × (Dict.get e (remove x p).persistent_dhcp
          ≡ (if str_eq (endpoint_of x) e then none else Dict.get e p.persistent_dhcp))
unfolding leave remove_endpoint
remove-stops (leaves w r) e p =
    let q = remember w r p in
    let (same, calls) = remember-same w r p in
    (
      drop_manager-stops r.endpoint_id e q ∙ same_count e q p same (ap (stops e) calls),
      get-drop_manager r.endpoint_id e q
          ∙ ap (λ m. if str_eq r.endpoint_id e then none else Dict.get e m) same,
    )
remove-stops (deletes w r) e p =
    let q = drop_link w (veth_pair_names r.endpoint_id).0 p in
    let (same, calls) = drop_link-same w (veth_pair_names r.endpoint_id).0 e p in
    (
      drop_manager-stops r.endpoint_id e q ∙ same_count e q p same calls,
      get-drop_manager r.endpoint_id e q
          ∙ ap (λ m. if str_eq r.endpoint_id e then none else Dict.get e m) same,
    )

remove_all-stops :
    (xs : List Removal) (e : Text) (p : Plugin)
    → stops e (remove_all xs p).calls + runs e (remove_all xs p) ≡ stops e p.calls + runs e p
remove_all-stops [] e p = refl
remove_all-stops (x ∷ xs) e p = remove_all-stops xs e (remove x p) ∙ (remove-stops x e p).0

remove_all-none :
    (xs : List Removal) (e : Text) (p : Plugin)
    → Dict.get e p.persistent_dhcp ≡ none
    → Dict.get e (remove_all xs p).persistent_dhcp ≡ none
remove_all-none [] e p h = h
remove_all-none (x ∷ xs) e p h =
    remove_all-none xs e (remove x p) (ground (arith, (remove-stops x e p).1, h))

remove_all-append :
    (xs ys : List Removal) (p : Plugin) → remove_all (xs ++ ys) p ≡ remove_all ys (remove_all xs p)
remove_all-append [] ys p = refl
remove_all-append (x ∷ xs) ys p = remove_all-append xs ys (remove x p)

-- However often and in whichever order Docker asks to leave or delete endpoints, the manager of an
-- endpoint that is asked for at least once is stopped exactly once, if the endpoint had one, and
-- else never; and the endpoint has no manager any more.
pub stop_once :
    (before after : List Removal) (x : Removal) (p : Plugin)
    → let q = remove_all (before ++ x ∷ after) p in
      (stops (endpoint_of x) q.calls ≡ stops (endpoint_of x) p.calls + runs (endpoint_of x) p)
      × (Dict.get (endpoint_of x) q.persistent_dhcp ≡ none)
unfolding Dict.has
stop_once before after x p =
    let e = endpoint_of x in
    let q = remove_all (before ++ x ∷ after) p in
    let gone : Dict.get e q.persistent_dhcp ≡ none =
      ap (λ (r : Plugin). Dict.get e r.persistent_dhcp) (remove_all-append before (x ∷ after) p)
      ∙ remove_all-none after e (remove x (remove_all before p))
          (ground (arith, (remove-stops x e (remove_all before p)).1, str_eq_refl e)) in
    let none_left : runs e q ≡ 0 = rw (Dict.has, gone) refl in
    (omega (arith, remove_all-stops (before ++ x ∷ after) e p, none_left), gone)
