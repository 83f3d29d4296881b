-- ===== src/Netlink.antt =====
-- pkg/util/netlink.go: waiting for a network namespace or a link. A call polls, and its answers are
-- those that come before the context is done.
use docker_net_dhcp.Shared.{List, [], ◌∷◌, ◌++◌, Option, none, some, ◌≡◌, refl, All}
use docker_net_dhcp.Shared.Result.{Result, ok, err}

-- AwaitNetNS and AwaitLinkByIndex: the first answer, or the context's error
unfoldable pub await {ℓ} : {E A : Type ℓ} → E → List (Option A) → Result E A
await overdue [] = err overdue
await overdue (none ∷ polls) = await overdue polls
await overdue (some a ∷ polls) = ok a

pub await-first {ℓ} :
    {E A : Type ℓ} (overdue : E) (missing polls : List (Option A)) (a : A)
    → All (λ o. o ≡ none) missing
    → await overdue (missing ++ some a ∷ polls) ≡ ok a
unfolding await
await-first overdue [] polls a h = refl
await-first overdue (o ∷ missing) polls a h = rw h.0 (await-first overdue missing polls a h.1)
