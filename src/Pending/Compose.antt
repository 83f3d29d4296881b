-- ===== src/Pending/Compose.antt =====
-- What the queue of pkg/plugin/plugin.go is for: names stay unique, a compose-down never leaks into
-- a compose-up, and a restart finds its container.
use docker_net_dhcp.Shared.{
  ℕ, List, [], ◌∷◌, ◌++◌, Bool, true, false, not, ◌||◌, some, if◌then◌else◌, ◌≡◌, ◌≢◌, refl, ◌∙◌,
  arith, keep, All, All-append, Bool-cases, inl, inr,
}
use docker_net_dhcp.Shared.Text.{Text, str_eq, str_eq_iff, str_eq_refl, str_eq_ne}
use docker_net_dhcp.Shared.Dict.{member}
use docker_net_dhcp.Pending.{
  PendingContainer, Pending, queue_of, push_pending_container, pop_pending_container,
}
use docker_net_dhcp.Pending.Queue.{pending, appended, rest, queue_of-push, queue_of-pop}

abbrev pub names : List PendingContainer → List Text
names [] = []
names (pc ∷ q) = pc.name ∷ names q

-- no name stands twice
abbrev pub IsUnique : List PendingContainer → Type 0
IsUnique [] = Unit
IsUnique (pc ∷ q) = (member pc.name (names q) ≡ false) × IsUnique q

abbrev pub IsForward : PendingContainer → Type 0
IsForward pc = pc.forward ≡ true

member-keep :
    (test : PendingContainer → Bool) (k : Text) (q : List PendingContainer)
    → member k (names q) ≡ false
    → member k (names (keep test q)) ≡ false
unfolding member keep
member-keep test k [] h = refl
member-keep test k (pc ∷ q) h = ground (arith, member-keep test k q)

pub keep-IsUnique :
    (test : PendingContainer → Bool) (q : List PendingContainer)
    → IsUnique q
    → IsUnique (keep test q)
unfolding keep
keep-IsUnique test [] u = tt
keep-IsUnique test (pc ∷ q) u =
    ground (arith, keep-IsUnique test q u.1, member-keep test pc.name q u.0)

member-others :
    (k : Text) (q : List PendingContainer)
    → member k (names (keep (λ pc. not (str_eq pc.name k)) q)) ≡ false
unfolding member keep
member-others k [] = refl
member-others k (pc ∷ q) = ground (arith, member-others k q)

member-append :
    (k : Text) (q : List PendingContainer) (pc : PendingContainer)
    → member k (names (q ++ pc ∷ [])) ≡ (member k (names q) || str_eq pc.name k)
unfolding member
member-append k [] pc = ground arith
member-append k (x ∷ q) pc = ground (arith, member-append k q pc)

append-IsUnique :
    (q : List PendingContainer) (pc : PendingContainer)
    → IsUnique q
    → member pc.name (names q) ≡ false
    → IsUnique (q ++ pc ∷ [])
unfolding member
append-IsUnique [] pc u h = (refl, tt)
append-IsUnique (x ∷ q) pc u h = ground (
  arith,
  append-IsUnique q pc u.1,
  member-append x.name q pc,
  str_eq_iff x.name pc.name,
  str_eq_iff pc.name x.name,
)

appended-IsUnique :
    (new : PendingContainer) (q : List PendingContainer) → IsUnique q → IsUnique (appended new q)
appended-IsUnique new q u =
    append-IsUnique (keep (λ pc. not (str_eq pc.name new.name)) kept) new
      (keep-IsUnique _ kept kept_unique) (member-others new.name kept)
  where
    kept : List PendingContainer
    kept = if new.forward then keep (λ pc. pc.forward) q else q

    kept_unique : IsUnique kept
    kept_unique = elim (Bool-cases new.forward) [
      | inl h ↦ rw h (keep-IsUnique _ q u)
      | inr h ↦ rw h u
    ]

-- Pushing keeps the names of every queue unique.
pub push-IsUnique :
    (now : ℕ) (n name hostname : Text) (forward : Bool) (p : Pending) (m : Text)
    → IsUnique (queue_of n p)
    → IsUnique (queue_of m p)
    → IsUnique (queue_of m (push_pending_container now n name hostname forward p))
push-IsUnique now n name hostname forward p m u v = rw queue_of-push (
    if-IsUnique (str_eq n m) _ _
      (appended-IsUnique (pending now name hostname forward) (queue_of n p) u) v)
  where
    if-IsUnique :
        (b : Bool) (x y : List PendingContainer)
        → IsUnique x
        → IsUnique y
        → IsUnique (if b then x else y)
    if-IsUnique true x y ux uy = ux
    if-IsUnique false x y ux uy = uy

rest-IsUnique : (q : List PendingContainer) → IsUnique q → IsUnique (rest q)
rest-IsUnique [] u = tt
rest-IsUnique (pc ∷ q) u = u.1

pub pop-IsUnique :
    (n : Text) (p : Pending) (m : Text)
    → IsUnique (queue_of m p)
    → IsUnique (queue_of m (pop_pending_container n p).0)
pop-IsUnique n p m u = elim (Bool-cases (str_eq n m)) [
  | inl h ↦ rw ((queue_of-pop n p m).1, h, (str_eq_iff n m).0 h) (rest-IsUnique (queue_of m p) u)
  | inr h ↦ rw ((queue_of-pop n p m).1, h) u
]

All-keep-forward : (q : List PendingContainer) → All IsForward (keep (λ pc. pc.forward) q)
unfolding keep
All-keep-forward [] = tt
All-keep-forward (pc ∷ q) = ground (arith, All-keep-forward q)

All-keep :
    (test : PendingContainer → Bool) (q : List PendingContainer)
    → All IsForward q
    → All IsForward (keep test q)
unfolding keep
All-keep test [] h = tt
All-keep test (pc ∷ q) h = ground (arith, All-keep test q h.1)

-- After a forward event for a container, the queue of its network holds forward entries only: what
-- a compose-down left behind is gone.
pub push_flushes_backward :
    (now : ℕ) (n name hostname : Text) (p : Pending)
    → All IsForward (queue_of n (push_pending_container now n name hostname true p))
push_flushes_backward now n name hostname p =
    rw (queue_of-push, str_eq_refl)
      (All-append IsForward _ _
        (All-keep (λ pc. not (str_eq pc.name name)) (keep (λ pc. pc.forward) (queue_of n p))
          (All-keep-forward (queue_of n p)))
        (refl, tt))

abbrev pub IsBackward : PendingContainer → Type 0
IsBackward pc = pc.forward ≡ false

keep-backward : (q : List PendingContainer) → All IsBackward q → keep (λ pc. pc.forward) q ≡ []
unfolding keep
keep-backward [] h = refl
keep-backward (pc ∷ q) h = ground (arith, keep-backward q h.1)

-- Compose down, then up: if the queue of the network holds backward entries only, a create event is
-- the next that CreateEndpoint takes, whatever the entries are and however many.
pub pop-push_forward :
    (now : ℕ) (n name hostname : Text) (p : Pending)
    → All IsBackward (queue_of n p)
    → (pop_pending_container n (push_pending_container now n name hostname true p)).1
      ≡ some (name, hostname)
unfolding keep
pop-push_forward now n name hostname p h =
    (queue_of-pop n (push_pending_container now n name hostname true p) n).0
    ∙ rw (queue_of-push, str_eq_refl, keep-backward (queue_of n p) h) refl

-- Restart: a die event on an empty queue is the next that CreateEndpoint takes, and pops in between
-- on other networks do not disturb it.
pub pop-push_backward :
    (now : ℕ) (n m name hostname : Text) (p : Pending)
    → queue_of n p ≡ []
    → m ≢ n
    → (pop_pending_container n
        (pop_pending_container m (push_pending_container now n name hostname false p)).0).1
      ≡ some (name, hostname)
unfolding keep
pop-push_backward now n m name hostname p h other =
    let q = push_pending_container now n name hostname false p in
    (queue_of-pop n (pop_pending_container m q).0 n).0
    ∙ rw
        (
          (queue_of-pop m q n).1,
          str_eq_ne m n other,
          queue_of-push now n name hostname false p n,
          str_eq_refl,
          h,
        )
        refl
