-- ===== src/Plugin/Background/Alive.antt =====
-- What the goroutines of pkg/plugin/plugin.go keep up while they run.
use docker_net_dhcp.Shared.{
  ℕ, List, [], ◌∷◌, Bool, true, Option, none, some, ◌≡◌, refl, keep, ◌&&◌, ◌+◌, leb, ap, sym, ◌∙◌,
  arith,
}
use docker_net_dhcp.Shared.Text.{Text}
use docker_net_dhcp.Pending.{PendingContainer, Pending, queue_of, prune_expired_pending}
use docker_net_dhcp.Pending.Prune.{is_fresh, prune_expired_pending_lem}
use docker_net_dhcp.Plugin.{Plugin}
use docker_net_dhcp.Plugin.Events.{on_message}
use docker_net_dhcp.Plugin.Background.{
  Incoming, message, stream_error, stream_end, cancelled, listening, watch_docker_events,
  ticker_loop, max_age, scavenger_loop,
}

-- a stream of messages and errors that goes on
abbrev pub GoesOn : List Incoming → Type 0
GoesOn [] = Unit
GoesOn (message docker now os msg ∷ more) = GoesOn more
GoesOn (stream_error ∷ more) = GoesOn more
GoesOn (stream_end ∷ more) = ⊥
GoesOn (cancelled ∷ more) = ⊥

-- the messages alone
abbrev pub messages_of : List Incoming → List Incoming
messages_of [] = []
messages_of (message docker now os msg ∷ more) = message docker now os msg ∷ messages_of more
messages_of (e ∷ more) = messages_of more

-- However often the stream of Docker's events breaks with an error, the listener goes on as long as
-- its context lives: it has handled every message that came, in their order, and nothing else has
-- changed the plugin.
pub watch-messages :
    (items : List Incoming) (p : Plugin)
    → GoesOn items
    → (watch_docker_events items p ≡ watch_docker_events (messages_of items) p)
      × ((watch_docker_events items p).1 ≡ listening)
unfolding watch_docker_events
watch-messages [] p h = (refl, refl)
watch-messages (message docker now os msg ∷ more) p h =
    watch-messages more (on_message docker now os msg p) h
watch-messages (stream_error ∷ more) p h = watch-messages more p h
watch-messages (stream_end ∷ more) p h = absurd h
watch-messages (cancelled ∷ more) p h = absurd h

-- the entry was made at most two minutes before each of the ticks, up to the end of the context
abbrev pub survives : List (Option ℕ) → PendingContainer → Bool
survives [] pc = true
survives (none ∷ more) pc = true
survives (some now ∷ more) pc = leb now (pc.created_at + 120000000000) && survives more pc

keep_twice {ℓ} :
    {A : Type ℓ} (f g h : A → Bool) (xs : List A)
    → ((x : A) → h x ≡ (f x && g x))
    → keep g (keep f xs) ≡ keep h xs
unfolding keep
keep_twice f g h [] same = refl
keep_twice f g h (x ∷ xs) same = ground (arith, same x, keep_twice f g h xs same)

keep_all {ℓ} :
    {A : Type ℓ} (test : A → Bool) (xs : List A) → ((x : A) → test x ≡ true) → keep test xs ≡ xs
unfolding keep
keep_all test [] h = refl
keep_all test (x ∷ xs) h = ground (arith, h x, keep_all test xs h)

-- The scavenger takes out exactly what is too old: after any ticks, until its context ends, each queue
-- has the entries that it had and that were made at most two minutes before every tick, in their
-- order, and no others.
pub queue_of-scavenger_loop :
    (ticks : List (Option ℕ)) (p : Pending) (n : Text)
    → queue_of n (scavenger_loop ticks p) ≡ keep (survives ticks) (queue_of n p)
unfolding scavenger_loop ticker_loop
queue_of-scavenger_loop [] p n = sym (keep_all (survives []) (queue_of n p) (λ pc. refl))
queue_of-scavenger_loop (none ∷ ticks) p n =
    sym (keep_all (survives (none ∷ ticks)) (queue_of n p) (λ pc. refl))
queue_of-scavenger_loop (some now ∷ ticks) p n =
    queue_of-scavenger_loop ticks (prune_expired_pending now max_age p) n
    ∙ (ap (keep (survives ticks)) (prune_expired_pending_lem now max_age p n []).0
        ∙ keep_twice (is_fresh now max_age) (survives ticks) (survives (some now ∷ ticks))
            (queue_of n p) (λ pc. ground arith))
