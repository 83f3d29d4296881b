-- ===== src/DhcpManager/Restart.antt =====
-- The goroutine of `setupClient` in pkg/plugin/dhcp_manager.go: it keeps a client running, and it ends.
mod Examples
use docker_net_dhcp.Shared.{
  ℕ, zero, suc, List, [], ◌∷◌, ◌++◌, Bool, true, false, ◌||◌, Option, none, some, if◌then◌else◌,
  ◌≡◌, ◌⊎◌, inl, inr, refl, sym, ap, ◌∙◌, All, Bool-cases,
}
use docker_net_dhcp.Shared.Text.{Text}
use docker_net_dhcp.Shared.Result.{Result, ok, err, Result-cases}
use docker_net_dhcp.Errors.{Error}
use docker_net_dhcp.Udhcpc.{Event}
use docker_net_dhcp.DhcpManager.{Kernel, last_of, process_events}
use docker_net_dhcp.DhcpManager.Renewal.{leased, last_of-process_events}
use docker_net_dhcp.DhcpManager.Loop.{
  Family, Running, Attempt, Round, Loop, Phase, waiting, Fate, halted, pending, restarted, vanished,
  is_cut, handled, launch, retry, run_client, loop,
}

-- a try that sees neither the manager stopped nor the namespace gone, and one that sees it
abbrev pub IsCalm : Family → Attempt → Type 0
IsCalm f a = (a.stopped || vanished f a.gone) ≡ false

abbrev pub IsLast : Family → Attempt → Type 0
IsLast f a = (a.stopped || vanished f a.gone) ≡ true

-- a try that goes on without a client
abbrev pub Fails : Family → Attempt → Type 0
Fails f a = IsCalm f a × ((e : Error) × (launch f a.process ≡ err e))

-- after some tries that fail, one starts the client `next`
pub record Restarts (f : Family) (attempts : List Attempt) (next : Running) : Type 0 where
  pub failed : List Attempt
  pub good : Attempt
  pub rest : List Attempt
  pub parts : attempts ≡ failed ++ good ∷ rest
  pub failures : All (Fails f) failed
  pub calm : IsCalm f good
  pub launched : launch f good.process ≡ ok next

-- after some tries that fail, one sees that the goroutine is to end
pub record Halts (f : Family) (attempts : List Attempt) : Type 0 where
  pub failed : List Attempt
  pub last : Attempt
  pub rest : List Attempt
  pub parts : attempts ≡ failed ++ last ∷ rest
  pub failures : All (Fails f) failed
  pub sees : IsLast f last

-- a round after which the goroutine ends, wherever it notices
abbrev pub leaves : Family → Round → Bool
leaves f round = (is_cut round.cut || round.stopped) || vanished f round.gone

abbrev pub Ends : Family → Round → Type 0
Ends f round = (leaves f round ≡ true) ⊎ ((leaves f round ≡ false) × Halts f round.attempts)

-- rounds that each end with a new client, from the client `r` to the client `last`
pub data Calm (f : Family) : Running → List Round → Running → Type 0 where
  settled : {r : Running} → Calm f r [] r
  again :
      {r next last : Running} {round : Round} {rounds : List Round}
      → leaves f round ≡ false
      → Restarts f round.attempts next
      → Calm f next rounds last
      → Calm f r (round ∷ rounds) last

-- the events that the clients of the rounds send and the goroutine handles
abbrev pub events_of_loop : Family → Running → List Round → List Event
events_of_loop f r [] = []
events_of_loop f r (round ∷ rounds) =
    handled round.cut r.events
    ++ (if leaves f round then [] else elim (retry f round.attempts) [
      | halted ↦ []
      | pending ↦ []
      | restarted next ↦ events_of_loop f next rounds
    ])

leased-append :
    (k : Kernel) (es more : List Event) (last : Option Text)
    → leased k (es ++ more) last ≡ leased k more (leased k es last)
leased-append k [] more last = refl
leased-append k (e ∷ es) more last = leased-append k es more _

Fate-cases : (x : Fate) → (x ≡ halted) ⊎ ((x ≡ pending) ⊎ ((next : Running) × (x ≡ restarted next)))
Fate-cases halted = inl refl
Fate-cases pending = inr (inl refl)
Fate-cases (restarted next) = inr (inr (next, refl))

-- Over all the clients that the goroutine runs, the address that the manager has for their family is
-- that of the last lease among all their events whose address parses, or else the one that it had:
-- the end of a client, and the start of the next, lose none.
pub loop-last_of :
    (k : Kernel) (f : Family) (r : Running) (rounds : List Round) (s : Loop)
    → last_of f.v6 (loop k f r rounds s).progress.manager
      ≡ leased k (events_of_loop f r rounds) (last_of f.v6 s.progress.manager)
unfolding loop run_client
loop-last_of k f r [] s = refl
loop-last_of k f r (round ∷ rounds) s =
    let t : Loop = run_client k f r round s in
    let es = handled round.cut r.events in
    let one : last_of f.v6 t.progress.manager ≡ leased k es (last_of f.v6 s.progress.manager) =
      (last_of-process_events k f.v6 es (record s.progress { collision_count = 0 })).0 in
    let settled : last_of f.v6 t.progress.manager
        ≡ leased k (es ++ []) (last_of f.v6 s.progress.manager) =
      one ∙ sym (leased-append k es [] _) in
    elim (Bool-cases (leaves f round)) [
      | inl y ↦ rw (loop, y) settled
      | inr n ↦ elim (Fate-cases (retry f round.attempts)) [
        | inl h ↦ rw (loop, n, h) settled
        | inr (inl h) ↦ rw (loop, n, h) settled
        | inr (inr (next, h)) ↦
            rw (loop, n, h)
              (loop-last_of k f next rounds (record t { launched = suc t.launched })
                ∙ (ap (leased k (events_of_loop f next rounds)) one ∙ sym (leased-append k es _ _)))
      ]
    ]
