-- ===== src/DhcpManager/Collisions.antt =====
-- The collision counter of processEvents in pkg/plugin/dhcp_manager.go, and its back-offs.
use docker_net_dhcp.Shared.{
  ℕ, ◌+◌, List, [], ◌∷◌, ◌++◌, Bool, not, ◌&&◌, if◌then◌else◌, leb, ◌≡◌, refl, ◌∙◌, ap, arith,
  append_assoc, append-nil,
}
use docker_net_dhcp.Udhcpc.{Event}
use docker_net_dhcp.DhcpManager.{
  Kernel, Progress, is_lease, is_collision, process_event, process_events,
}

-- the count after an event
abbrev pub counted : ℕ → Event → ℕ
counted n e = if is_lease e then 0 else (if is_collision e then n + 1 else n)

-- the collisions after the last lease among the events, or, without a lease, after the count `n`
abbrev pub since_lease : ℕ → List Event → ℕ
since_lease n [] = n
since_lease n (e ∷ es) = since_lease (counted n e) es

-- the back-off that an event calls for: at each collision from the third in a row on, as many
-- seconds as there were collisions
abbrev pub backoff : ℕ → Event → List ℕ
backoff n e = if not (is_lease e) && (is_collision e && leb 3 (n + 1)) then (n + 1) ∷ [] else []

abbrev pub backoffs : ℕ → List Event → List ℕ
backoffs n [] = []
backoffs n (e ∷ es) = backoff n e ++ backoffs (counted n e) es

count_step :
    (k : Kernel) (v6 : Bool) (e : Event) (s : Progress)
    → (process_event k v6 e s).collision_count ≡ counted s.collision_count e
unfolding process_event
count_step k v6 e s = ground arith

sleeps_step :
    (k : Kernel) (v6 : Bool) (e : Event) (s : Progress)
    → (process_event k v6 e s).sleeps ≡ s.sleeps ++ backoff s.collision_count e
unfolding process_event
sleeps_step k v6 e s = ground (arith, append-nil s.sleeps)

-- After any events, the counter is the number of collisions since the last lease, and the process
-- has slept, at each collision from the third in a row on, as many seconds as there were collisions.
pub process_events_lem :
    (k : Kernel) (v6 : Bool) (es : List Event) (s : Progress)
    → ((process_events k v6 es s).collision_count ≡ since_lease s.collision_count es)
      × ((process_events k v6 es s).sleeps ≡ s.sleeps ++ backoffs s.collision_count es)
unfolding process_events
process_events_lem k v6 [] s = (refl, ground (arith, append-nil s.sleeps))
process_events_lem k v6 (e ∷ es) s =
    let t = process_event k v6 e s in
    let (count, sleeps) = process_events_lem k v6 es t in
    (
      count ∙ ap (λ (n : ℕ). since_lease n es) (count_step k v6 e s),
      sleeps
          ∙ (ap (λ (l : List ℕ). l ++ backoffs t.collision_count es) (sleeps_step k v6 e s)
              ∙ (ap (λ (n : ℕ). (s.sleeps ++ backoff s.collision_count e) ++ backoffs n es)
                    (count_step k v6 e s)
                  ∙ append_assoc s.sleeps (backoff s.collision_count e)
                      (backoffs (counted s.collision_count e) es))),
    )
