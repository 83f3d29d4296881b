-- ===== src/Udhcpc/Signals.antt =====
-- pkg/udhcpc/client.go: the signals that Reap and Release send to the process.
use docker_net_dhcp.Shared.{[], ◌∷◌, Bool, true, false, if◌then◌else◌, ◌≡◌, refl}
use docker_net_dhcp.Udhcpc.{Wait, exited, overdue, sigterm, sigkill, reap, release}

abbrev pub is_overdue : Wait → Bool
is_overdue (exited e) = false
is_overdue (overdue e) = true

-- Reap sends a signal only to a process that is not done in time, and kills it; Release asks the
-- process to end before it does the same, and both report the same error.
pub release-reap :
    (started : Bool) (w : Wait)
    → ((reap started w).0 ≡ (if started then (if is_overdue w then sigkill ∷ [] else []) else []))
      × ((release started w).0 ≡ (if started then sigterm ∷ (reap started w).0 else []))
      × ((release started w).1 ≡ (reap started w).1)
unfolding reap release
release-reap true (exited e) = (refl, refl, refl)
release-reap true (overdue e) = (refl, refl, refl)
release-reap false (exited e) = (refl, refl, refl)
release-reap false (overdue e) = (refl, refl, refl)
