-- ===== src/Cache/Disk/Atomic.antt =====
-- `save` (pkg/plugin/cache.go) replaces the cache's file as a whole or not at all.
use docker_net_dhcp.Shared.{none, some, ◌≡◌, ◌≢◌, arith, ◌⊎◌}
use docker_net_dhcp.Cache.Json.{encode_networks}
use docker_net_dhcp.Cache.Disk.{NetworkCache, Outcome, document, save}

-- Whatever the operating system does, `save` leaves the networks alone; without an error the file
-- is the document of these networks and no temporary file is left, and with one the file is what
-- it was.
pub save_atomic :
    (os : Outcome) (c : NetworkCache)
    → ((save os c).0.networks ≡ c.networks)
      × (((save os c).1 ≡ none)
            × ((save os c).0.disk
                ≡ record { file = some (document (encode_networks c.networks)); tmp = none })
          ⊎ ((save os c).1 ≢ none) × ((save os c).0.disk.file ≡ c.disk.file))
unfolding save
save_atomic os c = ground arith
