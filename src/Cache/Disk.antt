-- ===== src/Cache/Disk.antt =====
-- `save` of pkg/plugin/cache.go: the networks are written to a temporary file, which then takes the
-- place of the cache's file. What the operating system does is given by an `Outcome`.
pub mod Atomic
use docker_net_dhcp.Shared.{Bool, true, false, Option, none, some, if◌then◌else◌}
use docker_net_dhcp.Shared.Dict.{Dict}
use docker_net_dhcp.Cache.State.{NetworkState}
use docker_net_dhcp.Json.{Json}
use docker_net_dhcp.Cache.Json.{encode_networks}

-- what a file holds: a whole document, or something that is none, such as a part of one
pub data Content : Type 0 where
  document : Json → Content
  fragment : Content

-- the cache's file and the file beside it whose name ends in ".tmp"
pub record Disk : Type 0 where
  pub file : Option Content
  pub tmp : Option Content

-- os.WriteFile writes all, or fails and leaves something behind
pub data Write : Type 0 where
  written : Write
  failed : Option Content → Write

-- which of the steps of `save` succeed; the last is the `os.Remove` after a failed rename
pub record Outcome : Type 0 where
  pub marshal : Bool
  pub mkdir : Bool
  pub write : Write
  pub rename : Bool
  pub remove : Bool

pub data SaveError : Type 0 where
  marshal_failed mkdir_failed write_failed commit_failed : SaveError

pub record NetworkCache : Type 0 where
  pub networks : Dict NetworkState
  pub disk : Disk

abbrev after_write : Outcome → Content → Write → Disk → Disk × Option SaveError
after_write os doc (failed left) d = (record d { tmp = left }, some write_failed)
after_write os doc written d =
    if os.rename
    then (record { file = some doc; tmp = none }, none)
    else (record d { tmp = if os.remove then none else some doc }, some commit_failed)

unfoldable pub save : Outcome → NetworkCache → NetworkCache × Option SaveError
save os c =
    if os.marshal
    then (if os.mkdir
        then (let (d, e) = after_write os (document (encode_networks c.networks)) os.write c.disk in
            (record c { disk = d }, e))
        else (c, some mkdir_failed))
    else (c, some marshal_failed)
