-- ===== src/Network/Settle/Found.antt =====
-- How the goroutine of Join in pkg/plugin/network.go finds the container of an endpoint.
use docker_net_dhcp.Shared.{
  ℕ, zero, suc, ◌+◌, ◌<◌, List, [], ◌∷◌, ◌++◌, true, false, ◌&&◌, ◌||◌, Option, none, some,
  if◌then◌else◌, leb, take, length, ◌≡◌, ◌≢◌, refl, ◌∙◌, arith, inl, inr, All, Option-cases,
}
use docker_net_dhcp.Shared.Text.{Text, str_eq, is_empty, trim_prefix, cut_prefix}
use docker_net_dhcp.Shared.Dict.{Dict}
use docker_net_dhcp.Macgen.Derive.{is_empty-eq-false}
use docker_net_dhcp.Plugin.{effective_hostname}
use docker_net_dhcp.Plugin.Events.{Container, Settings}
use docker_net_dhcp.Network.{Summary}
use docker_net_dhcp.Network.Identify.{Identity, unknown}
use docker_net_dhcp.Network.Settle.{
  Later, has_endpoint, note_container, scan, actual, effective_seed,
}

-- no container of a list has the endpoint, or there is no list
abbrev pub Lacks : Text → Option (List Summary) → Type 0
Lacks endpoint_id none = Unit
Lacks endpoint_id (some ctrs) = All (λ c. has_endpoint endpoint_id c.networks ≡ false) ctrs

-- the hostname of a container, or its name where Docker chose the hostname or there is none
abbrev pub hostname_or_name : Container → Text → Text
hostname_or_name ctr name =
    if (leb 12 (length ctr.id) && str_eq ctr.hostname (take 12 ctr.id)) || is_empty ctr.hostname
    then name
    else ctr.hostname

-- Docker's list at some attempt has the container, under a name that is not empty, as the first that
-- has the endpoint, the lists of the attempts before have none that has it, and Docker tells about it
pub record IsFound (l : Later) (endpoint_id name : Text) (ctr : Container) : Type 0 where
  pub attempt : ℕ
  pub in_time : attempt < 10
  pub missed : (j : ℕ) → j < attempt → Lacks endpoint_id (l.container_list j)
  pub before : List Summary
  pub after : List Summary
  pub others : All (λ c. has_endpoint endpoint_id c.networks ≡ false) before
  pub id : Text
  pub aliases : List Text
  pub networks : Dict Settings
  pub shown :
      l.container_list attempt
      ≡ some (
          before
          ++ record { id = id; names = (b'/' ∷ name) ∷ aliases; networks = networks } ∷ after)
  pub attached : has_endpoint endpoint_id networks ≡ true
  pub given : name ≢ []
  pub inspected : l.container_inspect id ≡ some ctr

module _ (l : Later) (endpoint_id : Text) where
  scan-Lacks :
      (ctrs : List Summary)
      → All (λ c. has_endpoint endpoint_id c.networks ≡ false) ctrs
      → scan l endpoint_id ctrs unknown ≡ unknown
  unfolding scan
  scan-Lacks [] h = refl
  scan-Lacks (c ∷ ctrs) h = rw (h.0, scan) (scan-Lacks ctrs h.1)

  scan_past :
      (before ctrs : List Summary)
      → All (λ c. has_endpoint endpoint_id c.networks ≡ false) before
      → scan l endpoint_id (before ++ ctrs) unknown ≡ scan l endpoint_id ctrs unknown
  unfolding scan
  scan_past [] ctrs h = refl
  scan_past (c ∷ before) ctrs h = rw (h.0, scan) (scan_past before ctrs h.1)

  scan-found :
      (id : Text) (networks : Dict Settings) (after : List Summary) (name : Text)
      (aliases : List Text) (ctr : Container)
      → has_endpoint endpoint_id networks ≡ true
      → name ≢ []
      → l.container_inspect id ≡ some ctr
      → scan l endpoint_id
          (record { id = id; names = (b'/' ∷ name) ∷ aliases; networks = networks } ∷ after)
          unknown
        ≡ record { seed_name = name; hostname = effective_hostname ctr.id ctr.hostname name }
  unfolding scan note_container trim_prefix cut_prefix
  scan-found id networks after name aliases ctr attached given inspected =
      rw (attached, scan, inspected, is_empty-eq-false name given) refl

  actual-found :
      (left k a : ℕ) (who : Identity)
      → k < left
      → ((j : ℕ) → j < k → Lacks endpoint_id (l.container_list (a + j)))
      → (ctrs : List Summary) → l.container_list (a + k) ≡ some ctrs
      → scan l endpoint_id ctrs unknown ≡ who
      → who.seed_name ≢ []
      → actual l endpoint_id left a unknown ≡ who
  unfolding actual
  actual-found zero k a who small missed ctrs shown found named = absurd (omega arith)
  actual-found (suc left) zero a who small missed ctrs shown found named =
      let same : a + 0 ≡ a = omega arith in
      rw (rw same at shown, actual, found, is_empty-eq-false who.seed_name named) refl
  actual-found (suc left) (suc k) a who small missed ctrs shown found named =
      let later : (j : ℕ) → j < k → Lacks endpoint_id (l.container_list (a + 1 + j)) = λ j h.
        let m = missed (suc j) (omega arith) in
        let same : a + suc j ≡ a + 1 + j = omega arith in rw same at m in
      let at_last : l.container_list (a + 1 + k) ≡ some ctrs =
        let same : a + 1 + k ≡ a + suc k = omega arith in rw same shown in
      let rest = actual-found left k (a + 1) who (omega arith) later ctrs at_last found named in
      elim (Option-cases (l.container_list a)) [
        | inl e ↦ rw (e, actual) rest
        | inr (cs, e) ↦
            let same : a + 0 ≡ a = omega arith in
            let none_here = missed 0 (omega arith) in
            rw (e, actual, scan-Lacks cs (rw (same, e) at none_here)) rest
      ]

pub actual-IsFound :
    (l : Later) (endpoint_id name : Text) (ctr : Container)
    → IsFound l endpoint_id name ctr
    → actual l endpoint_id 10 0 unknown
      ≡ record { seed_name = name; hostname = effective_hostname ctr.id ctr.hostname name }
actual-IsFound l endpoint_id name ctr f =
    actual-found l endpoint_id 10 f.attempt 0 _ f.in_time
      (λ j h. let same : 0 + j ≡ j = omega arith in rw same (f.missed j h)) _
      (let same : 0 + f.attempt ≡ f.attempt = omega arith in rw same f.shown)
      (scan_past l endpoint_id f.before _ f.others
        ∙ scan-found l endpoint_id f.id f.networks f.after name f.aliases ctr f.attached f.given
            f.inspected)
      f.given

pub effective_seed-hostname_or_name :
    (name : Text) (ctr : Container)
    → effective_seed
        (record { seed_name = name; hostname = effective_hostname ctr.id ctr.hostname name })
      ≡ hostname_or_name ctr name
effective_seed-hostname_or_name name ctr = ground arith
