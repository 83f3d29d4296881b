-- ===== src/Driver.antt =====
-- pkg/plugin/plugin.go: the driver names that the plugin answers to, and its network options.
mod Examples
use docker_net_dhcp.Shared.{
  ℕ, List, [], ◌∷◌, ◌++◌, Bool, true, false, ◌&&◌, ◌||◌, not, ◌==◌, ◌≡◌, ◌↔◌, ◌⊎◌, inl, inr, ◌≢◌,
  refl, arith, Option, none, some, if◌then◌else◌, All, Option-cases, Bool-cases,
}
use docker_net_dhcp.Shared.Text.{Text, text, cut_prefix, cut_prefix-append, cut_prefix-eq-some}

-- time.Duration, a signed number of nanoseconds; `negsuc n` is -(n + 1)
pub data Duration : Type 0 where
  pos : ℕ → Duration
  negsuc : ℕ → Duration

pub record DhcpNetworkOptions : Type 0 where
  pub bridge : Text
  pub ipv6 : Bool
  pub lease_timeout : Duration
  pub ignore_conflicts : Bool
  pub skip_routes : Bool
  pub mac_format : Text

-- `.` of a regular expression matches every character but a line feed
unfoldable pub lacks_newline : Text → Bool
lacks_newline [] = true
lacks_newline (b ∷ s) = not (b == b'\n') && lacks_newline s

-- `.+$`
unfoldable pub is_tag : Text → Bool
unfolding lacks_newline
is_tag [] = false
is_tag (b ∷ s) = lacks_newline (b ∷ s)

-- a literal prefix of a regular expression, then `.+$`
unfoldable pub matches : Text → Text → Bool
unfolding is_tag
matches prefix driver = elim (cut_prefix prefix driver) [ none ↦ false | some rest ↦ is_tag rest ]

abbrev pub prefix_new : Text
prefix_new = text "ghcr.io/thehaven/docker-net-dhcp:"

abbrev pub prefix_old : Text
prefix_old = text "ghcr.io/devplayer0/docker-net-dhcp:"

unfoldable pub is_dhcp_plugin : Text → Bool
is_dhcp_plugin driver = matches prefix_new driver || matches prefix_old driver

-- a tag that is not empty and has no line feed
abbrev pub IsTag : Text → Type 0
IsTag tag = (tag ≢ []) × All (λ b. b ≢ b'\n') tag

lacks_newline_iff : (s : Text) → (lacks_newline s ≡ true) ↔ All (λ b. b ≢ b'\n') s
unfolding lacks_newline
lacks_newline_iff [] = ground arith
lacks_newline_iff (b ∷ s) = ground (arith, lacks_newline_iff s)

is_tag_iff : (s : Text) → (is_tag s ≡ true) ↔ IsTag s
unfolding is_tag
is_tag_iff [] = ground arith
is_tag_iff (b ∷ s) =
    ((λ h. ((λ p. cc), (lacks_newline_iff (b ∷ s)).0 h)), (λ h. (lacks_newline_iff (b ∷ s)).1 h.1))

matches_iff :
    (prefix driver : Text)
    → (matches prefix driver ≡ true) ↔ ((tag : Text) × (driver ≡ prefix ++ tag) × IsTag tag)
unfolding matches
matches_iff prefix driver =
    (forward, λ (tag, e, t). rw (e, cut_prefix-append prefix tag, matches) ((is_tag_iff tag).1 t))
  where
    forward : matches prefix driver ≡ true → (tag : Text) × (driver ≡ prefix ++ tag) × IsTag tag
    forward h = elim (Option-cases (cut_prefix prefix driver)) [
      | inl e ↦ ground (arith, h, e)
      | inr (rest, e) ↦ (
        rest,
        cut_prefix-eq-some prefix driver rest e,
        (is_tag_iff rest).0 (rw (e, matches) at h),
      )
    ]

or_true : (b : Bool) → (b || true) ≡ true
or_true b = ground arith

-- The plugin answers to exactly the names that are one of the two image names, a colon and a tag
-- that is not empty and has no line feed.
pub is_dhcp_plugin_iff :
    (driver : Text)
    → (is_dhcp_plugin driver ≡ true)
      ↔ ((tag : Text) × IsTag tag × ((driver ≡ prefix_new ++ tag) ⊎ (driver ≡ prefix_old ++ tag)))
unfolding is_dhcp_plugin
is_dhcp_plugin_iff driver = (forward, backward)
  where
    forward :
        is_dhcp_plugin driver ≡ true
        → (tag : Text) × IsTag tag × ((driver ≡ prefix_new ++ tag) ⊎ (driver ≡ prefix_old ++ tag))
    forward h = elim (Bool-cases (matches prefix_new driver)) [
      | inl e ↦ let (tag, p, t) = (matches_iff prefix_new driver).0 e in (tag, t, inl p)
      | inr e ↦ let (tag, p, t) = (matches_iff prefix_old driver).0 (rw e at h) in (tag, t, inr p)
    ]

    backward :
        ((tag : Text) × IsTag tag × ((driver ≡ prefix_new ++ tag) ⊎ (driver ≡ prefix_old ++ tag)))
        → is_dhcp_plugin driver ≡ true
    backward (tag, t, inl p) = rw ((matches_iff prefix_new driver).1 (tag, p, t))
    backward (tag, t, inr p) =
        rw ((matches_iff prefix_old driver).1 (tag, p, t)) (or_true (matches prefix_new driver))
