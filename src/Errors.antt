-- ===== src/Errors.antt =====
-- pkg/util/errors.go: the errors that the plugin reports, and the HTTP status that each becomes.
use docker_net_dhcp.Shared.{ℕ, ◌≡◌, ◌⊎◌, ◌↔◌, inl, inr, refl, arith}
use docker_net_dhcp.Shared.Text.{Text}
use docker_net_dhcp.Macgen
use docker_net_dhcp.Cache.Ops.{CacheError}

-- The constructors from `ipam` to `no_sandbox` are the variables of pkg/util/errors.go; `wrapped` is
-- fmt.Errorf with %w, and `other` an error of a library.
pub data Error : Type 0 where
  ipam bridge_required not_bridge bridge_used mac_address : Error
  no_lease no_hint not_veth no_container no_sandbox : Error
  wrapped : Text → Error → Error
  other : Text → Error
  generation : Macgen.Error → Error
  caching : CacheError → Error

-- ErrToStatus
unfoldable pub err_to_status : Error → ℕ
err_to_status (wrapped message e) = err_to_status e
err_to_status ipam = 400
err_to_status bridge_required = 400
err_to_status not_bridge = 400
err_to_status bridge_used = 400
err_to_status mac_address = 400
err_to_status e = 500

-- the errors that are the client's fault
pub data IsBadRequest : Error → Type 0 where
  bad_ipam : IsBadRequest ipam
  bad_required : IsBadRequest bridge_required
  bad_not_bridge : IsBadRequest not_bridge
  bad_used : IsBadRequest bridge_used
  bad_mac : IsBadRequest mac_address
  bad_wrapped : {message : Text} {e : Error} → IsBadRequest e → IsBadRequest (wrapped message e)

-- A request fails with the status "bad request" exactly if the error is, below any wrappings by
-- fmt.Errorf, one of the five that are the client's; with "internal server error" for all others.
pub err_to_status_iff :
    (e : Error)
    → ((err_to_status e ≡ 400) ↔ IsBadRequest e)
      × ((err_to_status e ≡ 500) ⊎ (err_to_status e ≡ 400))
unfolding err_to_status
err_to_status_iff e = ((forward e, backward), either e)
  where
    forward : (e : Error) → err_to_status e ≡ 400 → IsBadRequest e
    forward (wrapped message e) h = bad_wrapped (forward e h)
    forward ipam h = bad_ipam
    forward bridge_required h = bad_required
    forward not_bridge h = bad_not_bridge
    forward bridge_used h = bad_used
    forward mac_address h = bad_mac
    forward no_lease h = absurd (omega arith)
    forward no_hint h = absurd (omega arith)
    forward not_veth h = absurd (omega arith)
    forward no_container h = absurd (omega arith)
    forward no_sandbox h = absurd (omega arith)
    forward (other m) h = absurd (omega arith)
    forward (generation m) h = absurd (omega arith)
    forward (caching m) h = absurd (omega arith)

    backward : {e : Error} → IsBadRequest e → err_to_status e ≡ 400
    backward bad_ipam = refl
    backward bad_required = refl
    backward bad_not_bridge = refl
    backward bad_used = refl
    backward bad_mac = refl
    backward (bad_wrapped b) = backward b

    either : (e : Error) → (err_to_status e ≡ 500) ⊎ (err_to_status e ≡ 400)
    either (wrapped message e) = either e
    either ipam = inr refl
    either bridge_required = inr refl
    either not_bridge = inr refl
    either bridge_used = inr refl
    either mac_address = inr refl
    either no_lease = inl refl
    either no_hint = inl refl
    either not_veth = inl refl
    either no_container = inl refl
    either no_sandbox = inl refl
    either (other m) = inl refl
    either (generation m) = inl refl
    either (caching m) = inl refl
