-- ===== src/DhcpManager/Renewal.antt =====
-- The renewals of pkg/plugin/dhcp_manager.go: which addresses the manager and the interface have.
use docker_net_dhcp.Shared.{
  List, [], ◌∷◌, Bool, true, false, not, Option, none, some, if◌then◌else◌, ◌≡◌, refl, ◌∙◌, ap,
  arith, inl, inr, Bool-cases, Option-cases,
}
use docker_net_dhcp.Shared.Text.{Text}
use docker_net_dhcp.Plugin.{Manager}
use docker_net_dhcp.Udhcpc.{Info, Event}
use docker_net_dhcp.DhcpManager.{
  Kernel, Progress, last_of, renew, is_lease, process_event, process_events,
}

-- the last address of a family after a lease, which counts if it parses
abbrev pub renewed : Kernel → Info → Option Text → Option Text
renewed k info last = elim (k.parse_addr info.ip) [ none ↦ last | some ip ↦ some ip ]

-- the last address after some events: that of the last lease whose address parses
abbrev pub leased : Kernel → List Event → Option Text → Option Text
leased k [] last = last
leased k (e ∷ es) last = leased k es (if is_lease e then renewed k e.data_of last else last)

last_of-renew :
    (k : Kernel) (v6 : Bool) (info : Info) (m : Manager)
    → (last_of v6 (renew k v6 info m).0 ≡ renewed k info (last_of v6 m))
      × (last_of (not v6) (renew k v6 info m).0 ≡ last_of (not v6) m)
unfolding renew
last_of-renew k true info m = elim (Option-cases (k.parse_addr info.ip)) [
  | inl h ↦ ground (arith, h)
  | inr (ip, h) ↦ ground (arith, h)
]
last_of-renew k false info m = elim (Option-cases (k.parse_addr info.ip)) [
  | inl h ↦ ground (arith, h)
  | inr (ip, h) ↦ ground (arith, h)
]

manager_step :
    (k : Kernel) (v6 : Bool) (e : Event) (s : Progress)
    → (process_event k v6 e s).manager
      ≡ (if is_lease e then (renew k v6 e.data_of s.manager).0 else s.manager)
unfolding process_event
manager_step k v6 e s = ground arith

last_of-process_event :
    (k : Kernel) (v6 : Bool) (e : Event) (s : Progress)
    → (last_of v6 (process_event k v6 e s).manager
        ≡ (if is_lease e then renewed k e.data_of (last_of v6 s.manager) else last_of v6 s.manager))
      × (last_of (not v6) (process_event k v6 e s).manager ≡ last_of (not v6) s.manager)
last_of-process_event k v6 e s = elim (Bool-cases (is_lease e)) [
  | inl h ↦
      let stepped : (process_event k v6 e s).manager ≡ (renew k v6 e.data_of s.manager).0 =
        manager_step k v6 e s ∙ rw h refl in
      let renewal = last_of-renew k v6 e.data_of s.manager in
      (rw h (ap (last_of v6) stepped ∙ renewal.0), ap (last_of (not v6)) stepped ∙ renewal.1)
  | inr h ↦
      let stepped : (process_event k v6 e s).manager ≡ s.manager =
        manager_step k v6 e s ∙ rw h refl in
      (rw h (ap (last_of v6) stepped), ap (last_of (not v6)) stepped)
]

-- After any events, the address that the manager has for the family of its client is that of the last
-- lease whose address parses, or the one from before; the other family's address is untouched.
pub last_of-process_events :
    (k : Kernel) (v6 : Bool) (es : List Event) (s : Progress)
    → (last_of v6 (process_events k v6 es s).manager ≡ leased k es (last_of v6 s.manager))
      × (last_of (not v6) (process_events k v6 es s).manager ≡ last_of (not v6) s.manager)
unfolding process_events
last_of-process_events k v6 [] s = (refl, refl)
last_of-process_events k v6 (e ∷ es) s =
    let t = process_event k v6 e s in
    let one = last_of-process_event k v6 e s in
    let more = last_of-process_events k v6 es t in (more.0 ∙ ap (leased k es) one.0, more.1 ∙ one.1)
