-- ===== src/Udhcpc/Handler/Run.antt =====
-- The runs of cmd/udhcpc-handler/main.go, and what of them reaches the plugin.
use docker_net_dhcp.Shared.{
  ℕ, zero, suc, List, [], ◌++◌, take, true, false, ◌||◌, none, some, ◌≡◌, ◌⊎◌, inl, inr, refl,
  arith, Bool-cases, Option-cases, if-both,
}
use docker_net_dhcp.Shared.Text.{Text, text, str_eq, str_eq_iff, cut_prefix}
use docker_net_dhcp.Shared.Dict
use docker_net_dhcp.Shared.Dict.{Dict}
use docker_net_dhcp.Udhcpc.{no_info, Info}
use docker_net_dhcp.Udhcpc.Handler.{
  Machine, Output, is_packet_network, listens, has_conflict, send_garp, has_v6_conflict, v4_info,
  v4_lease, v6_lease, handle, getenv, is_plain, encoded, is_checked, collision,
}

listens_arp : (m : Machine) (iface : Text) → listens m (text "arp") iface ≡ false
unfolding listens is_packet_network str_eq cut_prefix
listens_arp m iface = refl

has_conflict_never : (m : Machine) (iface target : Text) → has_conflict m iface target ≡ ([], false)
unfolding has_conflict
has_conflict_never m iface target = ground (arith, listens_arp m iface)

send_garp_never : (m : Machine) (iface target : Text) → send_garp m iface target ≡ []
unfolding send_garp
send_garp_never m iface target = ground (arith, listens_arp m iface)

take_nothing : (n : ℕ) → take {A = List ℕ} n [] ≡ []
take_nothing zero = refl
take_nothing (suc n) = refl

v4_lease_lem :
    (m : Machine) (env : Dict Text) (kind : Text)
    → v4_lease m env kind ≡ encoded m (record { kind = kind; data_of = v4_info env }) []
unfolding v4_lease
v4_lease_lem m env kind = ground (
  arith,
  has_conflict_never m (getenv env (text "interface")) (getenv env (text "ip")),
  send_garp_never m (getenv env (text "interface")) (getenv env (text "ip")),
  take_nothing m.announced,
)

-- A run for a lease of an IPv4 address writes the lease, if it can write, whatever hosts answer to
-- its probes, and sends no frame at all, neither a probe nor an announcement: "arp" is not a network
-- that net.ListenPacket knows, so no connection is ever opened. This is for runs for "bound" or
-- "renew" without the variable that has an IPv6 address.
pub handle_v4 :
    (m : Machine) (env : Dict Text) (kind : Text)
    → (kind ≡ text "bound") ⊎ (kind ≡ text "renew")
    → Dict.get (text "ipv6") env ≡ none
    → handle m env kind ≡ encoded m (record { kind = kind; data_of = v4_info env }) []
unfolding handle
handle_v4 m env kind k no_v6 = ground (
  arith,
  k,
  no_v6,
  v4_lease_lem m env kind,
  str_eq_iff kind (text "bound"),
  str_eq_iff kind (text "renew"),
)

-- what a run for the type may write and end with
pub data MayEnd (kind : Text) (o : Output) : Type 0 where
  wrote :
      (info : Info)
      → o.written ≡ some (record { kind = kind; data_of = info })
      → o.code ≡ 0
      → MayEnd kind o
  collided :
      (info : Info)
      → kind ≡ text "bound"
      → o.written ≡ some (record { kind = text "collision"; data_of = info })
      → o.code ≡ 1
      → MayEnd kind o
  silent : o.written ≡ none → MayEnd kind o

encoded-MayEnd :
    (m : Machine) (kind : Text) (info : Info) (sent : List (List ℕ))
    → MayEnd kind (encoded m (record { kind = kind; data_of = info }) sent)
encoded-MayEnd m kind info sent = elim (Bool-cases m.writable) [
  | inl y ↦ wrote info (rw y refl) (rw y refl)
  | inr n ↦ silent (rw n refl)
]

collision-MayEnd :
    (m : Machine) (info : Info) (sent : List (List ℕ))
    → MayEnd (text "bound") (collision m info sent)
collision-MayEnd m info sent = elim (Bool-cases m.writable) [
  | inl y ↦ collided info refl (rw y refl) refl
  | inr n ↦ silent (rw n refl)
]

is_checked-bound :
    (env : Dict Text) (kind : Text) → is_checked env kind ≡ true → kind ≡ text "bound"
is_checked-bound env kind h = ground (arith, h, str_eq_iff kind (text "bound"))

v6_lease-MayEnd :
    (m : Machine) (env : Dict Text) (kind v6 : Text) → MayEnd kind (v6_lease m env kind v6)
unfolding v6_lease
v6_lease-MayEnd m env kind v6 = elim (Option-cases (m.parse_cidr (v6 ++ text "/128"))) [
  | inl h ↦
      rw (v6_lease, h)
        (if-both (MayEnd kind) (is_checked env kind) _ _ (silent refl) (encoded-MayEnd m kind _ []))
  | inr (net, h) ↦ elim (Bool-cases (is_checked env kind)) [
    | inl y ↦
        let bound : kind ≡ text "bound" = is_checked-bound env kind y in
        rw (v6_lease, h, y)
          (if-both (MayEnd kind) (has_v6_conflict m (getenv env (text "interface")) net.address) _ _
            (rw bound (collision-MayEnd m _ [])) (encoded-MayEnd m kind _ []))
    | inr n ↦ rw (v6_lease, h, n) (encoded-MayEnd m kind _ [])
  ]
]

-- A run writes at most one event. It has the type that udhcpc gave, and the program ends with exit
-- code 0; or, for the type "bound" alone, it is a collision, and the exit code is 1.
pub handle-MayEnd : (m : Machine) (env : Dict Text) (kind : Text) → MayEnd kind (handle m env kind)
unfolding handle
handle-MayEnd m env kind =
    elim (Bool-cases (str_eq kind (text "bound") || str_eq kind (text "renew"))) [
      | inl y ↦ elim (Option-cases (Dict.get (text "ipv6") env)) [
        | inl h ↦ rw (handle, y, h, v4_lease_lem m env kind) (encoded-MayEnd m kind _ [])
        | inr (v6, h) ↦ rw (handle, y, h) (v6_lease-MayEnd m env kind v6)
      ]
      | inr n ↦
          rw (handle, n)
            (if-both (MayEnd kind) (is_plain kind) _ _ (encoded-MayEnd m kind no_info [])
              (silent refl))
    ]
