-- ===== src/Udhcpc/Handler/Reach.antt =====
-- From udhcpc to the plugin: the runs of cmd/udhcpc-handler/main.go for the events of one udhcpc, and
-- what GetIP of pkg/udhcpc/client.go makes of their output.
use docker_net_dhcp.Shared.{
  List, [], ◌∷◌, ◌++◌, Bool, true, false, ◌||◌, Option, none, some, if◌then◌else◌, ◌≡◌, ◌⊎◌, inl,
  inr, refl, ap, ◌∙◌, arith, All, Option-cases,
}
use docker_net_dhcp.Shared.Text.{Text, text, is_empty, str_eq, str_eq_iff}
use docker_net_dhcp.Shared.Dict
use docker_net_dhcp.Shared.Dict.{Dict}
use docker_net_dhcp.Shared.Result.{ok}
use docker_net_dhcp.Udhcpc.{Event, Info, ClientOptions, Process, carries_lease, events_of, get_ip}
use docker_net_dhcp.Udhcpc.Lease.{IsRun, get_ip_iff, lines_of, written, events_of-written}
use docker_net_dhcp.Udhcpc.Handler.{Machine, v4_info, getenv, handle}
use docker_net_dhcp.Udhcpc.Handler.Run.{wrote, collided, silent, handle-MayEnd, handle_v4}

-- an event of udhcpc, with the environment that it gives to the handler, and the machine then
pub record Call : Type 0 where
  pub machine : Machine
  pub env : Dict Text
  pub kind : Text

-- a run without an event writes no document
abbrev pub outputs : List Call → List (Option Event)
outputs [] = []
outputs (c ∷ calls) = (handle c.machine c.env c.kind).written ∷ outputs calls

abbrev pub is_lease_kind : Text → Bool
is_lease_kind kind = str_eq kind (text "bound") || str_eq kind (text "renew")

written-append :
    (out rest : List (Option Event)) → written (out ++ rest) ≡ written out ++ written rest
written-append [] rest = refl
written-append (none ∷ out) rest = written-append out rest
written-append (some e ∷ out) rest = ap (λ t. e ∷ t) (written-append out rest)

outputs-append :
    (before after : List Call) → outputs (before ++ after) ≡ outputs before ++ outputs after
outputs-append [] after = refl
outputs-append (c ∷ before) after =
    ap (λ t. (handle c.machine c.env c.kind).written ∷ t) (outputs-append before after)

-- a run for an event without a lease writes none
bare_written :
    (c : Call) (e : Event)
    → is_lease_kind c.kind ≡ false
    → (handle c.machine c.env c.kind).written ≡ some e
    → carries_lease e ≡ false
bare_written c e bare h = elim (handle-MayEnd c.machine c.env c.kind) [
  | wrote info w z ↦
      let same : e ≡ record { kind = c.kind; data_of = info } = cc in ap carries_lease same ∙ bare
  | collided info b w z ↦ absurd (ground (arith, b, str_eq_iff c.kind (text "bound"), bare))
  | silent w ↦ absurd (cc (rw w at h))
]

outputs-bare :
    (after : List Call)
    → All (λ c. is_lease_kind c.kind ≡ false) after
    → All (λ e. carries_lease e ≡ false) (written (outputs after))
outputs-bare [] h = tt
outputs-bare (c ∷ after) h = elim (Option-cases (handle c.machine c.env c.kind).written) [
  | inl w ↦ rw w (outputs-bare after h.1)
  | inr (e, w) ↦ rw w (bare_written c e h.0 w, outputs-bare after h.1)
]

kinds : (kind : Text) → is_lease_kind kind ≡ true → (kind ≡ text "bound") ⊎ (kind ≡ text "renew")
kinds kind h = ground (arith, h, str_eq_iff kind (text "bound"), str_eq_iff kind (text "renew"))

-- the value of a variable, or "" if it is not set
abbrev pub or_empty : Option Text → Text
or_empty none = []
or_empty (some v) = v

-- the lease that the environment of a run for an IPv4 address tells: the mask is that of a network of
-- 256 addresses where the variable is empty or not set
abbrev pub lease_of : Dict Text → Info
lease_of env = record {
  ip =
      or_empty (Dict.get (text "ip") env)
      ++ (b'/'
          ∷ (if is_empty (or_empty (Dict.get (text "mask") env))
              then text "255.255.255.0"
              else or_empty (Dict.get (text "mask") env)));
  gateway = or_empty (Dict.get (text "router") env);
  domain = or_empty (Dict.get (text "domain") env);
}

getenv-or_empty : (env : Dict Text) (k : Text) → getenv env k ≡ or_empty (Dict.get k env)
getenv-or_empty env k = refl

pub v4_info-lease_of : (env : Dict Text) → v4_info env ≡ lease_of env
v4_info-lease_of env =
    rw
      (
        getenv-or_empty env (text "ip"),
        getenv-or_empty env (text "mask"),
        getenv-or_empty env (text "router"),
        getenv-or_empty env (text "domain"),
      )
      refl

pub get_ip-handle :
    (p : Process) (iface : Text) (opts : ClientOptions) (before after : List Call) (c : Call)
    → IsRun p
    → p.lines ≡ lines_of (outputs (before ++ c ∷ after))
    → is_lease_kind c.kind ≡ true
    → Dict.get (text "ipv6") c.env ≡ none
    → c.machine.writable ≡ true
    → All (λ d. is_lease_kind d.kind ≡ false) after
    → get_ip p iface opts ≡ ok (lease_of c.env)
get_ip-handle p iface opts before after c run lines lease no_v6 writable bare =
    let e : Event = record { kind = c.kind; data_of = lease_of c.env } in
    let wrote_it : (handle c.machine c.env c.kind).written ≡ some e =
      ap (λ o. o.written) (handle_v4 c.machine c.env c.kind (kinds c.kind lease) no_v6)
      ∙ rw (writable, v4_info-lease_of c.env) refl in
    (get_ip_iff p iface opts (lease_of c.env)).1 (
      run,
      record {
        before = written (outputs before);
        event = e;
        after = written (outputs after);
        parts =
            ap events_of lines
            ∙ (events_of-written (outputs (before ++ c ∷ after))
                ∙ (ap written (outputs-append before (c ∷ after))
                    ∙ (written-append (outputs before) (outputs (c ∷ after))
                        ∙ ap (λ o. written (outputs before) ++ written (o ∷ outputs after))
                            wrote_it)));
        leased = lease;
        informs = refl;
        final = outputs-bare after bare;
      },
    )
