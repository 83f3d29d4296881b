-- ===== src/Udhcpc/Lease.antt =====
-- pkg/udhcpc/client.go: which lease GetIP returns, what becomes of the lines in between, and which
-- signals the process gets.
use docker_net_dhcp.Shared.{
  List, [], ◌∷◌, ◌++◌, true, false, Option, none, some, ◌≡◌, ◌↔◌, ◌⊎◌, inl, inr, refl, ◌∙◌, ap,
  arith, All, Bool-cases, Option-cases,
}
use docker_net_dhcp.Shared.Text.{Text, str_eq}
use docker_net_dhcp.Shared.Result.{ok}
use docker_net_dhcp.Json.{Json}
use docker_net_dhcp.Json.Decode.{same_name, decode_string, decode_object, decode_fields}
use docker_net_dhcp.Errors.{Error}
use docker_net_dhcp.Udhcpc.{
  Info, Event, ClientOptions, Process, Wait, exited, overdue, carries_lease, last_info, events_of,
  encode_event, decode_event, event_field, info_field, get_ip, new_dhcp_client, start_client, reap,
}

-- `info` is the data of an event that has a lease, and no later one has
pub record IsLastLease (es : List Event) (info : Info) : Type 0 where
  pub before : List Event
  pub event : Event
  pub after : List Event
  pub parts : es ≡ before ++ event ∷ after
  pub leased : carries_lease event ≡ true
  pub informs : event.data_of ≡ info
  pub final : All (λ e. carries_lease e ≡ false) after

last_info-none :
    (es : List Event) (o : Option Info) → All (λ e. carries_lease e ≡ false) es → last_info es o ≡ o
unfolding last_info
last_info-none [] o h = refl
last_info-none (e ∷ es) o h = rw h.0 (last_info-none es o h.1)

last_info-append :
    (before after : List Event) (e : Event) (o : Option Info)
    → carries_lease e ≡ true
    → All (λ x. carries_lease x ≡ false) after
    → last_info (before ++ e ∷ after) o ≡ some e.data_of
unfolding last_info
last_info-append [] after e o h f = rw (last_info, h) (last_info-none after (some e.data_of) f)
last_info-append (x ∷ before) after e o h f = last_info-append before after e _ h f

later :
    {es : List Event} {info : Info} (e : Event) → IsLastLease es info → IsLastLease (e ∷ es) info
later e l = record {
  before = e ∷ l.before;
  event = l.event;
  after = l.after;
  parts = ap (λ t. e ∷ t) l.parts;
  leased = l.leased;
  informs = l.informs;
  final = l.final;
}

last_info-found :
    (es : List Event) (o : Option Info) (info : Info)
    → last_info es o ≡ some info
    → IsLastLease es info ⊎ (All (λ e. carries_lease e ≡ false) es × (o ≡ some info))
unfolding last_info
last_info-found [] o info h = inr (tt, h)
last_info-found (e ∷ es) o info h = elim (Bool-cases (carries_lease e)) [
  | inl leased ↦ elim (last_info-found es (some e.data_of) info (rw leased at h)) [
    | inl l ↦ inl (later e l)
    | inr (none_after, same) ↦ inl (record {
      before = [];
      event = e;
      after = es;
      parts = refl;
      leased = leased;
      informs = ground (arith, same);
      final = none_after;
    })
  ]
  | inr bare ↦ elim (last_info-found es o info (rw bare at h)) [
    | inl l ↦ inl (later e l)
    | inr (none_after, same) ↦ inr ((bare, none_after), same)
  ]
]

last_info_iff :
    (es : List Event) (info : Info) → (last_info es none ≡ some info) ↔ IsLastLease es info
last_info_iff es info = (forward, backward)
  where
    forward : last_info es none ≡ some info → IsLastLease es info
    forward h = elim (last_info-found es none info h) [
      | inl l ↦ l
      | inr (bare, nothing) ↦ absurd cc
    ]

    backward : IsLastLease es info → last_info es none ≡ some info
    backward l =
        rw l.parts (last_info-append l.before l.after l.event none l.leased l.final)
        ∙ ap some l.informs

-- the process could be started and ended by itself without an error
pub record IsRun (p : Process) : Type 0 where
  pub piped : p.stderr_pipe ≡ none
  pub readable : p.stdout_pipe ≡ none
  pub started : p.start ≡ none
  pub ended : p.wait ≡ exited none

get_ip-IsRun :
    (p : Process) (iface : Text) (opts : ClientOptions) (info : Info)
    → (get_ip p iface opts ≡ ok info) ↔ (IsRun p × (last_info (events_of p.lines) none ≡ some info))
unfolding get_ip new_dhcp_client start_client reap
get_ip-IsRun p iface opts info = (forward p.stderr_pipe p.stdout_pipe p.start p.wait, backward)
  where
    process : Option Error → Option Error → Option Error → Wait → Process
    process a b s w = record {
      stderr_pipe = a;
      stdout_pipe = b;
      start = s;
      lines = p.lines;
      wait = w;
    }

    forward :
        (a b s : Option Error) (w : Wait)
        → get_ip (process a b s w) iface opts ≡ ok info
        → IsRun (process a b s w) × (last_info (events_of p.lines) none ≡ some info)
    forward (some e) b s w h = absurd cc
    forward none (some e) s w h = absurd cc
    forward none none (some e) w h = absurd cc
    forward none none none (overdue e) h = absurd cc
    forward none none none (exited (some e)) h = absurd cc
    forward none none none (exited none) h =
        elim (Option-cases (last_info (events_of p.lines) none)) [
          | inl nothing ↦ absurd (cc (rw nothing at h))
          | inr (i, found) ↦ (
            record { piped = refl; readable = refl; started = refl; ended = refl },
            ground (arith, found, h),
          )
        ]

    backward :
        IsRun p × (last_info (events_of p.lines) none ≡ some info) → get_ip p iface opts ≡ ok info
    backward (run, found) = rw (run.piped, run.readable, run.started, run.ended, found) refl

-- GetIP returns a lease exactly if udhcpc could be started, has ended by itself before the context,
-- without an error, and this lease is that of the last of its events that have one: what comes after
-- it is neither "bound" nor "renew".
pub get_ip_iff :
    (p : Process) (iface : Text) (opts : ClientOptions) (info : Info)
    → (get_ip p iface opts ≡ ok info) ↔ (IsRun p × IsLastLease (events_of p.lines) info)
get_ip_iff p iface opts info =
    let (run, back) = get_ip-IsRun p iface opts info in
    let (found, given) = last_info_iff (events_of p.lines) info in
    (λ h. ((run h).0, found (run h).1), λ h. back (h.0, given h.1))

decode_event-encode : (e : Event) → decode_event (encode_event e) ≡ some e
unfolding decode_event encode_event event_field info_field decode_object decode_fields same_name
    decode_string str_eq
decode_event-encode e = refl

-- the lines of an output in which handlers wrote events, and others something that is no document
abbrev pub lines_of : List (Option Event) → List (Option Json)
lines_of [] = []
lines_of (none ∷ out) = none ∷ lines_of out
lines_of (some e ∷ out) = some (encode_event e) ∷ lines_of out

abbrev pub written : List (Option Event) → List Event
written [] = []
written (none ∷ out) = written out
written (some e ∷ out) = e ∷ written out

-- Every event that the handler writes reaches the plugin, with all its data and in the order of
-- the writing, whatever lines that are no documents stand between them.
pub events_of-written : (out : List (Option Event)) → events_of (lines_of out) ≡ written out
unfolding events_of
events_of-written [] = refl
events_of-written (none ∷ out) = events_of-written out
events_of-written (some e ∷ out) =
    rw (events_of, decode_event-encode e) (ap (λ t. e ∷ t) (events_of-written out))
