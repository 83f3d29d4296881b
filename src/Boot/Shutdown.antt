-- ===== src/Boot/Shutdown.antt =====
-- The end of the plugin's process on a signal (main of cmd/net-dhcp/main.go).
use docker_net_dhcp.Shared.{
  List, [], ◌∷◌, ◌++◌, Bool, true, false, none, some, ◌≡◌, ◌↔◌, refl, ap, sym, ◌∙◌, All,
}
use docker_net_dhcp.Shared.Text.{Text}
use docker_net_dhcp.Cache.Disk.{Disk}
use docker_net_dhcp.Errors.{Error}
use docker_net_dhcp.Boot.{
  Occurrence, signal, listened, closed, closing, failed, returned, run_from, new_plugin, run,
  Setting,
}

abbrev pub is_signal : Occurrence → Bool
is_signal signal = true
is_signal (listened e) = false
is_signal (closed e) = false

-- Close ends without an error, after nothing but further signals
pub record IsClosed (os : List Occurrence) : Type 0 where
  pub between : List Occurrence
  pub after : List Occurrence
  pub parts : os ≡ between ++ closed none ∷ after
  pub signals : All (λ o. is_signal o ≡ true) between

run_from-failed :
    (message : Text) (e : Error) (os : List Occurrence)
    → run_from (failed message e) os ≡ failed message e
unfolding run_from
run_from-failed message e [] = refl
run_from-failed message e (o ∷ os) = run_from-failed message e os

run_from-returned : (os : List Occurrence) → run_from returned os ≡ returned
unfolding run_from
run_from-returned [] = refl
run_from-returned (o ∷ os) = run_from-returned os

IsClosed-run_from : (os : List Occurrence) → run_from closing os ≡ returned → IsClosed os
unfolding run_from
IsClosed-run_from [] h = absurd cc
IsClosed-run_from (signal ∷ os) h =
    let c = IsClosed-run_from os h in
    record {
      between = signal ∷ c.between;
      after = c.after;
      parts = ap (λ l. signal ∷ l) c.parts;
      signals = (refl, c.signals);
    }
IsClosed-run_from (listened e ∷ os) h = absurd (cc (rw (run_from-failed _ e os) at h))
IsClosed-run_from (closed none ∷ os) h = record {
  between = [];
  after = os;
  parts = refl;
  signals = tt;
}
IsClosed-run_from (closed (some e) ∷ os) h = absurd (cc (rw (run_from-failed _ e os) at h))

run_from-IsClosed :
    (between after : List Occurrence)
    → All (λ o. is_signal o ≡ true) between
    → run_from closing (between ++ closed none ∷ after) ≡ returned
unfolding run_from
run_from-IsClosed [] after h = run_from-returned after
run_from-IsClosed (signal ∷ between) after h = run_from-IsClosed between after h.1
run_from-IsClosed (listened e ∷ between) after h = absurd (cc h.0)
run_from-IsClosed (closed e ∷ between) after h = absurd (cc h.0)

-- After a signal, `main` returns exactly if Close ends without an error after nothing but further
-- signals: if Listen returns before that, as it does once Close has closed the server, the process
-- fails instead. This is for a plugin that could be made and a signal that comes first.
pub run_returned_iff :
    (s : Setting) (d : Disk) (os : List Occurrence)
    → s.client_error ≡ none
    → ((run s d (signal ∷ os) ≡ returned) ↔ IsClosed os)
unfolding run new_plugin run_from
run_returned_iff s d os made =
    let start : run s d (signal ∷ os) ≡ run_from closing os = rw (made, run, new_plugin) refl in
    (
      λ h. IsClosed-run_from os (sym start ∙ h),
      λ c. start ∙ (ap (run_from closing) c.parts ∙ run_from-IsClosed c.between c.after c.signals),
    )
