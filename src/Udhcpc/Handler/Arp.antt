-- ===== src/Udhcpc/Handler/Arp.antt =====
-- The ARP frames of cmd/udhcpc-handler/main.go: how they are laid out, and which of them count as the
-- sign of another host.
use docker_net_dhcp.Shared.{
  ℕ, ◌≡◌, ◌≢◌, ◌↔◌, List, [], ◌∷◌, ◌++◌, true, false, refl, ap, arith, length, slice, get_or, inl,
  inr, Bool-cases, if-both,
}
use docker_net_dhcp.Shared.Text.{str_eq_iff}
use docker_net_dhcp.Udhcpc.Handler.Frame.{
  broadcast, arp_frame, probe_frame, garp_frame, is_conflict, any_conflict,
}

abbrev six_of : ℕ → ℕ → ℕ → ℕ → ℕ → ℕ → List ℕ
six_of a b c d e f = a ∷ b ∷ c ∷ d ∷ e ∷ f ∷ []

abbrev four_of : ℕ → ℕ → ℕ → ℕ → List ℕ
four_of a b c d = a ∷ b ∷ c ∷ d ∷ []

four :
    (P : List ℕ → Type 0)
    → ((a b c d : ℕ) → P (four_of a b c d))
    → (xs : List ℕ) → length xs ≡ 4
    → P xs
four P p [] h = absurd (omega arith)
four P p (a ∷ []) h = absurd (omega arith)
four P p (a ∷ b ∷ []) h = absurd (omega arith)
four P p (a ∷ b ∷ c ∷ []) h = absurd (omega arith)
four P p (a ∷ b ∷ c ∷ d ∷ []) h = p a b c d
four P p (a ∷ b ∷ c ∷ d ∷ e ∷ xs) h = absurd (omega arith)

six :
    (P : List ℕ → Type 0)
    → ((a b c d e f : ℕ) → P (six_of a b c d e f))
    → (xs : List ℕ) → length xs ≡ 6
    → P xs
six P p [] h = absurd (omega arith)
six P p (a ∷ []) h = absurd (omega arith)
six P p (a ∷ b ∷ xs) h = four (λ t. P (a ∷ b ∷ t)) (λ c d e f. p a b c d e f) xs (omega arith)

-- what a frame holds at the places where a reader looks
record Fields (op : ℕ) (mac sender target frame : List ℕ) : Type 0 where
  protocol : (get_or frame 12 0 ≡ 8) × (get_or frame 13 0 ≡ 6)
  operation : (get_or frame 20 0 ≡ 0) × (get_or frame 21 0 ≡ op)
  sender_mac : slice frame 22 28 ≡ mac
  sender_ip : slice frame 28 32 ≡ sender
  target_ip : slice frame 38 42 ≡ target
  size : length frame ≡ 42

arp_frame-Fields :
    (op : ℕ) (mac sender target_mac target : List ℕ)
    → length mac ≡ 6
    → length sender ≡ 4
    → length target_mac ≡ 6
    → length target ≡ 4
    → Fields op mac sender target (arp_frame op mac sender target_mac target)
unfolding arp_frame
arp_frame-Fields op mac sender target_mac target m s t g =
    six (λ mac. At mac sender target_mac target)
      (λ a b c d e f.
        six (λ target_mac. At (six_of a b c d e f) sender target_mac target)
          (λ a' b' c' d' e' f'.
            four (λ sender. At (six_of a b c d e f) sender (six_of a' b' c' d' e' f') target)
              (λ p q r s.
                four
                  (λ target.
                    At (six_of a b c d e f) (four_of p q r s) (six_of a' b' c' d' e' f') target)
                  (λ p' q' r' s'. record {
                    protocol = (refl, refl);
                    operation = (refl, refl);
                    sender_mac = refl;
                    sender_ip = refl;
                    target_ip = refl;
                    size = refl;
                  })
                  target g)
              sender s)
          target_mac t)
      mac m
  where
    At : List ℕ → List ℕ → List ℕ → List ℕ → Type 0
    At mac sender target_mac target =
        Fields op mac sender target (arp_frame op mac sender target_mac target)

is_conflict-Fields :
    (op : ℕ) (mac ip mac' sender target frame : List ℕ)
    → Fields op mac' sender target frame
    → (is_conflict mac ip frame ≡ true) ↔ ((op ≡ 2) × (sender ≡ ip) × (mac' ≢ mac))
unfolding is_conflict
is_conflict-Fields op mac ip mac' sender target frame f = ground (
  arith,
  f.protocol,
  f.operation,
  f.sender_mac,
  f.sender_ip,
  f.size,
  str_eq_iff sender ip,
  str_eq_iff mac' mac,
)

-- The announcement of a host is the sign of a conflict exactly for another host that claims the same
-- address, and a probe is so for no host, not even one that claims the same address. This is for a
-- sender whose hardware address has six bytes, and whose address has four.
pub is_conflict-garp :
    (mac ip mac' ip' : List ℕ)
    → length mac' ≡ 6
    → length ip' ≡ 4
    → ((is_conflict mac ip (garp_frame mac' ip') ≡ true) ↔ ((ip' ≡ ip) × (mac' ≢ mac)))
      × (is_conflict mac ip (probe_frame mac' ip') ≡ false)
unfolding garp_frame probe_frame
is_conflict-garp mac ip mac' ip' m i =
    let garp = arp_frame-Fields 2 mac' ip' broadcast ip' m i refl i in
    let probe = arp_frame-Fields 1 mac' (four_of 0 0 0 0) (six_of 0 0 0 0 0 0) ip' m refl refl i in
    let told = is_conflict-Fields 2 mac ip mac' ip' ip' _ garp in
    let asked = is_conflict-Fields 1 mac ip mac' (four_of 0 0 0 0) ip' _ probe in
    (
      (λ h. (let (two, same, another) = told.0 h in (same, another)), λ h. told.1 (refl, h.0, h.1)),
      elim (Bool-cases (is_conflict mac ip (probe_frame mac' ip'))) [
        | inl y ↦ absurd (omega (arith, (asked.0 y).0))
        | inr n ↦ n
      ],
    )

-- one of the frames counts as a sign
pub record HasSign (mac ip : List ℕ) (frames : List (List ℕ)) : Type 0 where
  pub before : List (List ℕ)
  pub frame : List ℕ
  pub after : List (List ℕ)
  pub parts : frames ≡ before ++ frame ∷ after
  pub sign : is_conflict mac ip frame ≡ true

any_conflict-append :
    (mac ip frame : List ℕ) (before after : List (List ℕ))
    → is_conflict mac ip frame ≡ true
    → any_conflict mac ip (before ++ frame ∷ after) ≡ true
unfolding any_conflict
any_conflict-append mac ip frame [] after h = rw (any_conflict, h) refl
any_conflict-append mac ip frame (b ∷ before) after h =
    if-both (λ x. x ≡ true) (is_conflict mac ip b) true _ refl
      (any_conflict-append mac ip frame before after h)

any_conflict-found :
    (mac ip : List ℕ) (frames : List (List ℕ))
    → any_conflict mac ip frames ≡ true
    → HasSign mac ip frames
unfolding any_conflict
any_conflict-found mac ip [] h = absurd cc
any_conflict-found mac ip (b ∷ frames) h = elim (Bool-cases (is_conflict mac ip b)) [
  | inl y ↦ record { before = []; frame = b; after = frames; parts = refl; sign = y }
  | inr n ↦
      let s = any_conflict-found mac ip frames (rw n at h) in
      record {
        before = b ∷ s.before;
        frame = s.frame;
        after = s.after;
        parts = ap (λ t. b ∷ t) s.parts;
        sign = s.sign;
      }
]

-- The wait for a sign of another host ends with a conflict exactly if one of the frames that come
-- until the deadline is such a sign, however many others come before it.
pub any_conflict_iff :
    (mac ip : List ℕ) (frames : List (List ℕ))
    → (any_conflict mac ip frames ≡ true) ↔ HasSign mac ip frames
any_conflict_iff mac ip frames = (
  any_conflict-found mac ip frames,
  λ s. rw s.parts (any_conflict-append mac ip s.frame s.before s.after s.sign),
)
