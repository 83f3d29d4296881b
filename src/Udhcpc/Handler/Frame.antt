-- ===== src/Udhcpc/Handler/Frame.antt =====
-- The ARP frames of cmd/udhcpc-handler/main.go, in bytes: the probe of hasConflict, the announcement of
-- sendGARP, and the test of a received frame.
use docker_net_dhcp.Shared.{
  ℕ, zero, suc, ◌+◌, ◌*◌, List, [], ◌∷◌, ◌++◌, Bool, true, false, not, ◌&&◌, ◌==◌, leb,
  if◌then◌else◌, length, get_or, slice,
}
use docker_net_dhcp.Shared.Text.{str_eq}

-- copy into n bytes that are 0
abbrev pub fill : ℕ → List ℕ → List ℕ
fill zero s = []
fill (suc n) [] = 0 ∷ fill n []
fill (suc n) (b ∷ s) = b ∷ fill n s

abbrev pub broadcast : List ℕ
broadcast = 255 ∷ 255 ∷ 255 ∷ 255 ∷ 255 ∷ 255 ∷ []

-- an ARP frame: Ethernet header, then hardware and protocol types, sizes, operation and addresses
unfoldable pub arp_frame : ℕ → List ℕ → List ℕ → List ℕ → List ℕ → List ℕ
arp_frame op mac sender target_mac target =
    broadcast
    ++ (fill 6 mac
        ++ (8 ∷ 6 ∷ 0 ∷ 1 ∷ 8 ∷ 0 ∷ 6 ∷ 4 ∷ 0 ∷ op ∷ []
            ++ (fill 6 mac ++ (fill 4 sender ++ (fill 6 target_mac ++ fill 4 target)))))

unfoldable pub probe_frame : List ℕ → List ℕ → List ℕ
unfolding arp_frame
probe_frame mac ip = arp_frame 1 mac (0 ∷ 0 ∷ 0 ∷ 0 ∷ []) (0 ∷ 0 ∷ 0 ∷ 0 ∷ 0 ∷ 0 ∷ []) ip

unfoldable pub garp_frame : List ℕ → List ℕ → List ℕ
unfolding arp_frame
garp_frame mac ip = arp_frame 2 mac ip broadcast ip

-- a received frame shows that another host has the address; two hardware addresses have the same
-- text exactly if they have the same bytes
unfoldable pub is_conflict : List ℕ → List ℕ → List ℕ → Bool
is_conflict mac ip buf =
    leb 42 (length buf)
    && ((get_or buf 12 0 == 8) && (get_or buf 13 0 == 6))
    && ((256 * get_or buf 20 0 + get_or buf 21 0 == 2)
        && (str_eq (slice buf 28 32) ip && not (str_eq (slice buf 22 28) mac)))

-- the loop on what is received until the deadline
unfoldable pub any_conflict : List ℕ → List ℕ → List (List ℕ) → Bool
unfolding is_conflict
any_conflict mac ip [] = false
any_conflict mac ip (buf ∷ more) =
    let rest = any_conflict mac ip more in if is_conflict mac ip buf then true else rest
