-- ===== src/Macgen/Derive.antt =====
-- What `generate` (pkg/macgen/macgen.go) derives from a seed, without the detour over hexadecimal
-- text, and when it fails.
use docker_net_dhcp.Shared.{
  ℕ, ◌≤◌, ◌<◌, ◌≡◌, ◌≢◌, refl, ◌∙◌, List, [], ◌∷◌, arith, false, ◌⊎◌, inl, inr, ◌↔◌, length, take,
  All,
}
use docker_net_dhcp.Shared.Text.{Text, is_empty, str_eq, str_eq_iff}
use docker_net_dhcp.Shared.Result.{ok, err}
use docker_net_dhcp.Macgen.Md5.{md5, length-md5, md5-IsBytes}
use docker_net_dhcp.Macgen.Hex.{hex_byte, encode_hex, parse_uint8-hex_byte}
use docker_net_dhcp.Macgen.{
  Format, Options, Error, empty_seed, unsupported_format, fill_bytes, format_mac, or_default,
  generate, join_bytes, join_dotted, format_colon, format_hyphen, format_dot,
}

-- 0x02, then the first five bytes of the sum
abbrev pub derived : Text → List ℕ
derived seed = 0x02 ∷ take 5 (md5 seed)

pub record FiveBytes (bs : List ℕ) : Type 0 where
  pub a : ℕ
  pub b : ℕ
  pub c : ℕ
  pub d : ℕ
  pub e : ℕ
  pub rest : List ℕ
  pub shape : bs ≡ a ∷ b ∷ c ∷ d ∷ e ∷ rest
  pub a_byte : a < 256
  pub b_byte : b < 256
  pub c_byte : c < 256
  pub d_byte : d < 256
  pub e_byte : e < 256

five_bytes : (bs : List ℕ) → 5 ≤ length bs → All (λ b. b < 256) bs → FiveBytes bs
five_bytes (a ∷ b ∷ c ∷ d ∷ e ∷ bs) n (ha, (hb, (hc, (hd, (he, h))))) = record {
  a = a;
  b = b;
  c = c;
  d = d;
  e = e;
  rest = bs;
  shape = refl;
  a_byte = ha;
  b_byte = hb;
  c_byte = hc;
  d_byte = hd;
  e_byte = he;
}
five_bytes [] n h = absurd (omega arith)
five_bytes (a ∷ []) n h = absurd (omega arith)
five_bytes (a ∷ b ∷ []) n h = absurd (omega arith)
five_bytes (a ∷ b ∷ c ∷ []) n h = absurd (omega arith)
five_bytes (a ∷ b ∷ c ∷ d ∷ []) n h = absurd (omega arith)

pub md5-FiveBytes : (seed : Text) → FiveBytes (md5 seed)
md5-FiveBytes seed = five_bytes (md5 seed) (omega (arith, length-md5 seed)) (md5-IsBytes seed)

fill_bytes-encode_hex :
    (bs : List ℕ)
    → FiveBytes bs
    → fill_bytes 5 1 (encode_hex bs) (0x02 ∷ 0 ∷ 0 ∷ 0 ∷ 0 ∷ 0 ∷ []) ≡ ok (0x02 ∷ take 5 bs)
unfolding fill_bytes encode_hex hex_byte
fill_bytes-encode_hex bs v =
    rw
      (
        v.shape,
        parse_uint8-hex_byte v.a v.a_byte,
        parse_uint8-hex_byte v.b v.b_byte,
        parse_uint8-hex_byte v.c v.c_byte,
        parse_uint8-hex_byte v.d v.d_byte,
        parse_uint8-hex_byte v.e v.e_byte,
      )
      refl

pub is_empty-eq-false : (s : Text) → s ≢ [] → is_empty s ≡ false
is_empty-eq-false [] h = absurd (h refl)
is_empty-eq-false (b ∷ s) h = refl

-- The address of a seed is 0x02 and the first five bytes of the MD5 sum of the seed, in the wanted
-- format: reading the bytes back from the hexadecimal text never fails.
pub generate-derived :
    (opts : Options)
    → opts.seed ≢ []
    → generate opts ≡ format_mac (or_default opts.format) (derived opts.seed)
unfolding generate
generate-derived opts h =
    rw (
      is_empty-eq-false opts.seed h,
      fill_bytes-encode_hex (md5 opts.seed) (md5-FiveBytes opts.seed),
    )

-- the formats that macgen.go names; the empty one stands for the colon format
abbrev pub IsSupported : Format → Type 0
IsSupported format =
    (format ≡ []) ⊎ ((format ≡ format_colon) ⊎ ((format ≡ format_hyphen) ⊎ (format ≡ format_dot)))

pub format_mac_supported :
    (format : Format) (m : List ℕ)
    → IsSupported format
    → (t : Text) × (format_mac (or_default format) m ≡ ok t)
unfolding format_mac str_eq
format_mac_supported format m (inl p) = rw p (join_bytes b':' m, refl)
format_mac_supported format m (inr (inl p)) = rw p (join_bytes b':' m, refl)
format_mac_supported format m (inr (inr (inl p))) = rw p (join_bytes b'-' m, refl)
format_mac_supported format m (inr (inr (inr p))) = rw p (join_dotted m, refl)

format_mac_unsupported :
    (format : Format) (m : List ℕ)
    → ¬ IsSupported format
    → format_mac (or_default format) m ≡ err (unsupported_format format)
unfolding format_mac
format_mac_unsupported [] m h = absurd (h (inl refl))
format_mac_unsupported (b ∷ s) m h = ground (
  arith,
  str_eq_iff (b ∷ s) format_colon,
  str_eq_iff (b ∷ s) format_hyphen,
  str_eq_iff (b ∷ s) format_dot,
  λ (p : (b ∷ s) ≡ format_colon). h (inr (inl p)),
  λ (p : (b ∷ s) ≡ format_hyphen). h (inr (inr (inl p))),
  λ (p : (b ∷ s) ≡ format_dot). h (inr (inr (inr p))),
)

-- `generate` fails exactly when the seed is empty or the format is none of "", "colon", "hyphen"
-- and "dot".
pub generate_fails_iff :
    (opts : Options)
    → ((e : Error) × (generate opts ≡ err e)) ↔ ((opts.seed ≡ []) ⊎ (¬ IsSupported opts.format))
generate_fails_iff opts = (λ (e, h). fails opts.seed opts.format e h, always opts.seed opts.format)
  where
    fails :
        (s f : Text) (e : Error)
        → generate (record { seed = s; format = f }) ≡ err e
        → (s ≡ []) ⊎ (¬ IsSupported f)
    fails [] f e h = inl refl
    fails (b ∷ s) f e h = inr λ supported.
        let (t, good) = format_mac_supported f (derived (b ∷ s)) supported in
        ground (arith, good, h, generate-derived (record { seed = b ∷ s; format = f }) (λ p. cc))

    always :
        (s f : Text)
        → (s ≡ []) ⊎ (¬ IsSupported f)
        → (e : Error) × (generate (record { seed = s; format = f }) ≡ err e)
    always [] f h = (empty_seed, unfold generate in refl)
    always (b ∷ s) f (inl p) = cc p
    always (b ∷ s) f (inr p) = (
      unsupported_format f,
      generate-derived (record { seed = b ∷ s; format = f }) (λ q. cc)
          ∙ format_mac_unsupported f (derived (b ∷ s)) p,
    )
