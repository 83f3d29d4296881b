-- ===== src/Macgen/Md5.antt =====
-- crypto/md5 of Go's standard library (RFC 1321), which pkg/macgen/macgen.go calls as `md5.Sum`.
use Prim.Native.Nat.{bit_and, bit_or, bit_xor}
use docker_net_dhcp.Shared.{
  ℕ, zero, suc, ◌+◌, ◌-◌, ◌*◌, ◌/◌, ◌%◌, ◌^◌, ◌<◌, ◌≡◌, refl, List, [], ◌∷◌, ◌++◌, arith, ltb,
  if◌then◌else◌, length, take, drop, get_or, All,
}
use docker_net_dhcp.Shared.Text.{Text, text}

abbrev word_mod : ℕ
word_mod = 2 ^ 32

add32 : ℕ → ℕ → ℕ
add32 a b = (a + b) % word_mod

complement : ℕ → ℕ
complement a = word_mod - 1 - a

rotate_left : ℕ → ℕ → ℕ
rotate_left x s = (x * 2 ^ s) % word_mod + x / 2 ^ (32 - s)

abbrev sines : List ℕ
sines =
    0xd76aa478 ∷ 0xe8c7b756 ∷ 0x242070db ∷ 0xc1bdceee ∷ 0xf57c0faf ∷ 0x4787c62a ∷ 0xa8304613
    ∷ 0xfd469501 ∷ 0x698098d8 ∷ 0x8b44f7af ∷ 0xffff5bb1 ∷ 0x895cd7be ∷ 0x6b901122 ∷ 0xfd987193
    ∷ 0xa679438e ∷ 0x49b40821 ∷ 0xf61e2562 ∷ 0xc040b340 ∷ 0x265e5a51 ∷ 0xe9b6c7aa ∷ 0xd62f105d
    ∷ 0x2441453 ∷ 0xd8a1e681 ∷ 0xe7d3fbc8 ∷ 0x21e1cde6 ∷ 0xc33707d6 ∷ 0xf4d50d87 ∷ 0x455a14ed
    ∷ 0xa9e3e905 ∷ 0xfcefa3f8 ∷ 0x676f02d9 ∷ 0x8d2a4c8a ∷ 0xfffa3942 ∷ 0x8771f681 ∷ 0x6d9d6122
    ∷ 0xfde5380c ∷ 0xa4beea44 ∷ 0x4bdecfa9 ∷ 0xf6bb4b60 ∷ 0xbebfbc70 ∷ 0x289b7ec6 ∷ 0xeaa127fa
    ∷ 0xd4ef3085 ∷ 0x4881d05 ∷ 0xd9d4d039 ∷ 0xe6db99e5 ∷ 0x1fa27cf8 ∷ 0xc4ac5665 ∷ 0xf4292244
    ∷ 0x432aff97 ∷ 0xab9423a7 ∷ 0xfc93a039 ∷ 0x655b59c3 ∷ 0x8f0ccc92 ∷ 0xffeff47d ∷ 0x85845dd1
    ∷ 0x6fa87e4f ∷ 0xfe2ce6e0 ∷ 0xa3014314 ∷ 0x4e0811a1 ∷ 0xf7537e82 ∷ 0xbd3af235 ∷ 0x2ad7d2bb
    ∷ 0xeb86d391 ∷ []

abbrev shifts : List ℕ
shifts =
    7 ∷ 12 ∷ 17 ∷ 22 ∷ 7 ∷ 12 ∷ 17 ∷ 22 ∷ 7 ∷ 12 ∷ 17 ∷ 22 ∷ 7 ∷ 12 ∷ 17 ∷ 22 ∷ 5 ∷ 9 ∷ 14 ∷ 20 ∷ 5
    ∷ 9 ∷ 14 ∷ 20 ∷ 5 ∷ 9 ∷ 14 ∷ 20 ∷ 5 ∷ 9 ∷ 14 ∷ 20 ∷ 4 ∷ 11 ∷ 16 ∷ 23 ∷ 4 ∷ 11 ∷ 16 ∷ 23 ∷ 4 ∷ 11
    ∷ 16 ∷ 23 ∷ 4 ∷ 11 ∷ 16 ∷ 23 ∷ 6 ∷ 10 ∷ 15 ∷ 21 ∷ 6 ∷ 10 ∷ 15 ∷ 21 ∷ 6 ∷ 10 ∷ 15 ∷ 21 ∷ 6 ∷ 10
    ∷ 15 ∷ 21 ∷ []

pub record Digest : Type 0 where
  pub a : ℕ
  pub b : ℕ
  pub c : ℕ
  pub d : ℕ

-- the mixing function of round `i`, and the word of the block that the round takes
mix : ℕ → Digest → ℕ
mix i w =
    if ltb i 16
    then bit_or (bit_and w.b w.c) (bit_and (complement w.b) w.d)
    else if ltb i 32
    then bit_or (bit_and w.d w.b) (bit_and (complement w.d) w.c)
    else if ltb i 48
    then bit_xor (bit_xor w.b w.c) w.d
    else bit_xor w.c (bit_or w.b (complement w.d))

word_index : ℕ → ℕ
word_index i =
    if ltb i 16
    then i
    else if ltb i 32
    then (5 * i + 1) % 16
    else if ltb i 48
    then (3 * i + 5) % 16
    else (7 * i) % 16

step : List ℕ → ℕ → ℕ → ℕ → Digest → Digest
unfolding add32 complement rotate_left mix word_index
step block i sine shift w = record {
  a = w.d;
  b = add32 w.b (rotate_left f shift);
  c = w.b;
  d = w.c;
}
  where
    f : ℕ
    f = add32 (add32 (add32 (mix i w) w.a) sine) (get_or block (word_index i) 0)

rounds : List ℕ → ℕ → List ℕ → List ℕ → Digest → Digest
rounds block i (sine ∷ ks) (shift ∷ ss) w = rounds block (i + 1) ks ss (step block i sine shift w)
rounds block i _ _ w = w

word_bytes : ℕ → List ℕ
word_bytes x = (x % 256) ∷ (x / 256 % 256) ∷ (x / 65536 % 256) ∷ (x / 16777216 % 256) ∷ []

-- sixteen words of four bytes, the lowest byte first
words : ℕ → Text → List ℕ
words zero s = []
words (suc n) s =
    (get_or s 0 0 + 256 * get_or s 1 0 + 65536 * get_or s 2 0 + 16777216 * get_or s 3 0)
    ∷ words n (drop 4 s)

absorb : Text → Digest → Digest
unfolding rounds step words
absorb chunk w = record {
  a = add32 w.a v.a;
  b = add32 w.b v.b;
  c = add32 w.c v.c;
  d = add32 w.d v.d;
}
  where
    v : Digest
    v = rounds (words 16 chunk) 0 sines shifts w

blocks : ℕ → Text → Digest → Digest
blocks zero s w = w
blocks (suc n) s w = blocks n (drop 64 s) (absorb (take 64 s) w)

zeros : ℕ → List ℕ
zeros zero = []
zeros (suc n) = 0 ∷ zeros n

-- the message, the bit 1, zeros up to 56 bytes in the last block, and the length in bits
padded : Text → Text
unfolding zeros word_bytes
padded s =
    let n = length s in
    s
    ++ 0x80 ∷ zeros ((119 - n % 64) % 64)
    ++ word_bytes (8 * n % word_mod)
    ++ word_bytes (8 * n / word_mod)

digest_bytes : Digest → List ℕ
unfolding word_bytes
digest_bytes w = word_bytes w.a ++ word_bytes w.b ++ word_bytes w.c ++ word_bytes w.d

abbrev start : Digest
start = record { a = 0x67452301; b = 0xefcdab89; c = 0x98badcfe; d = 0x10325476 }

unfoldable pub md5 : Text → List ℕ
unfolding digest_bytes blocks absorb padded
md5 s = digest_bytes (blocks ((length s + 72) / 64) (padded s) start)

-- The sum has sixteen bytes.
pub length-md5 : (s : Text) → length (md5 s) ≡ 16
unfolding digest_bytes word_bytes md5
length-md5 s = refl

pub md5-IsBytes : (s : Text) → All (λ b. b < 256) (md5 s)
unfolding digest_bytes word_bytes md5
md5-IsBytes s = omega arith

sum_of_test : take 6 (md5 (text "test")) ≡ 0x09 ∷ 0x8f ∷ 0x6b ∷ 0xcd ∷ 0x46 ∷ 0x21 ∷ []
unfolding md5
sum_of_test = refl
