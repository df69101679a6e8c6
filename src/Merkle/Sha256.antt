-- ===== src/Merkle/Sha256.antt =====
-- Class SHA256. A byte is a number below 2^8 and a word one below 2^32; the fuel of `pad_zeros` is 64,
-- since the length modulo 64 takes each value within that many steps.
use Prim.Native.Nat.{bit_and, bit_or, bit_xor}
use awesome_dsa.Prelude.{
  ℕ, zero, suc, ◌+◌, ◌-◌, ◌*◌, ◌/◌, ◌%◌, ◌^◌, List, [], ◌∷◌, ◌++◌, length, get_or, drop, ◌==◌,
  if◌then◌else◌,
}

abbrev word : ℕ → ℕ
word x = x % 2 ^ 32

unfoldable pub rotr : ℕ → ℕ → ℕ
rotr x n = bit_or (x / 2 ^ n) (word (x * 2 ^ (32 - n)))

-- `~x` is 2^32 - 1 - x.
unfoldable pub ch : ℕ → ℕ → ℕ → ℕ
ch x y z = bit_xor (bit_and x y) (bit_and (0xffffffff - x) z)

unfoldable pub maj : ℕ → ℕ → ℕ → ℕ
maj x y z = bit_xor (bit_xor (bit_and x y) (bit_and x z)) (bit_and y z)

unfoldable pub sigma0 : ℕ → ℕ
unfolding rotr
sigma0 x = bit_xor (bit_xor (rotr x 2) (rotr x 13)) (rotr x 22)

unfoldable pub sigma1 : ℕ → ℕ
unfolding rotr
sigma1 x = bit_xor (bit_xor (rotr x 6) (rotr x 11)) (rotr x 25)

unfoldable pub gamma0 : ℕ → ℕ
unfolding rotr
gamma0 x = bit_xor (bit_xor (rotr x 7) (rotr x 18)) (x / 2 ^ 3)

unfoldable pub gamma1 : ℕ → ℕ
unfolding rotr
gamma1 x = bit_xor (bit_xor (rotr x 17) (rotr x 19)) (x / 2 ^ 10)

unfoldable pub round_constants : List ℕ
round_constants =
    0x428a2f98 ∷ 0x71374491 ∷ 0xb5c0fbcf ∷ 0xe9b5dba5 ∷ 0x3956c25b ∷ 0x59f111f1 ∷ 0x923f82a4
    ∷ 0xab1c5ed5 ∷ 0xd807aa98 ∷ 0x12835b01 ∷ 0x243185be ∷ 0x550c7dc3 ∷ 0x72be5d74 ∷ 0x80deb1fe
    ∷ 0x9bdc06a7 ∷ 0xc19bf174 ∷ 0xe49b69c1 ∷ 0xefbe4786 ∷ 0x0fc19dc6 ∷ 0x240ca1cc ∷ 0x2de92c6f
    ∷ 0x4a7484aa ∷ 0x5cb0a9dc ∷ 0x76f988da ∷ 0x983e5152 ∷ 0xa831c66d ∷ 0xb00327c8 ∷ 0xbf597fc7
    ∷ 0xc6e00bf3 ∷ 0xd5a79147 ∷ 0x06ca6351 ∷ 0x14292967 ∷ 0x27b70a85 ∷ 0x2e1b2138 ∷ 0x4d2c6dfc
    ∷ 0x53380d13 ∷ 0x650a7354 ∷ 0x766a0abb ∷ 0x81c2c92e ∷ 0x92722c85 ∷ 0xa2bfe8a1 ∷ 0xa81a664b
    ∷ 0xc24b8b70 ∷ 0xc76c51a3 ∷ 0xd192e819 ∷ 0xd6990624 ∷ 0xf40e3585 ∷ 0x106aa070 ∷ 0x19a4c116
    ∷ 0x1e376c08 ∷ 0x2748774c ∷ 0x34b0bcb5 ∷ 0x391c0cb3 ∷ 0x4ed8aa4a ∷ 0x5b9cca4f ∷ 0x682e6ff3
    ∷ 0x748f82ee ∷ 0x78a5636f ∷ 0x84c87814 ∷ 0x8cc70208 ∷ 0x90befffa ∷ 0xa4506ceb ∷ 0xbef9a3f7
    ∷ 0xc67178f2 ∷ []

-- The array `H`, and the variables `a` to `h` of the rounds.
pub record Words : Type 0 where
  pub a : ℕ
  pub b : ℕ
  pub c : ℕ
  pub d : ℕ
  pub e : ℕ
  pub f : ℕ
  pub g : ℕ
  pub h : ℕ

unfoldable pub initial : Words
initial = record {
  a = 0x6a09e667;
  b = 0xbb67ae85;
  c = 0x3c6ef372;
  d = 0xa54ff53a;
  e = 0x510e527f;
  f = 0x9b05688c;
  g = 0x1f83d9ab;
  h = 0x5be0cd19;
}

unfoldable pub pad_zeros : ℕ → List ℕ → List ℕ
pad_zeros zero padded = padded
pad_zeros (suc fuel) padded =
    let rest = pad_zeros fuel (padded ++ 0 ∷ []) in
    if length padded % 64 == 56 then padded else rest

-- The eight bytes of the length in bits, the first the highest.
unfoldable pub length_bytes : ℕ → ℕ → List ℕ
length_bytes zero bit_len = []
length_bytes (suc i) bit_len = (bit_len / 2 ^ (i * 8)) % 256 ∷ length_bytes i bit_len

unfoldable pub pad : List ℕ → List ℕ
unfolding pad_zeros length_bytes
pad content = pad_zeros 64 (content ++ 0x80 ∷ []) ++ length_bytes 8 (length content * 8)

-- `W[i]` to `W[15]`, from the bytes of the chunk.
unfoldable pub load_words : ℕ → ℕ → List ℕ → List ℕ
load_words zero i bytes = []
load_words (suc n) i bytes =
    bit_or
      (bit_or
        (bit_or (word (get_or bytes (i * 4) 0 * 2 ^ 24))
          (word (get_or bytes (i * 4 + 1) 0 * 2 ^ 16)))
        (word (get_or bytes (i * 4 + 2) 0 * 2 ^ 8)))
      (get_or bytes (i * 4 + 3) 0)
    ∷ load_words n (suc i) bytes

-- `W[i]` and those after it, for `n` places.
unfoldable pub extend_words : ℕ → ℕ → List ℕ → List ℕ
unfolding gamma0 gamma1
extend_words zero i w = w
extend_words (suc n) i w = extend_words n (suc i) (
    w
    ++ word (
        gamma1 (get_or w (i - 2) 0)
        + get_or w (i - 7) 0
        + gamma0 (get_or w (i - 15) 0)
        + get_or w (i - 16) 0)
      ∷ [])

-- The 64 rounds, along the constants and the words.
unfoldable pub rounds : List ℕ → List ℕ → Words → Words
unfolding sigma0 sigma1 ch maj
rounds [] ws s = s
rounds (k ∷ ks) [] s = s
rounds (k ∷ ks) (w ∷ ws) s =
    let t1 = word (s.h + sigma1 s.e + ch s.e s.f s.g + k + w) in
    let t2 = word (sigma0 s.a + maj s.a s.b s.c) in
    rounds ks ws (record {
      a = word (t1 + t2);
      b = s.a;
      c = s.b;
      d = s.c;
      e = word (s.d + t1);
      f = s.e;
      g = s.f;
      h = s.g;
    })

unfoldable pub add_words : Words → Words → Words
add_words s t = record {
  a = word (s.a + t.a);
  b = word (s.b + t.b);
  c = word (s.c + t.c);
  d = word (s.d + t.d);
  e = word (s.e + t.e);
  f = word (s.f + t.f);
  g = word (s.g + t.g);
  h = word (s.h + t.h);
}

-- The loop over the chunks, of which there are `n`.
unfoldable pub chunks : ℕ → List ℕ → Words → Words
unfolding load_words extend_words rounds add_words round_constants
chunks zero bytes s = s
chunks (suc n) bytes s =
    chunks n (drop 64 bytes)
      (add_words s (rounds round_constants (extend_words 48 16 (load_words 16 0 bytes)) s))

abbrev pub bytes_of : ℕ → List ℕ → List ℕ
bytes_of w rest =
    ((w / 2 ^ 24) % 256) ∷ ((w / 2 ^ 16) % 256) ∷ ((w / 2 ^ 8) % 256) ∷ (w % 256) ∷ rest

unfoldable pub hash : List ℕ → List ℕ
unfolding pad chunks initial
hash content =
    let padded = pad content in
    let s = chunks (length padded / 64) padded initial in
    bytes_of s.a (
      bytes_of s.b (
        bytes_of s.c (bytes_of s.d (bytes_of s.e (bytes_of s.f (bytes_of s.g (bytes_of s.h [])))))))
