-- ===== src/SkillsRegistry/Sha256.antt =====
-- The hasher `Sha256` of crates/ughi-skills-registry/src/integrity.rs. A byte is a number below 256
-- and a `u32` word one below 2 ^ 32. Of the buffer, `buffer` holds the first `buffer_len` bytes: those
-- after them are always written before they are read.
use ughi.Prelude.{
  ℕ, zero, suc, ◌+◌, ◌-◌, ◌*◌, ◌/◌, ◌%◌, min, String, str_append, Option, none, some, List, [], ◌∷◌,
  ◌++◌, leb, ◌==◌, if◌then◌else◌, u32, u64, length, take, drop,
}
use Prim.Native.Nat.{bit_and, bit_or, bit_xor}
pub mod Streaming
pub mod Padding
pub mod Tests

-- The working variables a to h; also the state.
pub record Words : Type 0 where
  pub a : ℕ
  pub b : ℕ
  pub c : ℕ
  pub d : ℕ
  pub e : ℕ
  pub f : ℕ
  pub g : ℕ
  pub h : ℕ

pub record Sha256 : Type 0 where
  pub state : Words
  pub buffer : List ℕ
  pub total_len : ℕ

unfoldable pub k_table : List ℕ
k_table =
    0x428a2f98 ∷ 0x71374491 ∷ 0xb5c0fbcf ∷ 0xe9b5dba5 ∷ 0x3956c25b ∷ 0x59f111f1 ∷ 0x923f82a4
    ∷ 0xab1c5ed5 ∷ 0xd807aa98 ∷ 0x12835b01 ∷ 0x243185be ∷ 0x550c7dc3 ∷ 0x72be5d74 ∷ 0x80deb1fe
    ∷ 0x9bdc06a7 ∷ 0xc19bf174 ∷ 0xe49b69c1 ∷ 0xefbe4786 ∷ 0x0fc19dc6 ∷ 0x240ca1cc ∷ 0x2de92c6f
    ∷ 0x4a7484aa ∷ 0x5cb0a9dc ∷ 0x76f988da ∷ 0x983e5152 ∷ 0xa831c66d ∷ 0xb00327c8 ∷ 0xbf597fc7
    ∷ 0xc6e00bf3 ∷ 0xd5a79147 ∷ 0x06ca6351 ∷ 0x14292967 ∷ 0x27b70a85 ∷ 0x2e1b2138 ∷ 0x4d2c6dfc
    ∷ 0x53380d13 ∷ 0x650a7354 ∷ 0x766a0abb ∷ 0x81c2c92e ∷ 0x92722c85 ∷ 0xa2bfe8a1 ∷ 0xa81a664b
    ∷ 0xc24b8b70 ∷ 0xc76c51a3 ∷ 0xd192e819 ∷ 0xd6990624 ∷ 0xf40e3585 ∷ 0x106aa070 ∷ 0x19a4c116
    ∷ 0x1e376c08 ∷ 0x2748774c ∷ 0x34b0bcb5 ∷ 0x391c0cb3 ∷ 0x4ed8aa4a ∷ 0x5b9cca4f ∷ 0x682e6ff3
    ∷ 0x748f82ee ∷ 0x78a5636f ∷ 0x84c87814 ∷ 0x8cc70208 ∷ 0x90befffa ∷ 0xa4506ceb ∷ 0xbef9a3f7
    ∷ 0xc67178f2 ∷ []

unfoldable pub new : Sha256
new = record {
  state = record {
    a = 0x6a09e667;
    b = 0xbb67ae85;
    c = 0x3c6ef372;
    d = 0xa54ff53a;
    e = 0x510e527f;
    f = 0x9b05688c;
    g = 0x1f83d9ab;
    h = 0x5be0cd19;
  };
  buffer = [];
  total_len = 0;
}

-- `w.rotate_right(n)` for the divisor 2 ^ n and the factor 2 ^ (32 - n), and `a ^ b ^ c`.
abbrev rotate : ℕ → ℕ → ℕ → ℕ
rotate divisor factor w = bit_or (w / divisor) (u32 (w * factor))

abbrev xor3 : ℕ → ℕ → ℕ → ℕ
xor3 a b c = bit_xor (bit_xor a b) c

-- `from_be_bytes` of the first sixteen words of a block.
unfoldable pub block_words : ℕ → List ℕ → List ℕ
block_words zero bytes = []
block_words (suc n) (b0 ∷ b1 ∷ b2 ∷ b3 ∷ bytes) =
    (b0 * 16777216 + b1 * 65536 + b2 * 256 + b3) ∷ block_words n bytes
block_words (suc n) bytes = []

abbrev at : List ℕ → ℕ → ℕ
at [] i = 0
at (x ∷ xs) zero = x
at (x ∷ xs) (suc i) = at xs i

-- The words `w[i]` for the next n values of i.
unfoldable pub schedule : ℕ → ℕ → List ℕ → List ℕ
schedule zero i w = w
schedule (suc n) i w =
    let w15 = at w (i - 15) in
    let w2 = at w (i - 2) in
    let s0 = xor3 (rotate 128 33554432 w15) (rotate 262144 16384 w15) (w15 / 8) in
    let s1 = xor3 (rotate 131072 32768 w2) (rotate 524288 8192 w2) (w2 / 1024) in
    schedule n (i + 1) (w ++ (u32 (at w (i - 16) + s0 + at w (i - 7) + s1) ∷ []))

-- One round, with `K[i]` and `w[i]`.
unfoldable pub round : Words → ℕ → ℕ → Words
round v k w =
    let s1 = xor3 (rotate 64 67108864 v.e) (rotate 2048 2097152 v.e) (rotate 33554432 128 v.e) in
    let ch = bit_xor (bit_and v.e v.f) (bit_and (4294967295 - v.e) v.g) in
    let temp1 = u32 (v.h + s1 + ch + k + w) in
    let s0 = xor3 (rotate 4 1073741824 v.a) (rotate 8192 524288 v.a) (rotate 4194304 1024 v.a) in
    let maj = xor3 (bit_and v.a v.b) (bit_and v.a v.c) (bit_and v.b v.c) in
    let temp2 = u32 (s0 + maj) in
    record {
      a = u32 (temp1 + temp2);
      b = v.a;
      c = v.b;
      d = v.c;
      e = u32 (v.d + temp1);
      f = v.e;
      g = v.f;
      h = v.g;
    }

unfoldable pub rounds : List ℕ → List ℕ → Words → Words
rounds [] ws v = v
rounds (k ∷ ks) [] v = v
rounds (k ∷ ks) (w ∷ ws) v = rounds ks ws (round v k w)

unfoldable pub compress : Words → List ℕ → Words
unfolding k_table
compress s block =
    let v = rounds k_table (schedule 48 16 (block_words 16 block)) s in
    record {
      a = u32 (s.a + v.a);
      b = u32 (s.b + v.b);
      c = u32 (s.c + v.c);
      d = u32 (s.d + v.d);
      e = u32 (s.e + v.e);
      f = u32 (s.f + v.f);
      g = u32 (s.g + v.g);
      h = u32 (s.h + v.h);
    }

-- `self.compress(&block); self.buffer_len = 0`
unfoldable pub flush : Sha256 → Sha256
flush s = record s { state = compress s.state s.buffer; buffer = [] }

-- The loop of `update`, on the bytes from `i` on; each turn takes one byte or more.
unfoldable pub update_loop : ℕ → Sha256 → List ℕ → Sha256
update_loop zero s rest = s
update_loop (suc n) s [] = s
update_loop (suc n) s (byte ∷ bytes) =
    let rest = byte ∷ bytes in
    let count = min (64 - length s.buffer) (length rest) in
    let s1 = record s { buffer = s.buffer ++ take count rest } in
    let s2 = if length s1.buffer == 64 then flush s1 else s1 in update_loop n s2 (drop count rest)

unfoldable pub update : Sha256 → List ℕ → Sha256
update s bytes =
    update_loop (length bytes) (record s { total_len = u64 (s.total_len + length bytes) }) bytes

-- The loop `while self.buffer_len != 56`; `none` if it has not ended after n turns.
unfoldable pub pad_loop : ℕ → Sha256 → Option Sha256
pad_loop zero s = if length s.buffer == 56 then some s else none
pad_loop (suc n) s =
    let s1 = if leb 64 (length s.buffer) then flush s else s in
    let rest = pad_loop n (record s1 { buffer = s1.buffer ++ (0 ∷ []) }) in
    if length s.buffer == 56 then some s else rest

-- `to_be_bytes` of a `u64`
unfoldable pub be_bytes : ℕ → List ℕ
be_bytes n =
    (n / 72057594037927936 % 256)
    ∷ (n / 281474976710656 % 256)
    ∷ (n / 1099511627776 % 256)
    ∷ (n / 4294967296 % 256)
    ∷ (n / 16777216 % 256)
    ∷ (n / 65536 % 256)
    ∷ (n / 256 % 256)
    ∷ (n % 256)
    ∷ []

abbrev pub hex_digits : List String
hex_digits =
    "0" ∷ "1" ∷ "2" ∷ "3" ∷ "4" ∷ "5" ∷ "6" ∷ "7" ∷ "8" ∷ "9" ∷ "a" ∷ "b" ∷ "c" ∷ "d" ∷ "e" ∷ "f"
    ∷ []

abbrev pub nth_digit : List String → ℕ → String
nth_digit [] n = "0"
nth_digit (d ∷ ds) zero = d
nth_digit (d ∷ ds) (suc n) = nth_digit ds n

-- The last digits of a number in base 16, as many as asked for; `{:08x}` of a `u32` is the last eight.
unfoldable pub hex : ℕ → ℕ → String
hex zero n = ""
hex (suc count) n = str_append (hex count (n / 16)) (nth_digit hex_digits (n % 16))

unfoldable pub digest : Words → String
digest v = str_append (hex 8 v.a) (
    str_append (hex 8 v.b) (
      str_append (hex 8 v.c) (
        str_append (hex 8 v.d)
          (str_append (hex 8 v.e) (str_append (hex 8 v.f) (str_append (hex 8 v.g) (hex 8 v.h)))))))

-- The padding takes at most 63 zeros, so 64 turns of its loop are enough.
unfoldable pub finalize : Sha256 → Option String
finalize s =
    let bit_len = u64 (s.total_len * 8) in
    elim (pad_loop 64 (update s (128 ∷ []))) [
      | none ↦ none
      | some padded ↦ some (digest (compress padded.state (padded.buffer ++ be_bytes bit_len)))
    ]

unfoldable pub sha256_hex : List ℕ → Option String
unfolding new
sha256_hex bytes = finalize (update new bytes)
