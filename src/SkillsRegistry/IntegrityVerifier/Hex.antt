-- ===== src/SkillsRegistry/IntegrityVerifier/Hex.antt =====
-- Digests are 64 hexadecimal digits.
use Prim.Native.String as NativeString
use Prim.Native.String.{len}
use text.Mathlib.TextPositions.{len-append}
use text.Mathlib.TextLemmas.{nil-append, cons-append}
use ughi.Prelude.{
  ℕ, zero, suc, ◌+◌, ◌/◌, ◌%◌, ◌≡◌, refl, ◌∙◌, String, str_append, true, ◌&&◌, List, [], ◌∷◌, arith,
  All,
}
use ughi.SkillsRegistry.Sha256.{Words, nth_digit, hex_digits, hex, digest}
use ughi.SkillsRegistry.Sha256.Padding.{sha256_hex-padded}
use ughi.SkillsRegistry.IntegrityVerifier.{is_hex_char, all_hex, hash_of}

all_hex-append : (s t : String) → all_hex (str_append s t) ≡ (all_hex s && all_hex t)
unfolding all_hex
all_hex-append NativeString.[] t = rw (nil-append t) refl
all_hex-append (NativeString.◌∷◌ c s) t =
    rw (cons-append c s t) (ground (arith, all_hex-append s t))

nth_digit-All :
    (ds : List String) (k : ℕ)
    → All (λ d. (len d ≡ 1) × (all_hex d ≡ true)) ds
    → (len (nth_digit ds k) ≡ 1) × (all_hex (nth_digit ds k) ≡ true)
unfolding all_hex is_hex_char
nth_digit-All [] k a = (refl, refl)
nth_digit-All (d ∷ ds) zero a = a.0
nth_digit-All (d ∷ ds) (suc k) a = nth_digit-All ds k a.1

digits_hex : All (λ d. (len d ≡ 1) × (all_hex d ≡ true)) hex_digits
unfolding all_hex is_hex_char
digits_hex = ground arith

hex_lem : (n w : ℕ) → (len (hex n w) ≡ n) × (all_hex (hex n w) ≡ true)
unfolding hex all_hex
hex_lem zero w = (refl, refl)
hex_lem (suc n) w =
    let (l, h) = hex_lem n (w / 16) in
    let (l', h') = nth_digit-All hex_digits (w % 16) digits_hex in
    (
      omega (arith, len-append (hex n (w / 16)) (nth_digit hex_digits (w % 16)), l, l'),
      all_hex-append (hex n (w / 16)) (nth_digit hex_digits (w % 16)) ∙ ground (arith, h, h'),
    )

both :
    (s t : String) (m n : ℕ)
    → (len s ≡ m) × (all_hex s ≡ true)
    → (len t ≡ n) × (all_hex t ≡ true)
    → (len (str_append s t) ≡ m + n) × (all_hex (str_append s t) ≡ true)
both s t m n (l, h) (l', h') =
    (omega (arith, len-append s t, l, l'), all_hex-append s t ∙ ground (arith, h, h'))

digest_lem : (v : Words) → (len (digest v) ≡ 64) × (all_hex (digest v) ≡ true)
unfolding digest
digest_lem v = both _ _ 8 56 (hex_lem 8 v.a) (
    both _ _ 8 48 (hex_lem 8 v.b) (
      both _ _ 8 40 (hex_lem 8 v.c) (
        both _ _ 8 32 (hex_lem 8 v.d) (
          both _ _ 8 24 (hex_lem 8 v.e)
            (both _ _ 8 16 (hex_lem 8 v.f) (both _ _ 8 8 (hex_lem 8 v.g) (hex_lem 8 v.h)))))))

-- A hash is 64 hexadecimal digits, and so 128 with another 64.
pub hash_of_lem : (bytes : List ℕ) → (len (hash_of bytes) ≡ 64) × (all_hex (hash_of bytes) ≡ true)
unfolding hash_of
hash_of_lem bytes = rw (hash_of, sha256_hex-padded bytes) (digest_lem _)

pub signature_lem :
    (bytes : List ℕ) (start : String)
    → len start ≡ 64
    → all_hex start ≡ true
    → (len (str_append (hash_of bytes) start) ≡ 128)
      × (all_hex (str_append (hash_of bytes) start) ≡ true)
signature_lem bytes start l h = both _ _ 64 64 (hash_of_lem bytes) (l, h)
