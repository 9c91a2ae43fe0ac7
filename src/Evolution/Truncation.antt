-- ===== src/Evolution/Truncation.antt =====
-- How long a truncated text is, and when the cut panics.
use Prim.Native.Nat.{◌-◌}
use Prim.Native.Char.{Char}
use Prim.Native.String as NativeString
use text.Mathlib.TextLemmas.{nil-append, cons-append}
use ughi.Prelude.{
  ℕ, ◌+◌, ◌≤◌, ◌≡◌, refl, sym, subst, String, str_append, Option, true, false, none, some, arith,
  inl, inr, Bool-cases, Option-cases, leb, ltb, byte_length, char_bytes,
}
use mathlib.Core.Option
use ughi.Evolution.{byte_prefix, truncate}

empty_le : (n : ℕ) (t : String) → some "" ≡ some t → byte_length t ≤ n
unfolding byte_length
empty_le n t h = subst (λ u. byte_length u ≤ n) (Option.some-injective "" t h) (omega arith)

none_le : (n : ℕ) (t : String) → ◌≡◌ {A = Option String} none (some t) → byte_length t ≤ n
none_le n t h = grind arith

add_le : (k m n : ℕ) → ltb n k ≡ false → m ≤ n - k → k + m ≤ n
add_le k m n f h = ground arith

not_ltb_le : (n k : ℕ) → ltb n k ≡ false → k ≤ n
not_ltb_le n k f = ground arith

cons_le :
    (c : Char) (r : String) (n : ℕ) (t : String)
    → some (NativeString.◌∷◌ c r) ≡ some t
    → ltb n (char_bytes c) ≡ false
    → byte_length r ≤ n - char_bytes c
    → byte_length t ≤ n
unfolding byte_length
cons_le c r n t h f ih =
    subst (λ u. byte_length u ≤ n) (Option.some-injective (NativeString.◌∷◌ c r) t h)
      (add_le (char_bytes c) (byte_length r) n f ih)

byte_length-byte_prefix :
    (s : String) (n : ℕ) (t : String) → byte_prefix s n ≡ some t → byte_length t ≤ n
unfolding byte_prefix
byte_length-byte_prefix NativeString.[] n t h = elim (Bool-cases (leb n 0)) [
  | inl e ↦ empty_le n t (rw e at h)
  | inr e ↦ none_le n t (rw e at h)
]
byte_length-byte_prefix (NativeString.◌∷◌ c s) n t h = elim (Bool-cases (leb n 0)) [
  | inl e ↦ empty_le n t (rw e at h)
  | inr e ↦ elim (Bool-cases (ltb n (char_bytes c))) [
    | inl f ↦ none_le n t (rw (e, f) at h)
    | inr f ↦ elim (Option-cases (byte_prefix s (n - char_bytes c))) [
      | inl g ↦ none_le n t (rw (e, f, g) at h)
      | inr (r, g) ↦
          cons_le c r n t (rw (e, f, g) at h) f (byte_length-byte_prefix s (n - char_bytes c) r g)
    ]
  ]
]

byte_length-append : (s t : String) → byte_length (str_append s t) ≡ byte_length s + byte_length t
unfolding byte_length
byte_length-append NativeString.[] t = rw nil-append (omega arith)
byte_length-append (NativeString.◌∷◌ c s) t = rw (cons-append, byte_length-append s t) (omega arith)

fits : (limit k : ℕ) → 3 ≤ limit → k ≤ limit - 3 → k + 3 ≤ limit
fits limit k a b = omega arith

ellipsis_le :
    (limit : ℕ) (r t : String)
    → some (str_append r "...") ≡ some t
    → 3 ≤ limit
    → byte_length r ≤ limit - 3
    → byte_length t ≤ limit
unfolding byte_length
ellipsis_le limit r t h a b =
    subst (λ u. byte_length u ≤ limit) (Option.some-injective (str_append r "...") t h)
      (rw byte_length-append (fits limit (byte_length r) a b))

kept_le :
    (limit : ℕ) (s t : String)
    → some s ≡ some t
    → ltb limit (byte_length s) ≡ false
    → byte_length t ≤ limit
kept_le limit s t h f =
    subst (λ u. byte_length u ≤ limit) (Option.some-injective s t h)
      (not_ltb_le limit (byte_length s) f)

-- Every character of the text is one byte long.
IsAscii : String → Type 0
IsAscii NativeString.[] = Unit
IsAscii (NativeString.◌∷◌ c s) = (char_bytes c ≡ 1) × IsAscii s

at_most : (n k : ℕ) → n ≤ 1 + k → n - 1 ≤ k
at_most n k h = omega arith

reaches : (c : Char) (n k : ℕ) → char_bytes c ≡ 1 → n ≤ char_bytes c + k → n - char_bytes c ≤ k
reaches c n k a h = subst (λ b. n - b ≤ k) (sym a) (at_most n k (subst (λ b. n ≤ b + k) a h))

one_le : (n : ℕ) → leb n 0 ≡ false → ltb n 1 ≡ false
one_le n e = ground arith

at_zero : (n : ℕ) → n ≤ 0 → leb n 0 ≡ true
at_zero n h = ground arith

cut_le : (limit k : ℕ) → ltb limit k ≡ true → limit - 3 ≤ k
cut_le limit k e = ground arith

not_short : (c : Char) (n : ℕ) → char_bytes c ≡ 1 → leb n 0 ≡ false → ltb n (char_bytes c) ≡ false
not_short c n a e = subst (λ b. ltb n b ≡ false) (sym a) (one_le n e)

byte_prefix-IsAscii :
    (s : String) (n : ℕ) → IsAscii s → n ≤ byte_length s → (t : String) × (byte_prefix s n ≡ some t)
unfolding byte_prefix byte_length IsAscii
byte_prefix-IsAscii NativeString.[] n a h = ("", rw (at_zero n h) refl)
byte_prefix-IsAscii (NativeString.◌∷◌ c s) n a h = elim (Bool-cases (leb n 0)) [
  | inl e ↦ ("", rw e refl)
  | inr e ↦
      let rest = byte_prefix-IsAscii s (n - char_bytes c) a.1 (reaches c n (byte_length s) a.0 h) in
      (NativeString.◌∷◌ c rest.0, rw (e, not_short c n a.0 e, rest.1) refl)
]

-- A text that `truncate` returns for a limit of three or more has at most `limit` bytes, the dots included.
truncate_lem :
    (s t : String) (limit : ℕ) → 3 ≤ limit → truncate s limit ≡ some t → byte_length t ≤ limit
unfolding truncate
truncate_lem s t limit a h = elim (Bool-cases (ltb limit (byte_length s))) [
  | inl e ↦ elim (Option-cases (byte_prefix s (limit - 3))) [
    | inl g ↦ none_le limit t (rw (e, g) at h)
    | inr (r, g) ↦
        ellipsis_le limit r t (rw (e, g) at h) a (byte_length-byte_prefix s (limit - 3) r g)
  ]
  | inr e ↦ kept_le limit s t (rw e at h) e
]

-- A text of one-byte characters is truncated without a panic, to at most `limit` bytes.
truncate-IsAscii :
    (s : String) (limit : ℕ)
    → 3 ≤ limit
    → IsAscii s
    → (t : String) × ((truncate s limit ≡ some t) × (byte_length t ≤ limit))
unfolding truncate
truncate-IsAscii s limit a i = elim (Bool-cases (ltb limit (byte_length s))) [
  | inl e ↦
      let cut = byte_prefix-IsAscii s (limit - 3) i (cut_le limit (byte_length s) e) in
      let kept = byte_length-byte_prefix s (limit - 3) cut.0 cut.1 in
      (str_append cut.0 "...", (rw (e, cut.1) refl, ellipsis_le limit cut.0 _ refl a kept))
  | inr e ↦ (s, (rw e refl, not_ltb_le limit (byte_length s) e))
]
