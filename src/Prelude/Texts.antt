-- ===== src/Prelude/Texts.antt =====
-- What the code uses of Rust's `str`, on native strings of code points.
use Prim.Native.Nat.{ℕ, ◌+◌, ◌/◌, ◌%◌}
use Prim.Native.Char.{Char, code}
use Prim.Native.String.{String}
use Prim.Native.String as NativeString
use mathlib.Core.Bool.{Bool, true, false, ◌&&◌, ◌||◌}
use mathlib.Core.List.{List, [], ◌∷◌, ◌++◌}
use ughi.Prelude.Tests.{ltb, ◌==◌, if◌then◌else◌}

-- The number of bytes of a text in UTF-8: Rust's `len`.
abbrev pub char_bytes : Char → ℕ
char_bytes c =
    if ltb (code c) 128
    then 1
    else if ltb (code c) 2048
    then 2
    else if ltb (code c) 65536
    then 3
    else 4

unfoldable pub byte_length : String → ℕ
byte_length NativeString.[] = 0
byte_length (NativeString.◌∷◌ c s) = char_bytes c + byte_length s

-- `as_bytes`: the UTF-8 encoding.
abbrev char_utf8 : Char → List ℕ
char_utf8 c =
    let n = code c in
    if ltb n 128
    then n ∷ []
    else if ltb n 2048
    then (192 + n / 64) ∷ (128 + n % 64) ∷ []
    else if ltb n 65536
    then (224 + n / 4096) ∷ (128 + n / 64 % 64) ∷ (128 + n % 64) ∷ []
    else (240 + n / 262144) ∷ (128 + n / 4096 % 64) ∷ (128 + n / 64 % 64) ∷ (128 + n % 64) ∷ []

unfoldable pub as_bytes : String → List ℕ
as_bytes NativeString.[] = []
as_bytes (NativeString.◌∷◌ c s) = char_utf8 c ++ as_bytes s

unfoldable pub starts_with : String → String → Bool
starts_with NativeString.[] s = true
starts_with (NativeString.◌∷◌ c p) NativeString.[] = false
starts_with (NativeString.◌∷◌ c p) (NativeString.◌∷◌ d s) =
    let rest = starts_with p s in (code c == code d) && rest

-- `contains`: the pattern starts at some place of the text.
unfoldable pub contains : String → String → Bool
unfolding starts_with
contains NativeString.[] p = starts_with p ""
contains (NativeString.◌∷◌ c s) p =
    let rest = contains s p in starts_with p (NativeString.◌∷◌ c s) || rest

-- `replace('-', " ")`
unfoldable pub dashes_to_spaces : String → String
dashes_to_spaces NativeString.[] = NativeString.[]
dashes_to_spaces (NativeString.◌∷◌ c s) =
    let rest = dashes_to_spaces s in
    if code c == 45 then NativeString.◌++◌ " " rest else NativeString.◌∷◌ c rest
