-- ===== src/Evolution/Tests.antt =====
-- Lessons on concrete texts.
use ughi.Prelude.{◌≡◌, refl, none, some, byte_length}
use ughi.Evolution.{byte_prefix, truncate}

truncates : truncate "abcdef" 5 ≡ some "ab..."
unfolding truncate byte_prefix byte_length
truncates = refl

keeps_short : truncate "abcde" 5 ≡ some "abcde"
unfolding truncate byte_prefix byte_length
keeps_short = refl

-- Three letters of two bytes, cut after the first byte.
cut_panics : truncate "ééé" 4 ≡ none
unfolding truncate byte_prefix byte_length
cut_panics = refl
