-- ===== src/SkillsRegistry/Sha256/Tests.antt =====
-- The two vectors of the source's tests.
use ughi.Prelude.{◌≡◌, refl, some, [], ◌∷◌}
use ughi.SkillsRegistry.Sha256.{
  sha256_hex, finalize, update, update_loop, pad_loop, flush, compress, k_table, new, schedule,
  block_words, round, rounds, be_bytes, hex, digest,
}

empty_digest :
    sha256_hex [] ≡ some "e3b0c44298fc1c149afbf4c8996fb92427ae41e4649b934ca495991b7852b855"
unfolding sha256_hex finalize update update_loop pad_loop flush compress k_table new schedule
    block_words round rounds be_bytes hex digest
empty_digest = refl

abc_digest :
    sha256_hex (97 ∷ 98 ∷ 99 ∷ [])
    ≡ some "ba7816bf8f01cfea414140de5dae2223b00361a396177a9cb410ff61f20015ad"
unfolding sha256_hex finalize update update_loop pad_loop flush compress k_table new schedule
    block_words round rounds be_bytes hex digest
abc_digest = refl
