-- ===== src/SkillsRegistry/Sha256/Padding.antt =====
-- The digest of a message against the padded message of FIPS 180-4.
use ughi.Prelude.{
  ℕ, zero, suc, ◌+◌, ◌-◌, ◌*◌, ◌%◌, ◌≤◌, ◌<◌, ◌≡◌, ◌≢◌, refl, sym, ap, ◌∙◌, some, List, [], ◌∷◌,
  ◌++◌, arith, u64, length, replicate, append_assoc, length-replicate,
}
use ughi.SkillsRegistry.Sha256.{
  Sha256, Words, new, flush, compress, update, pad_loop, finalize, sha256_hex, be_bytes, digest,
}
use ughi.SkillsRegistry.Sha256.Streaming.{
  settle, push, feed, feed-counted, settle_short, settle_full, length-settle, length-push,
  feed-push, feed-append, length-feed, counted, update-feed,
}

-- The number of zeros: as many as reach 56 modulo 64.
abbrev pub zeros : ℕ → ℕ
zeros filled = (120 - filled) % 64

-- The message, one bit, the zeros, and the length in bits.
unfoldable pub padded : List ℕ → List ℕ
padded bytes =
    (bytes ++ (128 ∷ []))
    ++ (replicate (zeros ((length bytes + 1) % 64)) 0 ++ be_bytes (u64 (u64 (length bytes) * 8)))

-- A turn of the loop of `finalize`.
turn : Sha256 → Sha256
turn s = push (settle s) (0 ∷ [])

pad_step :
    (n : ℕ) (s : Sha256)
    → length s.buffer ≤ 64
    → length s.buffer ≢ 56
    → pad_loop (suc n) s ≡ pad_loop n (turn s)
unfolding pad_loop turn push settle
pad_step n s h l = ground arith

pad_done : (n : ℕ) (s : Sha256) → length s.buffer ≡ 56 → pad_loop n s ≡ some s
unfolding pad_loop
pad_done zero s h = ground arith
pad_done (suc n) s h = ground arith

-- The loop ends, and it feeds the zeros.
pad_loop-feed :
    (k n : ℕ) (s : Sha256)
    → length s.buffer ≤ 64
    → zeros (length s.buffer) ≡ k
    → k ≤ n
    → pad_loop n s ≡ some (feed (settle s) (replicate k 0))
unfolding turn feed
pad_loop-feed zero n s h z l =
    let at_end : length s.buffer ≡ 56 = omega arith in
    pad_done n s at_end ∙ ap some (sym (settle_short s (omega arith)))
pad_loop-feed (suc k) zero s h z l = absurd (omega arith)
pad_loop-feed (suc k) (suc n) s h z l =
    let grown = length-push (settle s) (0 ∷ []) in
    let settled = length-settle s h in
    pad_step n s h (λ e. omega arith)
    ∙ pad_loop-feed k n (turn s) (omega (arith, grown, settled)) (omega (arith, grown, settled))
        (omega arith)

last_block :
    (p : Sha256) (xs : List ℕ)
    → length p.buffer ≡ 56
    → length xs ≡ 8
    → compress p.state (p.buffer ++ xs) ≡ (feed p xs).state
last_block p xs h l =
    let full = length-push p xs in
    sym (
      ap (λ (t : Sha256). t.state)
        (feed-push p xs (omega arith) (omega arith) ∙ settle_full (push p xs) (omega arith))
      ∙ (unfold flush push in refl))

length-be_bytes : (n : ℕ) → length (be_bytes n) ≡ 8
unfolding be_bytes
length-be_bytes n = refl

state-counted : (n : ℕ) (s : Sha256) → (counted n s).state ≡ s.state
unfolding counted
state-counted n s = refl

total-counted : (n : ℕ) (s : Sha256) → (counted n s).total_len ≡ n
unfolding counted
total-counted n s = refl

buffer-counted : (n : ℕ) (s : Sha256) → (counted n s).buffer ≡ s.buffer
unfolding counted
buffer-counted n s = refl

finalize-pad_loop :
    (s p : Sha256)
    → pad_loop 64 (update s (128 ∷ [])) ≡ some p
    → finalize s ≡ some (digest (compress p.state (p.buffer ++ be_bytes (u64 (s.total_len * 8)))))
unfolding finalize
finalize-pad_loop s p looped = rw (finalize, looped) refl

-- From any state between two calls, `finalize` ends, and gives the digest of the state after one bit,
-- zeros up to 56 bytes modulo 64, and the length in bits.
pub finalize_lem :
    (s : Sha256)
    → length s.buffer < 64
    → finalize s
      ≡ some (
          digest
            (feed s (
              (128 ∷ [])
              ++ (replicate (zeros ((length s.buffer + 1) % 64)) 0
                  ++ be_bytes (u64 (s.total_len * 8))))).state)
finalize_lem s h =
    let m = u64 (s.total_len + 1) in
    let marked = feed s (128 ∷ []) in
    let zs : List ℕ = replicate (zeros (length marked.buffer)) 0 in
    let bits = be_bytes (u64 (s.total_len * 8)) in
    let short : length marked.buffer < 64 = omega (arith, length-feed s (128 ∷ []) h) in
    let p = feed (counted m marked) zs in
    let looped : pad_loop 64 (update s (128 ∷ [])) ≡ some p =
      ap (pad_loop 64) (update-feed s (128 ∷ []) h)
      ∙ pad_loop-feed (zeros (length marked.buffer)) 64 (counted m marked)
          (omega (arith, ap length (buffer-counted m marked)))
          (ap (λ (bs : List ℕ). zeros (length bs)) (buffer-counted m marked)) (omega arith)
      ∙ ap (λ (t : Sha256). some (feed t zs))
          (settle_short (counted m marked) (omega (arith, ap length (buffer-counted m marked)))) in
    let at_end : length p.buffer ≡ 56 = omega (
      arith,
      length-feed (counted m marked) zs (omega (arith, ap length (buffer-counted m marked))),
      ap length (buffer-counted m marked),
      length-replicate {A = ℕ} (zeros (length marked.buffer)) 0,
    ) in
    let ends : compress p.state (p.buffer ++ bits) ≡ (feed marked (zs ++ bits)).state =
      last_block p bits at_end (length-be_bytes _)
      ∙ ap (λ (t : Sha256). t.state)
          (sym (feed-append (counted m marked) zs bits) ∙ feed-counted m marked (zs ++ bits))
      ∙ state-counted m _ in
    finalize-pad_loop s p looped
    ∙ ap (λ (v : Words). some (digest v)) ends
    ∙ ap (λ (n : ℕ). some (digest (feed marked (replicate (zeros n) 0 ++ bits)).state))
        (length-feed s (128 ∷ []) h)
    ∙ ap (λ (t : Sha256). some (digest t.state)) (sym (feed-append s (128 ∷ []) _))

-- `sha256_hex` always ends, with the digest of the padded message taken in byte by byte.
pub sha256_hex-padded :
    (bytes : List ℕ) → sha256_hex bytes ≡ some (digest (feed new (padded bytes)).state)
unfolding sha256_hex padded new
sha256_hex-padded bytes =
    let n = u64 (0 + length bytes) in
    let fed = feed new bytes in
    let tail =
      λ (zs : ℕ) (bits : ℕ). (128 ∷ []) ++ (replicate (zeros zs) 0 ++ be_bytes (u64 (bits * 8))) in
    let filled : (length (counted n fed).buffer + 1) % 64 ≡ (length bytes + 1) % 64 =
      omega (arith, ap length (buffer-counted n fed), length-feed new bytes (omega arith)) in
    let bits : n ≡ u64 (length bytes) = omega arith in
    ap finalize (update-feed new bytes (omega arith))
    ∙ finalize_lem (counted n fed)
        (omega (arith, ap length (buffer-counted n fed), length-feed new bytes (omega arith)))
    ∙ ap (λ (k : ℕ). some (digest (feed (counted n fed) (tail k (counted n fed).total_len)).state))
        filled
    ∙ ap (λ (t : Sha256). some (digest t.state))
        (feed-counted n fed (tail ((length bytes + 1) % 64) (counted n fed).total_len))
    ∙ ap (λ (v : Words). some (digest v)) (state-counted n _)
    ∙ ap (λ (k : ℕ). some (digest (feed fed (tail ((length bytes + 1) % 64) k)).state))
        (total-counted n fed ∙ bits)
    ∙ ap (λ (t : Sha256). some (digest t.state))
        (sym (feed-append new bytes (tail ((length bytes + 1) % 64) (u64 (length bytes)))))
    ∙ ap (λ (bs : List ℕ). some (digest (feed new bs).state))
        (sym (append_assoc bytes (128 ∷ []) _))
