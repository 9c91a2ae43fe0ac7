-- ===== src/SkillsRegistry/Sha256/Streaming.antt =====
-- The hasher against one that takes a byte at a time.
use ughi.Prelude.{
  ℕ, zero, suc, ◌+◌, ◌-◌, ◌%◌, ◌≤◌, ◌<◌, ◌≡◌, refl, sym, ap, ◌∙◌, min, List, [], ◌∷◌, ◌++◌, arith,
  Bool-cases, inl, inr, ◌==◌, if◌then◌else◌, u64, length, take, drop, length-append,
  length-take-drop, length-take, take-drop, append-nil, append_assoc,
}
use ughi.SkillsRegistry.Sha256.{Sha256, flush, update, update_loop}

-- A full buffer is compressed at once.
unfoldable pub settle : Sha256 → Sha256
settle s = if length s.buffer == 64 then flush s else s

unfoldable pub push : Sha256 → List ℕ → Sha256
push s bytes = record s { buffer = s.buffer ++ bytes }

-- The reference: the bytes one by one.
unfoldable pub feed : Sha256 → List ℕ → Sha256
feed s [] = s
feed s (b ∷ bs) = feed (settle (push s (b ∷ []))) bs

pub settle_short : (s : Sha256) → length s.buffer < 64 → settle s ≡ s
unfolding settle
settle_short s h = ground arith

pub settle_full : (s : Sha256) → length s.buffer ≡ 64 → settle s ≡ flush s
unfolding settle
settle_full s h = ground arith

pub length-settle :
    (s : Sha256) → length s.buffer ≤ 64 → length (settle s).buffer ≡ length s.buffer % 64
unfolding settle flush
length-settle s h = ground arith

pub length-push :
    (s : Sha256) (bs : List ℕ) → length (push s bs).buffer ≡ length s.buffer + length bs
unfolding push
length-push s bs = length-append s.buffer bs

pub push-push : (s : Sha256) (xs ys : List ℕ) → push (push s xs) ys ≡ push s (xs ++ ys)
unfolding push
push-push s xs ys = ap (λ (bs : List ℕ). record s { buffer = bs }) (append_assoc s.buffer xs ys)

push-nil : (s : Sha256) → push s [] ≡ s
unfolding push
push-nil s = ap (λ (bs : List ℕ). record s { buffer = bs }) (append-nil s.buffer)

-- Bytes that fit are fed at once.
pub feed-push :
    (s : Sha256) (xs : List ℕ)
    → length s.buffer < 64
    → length s.buffer + length xs ≤ 64
    → feed s xs ≡ settle (push s xs)
unfolding feed
feed-push s [] h l = sym (ap settle (push-nil s) ∙ settle_short s h)
feed-push s (x ∷ []) h l = refl
feed-push s (x ∷ y ∷ xs) h l =
    let one = settle_short (push s (x ∷ [])) (omega (arith, length-push s (x ∷ []))) in
    ap (λ (t : Sha256). feed t (y ∷ xs)) one
    ∙ feed-push (push s (x ∷ [])) (y ∷ xs) (omega (arith, length-push s (x ∷ [])))
        (omega (arith, length-push s (x ∷ [])))
    ∙ ap settle (push-push s (x ∷ []) (y ∷ xs))

pub feed-append : (s : Sha256) (xs ys : List ℕ) → feed s (xs ++ ys) ≡ feed (feed s xs) ys
unfolding feed
feed-append s [] ys = refl
feed-append s (x ∷ xs) ys = feed-append (settle (push s (x ∷ []))) xs ys

pub length-feed :
    (s : Sha256) (xs : List ℕ)
    → length s.buffer < 64
    → length (feed s xs).buffer ≡ (length s.buffer + length xs) % 64
unfolding feed
length-feed s [] h = omega arith
length-feed s (x ∷ xs) h = omega (
  arith,
  length-feed (settle (push s (x ∷ []))) xs (
      omega (
        arith,
        length-settle (push s (x ∷ [])) (omega (arith, length-push s (x ∷ []))),
        length-push s (x ∷ []),
      )),
  length-settle (push s (x ∷ [])) (omega (arith, length-push s (x ∷ []))),
  length-push s (x ∷ []),
)

-- The loop of `update` is the reference, and as many turns as there are bytes are enough.
pub update_loop-feed :
    (n : ℕ) (s : Sha256) (xs : List ℕ)
    → length s.buffer < 64
    → length xs ≤ n
    → update_loop n s xs ≡ feed s xs
unfolding update_loop settle push
update_loop-feed zero s [] h l = unfold feed in refl
update_loop-feed zero s (x ∷ xs) h l = absurd (omega arith)
update_loop-feed (suc n) s [] h l = unfold feed in refl
update_loop-feed (suc n) s (x ∷ xs) h l =
    let rest = x ∷ xs in
    let k = min (64 - length s.buffer) (length rest) in
    let taken : length (take k rest) ≡ k = length-take k rest (omega arith) in
    let sums = length-take-drop k rest in
    let fits = length-push s (take k rest) in
    update_loop-feed n (settle (push s (take k rest))) (drop k rest)
      (omega
        (arith, length-settle (push s (take k rest)) (omega (arith, fits, taken)), fits, taken))
      (omega (arith, taken, sums))
    ∙ ap (λ (t : Sha256). feed t (drop k rest))
        (sym (feed-push s (take k rest) h (omega (arith, taken))))
    ∙ sym (feed-append s (take k rest) (drop k rest))
    ∙ ap (feed s) (take-drop k rest)

unfoldable pub counted : ℕ → Sha256 → Sha256
counted n s = record s { total_len = n }

settle-counted : (n : ℕ) (s : Sha256) → settle (counted n s) ≡ counted n (settle s)
unfolding settle counted flush
settle-counted n s = elim (Bool-cases (length s.buffer == 64)) [
  | inl e ↦ rw e refl
  | inr e ↦ rw e refl
]

settle-push-counted :
    (n : ℕ) (s : Sha256) (bs : List ℕ)
    → settle (push (counted n s) bs) ≡ counted n (settle (push s bs))
unfolding push counted
settle-push-counted n s bs = settle-counted n (push s bs)

recounted : (m n : ℕ) (s : Sha256) → counted m (counted n s) ≡ counted m s
unfolding counted
recounted m n s = refl

pub feed-counted :
    (n : ℕ) (s : Sha256) (xs : List ℕ) → feed (counted n s) xs ≡ counted n (feed s xs)
unfolding feed
feed-counted n s [] = refl
feed-counted n s (x ∷ xs) =
    ap (λ (t : Sha256). feed t xs) (settle-push-counted n s (x ∷ []))
    ∙ feed-counted n (settle (push s (x ∷ []))) xs

pub update-feed :
    (s : Sha256) (xs : List ℕ)
    → length s.buffer < 64
    → update s xs ≡ counted (u64 (s.total_len + length xs)) (feed s xs)
unfolding update counted
update-feed s xs h =
    update_loop-feed (length xs) (counted (u64 (s.total_len + length xs)) s) xs h (omega arith)
    ∙ feed-counted (u64 (s.total_len + length xs)) s xs

-- Bytes that come in two calls of `update` leave the hasher in the same state as in one call.
pub update-append :
    (s : Sha256) (xs ys : List ℕ)
    → length s.buffer < 64
    → update (update s xs) ys ≡ update s (xs ++ ys)
update-append s xs ys h =
    let t = counted (u64 (s.total_len + length xs)) (feed s xs) in
    let short : length t.buffer < 64 = unfold counted in omega (arith, length-feed s xs h) in
    let sums : u64 (t.total_len + length ys) ≡ u64 (s.total_len + length (xs ++ ys)) =
      unfold counted in omega (arith, length-append xs ys) in
    ap (λ (t' : Sha256). update t' ys) (update-feed s xs h)
    ∙ update-feed t ys short
    ∙ ap (counted (u64 (t.total_len + length ys))) (feed-counted _ (feed s xs) ys)
    ∙ recounted (u64 (t.total_len + length ys)) _ (feed (feed s xs) ys)
    ∙ ap (λ (n : ℕ). counted n (feed (feed s xs) ys)) sums
    ∙ ap (counted (u64 (s.total_len + length (xs ++ ys)))) (sym (feed-append s xs ys))
    ∙ sym (update-feed s (xs ++ ys) h)
