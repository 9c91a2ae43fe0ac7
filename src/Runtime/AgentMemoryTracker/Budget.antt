-- ===== src/Runtime/AgentMemoryTracker/Budget.antt =====
-- The memory budget of one agent.
use ughi.Prelude.{ℕ, ◌+◌, ◌≤◌, ◌<◌, ◌≡◌, max, ◌⊎◌, arith, ok, err}
use ughi.Runtime.Error.{RuntimeError, memory_budget_exceeded}
use ughi.Runtime.AgentMemoryTracker.{AgentMemoryTracker, new, allocate, deallocate, reset}

abbrev pub word : ℕ
word = 18446744073709551616

-- What holds of a tracker between two calls.
pub record IsBudgeted (t : AgentMemoryTracker) : Type 0 where
  pub within : t.current_bytes ≤ t.limit_bytes
  pub peak : t.current_bytes ≤ t.peak_bytes
  pub peak_within : t.peak_bytes ≤ t.limit_bytes
  pub is_word : t.limit_bytes < word

pub new-IsBudgeted : (limit : ℕ) → limit < word → IsBudgeted (new limit)
unfolding new
new-IsBudgeted limit h = ground arith

-- On a budgeted tracker, an allocation of any `u64` size, granted or not, keeps the usage at or below
-- the peak and the peak at or below the limit, also where the sum wraps.
pub allocate-IsBudgeted :
    (t : AgentMemoryTracker) (size : ℕ)
    → size < word
    → IsBudgeted t
    → IsBudgeted (allocate t size).0
unfolding allocate
allocate-IsBudgeted t size h v = ground arith

pub deallocate-IsBudgeted :
    (t : AgentMemoryTracker) (size : ℕ) → IsBudgeted t → IsBudgeted (deallocate t size)
unfolding deallocate
deallocate-IsBudgeted t size v = ground arith

pub reset-IsBudgeted : (t : AgentMemoryTracker) → IsBudgeted t → IsBudgeted (reset t)
unfolding reset
reset-IsBudgeted t v = ground arith

-- While the sum stays a word, an allocation succeeds exactly when it fits; then it adds its size
-- and raises the peak to the new usage, and otherwise it reports the sum and changes nothing.
pub allocate_exact :
    (t : AgentMemoryTracker) (size : ℕ)
    → t.current_bytes + size < word
    → ((t.current_bytes + size ≤ t.limit_bytes)
        × (allocate t size ≡ (
          record t {
            current_bytes = t.current_bytes + size;
            peak_bytes = max t.peak_bytes (t.current_bytes + size);
          },
          ok tt,
        )))
      ⊎ ((t.limit_bytes < t.current_bytes + size)
          × (allocate t size
              ≡ (t, err (memory_budget_exceeded (t.current_bytes + size) t.limit_bytes))))
unfolding allocate
allocate_exact t size h = ground arith

-- A refused allocation of a `u64` size leaves the counters of a budgeted tracker as they were, also
-- where the sum wraps.
pub allocate_refused :
    (t : AgentMemoryTracker) (size : ℕ) {e : RuntimeError}
    → IsBudgeted t
    → size < word
    → (allocate t size).1 ≡ err e
    → (allocate t size).0 ≡ t
unfolding allocate
allocate_refused t size v h r = ground arith

-- On a budgeted tracker, a `u64` request so large that the sum wraps is granted, and lowers the
-- usage.
pub allocate_wraps :
    (t : AgentMemoryTracker) (size : ℕ)
    → IsBudgeted t
    → size < word
    → word ≤ t.current_bytes + size
    → ((allocate t size).1 ≡ ok tt)
      × ((allocate t size).0.current_bytes + word ≡ t.current_bytes + size)
      × ((allocate t size).0.current_bytes < t.current_bytes)
unfolding allocate
allocate_wraps t size v h w = ground arith

-- While the sum stays a word, freeing what was just granted restores the usage and the peak is
-- kept.
pub deallocate-allocate :
    (t : AgentMemoryTracker) (size : ℕ)
    → t.current_bytes + size < word
    → (allocate t size).1 ≡ ok tt
    → ((deallocate (allocate t size).0 size).current_bytes ≡ t.current_bytes)
      × ((deallocate (allocate t size).0 size).peak_bytes
          ≡ max t.peak_bytes (t.current_bytes + size))
unfolding allocate deallocate
deallocate-allocate t size h r = ground arith
