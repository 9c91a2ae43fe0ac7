-- ===== src/Sandbox/ResourceTracker/Limits.antt =====
-- The limits of an execution against all that it used.
use ughi.Prelude.{
  ℕ, ◌+◌, ◌-◌, ◌/◌, ◌≤◌, ◌<◌, ◌≡◌, ◌∙◌, List, [], ◌∷◌, Option, none, some, ◌⊎◌, arith, u64,
}
use ughi.Runtime.AgentMemoryTracker.Budget.{word}
use ughi.Sandbox.ResourceTracker.{
  ResourceLimits, ResourceTracker, start, allocate, consume_fuel, is_timed_out, elapsed_ms,
  check_limits, Excess, memory, fuel, time,
}

pub data Use : Type 0 where
  takes burns : ℕ → Use

unfoldable pub use_one : ResourceTracker → Use → ResourceTracker
use_one t (takes bytes) = (allocate t bytes).0
use_one t (burns units) = (consume_fuel t units).0

unfoldable pub use_all : ResourceTracker → List Use → ResourceTracker
use_all t [] = t
use_all t (u ∷ us) = use_all (use_one t u) us

unfoldable pub bytes_of : List Use → ℕ
bytes_of [] = 0
bytes_of (takes bytes ∷ us) = bytes + bytes_of us
bytes_of (burns units ∷ us) = bytes_of us

unfoldable pub units_of : List Use → ℕ
units_of [] = 0
units_of (takes bytes ∷ us) = units_of us
units_of (burns units ∷ us) = units + units_of us

use_all_sums :
    (t : ResourceTracker) (us : List Use)
    → t.memory_used + bytes_of us < word
    → t.fuel_used + units_of us < word
    → use_all t us ≡ record t {
      memory_used = t.memory_used + bytes_of us;
      fuel_used = t.fuel_used + units_of us;
    }
unfolding use_all use_one bytes_of units_of allocate consume_fuel
use_all_sums t [] m f = ground arith
use_all_sums t (takes b ∷ us) m f =
    use_all_sums (allocate t b).0 us (omega arith) (omega arith) ∙ ground arith
use_all_sums t (burns u ∷ us) m f =
    use_all_sums (consume_fuel t u).0 us (omega arith) (omega arith) ∙ ground arith

-- The four answers of `check_limits`, by what was used.
abbrev pub Checked : ResourceLimits → ℕ → ℕ → ℕ → ℕ → Option Excess → Type 0
Checked limits bytes units elapsed reported r =
    ((r ≡ none)
      × (bytes ≤ limits.max_memory_bytes)
      × (units ≤ limits.max_fuel)
      × (elapsed ≤ limits.max_time_ms))
    ⊎ (((r ≡ some (memory bytes limits.max_memory_bytes)) × (limits.max_memory_bytes < bytes))
        ⊎ (((r ≡ some (fuel units limits.max_fuel)) × (limits.max_fuel < units))
            ⊎ ((r ≡ some (time reported limits.max_time_ms)) × (limits.max_time_ms < elapsed))))

check_limits-Checked :
    (t : ResourceTracker) (now later : ℕ)
    → Checked t.limits t.memory_used t.fuel_used
        (elapsed_ms t now)
        (elapsed_ms t later)
        (check_limits t now later)
unfolding check_limits is_timed_out
check_limits-Checked t now later = ground arith

abbrev used_up : ResourceLimits → List Use → ℕ → ResourceTracker
used_up limits us begun = record {
  limits = limits;
  memory_used = bytes_of us;
  fuel_used = units_of us;
  start_time = begun;
}

use_all-start :
    (limits : ResourceLimits) (us : List Use) (begun : ℕ)
    → bytes_of us < word
    → units_of us < word
    → use_all (start limits begun) us ≡ used_up limits us begun
unfolding start
use_all-start limits us begun m f =
    use_all_sums (start limits begun) us (omega arith) (omega arith) ∙ ground arith

-- After any uses of memory and fuel in any order, with sums that are words, `check_limits` finds
-- nothing exactly when the sums and the time are within their limits, and otherwise reports a limit
-- that is exceeded with the sum that exceeds it, or the time as read again.
pub check_limits-use_all :
    (limits : ResourceLimits) (us : List Use) (begun now later : ℕ)
    → bytes_of us < word
    → units_of us < word
    → Checked limits
        (bytes_of us)
        (units_of us)
        (u64 ((now - begun) / 1000000))
        (u64 ((later - begun) / 1000000))
        (check_limits (use_all (start limits begun) us) now later)
unfolding start elapsed_ms
check_limits-use_all limits us begun now later m f =
    rw (use_all-start limits us begun m f)
      (check_limits-Checked (used_up limits us begun) now later)
