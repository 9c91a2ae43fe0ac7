-- ===== src/Sandbox/ResourceTracker.antt =====
-- The limits of one execution, of crates/ughi-wasm/src/resource.rs. An `Instant` is a number of
-- nanoseconds; the report of an excess is its numbers in place of the text.
use ughi.Prelude.{ℕ, ◌+◌, ◌-◌, ◌/◌, Bool, Option, none, some, ltb, leb, if◌then◌else◌, u64}
pub mod Limits

pub record ResourceLimits : Type 0 where
  pub max_memory_bytes : ℕ
  pub max_fuel : ℕ
  pub max_time_ms : ℕ

unfoldable pub default_limits : ResourceLimits
default_limits = record { max_memory_bytes = 47185920; max_fuel = 10000000; max_time_ms = 420 }

unfoldable pub minimal : ResourceLimits
minimal = record { max_memory_bytes = 4194304; max_fuel = 1000000; max_time_ms = 100 }

unfoldable pub high : ResourceLimits
high = record { max_memory_bytes = 47185920; max_fuel = 50000000; max_time_ms = 420 }

pub record ResourceTracker : Type 0 where
  pub limits : ResourceLimits
  pub memory_used : ℕ
  pub fuel_used : ℕ
  pub start_time : ℕ

unfoldable pub start : ResourceLimits → ℕ → ResourceTracker
start limits now = record { limits = limits; memory_used = 0; fuel_used = 0; start_time = now }

unfoldable pub allocate : ResourceTracker → ℕ → ResourceTracker × Bool
allocate t bytes =
    let used = u64 (t.memory_used + bytes) in
    (record t { memory_used = used }, leb used t.limits.max_memory_bytes)

unfoldable pub consume_fuel : ResourceTracker → ℕ → ResourceTracker × Bool
consume_fuel t fuel =
    let used = u64 (t.fuel_used + fuel) in
    (record t { fuel_used = used }, leb used t.limits.max_fuel)

unfoldable pub elapsed_ms : ResourceTracker → ℕ → ℕ
elapsed_ms t now = u64 ((now - t.start_time) / 1000000)

unfoldable pub is_timed_out : ResourceTracker → ℕ → Bool
is_timed_out t now = ltb t.limits.max_time_ms (elapsed_ms t now)

-- Which limit, what was used and the limit.
pub data Excess : Type 0 where
  memory fuel time : ℕ → ℕ → Excess

-- The clock is read for the test and again for the text.
unfoldable pub check_limits : ResourceTracker → ℕ → ℕ → Option Excess
check_limits t now later =
    if ltb t.limits.max_memory_bytes t.memory_used
    then some (memory t.memory_used t.limits.max_memory_bytes)
    else if ltb t.limits.max_fuel t.fuel_used
    then some (fuel t.fuel_used t.limits.max_fuel)
    else if is_timed_out t now
    then some (time (elapsed_ms t later) t.limits.max_time_ms)
    else none

pub record ResourceUsage : Type 0 where
  pub memory_bytes : ℕ
  pub memory_limit : ℕ
  pub fuel_used : ℕ
  pub fuel_limit : ℕ
  pub elapsed_ms : ℕ
  pub time_limit_ms : ℕ

unfoldable pub usage : ResourceTracker → ℕ → ResourceUsage
usage t now = record {
  memory_bytes = t.memory_used;
  memory_limit = t.limits.max_memory_bytes;
  fuel_used = t.fuel_used;
  fuel_limit = t.limits.max_fuel;
  elapsed_ms = elapsed_ms t now;
  time_limit_ms = t.limits.max_time_ms;
}
