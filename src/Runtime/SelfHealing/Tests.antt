-- ===== src/Runtime/SelfHealing/Tests.antt =====
-- The healing manager on concrete crashes.
use ughi.Prelude.{◌+◌, ◌≡◌, refl, List, [], ◌∷◌, arith, contains, starts_with}
use ughi.Runtime.SelfHealing.{timeout, new, on_crash, crash_count, classify}
use ughi.Runtime.SelfHealing.Streak.{
  Event, treatment, crashes, recovers, run, streak, crashed, on_crash-run,
}

classified : classify (λ s. s) "request timeout" ≡ timeout
unfolding classify contains starts_with
classified = refl

-- Three crashes with a recovery after the first.
abbrev events : List Event
events = crashes "a" "oom" 1 ∷ recovers "a" ∷ crashes "a" "panic" 2 ∷ crashes "a" "panic" 3 ∷ []

on_crash-run_example :
    ((on_crash (λ s. s) (run (λ s. s) new events) "a" "panic" 4).1
      ≡ treatment (streak "a" 0 events + 1) "panic")
    × (crash_count (run (λ s. s) new events) "a" ≡ crashed "a" events)
on_crash-run_example = on_crash-run (λ s. s) events "a" "panic" 4 (omega arith)
