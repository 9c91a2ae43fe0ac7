-- ===== src/Runtime/Agent/History.antt =====
-- An agent over any sequence of attempted transitions.
use ughi.Prelude.{
  ℕ, ◌+◌, ◌≤◌, ◌<◌, ◌≡◌, ◌≢◌, refl, ◌⊎◌, List, [], ◌∷◌, true, false, arith, ok, err, String, length,
  All, u64,
}
use ughi.Runtime.Error.{invalid_transition}
use ughi.Runtime.AgentState.{AgentState, completing, crashed, can_transition_to, as_str}
use ughi.Runtime.AgentState.Lifecycle.{progress, progress-can_transition_to}
use ughi.Runtime.Agent.{Agent, AgentConfig, new, transition}

-- A transition either is refused, names both states and changes nothing, or it is allowed, and then
-- it sets the state and the time, counts itself and changes nothing else.
pub transition_outcome :
    (a : Agent) (s : AgentState) (now : ℕ)
    → ((can_transition_to a.state s ≡ false)
        × (transition a s now ≡ (a, err (invalid_transition a.id (as_str a.state) (as_str s)))))
      ⊎ ((can_transition_to a.state s ≡ true)
          × (transition a s now ≡ (
            record a {
              state = s;
              last_active = now;
              transition_count = u64 (a.transition_count + 1);
            },
            ok tt,
          )))
unfolding transition
transition_outcome a s now = ground arith

-- The attempts of a history, each with its time. A refused attempt leaves the agent as it was.
unfoldable pub attempts : Agent → List (AgentState × ℕ) → Agent
attempts a [] = a
attempts a ((s, now) ∷ rest) = attempts (transition a s now).0 rest

-- The state never runs ahead of the counter, while the counter does not wrap.
abbrev IsPaced : Agent → Type 0
IsPaced a = progress a.state ≤ a.transition_count

transition_count-le :
    (a : Agent) (s : AgentState) (now : ℕ)
    → a.transition_count + 1 < 18446744073709551616
    → (transition a s now).0.transition_count ≤ a.transition_count + 1
unfolding transition
transition_count-le a s now h = ground arith

transition-IsPaced :
    (a : Agent) (s : AgentState) (now : ℕ)
    → a.transition_count + 1 < 18446744073709551616
    → IsPaced a
    → IsPaced (transition a s now).0
unfolding transition
transition-IsPaced a s now h p = ground (arith, progress-can_transition_to a.state s)

attempts-IsPaced :
    (a : Agent) (ts : List (AgentState × ℕ))
    → a.transition_count + length ts < 18446744073709551616
    → IsPaced a
    → IsPaced (attempts a ts)
unfolding attempts
attempts-IsPaced a [] h p = p
attempts-IsPaced a ((s, now) ∷ ts) h p =
    let b = (transition a s now).0 in
    let le : b.transition_count ≤ a.transition_count + 1 =
      transition_count-le a s now (omega arith) in
    attempts-IsPaced b ts (omega arith) (transition-IsPaced a s now (omega arith) p)

-- A new agent is `completing` only after three accepted transitions, whatever it attempts, in fewer
-- than 2 ^ 64 attempts.
pub completing_needs_three :
    (config : AgentConfig) (id : String) (now : ℕ) (ts : List (AgentState × ℕ))
    → length ts < 18446744073709551616
    → (attempts (new config id now) ts).state ≡ completing
    → 3 ≤ (attempts (new config id now) ts).transition_count
unfolding new
completing_needs_three config id now ts h e =
    ground (arith, attempts-IsPaced (new config id now) ts)

-- Not a crash.
abbrev pub IsOrderly : AgentState × ℕ → Type 0
IsOrderly (s, now) = s ≢ crashed

completing-transition :
    (a : Agent) (s : AgentState) (now : ℕ)
    → a.state ≡ completing
    → s ≢ crashed
    → (transition a s now).0 ≡ a
unfolding transition can_transition_to
completing-transition a s now e h = ground arith

-- A completed agent stays exactly as it is, unless a crash is attempted.
pub completing_absorbs :
    (a : Agent) (ts : List (AgentState × ℕ))
    → a.state ≡ completing
    → All IsOrderly ts
    → attempts a ts ≡ a
unfolding attempts
completing_absorbs a [] e h = refl
completing_absorbs a ((s, now) ∷ ts) e h =
    rw (completing-transition a s now e h.0) (completing_absorbs a ts e h.1)
