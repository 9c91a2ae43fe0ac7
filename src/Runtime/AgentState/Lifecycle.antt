-- ===== src/Runtime/AgentState/Lifecycle.antt =====
-- The lifecycle diagram of an agent.
use ughi.Prelude.{◌||◌, ℕ, ◌+◌, ◌≤◌, ◌≡◌, true, List, [], ◌∷◌, arith}
use ughi.Runtime.AgentState.{
  AgentState, spawned, planning, tool_using, thinking, collaborating, reviewing, completing,
  crashed, can_transition_to, state_eq,
}

-- How far an agent has come: a lower bound on the transitions behind it.
abbrev pub progress : AgentState → ℕ
progress spawned = 0
progress planning = 1
progress tool_using = 2
progress thinking = 2
progress collaborating = 2
progress reviewing = 2
progress completing = 3
progress crashed = 0

pub progress-can_transition_to :
    (a b : AgentState) → can_transition_to a b ≡ true → progress b ≤ progress a + 1
unfolding can_transition_to
progress-can_transition_to a b h = ground arith

-- Every target of the list is allowed from the state before it.
abbrev pub Allowed : AgentState → List AgentState → Type 0
Allowed s [] = Unit
Allowed s (t ∷ ts) = (can_transition_to s t ≡ true) × Allowed t ts

abbrev pub last_state : AgentState → List AgentState → AgentState
last_state s [] = s
last_state s (t ∷ ts) = last_state t ts

-- A way to the end, from every state.
abbrev pub way_out : AgentState → List AgentState
way_out spawned = planning ∷ thinking ∷ completing ∷ []
way_out planning = thinking ∷ completing ∷ []
way_out tool_using = completing ∷ []
way_out thinking = completing ∷ []
way_out collaborating = reviewing ∷ completing ∷ []
way_out reviewing = completing ∷ []
way_out completing = []
way_out crashed = spawned ∷ planning ∷ thinking ∷ completing ∷ []

-- From every state, a crashed one included, the allowed transitions lead to `completing`.
pub way_out-Allowed :
    (s : AgentState) → Allowed s (way_out s) × (last_state s (way_out s) ≡ completing)
unfolding can_transition_to
way_out-Allowed spawned = ground arith
way_out-Allowed _ = ground arith

-- `completing` is left for `crashed` and nothing else, `crashed` for `spawned` and `crashed` and
-- nothing else.
pub exits_of_ends :
    (t : AgentState)
    → (can_transition_to completing t ≡ state_eq t crashed)
      × (can_transition_to crashed t ≡ (state_eq t spawned || state_eq t crashed))
unfolding can_transition_to
exits_of_ends t = ground arith
