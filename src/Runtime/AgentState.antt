-- ===== src/Runtime/AgentState.antt =====
-- `AgentState` and `AgentPriority` of crates/ughi-runtime/src/agent.rs.
pub mod Lifecycle
use ughi.Prelude.{ℕ, String, Bool, true, false, ◌==◌, if◌then◌else◌}

pub data AgentState : Type 0 where
  spawned planning tool_using thinking collaborating reviewing completing crashed : AgentState

-- The discriminants of `repr(u8)`.
abbrev pub discriminant : AgentState → ℕ
discriminant spawned = 0
discriminant planning = 1
discriminant tool_using = 2
discriminant thinking = 3
discriminant collaborating = 4
discriminant reviewing = 5
discriminant completing = 6
discriminant crashed = 7

-- The derived `==`.
abbrev pub state_eq : AgentState → AgentState → Bool
state_eq a b = discriminant a == discriminant b

-- The pairs of the `matches!`.
unfoldable pub is_listed : AgentState → AgentState → Bool
is_listed spawned planning = true
is_listed planning tool_using = true
is_listed planning thinking = true
is_listed planning collaborating = true
is_listed tool_using planning = true
is_listed tool_using thinking = true
is_listed tool_using reviewing = true
is_listed tool_using completing = true
is_listed thinking planning = true
is_listed thinking tool_using = true
is_listed thinking reviewing = true
is_listed thinking collaborating = true
is_listed thinking completing = true
is_listed collaborating planning = true
is_listed collaborating thinking = true
is_listed collaborating reviewing = true
is_listed reviewing planning = true
is_listed reviewing tool_using = true
is_listed reviewing completing = true
is_listed _ _ = false

unfoldable pub can_transition_to : AgentState → AgentState → Bool
unfolding is_listed
can_transition_to self target =
    if state_eq target crashed
    then true
    else if state_eq self crashed
    then state_eq target spawned
    else if state_eq self completing
    then false
    else is_listed self target

unfoldable pub as_str : AgentState → String
as_str spawned = "spawned"
as_str planning = "planning"
as_str tool_using = "tool_using"
as_str thinking = "thinking"
as_str collaborating = "collaborating"
as_str reviewing = "reviewing"
as_str completing = "completing"
as_str crashed = "crashed"

pub data AgentPriority : Type 0 where
  background low normal high critical : AgentPriority

-- The order of the derived `Ord`.
abbrev pub rank : AgentPriority → ℕ
rank background = 0
rank low = 1
rank normal = 2
rank high = 3
rank critical = 4

-- `AgentPriority::default`
abbrev pub default_priority : AgentPriority
default_priority = normal

-- The text of `Display`.
unfoldable pub priority_name : AgentPriority → String
priority_name background = "background"
priority_name low = "low"
priority_name normal = "normal"
priority_name high = "high"
priority_name critical = "critical"
