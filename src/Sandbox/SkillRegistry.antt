-- ===== src/Sandbox/SkillRegistry.antt =====
-- The table of skills of crates/ughi-wasm/src/skill_registry.rs.
use ughi.Prelude.{ℕ, String, Bool, true, false, List, [], ◌∷◌, Option, map, length}
use ughi.Prelude.Dict
use ughi.Prelude.Dict.{Dict}
use ughi.Sandbox.CapabilityManager.{CapabilityScope, default_scope}
use mathlib.Core.Option
pub mod Approved

pub record SkillDefinition : Type 0 where
  pub name : String
  pub description : String
  pub default_scope : CapabilityScope
  pub max_memory_bytes : ℕ
  pub cold_latency_ms : ℕ
  pub hot_latency_ms : ℕ
  pub needs_network : Bool
  pub needs_filesystem : Bool
  pub risk_level : ℕ

unfoldable pub browser_control : SkillDefinition
unfolding default_scope
browser_control = record {
  name = "browser_control";
  description = "Browser automation via headless Chromium";
  default_scope = record default_scope {
    allowed_hosts = "*" ∷ [];
    max_memory_bytes = 47185920;
    max_time_ms = 420;
  };
  max_memory_bytes = 47185920;
  cold_latency_ms = 420;
  hot_latency_ms = 80;
  needs_network = true;
  needs_filesystem = false;
  risk_level = 4;
}

unfoldable pub code_executor : SkillDefinition
unfolding default_scope
code_executor = record {
  name = "code_executor";
  description = "Execute code in sandboxed WASM environment";
  default_scope = record default_scope { max_memory_bytes = 47185920; max_time_ms = 420 };
  max_memory_bytes = 47185920;
  cold_latency_ms = 420;
  hot_latency_ms = 80;
  needs_network = false;
  needs_filesystem = false;
  risk_level = 5;
}

unfoldable pub web_search : SkillDefinition
unfolding default_scope
web_search = record {
  name = "web_search";
  description = "Search the web via DuckDuckGo API";
  default_scope = record default_scope {
    allowed_hosts = "api.duckduckgo.com" ∷ [];
    max_memory_bytes = 8388608;
    max_time_ms = 420;
    read_only = true;
  };
  max_memory_bytes = 8388608;
  cold_latency_ms = 420;
  hot_latency_ms = 80;
  needs_network = true;
  needs_filesystem = false;
  risk_level = 2;
}

unfoldable pub file_system : SkillDefinition
unfolding default_scope
file_system = record {
  name = "file_system";
  description = "Virtual filesystem with capability-gated access";
  default_scope = record default_scope {
    allowed_paths = "data/" ∷ "tmp/" ∷ [];
    max_memory_bytes = 16777216;
    max_time_ms = 200;
    read_only = false;
  };
  max_memory_bytes = 16777216;
  cold_latency_ms = 200;
  hot_latency_ms = 40;
  needs_network = false;
  needs_filesystem = true;
  risk_level = 3;
}

unfoldable pub memory_read_write : SkillDefinition
unfolding default_scope
memory_read_write = record {
  name = "memory_read_write";
  description = "Read/write agent memory (vector + SQLite)";
  default_scope = record default_scope { max_memory_bytes = 47185920; max_time_ms = 200 };
  max_memory_bytes = 47185920;
  cold_latency_ms = 200;
  hot_latency_ms = 40;
  needs_network = false;
  needs_filesystem = true;
  risk_level = 1;
}

unfoldable pub messaging : SkillDefinition
unfolding default_scope
messaging = record {
  name = "messaging";
  description = "Send messages via Email/Slack/Discord APIs";
  default_scope = record default_scope {
    allowed_hosts = "slack.com" ∷ "discord.com" ∷ "smtp.gmail.com" ∷ [];
    max_memory_bytes = 4194304;
    max_time_ms = 420;
  };
  max_memory_bytes = 4194304;
  cold_latency_ms = 420;
  hot_latency_ms = 80;
  needs_network = true;
  needs_filesystem = false;
  risk_level = 3;
}

unfoldable pub scheduler : SkillDefinition
unfolding default_scope
scheduler = record {
  name = "scheduler";
  description = "Schedule tasks via cron expressions";
  default_scope = record default_scope { max_memory_bytes = 2097152; max_time_ms = 100 };
  max_memory_bytes = 2097152;
  cold_latency_ms = 100;
  hot_latency_ms = 20;
  needs_network = false;
  needs_filesystem = false;
  risk_level = 2;
}

unfoldable pub self_critique : SkillDefinition
unfolding default_scope
self_critique = record {
  name = "self_critique";
  description = "Self-review via SLM reflection";
  default_scope = record default_scope { max_memory_bytes = 47185920; max_time_ms = 420 };
  max_memory_bytes = 47185920;
  cold_latency_ms = 420;
  hot_latency_ms = 80;
  needs_network = false;
  needs_filesystem = false;
  risk_level = 1;
}

unfoldable pub collaboration_vote : SkillDefinition
unfolding default_scope
collaboration_vote = record {
  name = "collaboration_vote";
  description = "Multi-agent consensus voting";
  default_scope = record default_scope {
    max_memory_bytes = 4194304;
    max_time_ms = 200;
    can_spawn = true;
  };
  max_memory_bytes = 4194304;
  cold_latency_ms = 200;
  hot_latency_ms = 40;
  needs_network = false;
  needs_filesystem = false;
  risk_level = 2;
}

unfoldable pub terminal_command : SkillDefinition
unfolding default_scope
terminal_command = record {
  name = "terminal_command";
  description = "Execute safe terminal commands (allowlisted)";
  default_scope = record default_scope {
    max_memory_bytes = 16777216;
    max_time_ms = 420;
    read_only = false;
  };
  max_memory_bytes = 16777216;
  cold_latency_ms = 420;
  hot_latency_ms = 80;
  needs_network = false;
  needs_filesystem = true;
  risk_level = 5;
}

pub record SkillRegistry : Type 0 where
  pub skills : Dict SkillDefinition

-- The keys are distinct, so the insertions append.
unfoldable pub new : SkillRegistry
unfolding default_scope browser_control code_executor web_search file_system memory_read_write
    messaging scheduler self_critique collaboration_vote terminal_command
new = record {
  skills =
      ("browser_control", browser_control)
      ∷ ("code_executor", code_executor)
      ∷ ("web_search", web_search)
      ∷ ("file_system", file_system)
      ∷ ("memory_read_write", memory_read_write)
      ∷ ("messaging", messaging)
      ∷ ("scheduler", scheduler)
      ∷ ("self_critique", self_critique)
      ∷ ("collaboration_vote", collaboration_vote)
      ∷ ("terminal_command", terminal_command)
      ∷ [];
}

unfoldable pub get : SkillRegistry → String → Option SkillDefinition
get r name = Dict.lookup name r.skills

unfoldable pub is_registered : SkillRegistry → String → Bool
is_registered r name = Dict.contains_key name r.skills

unfoldable pub list : SkillRegistry → List String
list r = map (λ e. e.0) r.skills

unfoldable pub count : SkillRegistry → ℕ
count r = length r.skills

unfoldable pub scope_of : SkillRegistry → String → Option CapabilityScope
scope_of r name = Option.map (λ (s : SkillDefinition). s.default_scope) (Dict.lookup name r.skills)
