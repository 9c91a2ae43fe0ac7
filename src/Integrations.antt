-- ===== src/Integrations.antt =====
-- The proactive manager of crates/ughi-integrations/src/proactive.rs.
use ughi.Prelude.{
  ℕ, ◌+◌, String, Bool, true, false, ◌&&◌, Option, none, some, List, [], ◌∷◌, ◌++◌, leb,
  if◌then◌else◌, u32, u64, sub_u64, length, count, keep,
}
use ughi.Prelude.Ids.{write_id}
pub mod Due
mod Tests

pub data BriefingSection : Type 0 where
  weather calendar task_summary news_digest evolution_report : BriefingSection
  custom_query : String → BriefingSection

pub record DailyBriefing : Type 0 where
  pub time_hour : ℕ
  pub time_minute : ℕ
  pub sections : List BriefingSection
  pub enabled : Bool

pub data TaskStatus : Type 0 where
  idle running completed failed : TaskStatus

abbrev pub is_idle : TaskStatus → Bool
is_idle idle = true
is_idle running = false
is_idle completed = false
is_idle failed = false

abbrev pub is_running : TaskStatus → Bool
is_running idle = false
is_running running = true
is_running completed = false
is_running failed = false

pub record BackgroundTask : Type 0 where
  pub id : ℕ
  pub name : String
  pub cron_expr : String
  pub goal : String
  pub expert_persona : String
  pub enabled : Bool
  pub last_run_ms : ℕ
  pub run_count : ℕ
  pub status : TaskStatus

pub record ProactiveManager : Type 0 where
  pub briefing : Option DailyBriefing
  pub tasks : List BackgroundTask
  pub heartbeat_interval_ms : ℕ
  pub last_heartbeat_ms : ℕ
  pub next_id : ℕ

unfoldable pub new : ProactiveManager
new = record {
  briefing = none;
  tasks = [];
  heartbeat_interval_ms = 60000;
  last_heartbeat_ms = 0;
  next_id = 1;
}

unfoldable pub set_briefing : ProactiveManager → ℕ → ℕ → List BriefingSection → ProactiveManager
set_briefing m hour minute sections = record m {
  briefing =
      some (record { time_hour = hour; time_minute = minute; sections = sections; enabled = true });
}

unfoldable pub add_task :
    ProactiveManager → String → String → String → String → ProactiveManager × ℕ
add_task m name cron_expr goal expert =
    let task : BackgroundTask = record {
      id = m.next_id;
      name = name;
      cron_expr = cron_expr;
      goal = goal;
      expert_persona = expert;
      enabled = true;
      last_run_ms = 0;
      run_count = 0;
      status = idle;
    } in
    (record m { next_id = u64 (m.next_id + 1); tasks = m.tasks ++ (task ∷ []) }, m.next_id)

unfoldable pub check_heartbeat : ProactiveManager → ℕ → ProactiveManager × Bool
check_heartbeat m now =
    if leb m.heartbeat_interval_ms (sub_u64 now m.last_heartbeat_ms)
    then (record m { last_heartbeat_ms = now }, true)
    else (m, false)

unfoldable pub is_due : BackgroundTask → Bool
is_due t = t.enabled && is_idle t.status

unfoldable pub due_tasks : ProactiveManager → List BackgroundTask
due_tasks m = keep is_due m.tasks

unfoldable pub set_running : BackgroundTask → BackgroundTask
set_running t = record t { status = running }

unfoldable pub start_task : ProactiveManager → ℕ → ProactiveManager
start_task m id = record m { tasks = write_id (λ t. t.id) id set_running m.tasks }

unfoldable pub finish : Bool → ℕ → BackgroundTask → BackgroundTask
finish succeeded now t = record t {
  status = if succeeded then completed else failed;
  run_count = u64 (t.run_count + 1);
  last_run_ms = now;
}

unfoldable pub complete_task : ProactiveManager → ℕ → Bool → ℕ → ProactiveManager
complete_task m id succeeded now = record m {
  tasks = write_id (λ t. t.id) id (finish succeeded now) m.tasks;
}

unfoldable pub total_runs : List BackgroundTask → ℕ
total_runs [] = 0
total_runs (t ∷ ts) = t.run_count + total_runs ts

pub record ProactiveMetrics : Type 0 where
  pub background_tasks : ℕ
  pub running_tasks : ℕ
  pub runs : ℕ
  pub briefing_enabled : Bool

unfoldable pub metrics : ProactiveManager → ProactiveMetrics
metrics m = record {
  background_tasks = u32 (length m.tasks);
  running_tasks = u32 (count (λ t. is_running t.status) m.tasks);
  runs = u64 (total_runs m.tasks);
  briefing_enabled = elim m.briefing [ none ↦ false | some b ↦ b.enabled ];
}
