-- ===== src/Fleet.antt =====
-- The fleet manager of crates/ughi-fleet/src/manager.rs. `show` writes a number in decimal.
use ughi.Prelude.{
  ℕ, ◌+◌, ◌%◌, String, str_append, Bool, true, false, Option, none, some, List, [], ◌∷◌, ◌++◌, ◌==◌,
  if◌then◌else◌, u32, u64, length, count, any, find,
}
use ughi.Prelude.Ids.{write_id}
pub mod Identity
mod Tests

pub data InstanceStatus : Type 0 where
  running stopped cloning error : InstanceStatus

abbrev pub is_running : InstanceStatus → Bool
is_running running = true
is_running stopped = false
is_running cloning = false
is_running error = false

pub record FleetInstance : Type 0 where
  pub id : ℕ
  pub name : String
  pub host : String
  pub port : ℕ
  pub status : InstanceStatus
  pub agents_active : ℕ
  pub agents_total : ℕ
  pub memory_mb : ℕ
  pub uptime_ms : ℕ
  pub version : String

pub record FleetManager : Type 0 where
  pub instances : List FleetInstance
  pub next_id : ℕ

unfoldable pub new : FleetManager
new = record { instances = []; next_id = 1 }

-- `8080 + (id as u16 - 1)`, on u16
unfoldable pub local_port : ℕ → ℕ
local_port id = (8080 + (id % 65536 + 65535) % 65536) % 65536

unfoldable pub fresh : FleetManager → String → String → ℕ → String → FleetManager
fresh m name host port version =
    let instance_at : FleetInstance = record {
      id = m.next_id;
      name = name;
      host = host;
      port = port;
      status = running;
      agents_active = 0;
      agents_total = 0;
      memory_mb = 180;
      uptime_ms = 0;
      version = version;
    } in
    record { instances = m.instances ++ (instance_at ∷ []); next_id = u64 (m.next_id + 1) }

unfoldable pub register_local : (ℕ → String) → FleetManager → String → FleetManager × ℕ
register_local show m version = (
  fresh m (str_append "local-" (show m.next_id)) "127.0.0.1" (local_port m.next_id) version,
  m.next_id,
)

abbrev pub has_id : ℕ → FleetInstance → Bool
has_id k i = i.id == k

unfoldable pub clone_instance :
    (ℕ → String) → FleetManager → ℕ → String → ℕ → FleetManager × Option ℕ
clone_instance show m source_id target_host target_port =
    elim (find (has_id source_id) m.instances) [
      | none ↦ (m, none)
      | some source ↦ (
        fresh m (str_append "clone-" (show m.next_id)) target_host target_port source.version,
        some m.next_id,
      )
    ]

unfoldable pub set_metrics : ℕ → ℕ → ℕ → FleetInstance → FleetInstance
set_metrics active total memory_mb i = record i {
  agents_active = active;
  agents_total = total;
  memory_mb = memory_mb;
}

unfoldable pub update_metrics : FleetManager → ℕ → ℕ → ℕ → ℕ → FleetManager
update_metrics m id active total memory_mb = record m {
  instances = write_id (λ i. i.id) id (set_metrics active total memory_mb) m.instances;
}

unfoldable pub set_stopped : FleetInstance → FleetInstance
set_stopped i = record i { status = stopped }

unfoldable pub stop : FleetManager → ℕ → FleetManager × Bool
stop m id =
    if any (has_id id) m.instances
    then (record m { instances = write_id (λ i. i.id) id set_stopped m.instances }, true)
    else (m, false)

-- The sums over the running instances, and over all.
unfoldable pub active_agents : List FleetInstance → ℕ
active_agents [] = 0
active_agents (i ∷ is) = (if is_running i.status then i.agents_active else 0) + active_agents is

unfoldable pub all_agents : List FleetInstance → ℕ
all_agents [] = 0
all_agents (i ∷ is) = i.agents_total + all_agents is

unfoldable pub running_memory : List FleetInstance → ℕ
running_memory [] = 0
running_memory (i ∷ is) = (if is_running i.status then i.memory_mb else 0) + running_memory is

unfoldable pub fleet_agents : FleetManager → ℕ × ℕ
fleet_agents m = (u32 (active_agents m.instances), u64 (all_agents m.instances))

unfoldable pub fleet_memory_mb : FleetManager → ℕ
fleet_memory_mb m = u32 (running_memory m.instances)

pub record FleetMetrics : Type 0 where
  pub instance_count : ℕ
  pub running_count : ℕ
  pub total_agents_active : ℕ
  pub total_agents_all : ℕ
  pub total_memory_mb : ℕ

unfoldable pub metrics : FleetManager → FleetMetrics
metrics m = record {
  instance_count = u32 (length m.instances);
  running_count = u32 (count (λ i. is_running i.status) m.instances);
  total_agents_active = (fleet_agents m).0;
  total_agents_all = (fleet_agents m).1;
  total_memory_mb = fleet_memory_mb m;
}
