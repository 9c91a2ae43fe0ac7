-- ===== src/Lib.antt =====
-- The core of UGHI, an operating layer for agents: the runtime that owns the agents, the
-- zero-trust sandbox that guards their skills, the registry that installs skills behind an
-- integrity gate, the agents' memory, and the workflows and model routing of the computer agent.
--
-- The runtime (crates/ughi-runtime/src) keeps a pool of agents, a priority queue of those that are
-- to run, a memory tracker for each agent and one for the system, and counters. Its methods are
-- async, and each holds the mutex of the inner state throughout, so a run of the runtime is a
-- sequence of whole calls; only `run_agent` is several calls. The resource governor keeps the number
-- of active agents at a limit and holds the states of the others. The sandbox (crates/ughi-wasm/src)
-- runs a skill for an agent after it has asked the violation tracker whether the agent is in
-- quarantine, the registry whether the skill is approved, and the capability manager whether the
-- agent holds a live token for it. The registry client (crates/ughi-skills-registry/src) installs a
-- skill only after the verifier has passed its SHA-256 hash, its signature and its scan. The memory
-- (crates/ughi-memory/src) keeps entries in RAM under two budgets, and the often read ones go to
-- SQLite as well. The computer agent (crates/ughi-computer/src) runs workflows step by step and
-- routes each task to a local model or one in the cloud.
--
-- Files and code:
-- Prelude: lists, dictionaries (a HashMap with String keys, in insertion order; a HashMap's
--   iteration order is not modelled), `Result`, machine words. `Prelude/Dict/Retain` has values_mut
--   and retain.
-- Runtime/AgentState, Runtime/Agent: crates/ughi-runtime/src/agent.rs. Agent::new is `Agent.new`;
--   a transition gives the new agent and the result.
-- Runtime/AgentMemoryTracker, Runtime/SystemMemoryTracker: crates/ughi-runtime/src/memory.rs.
-- Runtime/RuntimeMetrics: crates/ughi-runtime/src/metrics.rs.
-- Runtime/SchedulerEntry, Runtime/Scheduler: crates/ughi-runtime/src/scheduler.rs. The standard
--   library's BinaryHeap is the interface Runtime/BinaryHeap, and Runtime/ListHeap meets it.
--   Scheduler/Starvation runs any list of calls.
-- Runtime/Kernel: crates/ughi-runtime/src/runtime.rs. A `Kernel` is the state behind `Runtime`; the
--   methods are functions from a kernel to a kernel and a result, in Kernel, Kernel/Transitions,
--   Kernel/Ticks, Kernel/Resources and Kernel/RunAgent. Kernel/Calls runs any list of calls.
-- Runtime/ResourceGovernor: crates/ughi-runtime/src/hibernation.rs.
-- Sandbox/CapabilityManager: crates/ughi-wasm/src/capability.rs.
-- Sandbox/ViolationTracker: crates/ughi-wasm/src/violation.rs; the method `record` is `register`.
-- Sandbox/SkillRegistry: crates/ughi-wasm/src/skill_registry.rs; `default_scope` of a name is
--   `scope_of`.
-- Sandbox/ResourceTracker: crates/ughi-wasm/src/resource.rs.
-- Sandbox/SandboxEngine: crates/ughi-wasm/src/sandbox.rs. wasmtime's set_fuel and the texts of errors
--   are parameters, a payload is its length as JSON, and the output is its numbers.
-- Runtime/SelfHealing: crates/ughi-runtime/src/healing.rs; SelfHealing/Streak runs any list of crashes
--   and recoveries.
-- SkillsRegistry/Sha256, SkillsRegistry/IntegrityVerifier: crates/ughi-skills-registry/src/integrity.rs.
--   Sha256/Streaming and Sha256/Padding compare the hasher with one that takes a byte at a time;
--   IntegrityVerifier/Gate has the checks of `verify`, and IntegrityVerifier/Rules the rules
--   that they amount to.
-- SkillsRegistry/Catalog, SkillsRegistry/SkillsShClient: crates/ughi-skills-registry/src/client.rs.
-- Memory/Types, Memory/ShortTerm, Memory/Namespace, Memory/MemoryStore: types.rs and error.rs,
--   short_term.rs, namespace.rs, lib.rs with pruning.rs, of crates/ughi-memory/src. The long-term tier
--   is the record `LongTerm` of the methods that the facade calls.
-- Computer/Workflow, Computer/ModelRouter: crates/ughi-computer/src/workflow.rs and router.rs.
-- Marketplace: crates/ughi-marketplace/src/registry.rs. Workflows: crates/ughi-workflows/src/composer.rs.
-- Evolution: crates/ughi-evolution/src/lessons.rs; a slice that panics is `none`.
-- Fleet: crates/ughi-fleet/src/manager.rs. Integrations: crates/ughi-integrations/src/proactive.rs. The lists
--   with ids of both go through Prelude/Ids.
-- Runtime/Error, Sandbox/Error: crates/ughi-runtime/src/error.rs, crates/ughi-wasm/src/error.rs.
--
-- Numbers: u32 and u64 values are natural numbers; an addition of the source wraps where it can
-- leave the type (`u32`, `u64`, `sub_u64`), a saturating subtraction is the one of the natural
-- numbers, and a fetch_sub wraps. A theorem that needs the absence of a wrap says so in a
-- hypothesis. Two loops of the SHA-256 hasher run on fuel: `update_loop` has as many turns as
-- there are bytes, and each turn takes one or more; `pad_loop` has 64 turns, and at most 63 zeros are
-- padded. The other loops go over lists.
--
-- Arguments in place of effects: the clock (`now`, `later`, or a function of the reading), the id of
-- a new agent and of a new token, the opened database, `str::to_lowercase`, and the JSON of a
-- checkpoint. Not modelled: log lines, Display texts of whole records, floats (usage_percent, ratings,
-- costs of workflows, similarity search, relevance scores), the encryption of hibernated states (ring,
-- serde_json), the SQL of the long-term tier, the inspection of WASM modules (execute_wasm_module),
-- backups, and the crates around this core (inference, skills, the patterns of the evolution crate,
-- expert personas, desktop, command line).
pub mod Prelude
pub mod Runtime
pub mod Sandbox
pub mod Computer
pub mod Evolution
pub mod Fleet
pub mod Integrations
pub mod Marketplace
pub mod Memory
pub mod SkillsRegistry
pub mod Workflows
