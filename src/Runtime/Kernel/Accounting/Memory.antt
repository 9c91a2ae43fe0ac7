-- ===== src/Runtime/Kernel/Accounting/Memory.antt =====
-- The calls that allocate, free and reset memory, and the counter after any call.
use ughi.Prelude.{
  ℕ, ◌+◌, ◌≤◌, ◌<◌, ◌≡◌, refl, ap, ◌∙◌, eq_refl, String, true, some, ok, err, inl, inr, arith,
  Option-cases, Bool-cases, Result-cases,
}
use ughi.Prelude.Dict
use ughi.Prelude.Dict.{Dict, total-adjust, le-total, lookup-adjust}
use ughi.Runtime.Error.{RuntimeError}
use ughi.Runtime.AgentState.{spawned, crashed, state_eq}
use ughi.Runtime.AgentMemoryTracker
use ughi.Runtime.AgentMemoryTracker.{AgentMemoryTracker}
use ughi.Runtime.AgentMemoryTracker.Budget.{word}
use ughi.Runtime.SystemMemoryTracker
use ughi.Runtime.SystemMemoryTracker.{SystemMemoryTracker}
use ughi.Runtime.Agent
use ughi.Runtime.Agent.{Agent, memory_usage}
use ughi.Runtime.BinaryHeap.{BinaryHeap}
use ughi.Runtime.Scheduler
use ughi.Runtime.Kernel.{Kernel, shutdown}
use ughi.Runtime.Kernel.Transitions.{recover_agent, restart}
use ughi.Runtime.Kernel.Resources.{agent_allocate, agent_deallocate}
use ughi.Runtime.Kernel.Invariant.{IsValid}
use ughi.Runtime.Kernel.Calls.{
  Call, spawns, kills, transitions, recovers, ticks, grants, allocates, deallocates, shuts_down,
  step,
}
use ughi.Runtime.Kernel.Accounting.{
  used, usage-transition, IsAccounted, IsCareful, spawn-IsAccounted, kill-IsAccounted,
  transition_agent-IsAccounted, grant_capability-IsAccounted, scheduler_tick-IsAccounted,
}

-- What an allocation makes of the usage, while the sum is a word.
usage-granted :
    (t : AgentMemoryTracker) (bytes : ℕ) {u : Unit {0}}
    → t.current_bytes + bytes < word
    → (AgentMemoryTracker.allocate t bytes).1 ≡ ok u
    → (AgentMemoryTracker.allocate t bytes).0.current_bytes ≡ t.current_bytes + bytes
unfolding AgentMemoryTracker.allocate
usage-granted t bytes h r = ground arith

usage-refused :
    (t : AgentMemoryTracker) (bytes : ℕ) {x : RuntimeError}
    → t.current_bytes + bytes < word
    → (AgentMemoryTracker.allocate t bytes).1 ≡ err x
    → (AgentMemoryTracker.allocate t bytes).0.current_bytes ≡ t.current_bytes
unfolding AgentMemoryTracker.allocate
usage-refused t bytes h r = ground arith

module _ {Q : Type 0} ⦃h : BinaryHeap Q⦄ where
  agent_allocate-IsAccounted :
      (k : Kernel Q) (id : String) (bytes : ℕ)
      → used k.agents + bytes < word
      → IsAccounted k
      → IsAccounted (agent_allocate k id bytes).0
  unfolding agent_allocate SystemMemoryTracker.add_bytes memory_usage
  agent_allocate-IsAccounted k id bytes sum c = elim (Option-cases (Dict.lookup id k.agents)) [
    | inl n ↦ rw (n, agent_allocate) c
    | inr (a, e) ↦
        let t = AgentMemoryTracker.allocate a.memory_tracker bytes in
        let moved =
          total-adjust memory_usage id a (λ (b : Agent). record b { memory_tracker = t.0 }) k.agents
            e in
        let held = le-total memory_usage id a k.agents e in
        elim (Result-cases t.1) [
          | inl (u, r) ↦
              rw (e, r, agent_allocate)
                (omega
                  (arith, moved, held, usage-granted a.memory_tracker bytes (omega arith) r, c))
          | inr (x, r) ↦
              rw (e, r, agent_allocate)
                (omega
                  (arith, moved, held, usage-refused a.memory_tracker bytes (omega arith) r, c))
        ]
  ]

  agent_deallocate-IsAccounted :
      (k : Kernel Q) (id : String) (bytes : ℕ)
      → ((a : Agent) → Dict.lookup id k.agents ≡ some a → bytes ≤ memory_usage a)
      → IsAccounted k
      → IsAccounted (agent_deallocate k id bytes).0
  unfolding agent_deallocate SystemMemoryTracker.sub_bytes AgentMemoryTracker.deallocate
      memory_usage
  agent_deallocate-IsAccounted k id bytes enough c = elim (Option-cases (Dict.lookup id k.agents)) [
    | inl n ↦ rw (n, agent_deallocate) c
    | inr (a, e) ↦
        rw (e, agent_deallocate)
          (omega (
            arith,
            total-adjust memory_usage id a
                (λ (b : Agent). record b {
                  memory_tracker = AgentMemoryTracker.deallocate b.memory_tracker bytes;
                })
                k.agents e,
            enough a e,
            c,
          ))
  ]

  -- A recovery frees what the agent holds, and the counter keeps it.
  restart-usage :
      (k : Kernel Q) (id : String) (a : Agent) (now : ℕ)
      → Dict.lookup id k.agents ≡ some a
      → (used (restart k id a now).0.agents + memory_usage a ≡ used k.agents)
        × ((restart k id a now).0.system_memory ≡ k.system_memory)
        × ((b : Agent) × (Dict.lookup id (restart k id a now).0.agents ≡ some b)
            × (memory_usage b ≡ 0))
  unfolding restart AgentMemoryTracker.reset memory_usage
  restart-usage k id a now e =
      let cleared = record a { memory_tracker = AgentMemoryTracker.reset a.memory_tracker } in
      let m = Agent.transition cleared spawned now in
      let freed : used (Dict.adjust id (λ _. m.0) k.agents) + memory_usage a ≡ used k.agents =
        omega (
          arith,
          total-adjust memory_usage id a (λ _. m.0) k.agents e,
          usage-transition cleared spawned now,
        ) in
      let found : Dict.lookup id (Dict.adjust id (λ _. m.0) k.agents) ≡ some m.0 =
        lookup-adjust id id (λ _. m.0) k.agents ∙ rw (eq_refl id, e) refl in
      let empty : memory_usage m.0 ≡ 0 = usage-transition cleared spawned now in
      elim (Result-cases m.1) [
        | inl (u, t) ↦ elim (Result-cases (Scheduler.enqueue k.scheduler id a.priority).1) [
          | inl (w, q) ↦ rw (t, q, restart) (freed, refl, (m.0, found, empty))
          | inr (x, q) ↦ rw (t, q, restart) (freed, refl, (m.0, found, empty))
        ]
        | inr (x, t) ↦ rw (t, restart) (freed, refl, (m.0, found, empty))
      ]

  -- Where the system counter is the sum of what the agents hold, recovering a crashed agent leaves
  -- the agent with no memory in its own tracker and the system counter as it was, so right after
  -- the recovery the counter exceeds the usage of the agents by what this agent held.
  pub recover_agent-leaks :
      (k : Kernel Q) (id : String) (a : Agent) (now : ℕ)
      → Dict.lookup id k.agents ≡ some a
      → state_eq a.state crashed ≡ true
      → IsAccounted k
      → ((b : Agent) × (Dict.lookup id (recover_agent k id now).0.agents ≡ some b)
          × (memory_usage b ≡ 0))
        × ((recover_agent k id now).0.system_memory ≡ k.system_memory)
        × ((recover_agent k id now).0.system_memory.total_bytes
            ≡ used (recover_agent k id now).0.agents + memory_usage a)
  unfolding recover_agent
  recover_agent-leaks k id a now e c v =
      let (freed, same, own) = restart-usage k id a now e in
      rw (e, recover_agent, c)
        (
          own,
          same,
          omega (arith, freed, ap (λ (t : SystemMemoryTracker). t.total_bytes) same, v.counted),
        )

  recover_agent-IsAccounted :
      (k : Kernel Q) (id : String) (now : ℕ)
      → ((a : Agent) → Dict.lookup id k.agents ≡ some a → memory_usage a ≡ 0)
      → IsAccounted k
      → IsAccounted (recover_agent k id now).0
  unfolding recover_agent
  recover_agent-IsAccounted k id now nothing v = elim (Option-cases (Dict.lookup id k.agents)) [
    | inl n ↦ rw (n, recover_agent) v
    | inr (a, e) ↦ elim (Bool-cases (state_eq a.state crashed)) [
      | inl c ↦
          let (freed, same, own) = restart-usage k id a now e in
          rw (e, recover_agent, c)
            (omega
              (arith, freed, nothing a e, ap (λ (t : SystemMemoryTracker). t.total_bytes) same, v))
      | inr c ↦ rw (e, recover_agent, c) v
    ]
  ]

  -- Where the system counter is the sum of what the agents hold, freeing more than the agent holds,
  -- but no more than all hold, takes the excess off the system counter, at the expense of the other
  -- agents.
  pub agent_deallocate-undercounts :
      (k : Kernel Q) (id : String) (a : Agent) (bytes : ℕ)
      → Dict.lookup id k.agents ≡ some a
      → memory_usage a < bytes
      → bytes ≤ used k.agents
      → IsAccounted k
      → (agent_deallocate k id bytes).0.system_memory.total_bytes + bytes
        ≡ used (agent_deallocate k id bytes).0.agents + memory_usage a
  unfolding agent_deallocate SystemMemoryTracker.sub_bytes AgentMemoryTracker.deallocate
      memory_usage
  agent_deallocate-undercounts k id a bytes e over some_left v =
      rw (e, agent_deallocate)
        (omega (
          arith,
          total-adjust memory_usage id a
              (λ (b : Agent). record b {
                memory_tracker = AgentMemoryTracker.deallocate b.memory_tracker bytes;
              })
              k.agents e,
          v,
        ))

  -- On a valid kernel whose system counter is the sum of what the agents hold, a word, every call
  -- keeps it so, if an allocation keeps the sum a word, a deallocation does not exceed what the
  -- agent holds, and a recovery or a shutdown finds no memory held.
  pub step-IsAccounted :
      (k : Kernel Q) (c : Call) → IsValid k → IsCareful k c → IsAccounted k → IsAccounted (step k c)
  unfolding step shutdown
  step-IsAccounted k (spawns config id start now later) v careful a =
      spawn-IsAccounted k config id start now later a
  step-IsAccounted k (kills id now later) v careful a = kill-IsAccounted k id now later v a
  step-IsAccounted k (transitions id s now) v careful a = transition_agent-IsAccounted k id s now a
  step-IsAccounted k (recovers id now) v careful a = recover_agent-IsAccounted k id now careful a
  step-IsAccounted k ticks v careful a = scheduler_tick-IsAccounted k a
  step-IsAccounted k (grants id c) v careful a = grant_capability-IsAccounted k id c a
  step-IsAccounted k (allocates id bytes) v careful a =
      agent_allocate-IsAccounted k id bytes careful a
  step-IsAccounted k (deallocates id bytes) v careful a =
      agent_deallocate-IsAccounted k id bytes careful a
  step-IsAccounted k shuts_down v careful a = unfold Dict.total in omega (arith, a, careful)
