-- ===== src/Integrations/Due.antt =====
-- When a background task is due.
use ughi.Prelude.{
  String, ℕ, ◌+◌, ◌≤◌, ◌<◌, ◌≡◌, ◌≢◌, refl, sym, ◌∙◌, Bool, true, false, List, [], ◌∷◌, ◌++◌, arith,
  inl, inr, Bool-cases, length, All, keep, leb, ◌==◌, sub_u64,
}
use ughi.Prelude.Ids.{write_id, Distinct}
use ughi.Integrations.{
  ProactiveManager, BackgroundTask, BriefingSection, is_idle, is_due, due_tasks, add_task,
  set_briefing, check_heartbeat, set_running, start_task, finish, complete_task,
}

pub data Call : Type 0 where
  adds : String → String → String → String → Call
  briefs : ℕ → ℕ → List BriefingSection → Call
  beats : ℕ → Call
  starts : ℕ → Call
  completes : ℕ → Bool → ℕ → Call

unfoldable pub step : ProactiveManager → Call → ProactiveManager
step m (adds name cron_expr goal expert) = (add_task m name cron_expr goal expert).0
step m (briefs hour minute sections) = set_briefing m hour minute sections
step m (beats now) = (check_heartbeat m now).0
step m (starts id) = start_task m id
step m (completes id succeeded now) = complete_task m id succeeded now

unfoldable pub run : ProactiveManager → List Call → ProactiveManager
run m [] = m
run m (c ∷ cs) = run (step m c) cs

-- No task with the id is idle.
abbrev Spent : ℕ → List BackgroundTask → Type 0
Spent k ts = All (λ t. t.id ≡ k → is_idle t.status ≡ false) ts

abbrev id_of : BackgroundTask → ℕ
id_of t = t.id

Spent-push :
    (k : ℕ) (ts : List BackgroundTask) (t : BackgroundTask)
    → t.id ≢ k
    → Spent k ts
    → Spent k (ts ++ (t ∷ []))
Spent-push k [] t n s = (λ e. absurd (n e), tt)
Spent-push k (x ∷ ts) t n s = (s.0, Spent-push k ts t n s.1)

Spent-write_id :
    (k j : ℕ) (f : BackgroundTask → BackgroundTask) (ts : List BackgroundTask)
    → ((t : BackgroundTask) → is_idle (f t).status ≡ false)
    → Spent k ts
    → Spent k (write_id id_of j f ts)
unfolding write_id
Spent-write_id k j f [] s h = h
Spent-write_id k j f (t ∷ ts) s h = elim (Bool-cases (t.id == j)) [
  | inl e ↦ rw e ((λ _. s t), h.1)
  | inr e ↦ rw e (h.0, Spent-write_id k j f ts s h.1)
]

others-Spent :
    (k : ℕ) (t : BackgroundTask) (ts : List BackgroundTask)
    → t.id ≡ k
    → All (λ u. t.id ≢ u.id) ts
    → Spent k ts
others-Spent k t [] e d = tt
others-Spent k t (u ∷ ts) e d = (λ f. absurd (d.0 (e ∙ sym f)), others-Spent k t ts e d.1)

written-Spent :
    (k : ℕ) (f : BackgroundTask → BackgroundTask) (ts : List BackgroundTask)
    → ((t : BackgroundTask) → is_idle (f t).status ≡ false)
    → Distinct id_of ts
    → Spent k (write_id id_of k f ts)
unfolding write_id
written-Spent k f [] s d = tt
written-Spent k f (t ∷ ts) s d = elim (Bool-cases (t.id == k)) [
  | inl e ↦ rw e ((λ _. s t), others-Spent k t ts (ground arith) d.0)
  | inr e ↦ rw e ((λ i. absurd (ground (arith, e, i))), written-Spent k f ts s d.1)
]

not_idle_finish :
    (succeeded : Bool) (now : ℕ) (t : BackgroundTask)
    → is_idle (finish succeeded now t).status ≡ false
unfolding finish
not_idle_finish true now t = refl
not_idle_finish false now t = refl

not_idle_running : (t : BackgroundTask) → is_idle (set_running t).status ≡ false
unfolding set_running
not_idle_running t = refl

-- A task that no call makes idle again.
record Past (k : ℕ) (m v : ProactiveManager) : Type 0 where
  spent : Spent k v.tasks
  given : k < v.next_id
  next : v.next_id ≤ m.next_id + 1

step-Past :
    (k : ℕ) (m : ProactiveManager) (c : Call)
    → m.next_id + 1 < 18446744073709551616
    → k < m.next_id
    → Spent k m.tasks
    → Past k m (step m c)
unfolding step add_task set_briefing check_heartbeat start_task complete_task
step-Past k m (adds name cron_expr goal expert) b g s = record {
  spent = Spent-push k m.tasks _ (λ e. omega (arith, e, g)) s;
  given = omega arith;
  next = omega arith;
}
step-Past k m (briefs hour minute sections) b g s = record {
  spent = s;
  given = g;
  next = omega arith;
}
step-Past k m (beats now) b g s =
    let same : Past k m m = record { spent = s; given = g; next = omega arith } in
    elim (Bool-cases (leb m.heartbeat_interval_ms (sub_u64 now m.last_heartbeat_ms))) [
      | inl e ↦ rw (step, check_heartbeat, e) (record { spent = s; given = g; next = omega arith })
      | inr e ↦ rw (step, check_heartbeat, e) same
    ]
step-Past k m (starts id) b g s = record {
  spent = Spent-write_id k id set_running m.tasks not_idle_running s;
  given = g;
  next = omega arith;
}
step-Past k m (completes id succeeded now) b g s = record {
  spent = Spent-write_id k id (finish succeeded now) m.tasks (not_idle_finish succeeded now) s;
  given = g;
  next = omega arith;
}

run-Spent :
    (k : ℕ) (m : ProactiveManager) (cs : List Call)
    → m.next_id + length cs < 18446744073709551616
    → k < m.next_id
    → Spent k m.tasks
    → Spent k (run m cs).tasks
unfolding run
run-Spent k m [] b g s = s
run-Spent k m (c ∷ cs) b g s =
    let one = step-Past k m c (omega arith) g s in
    run-Spent k (step m c) cs (omega (arith, one.next)) one.given one.spent

-- A due task is idle, so none of the due ones has the id.
due-Spent : (k : ℕ) (ts : List BackgroundTask) → Spent k ts → All (λ t. t.id ≢ k) (keep is_due ts)
unfolding is_due
due-Spent k [] s = tt
due-Spent k (t ∷ ts) s = elim (Bool-cases (is_due t)) [
  | inr e ↦ rw (is_due, e) (due-Spent k ts s.1)
  | inl e ↦ rw (is_due, e) ((λ i. absurd (ground (arith, s.0 i, e))), due-Spent k ts s.1)
]

-- Once a task is completed, whether it succeeded or failed, no calls make it due again, while the ids do not
-- wrap: the tasks have ids of their own, and the task's id is given out.
pub never_due_again :
    (m : ProactiveManager) (k : ℕ) (succeeded : Bool) (now : ℕ) (cs : List Call)
    → Distinct (λ t. t.id) m.tasks
    → k < m.next_id
    → m.next_id + length cs < 18446744073709551616
    → All (λ t. t.id ≢ k) (due_tasks (run (complete_task m k succeeded now) cs))
unfolding complete_task due_tasks
never_due_again m k succeeded now cs d g b = due-Spent k _ (
    run-Spent k (complete_task m k succeeded now) cs b g
      (written-Spent k (finish succeeded now) m.tasks (not_idle_finish succeeded now) d))
