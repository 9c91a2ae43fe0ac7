-- ===== src/Integrations/Tests.antt =====
-- Background tasks on concrete calls.
use ughi.Prelude.{◌+◌, ◌<◌, ◌≢◌, true, List, [], ◌∷◌, arith, All}
use ughi.Integrations.{ProactiveManager, new, add_task, due_tasks, complete_task}
use ughi.Integrations.Due.{Call, adds, starts, completes, run, never_due_again}
use ughi.Prelude.Ids.{Distinct}

abbrev one_task : ProactiveManager
one_task = (add_task new "backup" "0 3 * * *" "back up" "ops").0

abbrev later_calls : List Call
later_calls = adds "report" "0 8 * * *" "report" "ops" ∷ starts 1 ∷ completes 2 true 70 ∷ []

its_own : Distinct (λ t. t.id) one_task.tasks
unfolding add_task new
its_own = (tt, tt)

given_out : 1 < one_task.next_id
unfolding add_task new
given_out = omega arith

no_wrap : one_task.next_id + 3 < 18446744073709551616
unfolding add_task new
no_wrap = omega arith

never_due_again_example :
    All (λ t. t.id ≢ 1) (due_tasks (run (complete_task one_task 1 true 60) later_calls))
never_due_again_example = never_due_again one_task 1 true 60 later_calls its_own given_out no_wrap
