-- ===== src/Evolution.antt =====
-- The lessons of crates/ughi-evolution/src/lessons.rs. `str::to_lowercase` is a parameter; the failure rate, a
-- float, is left out. `none` of a text is the panic of a slice inside a character.
use Prim.Native.Nat.{◌-◌}
use Prim.Native.Char.{Char}
use Prim.Native.String as NativeString
use ughi.Prelude.{
  ℕ, ◌+◌, String, str_append, Bool, ◌||◌, Option, none, some, List, [], ◌∷◌, ◌++◌, leb, ltb,
  if◌then◌else◌, u64, length, keep, take, contains, byte_length, char_bytes,
}
use ughi.Prelude.Ids.{write_id}
pub mod Truncation
mod Tests

pub record Lesson : Type 0 where
  pub id : ℕ
  pub agent_id : String
  pub goal : String
  pub domain : String
  pub succeeded : Bool
  pub what_happened : String
  pub root_cause : String
  pub improvement : String
  pub rule : String
  pub timestamp_ms : ℕ
  pub times_applied : ℕ

pub record LessonStore : Type 0 where
  pub lessons : List Lesson
  pub next_id : ℕ

unfoldable pub new : LessonStore
new = record { lessons = []; next_id = 1 }

-- The four texts of a reflection.
pub record Reflection : Type 0 where
  pub what_happened : String
  pub root_cause : String
  pub improvement : String
  pub rule : String

-- The method `record`.
unfoldable pub add_lesson :
    LessonStore → String → String → String → Bool → Reflection → ℕ → LessonStore × ℕ
add_lesson s agent_id goal domain succeeded r now =
    let lesson : Lesson = record {
      id = s.next_id;
      agent_id = agent_id;
      goal = goal;
      domain = domain;
      succeeded = succeeded;
      what_happened = r.what_happened;
      root_cause = r.root_cause;
      improvement = r.improvement;
      rule = r.rule;
      timestamp_ms = now;
      times_applied = 0;
    } in
    (record { lessons = s.lessons ++ (lesson ∷ []); next_id = u64 (s.next_id + 1) }, s.next_id)

-- `&s[..n]`
unfoldable pub byte_prefix : String → ℕ → Option String
byte_prefix NativeString.[] n = if leb n 0 then some "" else none
byte_prefix (NativeString.◌∷◌ c s) n =
    let rest = byte_prefix s (n - char_bytes c) in
    if leb n 0
    then some ""
    else if ltb n (char_bytes c)
    then none
    else elim rest [ none ↦ none | some t ↦ some (NativeString.◌∷◌ c t) ]

unfoldable pub truncate : String → ℕ → Option String
truncate s limit =
    if ltb limit (byte_length s)
    then elim (byte_prefix s (limit - 3)) [ none ↦ none | some t ↦ some (str_append t "...") ]
    else some s

unfoldable pub classify_root_cause : (String → String) → String → Option String
classify_root_cause lower e0 =
    let e = lower e0 in
    if contains e "memory" || contains e "oom"
    then some "Memory budget exceeded – reduce working set"
    else if contains e "timeout"
    then some "Operation timed out – break into smaller steps"
    else if contains e "sandbox" || contains e "capability"
    then some "Sandbox violation – need additional capabilities"
    else if contains e "not found" || contains e "missing"
    then some "Missing resource – ensure prerequisites exist"
    else elim (truncate e0 60) [ none ↦ none | some t ↦ some (str_append "Unclassified error: " t) ]

unfoldable pub suggest_improvement : (String → String) → String → String
suggest_improvement lower e0 =
    let e = lower e0 in
    if contains e "memory"
    then "Use streaming, reduce batch size"
    else if contains e "timeout"
    then "Add checkpoints, increase timeout, parallelize"
    else if contains e "sandbox"
    then "Request explicit capability tokens before execution"
    else "Add error handling, retry with backoff"

unfoldable pub reflect_success : String → String → Option Reflection
reflect_success goal domain = elim (truncate goal 50) [
  | none ↦ none
  | some g ↦ some (record {
    what_happened = str_append "Task '" (str_append g "' completed successfully");
    root_cause = "Agent followed correct workflow with expert persona";
    improvement = "Reinforce this pattern for similar goals";
    rule = str_append "For '" (str_append domain "' goals, current approach works well");
  })
]

unfoldable pub reflect_failure : (String → String) → String → String → Option Reflection
reflect_failure lower goal error = elim (truncate goal 40) [
  | none ↦ none
  | some g ↦ elim (classify_root_cause lower error) [
    | none ↦ none
    | some cause ↦ elim (truncate error 30) [
      | none ↦ none
      | some short ↦ some (record {
        what_happened = str_append "Task '" (str_append g (str_append "' failed: " error));
        root_cause = cause;
        improvement = suggest_improvement lower error;
        rule =
            str_append "Avoid: "
              (str_append short (str_append " | Fix: " (suggest_improvement lower error)));
      })
    ]
  ]
]

-- `none` if a text is cut inside a character.
unfoldable pub auto_reflect :
    (String → String)
    → LessonStore
    → String
    → String
    → String
    → Bool
    → Option String
    → ℕ
    → Option (LessonStore × ℕ)
auto_reflect lower s agent_id goal domain succeeded error_msg now =
    let error : String = elim error_msg [ none ↦ "unknown error" | some e ↦ e ] in
    elim (if succeeded then reflect_success goal domain else reflect_failure lower goal error) [
      | none ↦ none
      | some r ↦ some (add_lesson s agent_id goal domain succeeded r now)
    ]

unfoldable pub search : (String → String) → LessonStore → String → List Lesson
search lower s query =
    let q = lower query in
    keep
      (λ l. contains (lower l.goal) q || (contains (lower l.domain) q || contains (lower l.rule) q))
      s.lessons

-- `sort_by` with the order turned round, which is stable.
unfoldable pub insert_by_applied : Lesson → List Lesson → List Lesson
insert_by_applied e [] = e ∷ []
insert_by_applied e (x ∷ xs) =
    let rest = insert_by_applied e xs in
    if leb x.times_applied e.times_applied then e ∷ x ∷ xs else x ∷ rest

unfoldable pub sort_by_applied : List Lesson → List Lesson
sort_by_applied [] = []
sort_by_applied (e ∷ es) = insert_by_applied e (sort_by_applied es)

unfoldable pub top_rules : LessonStore → ℕ → List Lesson
top_rules s n = take n (sort_by_applied s.lessons)

unfoldable pub apply_lesson : Lesson → Lesson
apply_lesson l = record l { times_applied = u64 (l.times_applied + 1) }

unfoldable pub mark_applied : LessonStore → ℕ → LessonStore
mark_applied s lesson_id = record s {
  lessons = write_id (λ l. l.id) lesson_id apply_lesson s.lessons;
}
