-- ===== src/Computer/ModelRouter/Privacy.antt =====
-- Where a task may go.
use ughi.Prelude.{
  String, ℕ, ◌+◌, ◌<◌, ◌≡◌, refl, sym, ◌∙◌, true, false, List, [], ◌∷◌, arith, inl, inr, Bool-cases,
  if_elim, length, contains, ◌||◌,
}
use mathlib.Core.Bool
use ughi.Computer.ModelRouter.{
  anthropic, open_ai, deep_seek, google, x_ai, ModelRouter, ModelProvider, TaskCategory,
  RoutingDecision, private_data, reasoning, coding, research, creative, analysis, quick,
  multilingual, vision, long_context, new, detect, has_key, decide, choose, is_local, route,
}

-- A decision that keeps to the keys: a model in the cloud is chosen only with its key, and costs only then.
pub record IsSafe (r : ModelRouter) (d : RoutingDecision) : Type 0 where
  pub keyed : is_local d.primary ≡ false → has_key r d.primary ≡ true
  pub backed : is_local d.fallback ≡ true
  pub free : is_local d.primary ≡ true → d.estimated_cost ≡ 0

in_cloud :
    (r : ModelRouter) (c : TaskCategory) (p f : ModelProvider) (reason : String) (cost latency : ℕ)
    → has_key r p ≡ true
    → is_local p ≡ false
    → is_local f ≡ true
    → IsSafe r (decide c p f reason cost latency)
unfolding decide
in_cloud r c p f reason cost latency h n l = record {
  keyed = λ _. h;
  backed = l;
  free = λ e. absurd (Bool.true≢false (sym e ∙ n));
}

at_home :
    (r : ModelRouter) (c : TaskCategory) (p f : ModelProvider) (reason : String) (latency : ℕ)
    → is_local p ≡ true
    → is_local f ≡ true
    → IsSafe r (decide c p f reason 0 latency)
unfolding decide
at_home r c p f reason latency h l = record {
  keyed = λ e. absurd (Bool.true≢false (sym h ∙ e));
  backed = l;
  free = λ _. refl;
}

choose-IsSafe : (r : ModelRouter) (c : TaskCategory) → IsSafe r (choose r c)
unfolding choose is_local
choose-IsSafe r private_data = at_home r private_data _ _ _ _ refl refl
choose-IsSafe r reasoning =
    if_elim (IsSafe r) (has_key r anthropic)
      (λ h. in_cloud r reasoning anthropic _ _ _ _ h refl refl)
      (λ h.
        if_elim (IsSafe r) (has_key r open_ai)
          (λ j. in_cloud r reasoning open_ai _ _ _ _ j refl refl)
          (λ j. at_home r reasoning _ _ _ _ refl refl))
choose-IsSafe r coding =
    if_elim (IsSafe r) (has_key r anthropic) (λ h. in_cloud r coding anthropic _ _ _ _ h refl refl)
      (λ h.
        if_elim (IsSafe r) (has_key r deep_seek)
          (λ j. in_cloud r coding deep_seek _ _ _ _ j refl refl)
          (λ j. at_home r coding _ _ _ _ refl refl))
choose-IsSafe r research =
    if_elim (IsSafe r) (has_key r google) (λ h. in_cloud r research google _ _ _ _ h refl refl)
      (λ h.
        if_elim (IsSafe r) (has_key r x_ai) (λ j. in_cloud r research x_ai _ _ _ _ j refl refl)
          (λ j. at_home r research _ _ _ _ refl refl))
choose-IsSafe r creative =
    if_elim (IsSafe r) (has_key r anthropic)
      (λ h. in_cloud r creative anthropic _ _ _ _ h refl refl)
      (λ h.
        if_elim (IsSafe r) (has_key r open_ai)
          (λ j. in_cloud r creative open_ai _ _ _ _ j refl refl)
          (λ j. at_home r creative _ _ _ _ refl refl))
choose-IsSafe r analysis =
    if_elim (IsSafe r) (has_key r google) (λ h. in_cloud r analysis google _ _ _ _ h refl refl)
      (λ h. at_home r analysis _ _ _ _ refl refl)
choose-IsSafe r quick =
    if_elim (IsSafe r) (has_key r x_ai) (λ h. in_cloud r quick x_ai _ _ _ _ h refl refl)
      (λ h. at_home r quick _ _ _ _ refl refl)
choose-IsSafe r multilingual =
    if_elim (IsSafe r) (has_key r google) (λ h. in_cloud r multilingual google _ _ _ _ h refl refl)
      (λ h. at_home r multilingual _ _ _ _ refl refl)
choose-IsSafe r vision =
    if_elim (IsSafe r) (has_key r google) (λ h. in_cloud r vision google _ _ _ _ h refl refl)
      (λ h.
        if_elim (IsSafe r) (has_key r anthropic)
          (λ j. in_cloud r vision anthropic _ _ _ _ j refl refl)
          (λ j. at_home r vision _ _ _ _ refl refl))
choose-IsSafe r long_context =
    if_elim (IsSafe r) (has_key r google) (λ h. in_cloud r long_context google _ _ _ _ h refl refl)
      (λ h.
        if_elim (IsSafe r) (has_key r anthropic)
          (λ j. in_cloud r long_context anthropic _ _ _ _ j refl refl)
          (λ j. at_home r long_context _ _ _ _ refl refl))

private_stays :
    (r : ModelRouter) (c : TaskCategory) → c ≡ private_data → is_local (choose r c).primary ≡ true
unfolding choose decide is_local
private_stays r c e = rw e refl

-- Every routed task has a local fallback, goes to a model in the cloud only if the router holds a key of its
-- provider, and costs nothing if it stays local.
pub route-IsSafe :
    (lower : String → String) (r : ModelRouter) (prompt : String)
    → IsSafe r (route lower r prompt).1
unfolding route
route-IsSafe lower r prompt = choose-IsSafe r (detect lower prompt)

-- A prompt that in lower case has one of the words private, secret and confidential goes to a local model with a
-- local fallback, at no cost, whatever keys the router holds.
pub route_private :
    (lower : String → String) (r : ModelRouter) (prompt : String)
    → (contains (lower prompt) "private"
        || (contains (lower prompt) "secret" || contains (lower prompt) "confidential"))
      ≡ true
    → (is_local (route lower r prompt).1.primary ≡ true)
      × (is_local (route lower r prompt).1.fallback ≡ true)
      × ((route lower r prompt).1.estimated_cost ≡ 0)
unfolding route detect
route_private lower r prompt h =
    let there : detect lower prompt ≡ private_data = rw (detect, h) refl in
    let home = private_stays r (detect lower prompt) there in
    let safe = choose-IsSafe r (detect lower prompt) in (home, safe.backed, safe.free home)

unfoldable pub run : (String → String) → ModelRouter → List String → ModelRouter
run lower r [] = r
run lower r (p ∷ ps) = run lower (route lower r p).0 ps

-- The counters of a router are in step with the number of its decisions.
record Counts (n : ℕ) (r : ModelRouter) : Type 0 where
  decided : r.routes_decided ≡ n
  split : r.local_routes + r.cloud_routes ≡ n

Counts-route :
    (lower : String → String) (r : ModelRouter) (prompt : String) (n : ℕ)
    → n + 1 < 18446744073709551616
    → Counts n r
    → Counts (n + 1) (route lower r prompt).0
unfolding route
Counts-route lower r prompt n b c =
    elim (Bool-cases (is_local (choose r (detect lower prompt)).primary)) [
      | inl l ↦
          rw (route, l)
            (record { decided = omega (arith, c.decided, b); split = omega (arith, c.split, b) })
      | inr l ↦
          rw (route, l)
            (record { decided = omega (arith, c.decided, b); split = omega (arith, c.split, b) })
    ]

Counts-run :
    (lower : String → String) (r : ModelRouter) (ps : List String) (n : ℕ)
    → n + length ps < 18446744073709551616
    → Counts n r
    → Counts (n + length ps) (run lower r ps)
unfolding run
Counts-run lower r [] n b c = record {
  decided = omega (arith, c.decided);
  split = omega (arith, c.split);
}
Counts-run lower r (p ∷ ps) n b c =
    let rest =
      Counts-run lower (route lower r p).0 ps (n + 1) (omega arith)
        (Counts-route lower r p n (omega arith) c) in
    record { decided = omega (arith, rest.decided); split = omega (arith, rest.split) }

-- After fewer than 2 ^ 64 routed tasks of a new router, the decisions are as many as the tasks, and the local and
-- the cloud routes add up to them.
pub route_counts :
    (lower : String → String) (ps : List String)
    → length ps < 18446744073709551616
    → ((run lower new ps).routes_decided ≡ length ps)
      × ((run lower new ps).local_routes + (run lower new ps).cloud_routes ≡ length ps)
unfolding new
route_counts lower ps b =
    let c =
      Counts-run lower new ps 0 (omega (arith, b)) (record { decided = refl; split = refl }) in
    (omega (arith, c.decided), omega (arith, c.split))
