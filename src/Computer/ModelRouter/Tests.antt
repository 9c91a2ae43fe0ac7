-- ===== src/Computer/ModelRouter/Tests.antt =====
-- The router on concrete prompts.
use ughi.Prelude.{String, ◌≡◌, refl, true, ◌||◌, List, [], ◌∷◌, contains, starts_with}
use ughi.Computer.ModelRouter.{
  ModelRouter, coding, new, set_api_key, anthropic, detect, is_local, route,
}
use ughi.Computer.ModelRouter.Privacy.{IsSafe, route-IsSafe, route_private}

abbrev with_claude : ModelRouter
with_claude = set_api_key new anthropic "sk-test"

detected : detect (λ s. s) "build a rest api" ≡ coding
unfolding detect contains starts_with
detected = refl

route-IsSafe_example : IsSafe with_claude (route (λ s. s) with_claude "build an app").1
route-IsSafe_example = route-IsSafe (λ s. s) with_claude "build an app"

secret_found :
    (contains "my secret app" "private"
      || (contains "my secret app" "secret" || contains "my secret app" "confidential"))
    ≡ true
unfolding contains starts_with
secret_found = refl

route_private_example :
    (is_local (route (λ s. s) with_claude "my secret app").1.primary ≡ true)
    × (is_local (route (λ s. s) with_claude "my secret app").1.fallback ≡ true)
    × ((route (λ s. s) with_claude "my secret app").1.estimated_cost ≡ 0)
route_private_example = route_private (λ s. s) with_claude "my secret app" secret_found

abbrev prompts : List String
prompts = "build an app" ∷ "my secret app" ∷ "what time is it" ∷ []
