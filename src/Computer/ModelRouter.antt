-- ===== src/Computer/ModelRouter.antt =====
-- The model router of crates/ughi-computer/src/router.rs. `str::to_lowercase` is a parameter of the detection, and an
-- estimated cost is in thousandths of a dollar.
use Prim.Native.Nat.{bit_xor}
use ughi.Prelude.{
  ℕ, zero, suc, ◌+◌, ◌*◌, ◌/◌, ◌%◌, String, Bool, true, false, ◌||◌, List, [], ◌∷◌, ◌++◌,
  if◌then◌else◌, u32, u64, length, contains, as_bytes,
}
use ughi.Prelude.Dict
use ughi.Prelude.Dict.{Dict}
pub mod Privacy
mod Tests

pub data ModelProvider : Type 0 where
  local_phi3 local_gemma2 local_llama1b local_mistral open_ai anthropic : ModelProvider
  google x_ai deep_seek meta mistral cohere : ModelProvider
  alibaba yi databricks ai21 reka inflection : ModelProvider
  microsoft : ModelProvider

unfoldable pub provider_name : ModelProvider → String
provider_name local_phi3 = "LocalPhi3"
provider_name local_gemma2 = "LocalGemma2"
provider_name local_llama1b = "LocalLlama1B"
provider_name local_mistral = "LocalMistral"
provider_name open_ai = "OpenAI"
provider_name anthropic = "Anthropic"
provider_name google = "Google"
provider_name x_ai = "XAI"
provider_name deep_seek = "DeepSeek"
provider_name meta = "Meta"
provider_name mistral = "Mistral"
provider_name cohere = "Cohere"
provider_name alibaba = "Alibaba"
provider_name yi = "Yi"
provider_name databricks = "Databricks"
provider_name ai21 = "AI21"
provider_name reka = "Reka"
provider_name inflection = "Inflection"
provider_name microsoft = "Microsoft"

pub data TaskCategory : Type 0 where
  reasoning coding research creative analysis quick : TaskCategory
  private_data multilingual vision long_context : TaskCategory

unfoldable pub detect : (String → String) → String → TaskCategory
detect lower prompt =
    let p = lower prompt in
    if contains p "private" || (contains p "secret" || contains p "confidential")
    then private_data
    else if contains p "code"
        || (contains p "build"
            || (contains p "debug"
                || (contains p "deploy" || (contains p "app" || contains p "api"))))
    then coding
    else if contains p "research"
        || (contains p "find" || (contains p "search" || contains p "analyze data"))
    then research
    else if contains p "write"
        || (contains p "blog"
            || (contains p "marketing" || (contains p "campaign" || contains p "creative")))
    then creative
    else if contains p "plan"
        || (contains p "architect" || (contains p "design system" || contains p "strategy"))
    then reasoning
    else if contains p "analyze"
        || (contains p "math" || (contains p "calculate" || contains p "statistics"))
    then analysis
    else if contains p "translate" || contains p "language"
    then multilingual
    else if contains p "image" || (contains p "video" || contains p "visual")
    then vision
    else quick

pub record RoutingDecision : Type 0 where
  pub primary : ModelProvider
  pub fallback : ModelProvider
  pub category : TaskCategory
  pub reason : String
  pub estimated_cost : ℕ
  pub estimated_latency_ms : ℕ

-- FNV-1a over the bytes of a name.
unfoldable pub fnv : ℕ → List ℕ → ℕ
fnv hash [] = hash
fnv hash (b ∷ bs) = fnv (u64 (bit_xor hash b * 0x100000001b3)) bs

-- `to_le_bytes` of a u64
unfoldable pub le_bytes : ℕ → ℕ → List ℕ
le_bytes zero n = []
le_bytes (suc k) n = (n % 256) ∷ le_bytes k (n / 256)

unfoldable pub derive_key : String → List ℕ
derive_key name =
    let hash = fnv 0xcbf29ce484222325 (as_bytes name) in
    le_bytes 8 hash
    ++ (le_bytes 8 (u64 (hash + 1)) ++ (le_bytes 8 (u64 (hash + 2)) ++ le_bytes 8 (u64 (hash + 3))))

unfoldable pub nth_byte : ℕ → List ℕ → ℕ
nth_byte i [] = 0
nth_byte zero (b ∷ bs) = b
nth_byte (suc i) (b ∷ bs) = nth_byte i bs

-- From index i on.
unfoldable pub xor_cipher : ℕ → List ℕ → List ℕ → List ℕ
xor_cipher i [] key = []
xor_cipher i (b ∷ bs) key = bit_xor b (nth_byte (i % 32) key) ∷ xor_cipher (i + 1) bs key

pub record EncryptedApiKey : Type 0 where
  pub encrypted : List ℕ
  pub name : String

unfoldable pub encrypt : String → String → EncryptedApiKey
encrypt provider plaintext = record {
  encrypted = xor_cipher 0 (as_bytes plaintext) (derive_key provider);
  name = provider;
}

-- The keys stand under the names of their providers.
pub record ModelRouter : Type 0 where
  pub api_keys : Dict EncryptedApiKey
  pub routes_decided : ℕ
  pub local_routes : ℕ
  pub cloud_routes : ℕ

unfoldable pub new : ModelRouter
new = record { api_keys = []; routes_decided = 0; local_routes = 0; cloud_routes = 0 }

unfoldable pub set_api_key : ModelRouter → ModelProvider → String → ModelRouter
set_api_key r provider key = record r {
  api_keys = Dict.insert (provider_name provider) (encrypt (provider_name provider) key) r.api_keys;
}

unfoldable pub has_key : ModelRouter → ModelProvider → Bool
has_key r provider = Dict.contains_key (provider_name provider) r.api_keys

unfoldable pub decide :
    TaskCategory → ModelProvider → ModelProvider → String → ℕ → ℕ → RoutingDecision
decide category primary fallback reason cost latency = record {
  primary = primary;
  fallback = fallback;
  category = category;
  reason = reason;
  estimated_cost = cost;
  estimated_latency_ms = latency;
}

-- The choice for a category; a private task has been decided before.
unfoldable pub choose : ModelRouter → TaskCategory → RoutingDecision
unfolding decide
choose r private_data =
    decide private_data local_phi3 local_gemma2
      "Private data — routed to local model (zero cloud exposure)" 0 2000
choose r reasoning =
    if has_key r anthropic
    then decide reasoning anthropic local_phi3 "Complex reasoning → Claude-3.5 (best CoT)" 15 3000
    else if has_key r open_ai
    then decide reasoning open_ai local_phi3 "Complex reasoning → GPT-4o" 10 2500
    else decide reasoning local_phi3 local_gemma2 "Complex reasoning → Phi-3 local (no cloud keys)"
        0 4000
choose r coding =
    if has_key r anthropic
    then decide coding anthropic local_phi3 "Code generation → Claude-3.5 Sonnet (best coder)" 15
        2000
    else if has_key r deep_seek
    then decide coding deep_seek local_phi3 "Code generation → DeepSeek-V3 (excellent coder)" 2 1500
    else decide coding local_phi3 local_mistral "Code generation → Phi-3 local" 0 3000
choose r research =
    if has_key r google
    then decide research google local_phi3 "Research → Gemini 2.0 (best search integration)" 5 2000
    else if has_key r x_ai
    then decide research x_ai local_phi3 "Research → Grok-3 (real-time web access)" 10 1500
    else decide research local_phi3 local_gemma2 "Research → Phi-3 local + web search skill" 0 5000
choose r creative =
    if has_key r anthropic
    then decide creative anthropic local_phi3 "Creative → Claude-3.5 (best creative writing)" 15
        3000
    else if has_key r open_ai
    then decide creative open_ai local_phi3 "Creative → GPT-4o" 10 2500
    else decide creative local_phi3 local_gemma2 "Creative → Phi-3 local" 0 4000
choose r analysis =
    if has_key r google
    then decide analysis google local_phi3 "Analysis → Gemini 2.0 (strong analytical)" 5 2000
    else decide analysis local_phi3 local_gemma2 "Analysis → Phi-3 local" 0 3000
choose r quick =
    if has_key r x_ai
    then decide quick x_ai local_gemma2 "Quick task → Grok-3-mini (fastest cloud)" 1 500
    else decide quick local_gemma2 local_llama1b "Quick task → Gemma-2 local (fast, small)" 0 800
choose r multilingual =
    if has_key r google
    then decide multilingual google local_phi3 "Multilingual → Gemini (100+ languages)" 5 2000
    else decide multilingual local_phi3 local_gemma2 "Multilingual → Phi-3 local" 0 3000
choose r vision =
    if has_key r google
    then decide vision google local_phi3 "Vision/Long-context → Gemini 2.0 (2M context)" 5 3000
    else if has_key r anthropic
    then decide vision anthropic local_phi3 "Vision/Long-context → Claude-3.5 (200K ctx)" 15 3000
    else decide vision local_phi3 local_gemma2 "Vision → Phi-3 local (limited)" 0 5000
choose r long_context =
    if has_key r google
    then decide long_context google local_phi3 "Vision/Long-context → Gemini 2.0 (2M context)" 5
        3000
    else if has_key r anthropic
    then decide long_context anthropic local_phi3 "Vision/Long-context → Claude-3.5 (200K ctx)" 15
        3000
    else decide long_context local_phi3 local_gemma2 "Vision → Phi-3 local (limited)" 0 5000

unfoldable pub is_local : ModelProvider → Bool
is_local local_phi3 = true
is_local local_gemma2 = true
is_local local_llama1b = true
is_local local_mistral = true
is_local open_ai = false
is_local anthropic = false
is_local google = false
is_local x_ai = false
is_local deep_seek = false
is_local meta = false
is_local mistral = false
is_local cohere = false
is_local alibaba = false
is_local yi = false
is_local databricks = false
is_local ai21 = false
is_local reka = false
is_local inflection = false
is_local microsoft = false

-- A private task is counted as local at once; the others by their primary model.
unfoldable pub route : (String → String) → ModelRouter → String → ModelRouter × RoutingDecision
route lower r prompt =
    let decision = choose r (detect lower prompt) in
    let decided = u64 (r.routes_decided + 1) in
    (
      if is_local decision.primary
          then record r { routes_decided = decided; local_routes = u64 (r.local_routes + 1) }
          else record r { routes_decided = decided; cloud_routes = u64 (r.cloud_routes + 1) },
      decision,
    )

unfoldable pub key_count : ModelRouter → ℕ
key_count r = length r.api_keys

pub record RouterMetrics : Type 0 where
  pub decided : ℕ
  pub local_count : ℕ
  pub cloud_count : ℕ
  pub api_keys_configured : ℕ

unfoldable pub metrics : ModelRouter → RouterMetrics
metrics r = record {
  decided = r.routes_decided;
  local_count = r.local_routes;
  cloud_count = r.cloud_routes;
  api_keys_configured = u32 (length r.api_keys);
}
