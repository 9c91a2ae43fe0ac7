-- ===== src/SkillsRegistry/Catalog.antt =====
-- The categories and the table of the top skills, of `load_top_cache` in
-- crates/ughi-skills-registry/src/client.rs.
use ughi.Prelude.{ℕ, String, List, [], ◌∷◌, ◌++◌}

pub data SkillCategory : Type 0 where
  frontend backend dev_ops ai data_science security mobile design testing infra : SkillCategory
  database auth payments analytics general : SkillCategory

-- The position of a category, and its text.
unfoldable pub position : SkillCategory → ℕ
position frontend = 0
position backend = 1
position dev_ops = 2
position ai = 3
position data_science = 4
position security = 5
position mobile = 6
position design = 7
position testing = 8
position infra = 9
position database = 10
position auth = 11
position payments = 12
position analytics = 13
position general = 14

unfoldable pub category_text : SkillCategory → String
category_text frontend = "Frontend"
category_text backend = "Backend"
category_text dev_ops = "DevOps"
category_text ai = "AI"
category_text data_science = "Data"
category_text security = "Security"
category_text mobile = "Mobile"
category_text design = "Design"
category_text testing = "Testing"
category_text infra = "Infra"
category_text database = "Database"
category_text auth = "Auth"
category_text payments = "Payments"
category_text analytics = "Analytics"
category_text general = "General"

pub record TopSkill : Type 0 where
  pub slug : String
  pub description : String
  pub author : String
  pub category : SkillCategory
  pub installs : ℕ

abbrev top : String → String → String → SkillCategory → ℕ → TopSkill
top slug description author category installs = record {
  slug = slug;
  description = description;
  author = author;
  category = category;
  installs = installs;
}

unfoldable pub first_skills : List TopSkill
first_skills =
    top "vercel-react-best-practices" "React best practices by Vercel" "vercel" frontend 48721
    ∷ top "nextjs-app-router" "Next.js 15 App Router patterns" "vercel" frontend 45312
    ∷ top "tailwind-v4-migration" "Tailwind CSS v4 migration guide" "tailwindlabs" frontend 42156
    ∷ top "typescript-strict-mode" "TypeScript strict config" "microsoft" frontend 39887
    ∷ top "cursor-rules" "Cursor AI rules and patterns" "cursor" ai 38540
    ∷ top "shadcn-ui-patterns" "shadcn/ui component patterns" "shadcn" frontend 36221
    ∷ top "rust-performance-patterns" "Rust zero-cost abstractions" "rust-lang" backend 34100
    ∷ top "docker-production-guide" "Docker multi-stage builds" "docker" dev_ops 31890
    ∷ top "openai-prompt-engineering" "Advanced prompt engineering" "openai" ai 30445
    ∷ top "supabase-auth-patterns" "Supabase auth + RLS patterns" "supabase" backend 28776
    ∷ top "kubernetes-autoscaling" "K8s HPA + VPA autoscaling" "kubernetes" dev_ops 27341
    ∷ top "langchain-rag-pipeline" "RAG pipeline with LangChain" "langchain" ai 26100
    ∷ top "prisma-schema-design" "Prisma schema best practices" "prisma" database 24890
    ∷ top "playwright-e2e-testing" "Playwright end-to-end testing" "microsoft" testing 23445
    ∷ top "github-actions-ci" "GitHub Actions CI/CD pipelines" "github" dev_ops 22100
    ∷ top "aws-lambda-serverless" "AWS Lambda serverless patterns" "aws" infra 21567
    ∷ top "figma-to-code" "Design-to-code conversion" "figma" design 20321
    ∷ top "react-native-expo" "React Native + Expo guide" "expo" mobile 19870
    ∷ top "graphql-schema-first" "GraphQL schema-first dev" "graphql" backend 18654
    ∷ top "security-owasp-top10" "OWASP Top 10 prevention" "owasp" security 17890
    ∷ []

unfoldable pub second_skills : List TopSkill
second_skills =
    top "python-fastapi-patterns" "FastAPI async patterns" "tiangolo" backend 16543
    ∷ top "deno-fresh-fullstack" "Deno Fresh full-stack" "deno" frontend 15210
    ∷ top "stripe-payments-v2" "Stripe Payments integration" "stripe" payments 14321
    ∷ top "clerk-auth-nextjs" "Clerk auth for Next.js" "clerk" auth 13890
    ∷ top "drizzle-orm-patterns" "Drizzle ORM query patterns" "drizzle" database 13210
    ∷ top "astro-v4-guide" "Astro v4 framework guide" "astro" frontend 12567
    ∷ top "svelte-5-runes" "Svelte 5 runes patterns" "svelte" frontend 11890
    ∷ top "vue-3-composition" "Vue 3 Composition API patterns" "vue" frontend 11321
    ∷ top "go-microservices" "Go microservice patterns" "google" backend 10890
    ∷ top "terraform-aws-modules" "Terraform AWS modules" "hashicorp" infra 10543
    ∷ top "angular-signals" "Angular signals + standalone" "google" frontend 10210
    ∷ top "redis-caching-patterns" "Redis caching strategies" "redis" database 9876
    ∷ top "elasticsearch-search" "Elasticsearch full-text search" "elastic" data_science 9543
    ∷ top "kafka-event-streaming" "Kafka event-driven arch" "apache" backend 9210
    ∷ top "remix-fullstack" "Remix full-stack web dev" "shopify" frontend 8876
    ∷ top "flutter-material3" "Flutter Material 3 patterns" "google" mobile 8543
    ∷ top "mongodb-aggregation" "MongoDB aggregation pipeline" "mongodb" database 8210
    ∷ top "prometheus-monitoring" "Prometheus + Grafana monitoring" "prometheus" dev_ops 7890
    ∷ top "nginx-reverse-proxy" "Nginx reverse proxy + SSL" "nginx" infra 7654
    ∷ top "firebase-realtime" "Firebase realtime + Firestore" "google" backend 7321
    ∷ []

unfoldable pub third_skills : List TopSkill
third_skills =
    top "jest-testing-patterns" "Jest unit testing patterns" "meta" testing 7100
    ∷ top "cypress-component-test" "Cypress component testing" "cypress" testing 6876
    ∷ top "auth0-integration" "Auth0 identity platform" "auth0" auth 6654
    ∷ top "vercel-ai-sdk" "Vercel AI SDK patterns" "vercel" ai 6432
    ∷ top "anthropic-claude-api" "Claude API best practices" "anthropic" ai 6210
    ∷ top "cloudflare-workers" "Cloudflare Workers edge" "cloudflare" infra 5987
    ∷ top "turbopack-migration" "Turbopack build migration" "vercel" dev_ops 5765
    ∷ top "biome-linting" "Biome linting + formatting" "biomejs" testing 5543
    ∷ top "htmx-patterns" "HTMX hypermedia patterns" "bigskysoftware" frontend 5321
    ∷ top "bun-runtime" "Bun runtime + package manager" "oven" backend 5100
    ∷ []

unfoldable pub top_skills : List TopSkill
unfolding first_skills second_skills third_skills
top_skills = first_skills ++ (second_skills ++ third_skills)

unfoldable pub verified_authors : List String
verified_authors =
    "vercel" ∷ "microsoft" ∷ "rust-lang" ∷ "docker" ∷ "aws" ∷ "github" ∷ "google" ∷ "meta"
    ∷ "openai" ∷ "anthropic" ∷ "stripe" ∷ "cloudflare" ∷ []
