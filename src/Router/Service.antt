-- ===== src/Router/Service.antt =====
-- src/tename/router/service.py and pricing.py. A rate counts cents per million tokens, as in
-- pricing.yaml, so that a cost in hundred-millionths of a dollar is exact where the code rounds floats.
use tename.Prelude.{
  ℕ, ◌+◌, ◌-◌, ◌*◌, ◌≡◌, refl, Option, none, some, List, [], ◌∷◌, String, str_eq, map,
  if◌then◌else◌, Result, ok, err, ◌>>=◌,
}
use tename.Router.Types.{ModelChunk, Usage, usage}
use tename.Router.Anthropic.{JsonReader, ToolBlocks}
use tename.Router.Anthropic.Streams.{AllAgree, read_chunk, stream_chunks_agree}
use tename.Router.Anthropic.Requests.{CachingConfig, Sampling}
use tename.Router.Anthropic.Retry.{
  ErrorHandling, Attempt, Opened, opened, failed, passed_through, chunks_of, stream,
  open_stream_with_retry,
}

pub record Pricing : Type 0 where
  pub input_per_million : ℕ
  pub output_per_million : ℕ
  pub cached_input_per_million : Option ℕ

abbrev pub PricingTable : Type 0
PricingTable = List (String × List (String × Pricing))

-- d.get(key)
abbrev pub lookup {ℓ} : {A : Type ℓ} → String → List (String × A) → Option A
lookup key [] = none
lookup key ((k, v) ∷ rest) = let later = lookup key rest in if str_eq k key then some v else later

abbrev lookup_in : String → Option (List (String × Pricing)) → Option Pricing
lookup_in model_id none = none
lookup_in model_id (some models) = lookup model_id models

-- An override wins over the table.
unfoldable pub lookup_pricing :
    PricingTable → (provider model_id : String) → Option Pricing → Option Pricing
lookup_pricing table provider model_id (some override) = some override
lookup_pricing table provider model_id none = lookup_in model_id (lookup provider table)

abbrev cached_rate : Pricing → ℕ
cached_rate p = elim p.cached_input_per_million [ none ↦ p.input_per_million | some r ↦ r ]

-- Subtraction stops at 0, as the code's `max` does.
unfoldable pub compute_cost_usd : Usage → Option Pricing → Option ℕ
compute_cost_usd u none = none
compute_cost_usd u (some p) = some (
    (u.input_tokens - u.cached_input_tokens) * p.input_per_million
    + u.cached_input_tokens * cached_rate p
    + (u.output_tokens + u.reasoning_tokens) * p.output_per_million)

abbrev pub with_cost : Usage → Option ℕ → ModelChunk
with_cost u none = usage u
with_cost u (some cost) = usage (record u { cost_usd = some cost })

-- The loop of `complete`, with _enrich_usage.
unfoldable pub enrich : Option Pricing → ModelChunk → ModelChunk
enrich pricing (usage u) = with_cost u (compute_cost_usd u pricing)
enrich pricing chunk = chunk

-- ValueError, for a provider that is not registered.
pub data RouterError : Type 0 where
  no_provider : RouterError

pub record ModelConfig : Type 0 where
  pub provider : String
  pub model_id : String

pub record RouterProfile : Type 0 where
  pub model : ModelConfig
  pub caching : CachingConfig
  pub sampling : Sampling
  pub error_handling : ErrorHandling
  pub pricing : Option Pricing

abbrev or_no_provider {ℓ} : {A : Type ℓ} → Option A → Result RouterError A
or_no_provider none = err no_provider
or_no_provider (some a) = ok a

-- A provider is what its `complete` yields for a profile.
unfoldable pub complete :
    PricingTable
    → (providers : List (String × (RouterProfile → List ModelChunk))) → RouterProfile
    → Result RouterError (List ModelChunk)
complete table providers profile =
    or_no_provider (lookup profile.model.provider providers) >>= λ provider. ok (
      map
        (enrich
          (lookup_pricing table profile.model.provider profile.model.model_id profile.pricing))
        (provider profile))

-- `AnthropicProvider.complete`.
abbrev pub anthropic :
    JsonReader → (failure_text : String → String) → (ℕ → Attempt) → RouterProfile → List ModelChunk
anthropic reader failure_text attempt_at profile =
    stream failure_text attempt_at reader profile.error_handling

module _ (reader : JsonReader) where
  enrich-AllAgree :
      (pricing : Option Pricing) (chunks : List ModelChunk) (calls : ToolBlocks)
      → AllAgree reader calls chunks
      → AllAgree reader calls (map (enrich pricing) chunks)
  unfolding enrich
  enrich-AllAgree pricing [] calls h = h
  enrich-AllAgree pricing (usage u ∷ cs) calls h =
      elim (compute_cost_usd u pricing)
        as (λ o. AllAgree reader calls (with_cost u o ∷ map (enrich pricing) cs)) [
          | none ↦ (tt, enrich-AllAgree pricing cs calls h.1)
          | some cost ↦ (tt, enrich-AllAgree pricing cs calls h.1)
        ]
  enrich-AllAgree pricing (c ∷ cs) calls h =
      (h.0, enrich-AllAgree pricing cs (read_chunk c calls) h.1)

  stream-AllAgree :
      (failure_text : String → String) (attempt_at : ℕ → Attempt) (o : Opened)
      → AllAgree reader [] (chunks_of failure_text attempt_at reader o)
  stream-AllAgree failure_text attempt_at (opened events ending) =
      stream_chunks_agree reader events ending
  stream-AllAgree failure_text attempt_at (failed message retryable code) = (tt, tt)
  stream-AllAgree failure_text attempt_at passed_through = tt

  -- Where the Anthropic provider is registered, a completion with it yields chunks in which each
  -- tool_call_delta is one of a call that is open, and each tool_call_end has the id and the name of
  -- its tool_call_start and as input what _safe_json_loads makes of the concatenation of the deltas
  -- of its index since then, whatever the attempts to open the stream and the stream come to.
  pub complete_agrees :
      (failure_text : String → String) (attempt_at : ℕ → Attempt) (table : PricingTable)
      (providers : List (String × (RouterProfile → List ModelChunk))) (profile : RouterProfile)
      → lookup profile.model.provider providers ≡ some (anthropic reader failure_text attempt_at)
      → (chunks : List ModelChunk) × (complete table providers profile ≡ ok chunks)
        × AllAgree reader [] chunks
  unfolding complete stream
  complete_agrees failure_text attempt_at table providers profile found = (
    _,
    rw (found, complete) refl,
    enrich-AllAgree
        (lookup_pricing table profile.model.provider profile.model.model_id profile.pricing) _ []
        (stream-AllAgree failure_text attempt_at
          (open_stream_with_retry failure_text attempt_at profile.error_handling).outcome),
  )
