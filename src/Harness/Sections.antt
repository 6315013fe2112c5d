-- ===== src/Harness/Sections.antt =====
-- The sections of a profile that the model router reads, of src/tename/router/types.py, with the bounds
-- that pydantic checks. A float stands for its text, and how floats compare is a parameter.
use tename.Prelude.{
  ◌≡◌, ◌<◌, ◌↔◌, ◌⊎◌, Bool, true, ◌&&◌, ◌||◌, Option, String, str_eq, eq_iff, ltb, arith,
}
use tename.Router.Anthropic.Requests.{CachingConfig, Sampling}
use tename.Router.Anthropic.Retry.{ErrorHandling}
use tename.Router.Service.{ModelConfig, Pricing, RouterProfile}

-- `x < y` and `x <= y`.
pub record Floats : Type 0 where
  pub lt : String → String → Bool
  pub le : String → String → Bool

pub record Sections : Type 0 where
  pub model : ModelConfig
  pub caching : CachingConfig
  pub error_handling : ErrorHandling
  pub sampling : Sampling
  pub pricing : Option Pricing

-- to_router_profile
abbrev pub to_router_profile : Sections → RouterProfile
to_router_profile s = record {
  model = s.model;
  caching = s.caching;
  sampling = s.sampling;
  error_handling = s.error_handling;
  pricing = s.pricing;
}

abbrev is_provider : String → Bool
is_provider p =
    str_eq p "anthropic"
    || (str_eq p "openai" || (str_eq p "google" || str_eq p "openai_compatible"))

module _ (floats : Floats) where
  unfoldable pub sampling_bounds : Sampling → Bool
  sampling_bounds s =
      floats.le "0.0" s.temperature
      && (floats.le s.temperature "2.0"
          && (floats.le "0.0" s.top_p && (floats.le s.top_p "1.0" && ltb 0 s.max_tokens)))

  unfoldable pub backoff_bounds : ErrorHandling → Bool
  backoff_bounds e = floats.lt "0.0" e.backoff_base_seconds && floats.le "1.0" e.backoff_multiplier

  -- The rates and the number of retries are natural numbers, and so at least 0.
  unfoldable pub section_fields : Sections → Bool
  section_fields s =
      is_provider s.model.provider
      && (sampling_bounds s.sampling && backoff_bounds s.error_handling)

  abbrev pub SectionsOk : Sections → Type 0
  SectionsOk s =
      ((s.model.provider ≡ "anthropic")
        ⊎ ((s.model.provider ≡ "openai")
            ⊎ ((s.model.provider ≡ "google") ⊎ (s.model.provider ≡ "openai_compatible"))))
      × (floats.le "0.0" s.sampling.temperature ≡ true)
      × (floats.le s.sampling.temperature "2.0" ≡ true)
      × (floats.le "0.0" s.sampling.top_p ≡ true)
      × (floats.le s.sampling.top_p "1.0" ≡ true)
      × (0 < s.sampling.max_tokens)
      × (floats.lt "0.0" s.error_handling.backoff_base_seconds ≡ true)
      × (floats.le "1.0" s.error_handling.backoff_multiplier ≡ true)

  pub sections_iff : (s : Sections) → (section_fields s ≡ true) ↔ SectionsOk s
  unfolding section_fields sampling_bounds backoff_bounds
  sections_iff s = ground (
    arith,
    eq_iff s.model.provider "anthropic",
    eq_iff s.model.provider "openai",
    eq_iff s.model.provider "google",
    eq_iff s.model.provider "openai_compatible",
  )
