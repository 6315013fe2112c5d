-- ===== src/Tests/RouterRuns.antt =====
-- The model router at concrete streams: a failed attempt, then a stream with a text and a tool call.
use tename.Prelude.{
  ℕ, zero, suc, ◌≤◌, ◌≡◌, refl, true, none, some, List, [], ◌∷◌, String, ok, str_eq,
}
use tename.Json.{obj, str, field, end}
use tename.Router.Types.{ModelChunk, Message, Role, plain}
use tename.Router.Anthropic.{
  JsonReader, tool_use, text, input_json, StreamEvent, message_start, content_block_start,
  content_block_delta, content_block_stop, message_delta, exhausted,
}
use tename.Router.Anthropic.Streams.{AllAgree}
use tename.Router.Anthropic.Retry.{
  ErrorHandling, Attempt, entered, refused, Went, open_stream_with_retry,
  open_stream_with_retry_lem,
}
use tename.Router.Anthropic.Requests.{no_caching}
use tename.Router.Service.{RouterProfile, PricingTable, anthropic, complete, complete_agrees}

abbrev reader : JsonReader
reader = record {
  loads = λ t. some (obj (field "command" (str t) end));
  is_blank = λ t. str_eq t "";
}

abbrev events : List StreamEvent
events =
    message_start (some 10) none (some 1)
    ∷ content_block_delta 0 (text "Looking.")
    ∷ content_block_start 1 (tool_use "t" "bash")
    ∷ content_block_delta 1 (input_json "l")
    ∷ content_block_delta 1 (input_json "s")
    ∷ content_block_stop 1
    ∷ message_delta none none (some 7)
    ∷ []

abbrev attempt_at : ℕ → Attempt
attempt_at zero = refused 529 "overloaded"
attempt_at (suc n) = entered events exhausted

abbrev handling : ErrorHandling
handling = record {
  retry_on_transient = true;
  max_retries = 3;
  backoff_base_seconds = "1.0";
  backoff_multiplier = "2.0";
}

abbrev profile : RouterProfile
profile = record {
  model = record { provider = "anthropic"; model_id = "claude-opus-4-6" };
  caching = record { provider_strategy = no_caching; breakpoints = [] };
  sampling = record { temperature = "0.7"; top_p = "1.0"; max_tokens = 4096 };
  error_handling = handling;
  pricing = none;
}

abbrev table : PricingTable
table =
    (
      "anthropic",
      (
        "claude-opus-4-6",
        record {
          input_per_million = 1500;
          output_per_million = 7500;
          cached_input_per_million = some 150;
        },
      )
          ∷ [],
    )
    ∷ []

abbrev failure_text : String → String
failure_text m = m

complete_agrees_example :
    (chunks : List ModelChunk) × (complete table
        (("anthropic", anthropic reader failure_text attempt_at) ∷ [])
        profile
      ≡ ok chunks)
    × AllAgree reader [] chunks
complete_agrees_example =
    complete_agrees reader failure_text attempt_at table
      (("anthropic", anthropic reader failure_text attempt_at) ∷ []) profile refl

open_stream_with_retry_lem_example :
    Went failure_text attempt_at 0 3 (open_stream_with_retry failure_text attempt_at handling)
    × ((open_stream_with_retry failure_text attempt_at handling).attempts ≤ 4)
    × (1 ≤ (open_stream_with_retry failure_text attempt_at handling).attempts)
open_stream_with_retry_lem_example = open_stream_with_retry_lem failure_text attempt_at handling

abbrev talk : List Message
talk =
    record { role = Role.system; content = plain "Be brief." }
    ∷ record { role = Role.user; content = plain "Hello" }
    ∷ []
