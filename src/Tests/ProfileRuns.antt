-- ===== src/Tests/ProfileRuns.antt =====
-- Profiles at concrete inputs: one that extends another.
use tename.Prelude.{
  ℕ, Option, some, [], ◌∷◌, none, ◌≡◌, refl, Bool, true, false, String, str_eq, subst, not, ◌&&◌,
  ok, err,
}
use Prim.Native.String.{compare}
use Prim.Native.Nat.{lt, eq, gt}
use tename.Json.{Json, Fields, obj, int, pos, str, end, field, get, put}
use tename.Harness.Inheritance.{load_raw, resolve, pop_extends, validation}
use tename.Harness.Merging.{deep_merge, IsMapping}
use tename.Harness.Reading.{Library, read_profile, parse_yaml}
use tename.Harness.Profiles.{resolved_compaction_threshold}
use tename.Harness.Validation.{Checked, load, valid, context_fields, stop_fields, cross_field_rules}
use tename.Harness.Quirks.{quirks_fields}
use tename.Harness.Sections.{Floats, section_fields, sampling_bounds, backoff_bounds}
use tename.Router.Anthropic.Requests.{no_caching}

abbrev base : Fields
base =
    field "context" (obj (field "max_tokens" (int (pos 10)) (field "keep" (int (pos 5)) end))) end

abbrev changes : Fields
changes = field "context" (obj (field "keep" (int (pos 7)) end)) end

abbrev text_if : Bool → String → Option String
text_if true text = some text
text_if false text = none

abbrev loaded_yaml : Bool → Bool → Option Json
loaded_yaml true other = some (obj base)
loaded_yaml false true = some (obj (field "extends" (str "base") changes))
loaded_yaml false false = none

loaded_yaml-IsMapping : (a b : Bool) (d : Fields) → loaded_yaml a b ≡ some (obj d) → IsMapping d
unfolding IsMapping get
loaded_yaml-IsMapping true b d h =
    let same : base ≡ d = cc h in subst IsMapping same (refl, (refl, tt, (refl, tt, tt)), tt)
loaded_yaml-IsMapping false true d h =
    let same : field "extends" (str "base") changes ≡ d = cc h in
    subst IsMapping same (refl, tt, (refl, (refl, tt, tt), tt))
loaded_yaml-IsMapping false false d h = absurd (cc h)

-- The profile called base is bundled, the one that extends it is in the folder "mine".
abbrev files : Library
files = record {
  file_text = λ path name. text_if (str_eq path "mine" && str_eq name "small") "small text";
  bundled_text = λ name. text_if (str_eq name "base") "base text";
  safe_load = λ text. loaded_yaml (str_eq text "base text") (str_eq text "small text");
  safe_load-IsMapping =
      λ text d h. loaded_yaml-IsMapping (str_eq text "base text") (str_eq text "small text") d h;
}

-- A profile with a window of this size.
abbrev sized : ℕ → Fields
sized n = field "context" (obj (field "max_tokens" (int (pos n)) end)) end

sized-IsMapping : (n : ℕ) → IsMapping (sized n)
unfolding IsMapping get
sized-IsMapping n = (refl, (refl, tt, tt), tt)

sized_only : (n : ℕ) (d : Fields) → some (obj (sized n)) ≡ some (obj d) → IsMapping d
sized_only n d h = let same : sized n ≡ d = cc h in subst IsMapping same (sized-IsMapping n)

abbrev one_file : ℕ → Library
one_file n = record {
  file_text = λ path name. some "text";
  bundled_text = λ name. none;
  safe_load = λ text. some (obj (sized n));
  safe_load-IsMapping = λ text d h. sized_only n d h;
}

-- The order of texts of the same length is that of their numbers.
abbrev is_le : String → String → Bool
is_le x y = elim (compare x y) [ lt ↦ true | eq ↦ true | gt ↦ false ]

abbrev floats : Floats
floats = record { lt = λ x y. not (is_le y x); le = λ x y. is_le x y }

-- What the fields of a profile come to: the budget is the one in the file, or is missing.
abbrev parsed_context : Option Json → Option Checked
parsed_context (some (int (pos n))) = some (record {
  profile = record {
    context = record {
      max_tokens = 100;
      effective_budget = n;
      compaction_threshold = none;
      compaction_strategy = "truncate";
      keep_last_n_events = 10;
    };
    stop_conditions = record {
      no_tool_calls_for = 1;
      max_turns = 50;
      max_duration_seconds = some 3600;
    };
  };
  sections = record {
    model = record { provider = "anthropic"; model_id = "claude-opus-4-6" };
    caching = record { provider_strategy = no_caching; breakpoints = [] };
    error_handling = record {
      retry_on_transient = true;
      max_retries = 3;
      backoff_base_seconds = "1.0";
      backoff_multiplier = "2.0";
    };
    sampling = record { temperature = "0.7"; top_p = "1.0"; max_tokens = 4096 };
    pricing = none;
  };
  quirks = [];
})
parsed_context other = none

abbrev in_context : Option Json → Option Json
in_context (some (obj fields)) = get "max_tokens" fields
in_context other = none

abbrev parse : Fields → Option Checked
parse fields = parsed_context (in_context (get "context" fields))

inherits_from_bundled :
    load_raw (read_profile files ("yours" ∷ "mine" ∷ [])) "small"
    ≡ ok (
        field "context"
          (obj (field "max_tokens" (int (pos 10)) (field "keep" (int (pos 7)) end)))
          end)
unfolding load_raw resolve deep_merge get put pop_extends read_profile parse_yaml
inherits_from_bundled = refl

budget_over_window : load floats (one_file 101) ("mine" ∷ []) parse "large" ≡ err validation
unfolding load load_raw resolve get pop_extends valid context_fields stop_fields section_fields
    sampling_bounds backoff_bounds quirks_fields cross_field_rules resolved_compaction_threshold
    read_profile parse_yaml
budget_over_window = refl

changes_once : get "context" end ≡ none
unfolding get
changes_once = refl
