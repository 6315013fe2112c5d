-- ===== src/Harness/Validation.antt =====
-- How src/tename/harness/profiles.py validates a profile and loads it. What pydantic makes of a
-- mapping, before the constraints of the fields and the validators, is a parameter.
use tename.Prelude.{
  [], ℕ, ◌≡◌, ◌≢◌, ◌≤◌, ◌<◌, Bool, true, false, not, ◌&&◌, ◌||◌, Option, none, some, List, String,
  str_eq, ltb, leb, if◌then◌else◌, Result, ok, err, ◌>>=◌,
}
use tename.Json.{Fields}
use tename.Harness.Profiles.{ContextConfig, StopConditions, Profile, resolved_compaction_threshold}
use tename.Harness.Quirks.{Quirk, quirks_fields, QuirksOk}
use tename.Harness.Sections.{Floats, Sections, section_fields, SectionsOk}
use tename.Harness.Reading.{Library, read_profile, read_ends, read_profile-IsMapping}
use tename.Harness.Refusals.{Fails}
use tename.Harness.Inheritance.{
  ProfileError, validation, out_of_fuel, load_raw, Inherits, load_raw_lem,
}

-- A whole profile, as pydantic parses it.
pub record Checked : Type 0 where
  pub profile : Profile
  pub sections : Sections
  pub quirks : List Quirk

-- gt=0 on an optional field
abbrev pub positive : Option ℕ → Bool
positive none = true
positive (some n) = ltb 0 n

abbrev pub is_strategy : String → Bool
is_strategy s = str_eq s "truncate" || str_eq s "summarize" || str_eq s "file_offload"

unfoldable pub context_fields : ContextConfig → Bool
context_fields c =
    ltb 0 c.max_tokens
    && (ltb 0 c.effective_budget
        && (positive c.compaction_threshold
            && (is_strategy c.compaction_strategy && ltb 0 c.keep_last_n_events)))

unfoldable pub stop_fields : StopConditions → Bool
stop_fields s = leb 1 s.no_tool_calls_for && (leb 1 s.max_turns && positive s.max_duration_seconds)

pub data Rule : Type 0 where
  budget_over_tokens threshold_over_budget strategy_unsupported : Rule

-- _cross_field_rules: the first rule that is broken
unfoldable pub cross_field_rules : ContextConfig → Option Rule
cross_field_rules c =
    if ltb c.max_tokens c.effective_budget
    then some budget_over_tokens
    else if leb c.effective_budget (resolved_compaction_threshold c)
    then some threshold_over_budget
    else if not (str_eq c.compaction_strategy "truncate")
    then some strategy_unsupported
    else none

abbrev pub unbroken : Option Rule → Bool
unbroken none = true
unbroken (some r) = false

module _ (floats : Floats) where
  unfoldable pub valid : Checked → Bool
  valid p =
      context_fields p.profile.context
      && (stop_fields p.profile.stop_conditions
          && (section_fields floats p.sections
              && (quirks_fields p.quirks && unbroken (cross_field_rules p.profile.context))))

  abbrev pub validated : Option Checked → Result ProfileError Checked
  validated none = err validation
  validated (some p) = if valid p then ok p else err validation

  -- load
  unfoldable pub load :
      (lib : Library) (search_paths : List String) (parse : Fields → Option Checked)
      → String
      → Result ProfileError Checked
  load lib search_paths parse name =
      load_raw (read_profile lib search_paths) name >>= λ raw. validated (parse raw)

-- What a profile must satisfy, as propositions.
abbrev pub Positive : Option ℕ → Type 0
Positive none = Unit
Positive (some n) = 0 < n

-- That the budget and the window are positive follows.
abbrev pub ContextOk : ContextConfig → Type 0
ContextOk c =
    Positive c.compaction_threshold
    × (0 < c.keep_last_n_events)
    × (c.effective_budget ≤ c.max_tokens)
    × (resolved_compaction_threshold c < c.effective_budget)
    × (c.compaction_strategy ≡ "truncate")

abbrev pub StopOk : StopConditions → Type 0
StopOk s = (1 ≤ s.no_tool_calls_for) × (1 ≤ s.max_turns) × Positive s.max_duration_seconds

abbrev pub Valid : Floats → Checked → Type 0
Valid floats p =
    ContextOk p.profile.context
    × StopOk p.profile.stop_conditions
    × SectionsOk floats p.sections
    × QuirksOk p.quirks

module _ (floats : Floats) (read : String → Result ProfileError Fields)
    (parse : Fields → Option Checked) where
  -- How a load ends.
  pub data Loads (name : String) : Result ProfileError Checked → Type 0 where
    loaded :
        (raw : Fields) (p : Checked)
        → Inherits read name raw
        → parse raw ≡ some p
        → Valid floats p
        → Loads name (ok p)
    invalid :
        (raw : Fields)
        → Inherits read name raw
        → ((p : Checked) → parse raw ≡ some p → Valid floats p → ⊥)
        → Loads name (err validation)
    unresolved : (e : ProfileError) → Fails read [] name e → e ≢ out_of_fuel → Loads name (err e)

module _ (floats : Floats) (lib : Library) (search_paths : List String)
    (parse : Fields → Option Checked) where
  abbrev resolves :
      (name : String)
      → (load_raw (read_profile lib search_paths) name ≢ err out_of_fuel)
        × ((d : Fields)
            → load_raw (read_profile lib search_paths) name ≡ ok d
            → Inherits (read_profile lib search_paths) name d)
  resolves =
      load_raw_lem (read_profile lib search_paths) (read_ends lib search_paths)
        (read_profile-IsMapping lib search_paths)
