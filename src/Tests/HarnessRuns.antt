-- ===== src/Tests/HarnessRuns.antt =====
-- The harness at concrete inputs: short logs, their compaction and their context.
use tename.Prelude.{
  true, ap, ℕ, ◌≡◌, ◌≤◌, ◌<◌, ◌+◌, refl, some, List, [], ◌∷◌, ◌++◌, zero, suc, String, map, filter,
  find?, drop, length,
}
use tename.Json.{Fields, end, field, str, bool, get}
use tename.Json.Dumps.{dumps}
use tename.Sessions.Models.{
  Event, EventType, user_message, assistant_message, harness_event, same_type,
}
use tename.Harness.Profiles.{ContextConfig}
use tename.Harness.Compaction.{
  CompactionDecision, sequence_of, is_compaction_event, latest_compaction, kept, dropped, keeps,
  first_user_sequence, plan_truncate, to_payload, items_of, dropped_set, not_in,
  apply_compaction_view, estimate_event_tokens, filter_index,
}
use tename.Harness.Compaction.Plans.{kept_lem, plan_truncate_accounts, Shares}
use tename.Harness.Compaction.Views.{Records, sequences, recompaction_restores}
use tename.Harness.Adapters.Base.{Python}
use tename.Harness.Adapters.Context.{build_context}
use tename.Harness.Adapters.Contents.{said, all_said, said-build_context}

abbrev row : ℕ → EventType → Fields → Event
row n t payload = record {
  id = n + 100;
  session_id = 1;
  sequence = n;
  type = t;
  payload = payload;
  created_at = n;
}

abbrev text_row : ℕ → EventType → String → Event
text_row n t text = row n t (field "content" (str text) (field "is_complete" (bool true) end))

abbrev talk : List Event
talk =
    text_row 1 user_message "one"
    ∷ text_row 2 assistant_message "two"
    ∷ text_row 3 assistant_message "three"
    ∷ text_row 4 assistant_message "four"
    ∷ []

abbrev pub config : ContextConfig
config = record {
  max_tokens = 100;
  effective_budget = 50;
  compaction_threshold = some 10;
  compaction_strategy = "truncate";
  keep_last_n_events = 2;
}

abbrev decision : CompactionDecision
decision = record {
  dropped_sequences = 2 ∷ [];
  kept_sequences = 1 ∷ 3 ∷ 4 ∷ [];
  estimated_tokens_before = 39;
  estimated_tokens_after = 30;
}

planned : plan_truncate talk config ≡ some decision
unfolding plan_truncate kept dropped filter_index keeps first_user_sequence is_compaction_event
    same_type get estimate_event_tokens dumps
planned = refl

kept_lem_example :
    ((front : List Event) × (kept talk config ≡ front ++ drop 2 talk))
    × (filter is_compaction_event (kept talk config) ≡ filter is_compaction_event talk)
    × ((e : Event)
        → find? (λ x. same_type x.type user_message) talk ≡ some e
        → find? (λ x. same_type x.type user_message) (kept talk config) ≡ some e)
kept_lem_example = kept_lem talk config

plan_truncate_accounts_example :
    (decision.dropped_sequences ≡ map sequence_of (dropped talk config))
    × (decision.kept_sequences ≡ map sequence_of (kept talk config))
    × Shares (kept talk config) (dropped talk config) talk
    × (0 < length (dropped talk config))
    × (decision.estimated_tokens_after ≤ decision.estimated_tokens_before)
plan_truncate_accounts_example = plan_truncate_accounts talk config decision planned

abbrev first_record : Event
first_record = row 5 harness_event (to_payload decision)

first_record-Records : Records decision first_record
first_record-Records = record { type = refl; payload = refl }

-- The log after the first compaction and one more message, and its second compaction: event 2 was
-- dropped by the first one, and the second one drops event 3 alone.
abbrev longer : List Event
longer = talk ++ first_record ∷ text_row 6 assistant_message "six" ∷ []

abbrev active : List Event
active =
    text_row 1 user_message "one"
    ∷ text_row 3 assistant_message "three"
    ∷ text_row 4 assistant_message "four"
    ∷ first_record
    ∷ text_row 6 assistant_message "six"
    ∷ []

active_view : apply_compaction_view longer ≡ some active
unfolding apply_compaction_view latest_compaction is_compaction_event same_type dropped_set
    to_payload get items_of
active_view = refl

abbrev second_config : ContextConfig
second_config = record config { keep_last_n_events = 3 }

second_decision : CompactionDecision
second_decision = record {
  dropped_sequences = 3 ∷ [];
  kept_sequences = 1 ∷ 4 ∷ 5 ∷ 6 ∷ [];
  estimated_tokens_before = estimate_event_tokens active;
  estimated_tokens_after = estimate_event_tokens (kept active second_config);
}

second_planned : plan_truncate active second_config ≡ some second_decision
unfolding plan_truncate kept dropped filter_index keeps first_user_sequence is_compaction_event
    same_type get to_payload second_decision
second_planned = refl

abbrev second_record : Event
second_record = row 7 harness_event (to_payload second_decision)

recompaction_restores_example :
    (view : List Event) × (apply_compaction_view (longer ++ second_record ∷ []) ≡ some view)
    × (filter (not_in (sequences active)) view
        ≡ filter (not_in (sequences active)) (longer ++ second_record ∷ []))
recompaction_restores_example =
    recompaction_restores longer second_config second_decision second_record
      (record { type = refl; payload = refl }) active second_planned

-- An encoding of numbers that reads back: as many letters as the number says.
abbrev pub letters : ℕ → String
letters zero = ""
letters (suc n) = String.◌∷◌ "a" (letters n)

abbrev pub count_letters : String → ℕ
count_letters String.[] = 0
count_letters (String.◌∷◌ c s) = suc (count_letters s)

pub count-letters : (n : ℕ) → count_letters (letters n) ≡ n
count-letters zero = refl
count-letters (suc n) = ap suc (count-letters n)

abbrev pub python : Python
python = record {
  uuid_of = λ t. some (count_letters t);
  text_of_uuid = letters;
  uuid_of-text = λ n. ap some (count-letters n);
  str_of = λ v. "";
}

said-build_context_example : said (build_context python talk) ≡ all_said talk
said-build_context_example = said-build_context python talk
