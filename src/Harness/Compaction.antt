-- ===== src/Harness/Compaction.antt =====
-- src/tename/harness/compaction.py. A payload comes from a JSONB column, so `json.dumps` takes it.
pub mod Plans
pub mod Views
use tename.Prelude.{
  ℕ, suc, ◌+◌, ◌-◌, ◌/◌, Bool, true, false, not, ◌&&◌, ◌||◌, Option, none, some, List, [], ◌∷◌, map,
  max, ◌==◌, leb, any, filter, length, if◌then◌else◌, find?,
}
use tename.Json.{
  ℤ, pos, negsuc, Json, Items, Fields, bool, int, str, arr, obj, nil, cons, end, field, get,
  is_string,
}
use tename.Json.Dumps.{dumps}
use tename.Sessions.Models.{Event, user_message, harness_event, same_type}
use tename.Harness.Profiles.{ContextConfig, resolved_compaction_threshold}

abbrev pub chars_per_token : ℕ
chars_per_token = 4

unfoldable pub total_chars : List Event → ℕ
total_chars [] = 0
total_chars (e ∷ es) = length (dumps (obj e.payload)) + total_chars es

unfoldable pub estimate_event_tokens : List Event → ℕ
unfolding total_chars
estimate_event_tokens events = max 1 (total_chars events / chars_per_token)

-- _is_compaction_event
unfoldable pub is_compaction_event : Event → Bool
is_compaction_event e =
    same_type e.type harness_event && is_string "compaction" (get "type" e.payload)

-- The last record of the loop over the events.
unfoldable pub latest_compaction : List Event → Option Event → Option Event
latest_compaction [] latest = latest
latest_compaction (e ∷ es) latest =
    latest_compaction es (if is_compaction_event e then some e else latest)

-- `int(seq)` for each item that is an `int`; a `bool` is one.
unfoldable pub integers : Items → List ℤ
integers nil = []
integers (cons (int n) rest) = n ∷ integers rest
integers (cons (bool true) rest) = pos 1 ∷ integers rest
integers (cons (bool false) rest) = pos 0 ∷ integers rest
integers (cons _ rest) = integers rest

-- The set `dropped`; `none` is a TypeError, of a value that cannot be iterated. The characters of
-- a string and the keys of an object are no integers.
unfoldable pub dropped_set : Option Json → Option (List ℤ)
unfolding integers
dropped_set none = some []
dropped_set (some (arr items)) = some (integers items)
dropped_set (some (str s)) = some []
dropped_set (some (obj d)) = some []
dropped_set (some _) = none

abbrev pub is_number : ℕ → ℤ → Bool
is_number n (pos m) = m == n
is_number n (negsuc m) = false

abbrev pub not_in : List ℤ → Event → Bool
not_in dropped e = not (any (is_number e.sequence) dropped)

abbrev pub view_of : List Event → Option Event → Option (List Event)
view_of events none = some events
view_of events (some record_event) =
    elim (dropped_set (get "dropped_sequences" record_event.payload)) [
      | none ↦ none
      | some dropped ↦ some (filter (not_in dropped) events)
    ]

-- The active view; `none` is a TypeError.
unfoldable pub apply_compaction_view : List Event → Option (List Event)
apply_compaction_view events = view_of events (latest_compaction events none)

unfoldable pub should_compact : List Event → ContextConfig → Bool
should_compact active c = leb (resolved_compaction_threshold c) (estimate_event_tokens active)

pub record CompactionDecision : Type 0 where
  pub dropped_sequences : List ℕ
  pub kept_sequences : List ℕ
  pub estimated_tokens_before : ℕ
  pub estimated_tokens_after : ℕ

unfoldable pub items_of : List ℕ → Items
items_of [] = nil
items_of (n ∷ ns) = cons (int (pos n)) (items_of ns)

unfoldable pub to_payload : CompactionDecision → Fields
to_payload d = field "type" (str "compaction") (
    field "strategy" (str "truncate") (
      field "dropped_sequences" (arr (items_of d.dropped_sequences)) (
        field "kept_sequences" (arr (items_of d.kept_sequences)) (
          field "estimated_tokens_before" (int (pos d.estimated_tokens_before))
            (field "estimated_tokens_after" (int (pos d.estimated_tokens_after)) end)))))

abbrev pub sequence_of : Event → ℕ
sequence_of e = e.sequence

unfoldable pub first_user_sequence : List Event → Option ℕ
first_user_sequence events = elim (find? (λ e. same_type e.type user_message) events) [
  | none ↦ none
  | some e ↦ some e.sequence
]

abbrev pub is_first : Option ℕ → ℕ → Bool
is_first none n = false
is_first (some m) n = n == m

-- Whether the index of an event enters `keep_indices`.
unfoldable pub keeps : Option ℕ → ℕ → ℕ → Event → Bool
keeps first_user tail_start index e =
    is_compaction_event e || (is_first first_user e.sequence || leb tail_start index)

-- The events whose index, counted from the given one, passes the test.
unfoldable pub filter_index : (ℕ → Event → Bool) → ℕ → List Event → List Event
filter_index test index [] = []
filter_index test index (e ∷ es) =
    let rest = filter_index test (suc index) es in if test index e then e ∷ rest else rest

module _ (active : List Event) (c : ContextConfig) where
  abbrev pub keeps_at : ℕ → Event → Bool
  keeps_at = keeps (first_user_sequence active) (length active - c.keep_last_n_events)

  unfoldable pub kept : List Event
  unfolding filter_index
  kept = filter_index keeps_at 0 active

  unfoldable pub dropped : List Event
  unfolding filter_index
  dropped = filter_index (λ i e. not (keeps_at i e)) 0 active

  abbrev pub decide_on : List Event → List Event → Option CompactionDecision
  decide_on remaining [] = none
  decide_on remaining (e ∷ es) = some (record {
    dropped_sequences = map sequence_of (e ∷ es);
    kept_sequences = map sequence_of remaining;
    estimated_tokens_before = estimate_event_tokens active;
    estimated_tokens_after = estimate_event_tokens remaining;
  })

  -- No events, or nothing to drop, is no decision.
  unfoldable pub plan_truncate : Option CompactionDecision
  plan_truncate = decide_on kept dropped
