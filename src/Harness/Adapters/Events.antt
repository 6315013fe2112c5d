-- ===== src/Harness/Adapters/Events.antt =====
-- `chunk_to_event` and `get_tools` of src/tename/harness/adapters/vanilla.py.
use tename.Prelude.{
  ℕ, ◌+◌, ◌≡◌, refl, Bool, true, false, not, ◌&&◌, Option, none, some, List, [], ◌∷◌, String,
  str_eq, ap, eq_iff, any, Option-cases, inl, inr, length, filter, ◌∙◌, if◌then◌else◌, arith,
}
use tename.Json.{pos, Json, Fields, null, bool, int, str, obj, end, field}
use tename.Sessions.Models.{EventType, assistant_message, tool_call}
use tename.Router.Types.{ModelChunk, text_delta, tool_call_end, ToolDef}
use tename.Harness.Adapters.Base.{PendingEvent}

abbrev pub status_code_of : Option ℕ → Json
status_code_of none = null
status_code_of (some n) = int (pos n)

abbrev pub call_payload : String → String → Fields → Fields
call_payload tool_id tool_name input =
    field "tool_id" (str tool_id)
      (field "tool_name" (str tool_name) (field "input" (obj input) end))

abbrev pub pending : ℕ → EventType → Fields → Option PendingEvent
pending id type payload = some (record { id = id; type = type; payload = payload })

-- The number is the fresh `uuid4()`.
unfoldable pub chunk_to_event : ℕ → ModelChunk → Option PendingEvent
chunk_to_event fresh (text_delta t) =
    pending fresh assistant_message (field "content" (str t) (field "is_complete" (bool false) end))
chunk_to_event fresh (tool_call_end tool_id tool_name input index) =
    pending fresh tool_call (call_payload tool_id tool_name input)
chunk_to_event fresh (ModelChunk.error message retryable status_code) =
    pending fresh EventType.error (
      field "message" (str message)
        (field "retryable" (bool retryable) (field "status_code" (status_code_of status_code) end)))
chunk_to_event fresh _ = none

-- A dictionary of tools by name, or a lookup in two of them.
abbrev pub Tools : Type 0
Tools = String → Option ToolDef

abbrev pub is_in : List String → String → Bool
is_in names name = any (λ n. str_eq n name) names

abbrev add_tool : Option ToolDef → List ToolDef → List ToolDef
add_tool none tools = tools
add_tool (some t) tools = t ∷ tools

-- The loop of `get_tools` from a set of names that were seen.
unfoldable pub collect_tools : Tools → List String → List String → List ToolDef
collect_tools find [] seen = []
collect_tools find (name ∷ names) seen =
    let skipped = collect_tools find names seen in
    let rest = collect_tools find names (name ∷ seen) in
    if is_in seen name then skipped else add_tool (find name) rest

abbrev pub either : Option ToolDef → Option ToolDef → Option ToolDef
either (some t) other = some t
either none other = other

-- `builtin` and `proxy` are BUILTIN_TOOL_SCHEMAS and proxy_tool_schemas().
unfoldable pub get_tools : (builtin proxy : Tools) → List String → List ToolDef
get_tools builtin proxy names = collect_tools (λ name. either (builtin name) (proxy name)) names []

abbrev pub named : String → ToolDef → Bool
named name t = str_eq t.name name

abbrev pub known : Option ToolDef → Bool
known none = false
known (some t) = true

-- Each tool stands under its own name.
abbrev pub IsKeyed : Tools → Type 0
IsKeyed find = (name : String) (t : ToolDef) → find name ≡ some t → t.name ≡ name

module _ (find : Tools) (keyed : IsKeyed find) (name : String) where
  abbrev pub expected : Bool → ℕ
  expected true = 1
  expected false = 0

  count_add :
      (n : String) (o : Option ToolDef) (tools : List ToolDef)
      → find n ≡ o
      → length (filter (named name) (add_tool o tools))
        ≡ expected (str_eq n name && known o) + length (filter (named name) tools)
  count_add n none tools found = ground (arith, eq_iff n name)
  count_add n (some t) tools found =
      ground (arith, eq_iff n name, eq_iff t.name name, keyed n t found)

  find_same : (n : String) → str_eq n name ≡ true → find n ≡ find name
  find_same n h = ap find ((eq_iff n name).0 h)

  seen_same :
      (n : String) (seen : List String) → str_eq n name ≡ true → is_in seen n ≡ is_in seen name
  seen_same n seen h = ap (is_in seen) ((eq_iff n name).0 h)

  pub count_collect :
      (names seen : List String)
      → length (filter (named name) (collect_tools find names seen))
        ≡ expected (is_in names name && (not (is_in seen name) && known (find name)))
  unfolding collect_tools
  count_collect [] seen = refl
  count_collect (n ∷ names) seen = ground (
    arith,
    count_collect names seen,
    count_collect names (n ∷ seen),
    count_add n (find n) (collect_tools find names (n ∷ seen)) refl,
    find_same n,
    seen_same n seen,
  )

either-IsKeyed :
    (builtin proxy : Tools)
    → IsKeyed builtin
    → IsKeyed proxy
    → IsKeyed (λ name. either (builtin name) (proxy name))
either-IsKeyed builtin proxy b p name t found = elim (Option-cases (builtin name)) [
  | inl other ↦ p name t (rw other at found)
  | inr (u, same) ↦ b name t (same ∙ rw same at found)
]

-- Where each tool stands under its own name, `get_tools` lists a tool of a given name once if that
-- name is requested and known to one of the dictionaries, however often it is requested, and never
-- if not.
pub get_tools_lem :
    (builtin proxy : Tools) (names : List String) (name : String)
    → IsKeyed builtin
    → IsKeyed proxy
    → length (filter (named name) (get_tools builtin proxy names))
      ≡ (if is_in names name && known (either (builtin name) (proxy name)) then 1 else 0)
unfolding get_tools
get_tools_lem builtin proxy names name b p = ground (
  arith,
  count_collect (λ n. either (builtin n) (proxy n)) (either-IsKeyed builtin proxy b p) name names
      [],
)
