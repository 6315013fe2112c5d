-- ===== src/Tests/AdapterRuns.antt =====
-- The adapters at concrete inputs: the tools of an agent, and a streamed turn.
use tename.Prelude.{
  ◌≡◌, refl, ap, sym, ◌∙◌, Bool, true, false, Option, none, some, List, [], ◌∷◌, ◌++◌, String,
  str_eq, eq_iff, if◌then◌else◌,
}
use tename.Json.{end, field, str}
use tename.Router.Types.{ToolDef, ModelChunk, text_delta, tool_call_end, done}
use tename.Harness.Adapters.Context.{flush_both, fold_events}
use tename.Harness.Adapters.Events.{Tools, IsKeyed}
use tename.Harness.Adapters.Turns.{
  Streamed, rows, closers, closing_text, text_of_closer, has_delta, failed, said, buffers,
  tool_part, assistant_part, uses_of, flush_both-fold_turn,
}
use tename.Tests.HarnessRuns.{python}

abbrev tool_named : String → ToolDef
tool_named name = record { name = name; description = ""; input_schema = end }

-- A dictionary of one tool.
abbrev only : String → Tools
only key name = if str_eq key name then some (tool_named key) else none

only_name :
    (b : Bool) (key name : String) (t : ToolDef)
    → (str_eq key name ≡ b)
    → (if b then some (tool_named key) else none) ≡ some t
    → t.name ≡ name
only_name true key name t same h = ap (λ o. name_of o) (sym h) ∙ (eq_iff key name).0 same
  where
    name_of : Option ToolDef → String
    name_of none = ""
    name_of (some u) = u.name
only_name false key name t other h = cc

only-IsKeyed : (key : String) → IsKeyed (only key)
only-IsKeyed key name t h = only_name (str_eq key name) key name t refl h

abbrev stream : List Streamed
stream =
    record { fresh = 7; sequence = 3; now = 1; chunk = text_delta "hel" }
    ∷ record {
      fresh = 8;
      sequence = 4;
      now = 2;
      chunk = tool_call_end "t1" "bash" (field "command" (str "ls") end) 0;
    }
    ∷ record { fresh = 9; sequence = 5; now = 3; chunk = done }
    ∷ []

flush_both-fold_turn_example :
    flush_both (
      fold_events python []
        (rows 1 stream ++ closers 1 10 5 4 (closing_text stream) none)
        (buffers [] "" [] []))
    ≡ buffers
        ([]
          ++ tool_part []
          ++ assistant_part (text_of_closer (closing_text stream)) (uses_of stream))
        ""
        []
        []
flush_both-fold_turn_example = flush_both-fold_turn python [] 1 10 5 4 none [] [] stream

-- The stream is closed with its text, and a stream that fails is not closed.
abbrev failing : List Streamed
failing =
    record { fresh = 7; sequence = 3; now = 1; chunk = text_delta "hel" }
    ∷ record { fresh = 8; sequence = 4; now = 2; chunk = ModelChunk.error "no" false none }
    ∷ []

closes_with_text : closing_text stream ≡ some "hel"
unfolding closing_text has_delta failed said
closes_with_text = refl

failing_not_closed : closing_text failing ≡ none
unfolding closing_text has_delta failed said
failing_not_closed = refl
