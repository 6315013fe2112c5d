-- ===== src/Harness/Adapters/DeepAgents.antt =====
-- src/tename/harness/adapters/deep_agents.py, whose methods have the text of those of vanilla.py but for
-- the dictionary of tools and the log messages.
use tename.Prelude.{ℕ, Option, List, [], String}
use tename.Sessions.Models.{Event}
use tename.Router.Types.{ModelChunk, ToolDef, Message}
use tename.Harness.Adapters.Base.{Python, PendingEvent}
use tename.Harness.Adapters.Context.{tool_call_ids, fold_events, flush_both, no_buffers}
use tename.Harness.Adapters.Events.{Tools, collect_tools}

module _ (py : Python) where
  unfoldable pub build_context : List Event → List Message
  build_context events =
      (flush_both (fold_events py (tool_call_ids events []) events no_buffers)).messages

unfoldable pub chunk_to_event : ℕ → ModelChunk → Option PendingEvent
chunk_to_event fresh chunk = tename.Harness.Adapters.Events.chunk_to_event fresh chunk

-- `builtin` is BUILTIN_TOOLS; proxy tools are not looked up.
unfoldable pub get_tools : Tools → List String → List ToolDef
unfolding collect_tools
get_tools builtin names = collect_tools builtin names []
