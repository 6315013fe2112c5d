-- ===== src/Tests/RunRuns.antt =====
-- A whole run of the harness: a turn with a tool call in a sandbox, then a turn with an answer.
use tename.Sessions.Service.{create_session}
use tename.Sessions.Calls.{step}
use tename.Sessions.Calls.{run}
use tename.Sessions.Store.{mark_session_complete}
use tename.Harness.Loop.{mark_complete}
use tename.Harness.Loop.{destroy_each}
use tename.Harness.Loop.{destroy_sandboxes}
use tename.Prelude.Actions.{finally}
use tename.Harness.Tools.{execute_in}
use tename.Harness.Tools.{emit}
use tename.Harness.World.{on_sandbox}
use tename.Harness.World.{own}
use tename.Harness.Tools.{provision_one}
use tename.Harness.Tools.{recipe_from_agent}
use tename.Harness.Tools.{provision_fresh}
use tename.Harness.Tools.{latest_sandbox_id}
use tename.Harness.Tools.{get_or_provision_sandbox}
use tename.Prelude.Actions.{catch}
use tename.Harness.Tools.{run_sandbox_tool}
use tename.Harness.Loop.{dispatch}
use tename.Harness.Adapters.Events.{chunk_to_event}
use tename.Harness.Turn.{close_turn}
use tename.Harness.Turn.{note_chunk}
use tename.Harness.Turn.{run_stream}
use tename.Harness.Turn.{run_turn, exhausted, emitting}
use tename.Harness.World.{on_turn}
use tename.Harness.World.{on_db}
use tename.Harness.Loop.{stream_turn}
use tename.Harness.Profiles.{resolved_compaction_threshold}
use tename.Harness.Compaction.{total_chars}
use tename.Harness.Compaction.{estimate_event_tokens}
use tename.Harness.Compaction.{should_compact}
use tename.Sessions.Models.{same_type}
use tename.Harness.Compaction.{is_compaction_event}
use tename.Harness.Compaction.{latest_compaction}
use tename.Harness.Compaction.{apply_compaction_view}
use tename.Harness.Loop.{view}
use tename.Sessions.Store.{insert_by_sequence}
use tename.Sessions.Store.{selects}
use tename.Sessions.Store.{order_by_sequence}
use tename.Sessions.Store.{select_events}
use tename.Sessions.Service.{get_events}
use tename.Harness.Tools.{read_events}
use tename.Harness.Loop.{compacted_events}
use tename.Harness.Loop.{round}
use tename.Harness.Loop.{turns}
use tename.Harness.Loop.{ask_time}
use tename.Harness.Loop.{seed_system_prompt_if_needed}
use tename.Harness.Adapters.Base.{find_class}
use tename.Harness.Adapters.Base.{get_adapter}
use tename.Sessions.Service.{get_agent}
use tename.Sessions.Store.{get_session}
use tename.Sessions.Service.{wake}
use tename.Harness.Setup.{setup}
use tename.Prelude.{
  ℕ, zero, suc, ◌+◌, ◌*◌, ◌≤◌, ◌≡◌, refl, false, none, some, List, [], ◌∷◌, ◌==◌, ok, arith, subst,
}
use tename.Json.{Json, Fields, end, field, str, bool, get}
use tename.Json.Dumps.{codes, dumps, utf8_length}
use tename.Sessions.Models.{Session, Event, Agent, user_message, tool_call, is_terminal}
use tename.Sessions.Store
use tename.Sessions.Store.{
  Db, find_session, find_event_by_id, load_session_for_emit, insert_event_and_bump_sequence,
}
use tename.Sessions.Service.{emit_event, encoded_length}
use tename.Sessions.Sequence.{IsDense, log}
use tename.Sessions.Traces.{StartsWith}
use tename.Sessions.Reached.{Untouched}
use tename.Sandbox.StateMachine.{ready}
use tename.Sandbox.Service.{ToolResult, Answer, returned}
use tename.Router.Types.{text_delta, tool_call_end, done}
use tename.Harness.Profiles.{Profile}
use tename.Harness.Adapters.Base.{PendingEvent}
use tename.Harness.Adapters.Context
use tename.Harness.Adapters.Events.{call_payload}
use tename.Harness.Turn.{Arrival, arrives}
use tename.Harness.World.{SandboxRecipe, open_network, Backend, Adapter, Completion, Runtime, World}
use tename.Harness.Loop.{StopReason, no_tool_calls, run_session, execute_tool_calls, result_id}
use tename.Harness.Effects.{left_over, completions}
use tename.Harness.Effects.Runs.{
  begin, run_session_bounded, run_session_appends, run_session_cleans,
}
use tename.Harness.Effects.Completion.{Over, run_session_completes}
use tename.Tests.SessionRuns.{pg, two_events, two_events-IsDense}
use tename.Tests.HarnessRuns.{python, config}

-- A sum that tells the texts of this run apart.
abbrev weigh : ℕ → List ℕ → ℕ
weigh n [] = 1000
weigh n (c ∷ cs) = n * c + weigh (suc n) cs

abbrev tool_output : ToolResult
tool_output = record {
  is_error = false;
  content = "42";
  stdout = "42";
  stderr = "";
  exit_code = some 0;
  error = none;
}

abbrev backend : Backend
backend = record {
  provision = λ t recipe. returned "box";
  execute = λ t id name input. returned tool_output;
  status = λ t id. returned ready;
  destroy = λ t id. returned tt;
}

abbrev recipe : SandboxRecipe
recipe = record {
  runtime = "python:3.12-slim";
  packages = [];
  files = [];
  env = [];
  cpu_limit = 2;
  memory_limit_mb = 4096;
  timeout_seconds = 600;
  network_policy = open_network;
}

-- The first completion calls a tool, the later ones answer.
abbrev arrivals_at : ℕ → List Arrival
arrivals_at zero = []
arrivals_at (suc zero) = arrives 61 1 (tool_call_end "t" "bash" end 0) ∷ arrives 62 1 done ∷ []
arrivals_at (suc (suc n)) = arrives 71 2 (text_delta "42") ∷ arrives 72 2 done ∷ []

abbrev stream_at : ℕ → Completion
stream_at t = record { arrivals = arrivals_at t; ending = exhausted; fresh = 70 + t; now = t }

abbrev profile : Profile
profile = record {
  context = config;
  stop_conditions = record { no_tool_calls_for = 1; max_turns = 5; max_duration_seconds = none };
}

abbrev adapter : Adapter
adapter = record {
  build_context = λ events p. Context.build_context python events;
  get_tools = λ agent. [];
}

abbrev rt : Runtime
rt = record {
  sandbox = some backend;
  tool_proxy = none;
  registry = [];
  load_profile = λ model. ok profile;
  adapters = ("vanilla", 1) ∷ [];
  adapter_of = λ cls. adapter;
  python = python;
  uuid5 = λ s. weigh 1 (codes s);
  text_of = λ e. "";
  validate_recipe = λ d. some recipe;
  iterated = λ ids. ids;
  in-iterated = λ ids id. refl;
  dump_usage = λ u. end;
  now = λ t. t;
  monotonic = λ t. t;
  complete = λ t p messages tools. stream_at t;
}

abbrev start : World
start = begin two_events [] 0

run_session_bounded_example : completions (run_session rt 100 start).0.deeds ≤ 5
run_session_bounded_example = run_session_bounded pg rt 100 5 two_events [] 0 (λ model p h.
    let same : profile ≡ p = cc h in
    subst (λ q. q.stop_conditions.max_turns ≤ 5) same (omega arith))

run_session_appends_example :
    IsDense (run_session rt 100 start).0.db
    × StartsWith 100 (log 100 two_events) (run_session rt 100 start).0.db
    × ((j : ℕ) → (100 == j) ≡ false → Untouched j two_events (run_session rt 100 start).0.db)
run_session_appends_example = run_session_appends pg rt 100 two_events [] 0 two_events-IsDense

run_session_cleans_example : left_over "box" false (run_session rt 100 start).0.deeds ≡ false
run_session_cleans_example = run_session_cleans pg rt 100 two_events [] 0 "box"

ended : (run_session rt 100 start).1 ≡ ok (2, no_tool_calls)
unfolding run_session setup wake get_session get_agent Store.get_agent get_adapter find_class
    seed_system_prompt_if_needed ask_time turns round compacted_events read_events get_events
    select_events order_by_sequence selects insert_by_sequence view apply_compaction_view
    latest_compaction is_compaction_event same_type should_compact estimate_event_tokens total_chars
    resolved_compaction_threshold Context.build_context Context.tool_call_ids Context.fold_events
    stream_turn on_db on_turn emitting run_turn run_stream note_chunk close_turn chunk_to_event
    emit_event encoded_length dumps utf8_length find_event_by_id load_session_for_emit
    insert_event_and_bump_sequence is_terminal execute_tool_calls dispatch run_sandbox_tool catch
    get_or_provision_sandbox latest_sandbox_id provision_fresh recipe_from_agent provision_one own
    on_sandbox emit execute_in finally destroy_sandboxes destroy_each mark_complete
    mark_session_complete run step create_session tename.Sessions.Service.merge_metadata
    tename.Json.get tename.Sessions.Service.find_existing tename.Json.put
    Store.find_session_by_request_id Store.insert_session Store.request_text
    tename.Harness.Loop.emit_compaction tename.Harness.Compaction.plan_truncate
    tename.Harness.Compaction.dropped tename.Harness.Compaction.keeps
    tename.Harness.Compaction.first_user_sequence tename.Json.truthy
    tename.Harness.Tools.reuse_or_provision tename.Sandbox.Service.provision
    tename.Sandbox.Service.execute Context.find_call Context.flush_assistant Context.flush_both
    Context.flush_tool_results Context.fold_event Context.tool_result_block Context.tool_use_of
    tename.Harness.Compaction.filter_index tename.Harness.Compaction.kept tename.Json.Dumps.decimal
    tename.Json.Dumps.digits tename.Json.Dumps.escape tename.Json.Dumps.escaped
    tename.Json.Dumps.quoted tename.Sandbox.Service.is_prefix tename.Sandbox.Service.is_timeout
    tename.Sandbox.Service.occurs tename.Sandbox.Service.set_status tename.Sandbox.Service.settle
    tename.Sandbox.Service.status_of tename.Sandbox.Service.transition
    tename.Sandbox.StateMachine.allowed_transitions tename.Sandbox.StateMachine.assert_transition
    tename.Sandbox.StateMachine.same_status tename.Sandbox.StateMachine.tag
    tename.Sessions.Models.tag tename.Sessions.Service.append_event
    tename.Sessions.Service.insert_or_find tename.Sessions.Service.mark_complete Store.new_session
    Store.rejects_session Store.violates_request_index tename.Harness.Compaction.dropped_set
    tename.Harness.Compaction.integers tename.Harness.Compaction.items_of
    tename.Harness.Compaction.to_payload tename.Harness.Loop.fingerprint
    tename.Sandbox.Service.destroy
ended = refl

run_session_completes_example : Over 100 (run_session rt 100 start).0.db
run_session_completes_example = run_session_completes rt 100 start 2 no_tool_calls ended

abbrev bash_call : PendingEvent
bash_call = record { id = 61; type = tool_call; payload = call_payload "t" "bash" end }
