-- ===== src/Harness/Loop.antt =====
-- `run_session` of src/tename/harness/service.py and the steps of its loop. Logging is left out.
use tename.Prelude.{
  ℕ, zero, suc, ◌+◌, Bool, true, false, not, Option, none, some, List, [], ◌∷◌, String, any,
  if◌then◌else◌, Result, ok, err, ltb,
}
use tename.Prelude.Actions.{◌>>=◌, ◌>>◌, continue, give, lift, finally}
use tename.Json.{pos, Fields, int, str, obj, end, field, get, get_default, as_str, is_empty}
use tename.Sessions.Models.{Event, tool_result, system_event, harness_event, Agent, SessionStatus}
use tename.Sessions.Reached.{completes}
use tename.Sandbox.Service as SandboxFacade
use tename.Proxy.Registry.{proxy_tool_names}
use tename.Router.Types.{Message, ToolDef, Role, user}
use tename.Harness.Profiles.{Profile}
use tename.Harness.Compaction.{
  CompactionDecision, apply_compaction_view, should_compact, plan_truncate, to_payload,
}
use tename.Harness.Adapters.Base.{PendingEvent}
use tename.Harness.Adapters.Context.{dict_or_empty}
use tename.Harness.Adapters.Events.{is_in}
use tename.Harness.Turn.{TurnResult, run_turn}
use tename.Harness.World.{
  Backend, ToolProxy, Adapter, Raised, type_error, Runtime, Run, World, on_db, on_turn, on_sandbox,
  completed, destroyed, note_deed,
}
use tename.Harness.Setup.{Setup, set_up, setup}
use tename.Harness.Tools.{
  ◌<>◌, builtin_tool_names, emit, read_events, stub_payload, run_sandbox_tool, run_proxy_tool,
  text_of_id,
}

pub data StopReason : Type 0 where
  max_turns max_duration no_user_turn model_error no_tool_calls : StopReason

abbrev or_blank : Option String → String
or_blank none = ""
or_blank (some s) = s

abbrev pub name_of : PendingEvent → String
name_of call = or_blank (as_str (get "tool_name" call.payload))

abbrev pub input_of : PendingEvent → Fields
input_of call = dict_or_empty (get_default "input" (obj end) call.payload)

-- `m.role == "user"`
abbrev is_user : Role → Bool
is_user user = true
is_user _ = false

abbrev some_tools : List ToolDef → Option (List ToolDef)
some_tools [] = none
some_tools (t ∷ ts) = some (t ∷ ts)

module _ (rt : Runtime) (session_id : ℕ) where
  -- The event id of the result of a call.
  abbrev pub result_id : PendingEvent → ℕ
  result_id call = rt.uuid5 ("tename:tool-result:" <> text_of_id rt session_id call.id)

  abbrev pub proxy_or_stub : Option ToolProxy → PendingEvent → String → Fields → Run Fields
  proxy_or_stub none call tool_name tool_input = give (stub_payload rt session_id call tool_name)
  proxy_or_stub (some proxy) call tool_name tool_input =
      if is_in (proxy_tool_names rt.registry) tool_name
      then run_proxy_tool rt session_id proxy call tool_name tool_input
      else give (stub_payload rt session_id call tool_name)

  abbrev pub route : Option Backend → Agent → PendingEvent → String → Fields → Run Fields
  route none agent call tool_name tool_input = proxy_or_stub rt.tool_proxy call tool_name tool_input
  route (some backend) agent call tool_name tool_input =
      if is_in builtin_tool_names tool_name
      then run_sandbox_tool rt session_id backend agent call tool_name tool_input
      else proxy_or_stub rt.tool_proxy call tool_name tool_input

  -- The payload of one result.
  unfoldable pub dispatch : Agent → PendingEvent → String → Fields → Run Fields
  dispatch agent call tool_name tool_input = route rt.sandbox agent call tool_name tool_input

  unfoldable pub execute_tool_calls : Agent → List PendingEvent → Run (Unit {0})
  execute_tool_calls agent [] = give tt
  execute_tool_calls agent (call ∷ calls) =
      dispatch agent call (name_of call) (input_of call) >>= λ payload.
      emit rt session_id (result_id call) tool_result payload >>= λ e.
      execute_tool_calls agent calls

  -- `logger.exception` is all that an error comes to.
  abbrev pub destroy_one : Backend → String → World → World
  destroy_one backend id w =
      note_deed (destroyed id)
        (on_sandbox (λ t. SandboxFacade.destroy id (backend.destroy t id)) w).0

  unfoldable pub destroy_each : Backend → List String → World → World
  destroy_each backend [] w = w
  destroy_each backend (id ∷ ids) w = destroy_each backend ids (destroy_one backend id w)

  abbrev pub destroy_with : Option Backend → World → World
  destroy_with none w = w
  destroy_with (some backend) w = destroy_each backend (rt.iterated w.owned) w

  unfoldable pub destroy_sandboxes : Run (Unit {0})
  destroy_sandboxes w = (destroy_with rt.sandbox w, ok tt)

  abbrev or_type_error : Option (List Event) → Result Raised (List Event)
  or_type_error none = err type_error
  or_type_error (some events) = ok events

  unfoldable pub view : List Event → Run (List Event)
  view events = lift (or_type_error (apply_compaction_view events))

  -- ",".join(str(s) for s in sequences)
  unfoldable pub fingerprint : List ℕ → String
  fingerprint [] = ""
  fingerprint (n ∷ []) = rt.python.str_of (int (pos n))
  fingerprint (n ∷ (m ∷ ns)) = rt.python.str_of (int (pos n)) <> "," <> fingerprint (m ∷ ns)

  abbrev pub emit_decision : Option CompactionDecision → Run (Unit {0})
  emit_decision none = give tt
  emit_decision (some decision) =
      emit rt session_id
        (rt.uuid5 (
          "tename:compaction:"
          <> text_of_id rt session_id session_id
          <> ":"
          <> fingerprint decision.dropped_sequences))
        harness_event (to_payload decision)
      >>= λ e. give tt

  unfoldable pub emit_compaction : List Event → Profile → Run (Unit {0})
  emit_compaction events p =
      view events >>= λ active. emit_decision (plan_truncate active p.context)

  abbrev pub seed : String → Run (Unit {0})
  seed prompt =
      if is_empty prompt
      then give tt
      else (emit rt session_id
            (rt.uuid5 ("tename:system-prompt:" <> text_of_id rt session_id session_id)) system_event
            (field "type" (str "system_prompt") (field "content" (str prompt) end))
          >>= λ e. give tt)

  -- None and "" are no prompts.
  unfoldable pub seed_system_prompt_if_needed : Agent → Run (Unit {0})
  seed_system_prompt_if_needed agent = seed (or_blank agent.system_prompt)

  -- monotonic()
  unfoldable pub ask_time : Run ℕ
  ask_time w = (record w { moment = suc w.moment }, ok (rt.monotonic w.moment))

  abbrev pub over_time : Option ℕ → ℕ → Run Bool
  over_time none started_at = give false
  over_time (some most) started_at = ask_time >>= λ t. give (ltb (started_at + most) t)

  -- The turn of Turn.antt on what the router streams.
  unfoldable pub stream_turn : Profile → List Message → List ToolDef → Run TurnResult
  stream_turn p messages tools w =
      let c = rt.complete w.moment p messages (some_tools tools) in
      on_turn (run_turn rt.dump_usage session_id c.arrivals c.ending c.fresh c.now)
        (note_deed completed w)

  -- The events that the turn starts from, after a compaction if one is due.
  unfoldable pub compacted_events : Profile → Run (List Event)
  compacted_events p = read_events rt session_id >>= λ events. view events >>= λ active.
      if should_compact active p.context
      then emit_compaction events p >> read_events rt session_id
      else give events

  abbrev pub answer : Agent → List PendingEvent → Run (Option StopReason)
  answer agent [] = give (some no_tool_calls)
  answer agent (call ∷ calls) = execute_tool_calls agent (call ∷ calls) >> give none

  abbrev pub after_turn : Agent → TurnResult → Run (Option StopReason)
  after_turn agent result =
      if result.errored then give (some model_error) else answer agent result.tool_calls

  abbrev pub respond : Agent → Profile → Adapter → List Message → Run (Option StopReason)
  respond agent p a messages =
      if not (any (λ m. is_user m.role) messages)
      then give (some no_user_turn)
      else (stream_turn p messages (a.get_tools agent) >>= after_turn agent)

  -- The body of the loop: the reason of its `break`, if there is one.
  unfoldable pub round : Agent → Profile → Adapter → ℕ → Run (Option StopReason)
  round agent p a started_at =
      over_time p.stop_conditions.max_duration_seconds started_at >>= λ late.
      if late
      then give (some max_duration)
      else (compacted_events p >>= λ events.
          view events >>= λ active. respond agent p a (a.build_context active p))

  -- `left` counts the turns up to max_turns; the result is `turn` and the stop reason.
  unfoldable pub turns : Agent → Profile → Adapter → ℕ → (left turn : ℕ) → Run (ℕ × StopReason)
  turns agent p a started_at zero turn = give (turn, max_turns)
  turns agent p a started_at (suc left) turn = round agent p a started_at >>= λ stop. elim stop [
    | some reason ↦ give (turn + 1, reason)
    | none ↦ turns agent p a started_at left (turn + 1)
  ]

  abbrev pub drive : Agent → Profile → Adapter → Run (ℕ × StopReason)
  drive agent p a =
      seed_system_prompt_if_needed agent
      >> (ask_time >>= λ started_at.
          finally (turns agent p a started_at p.stop_conditions.max_turns 0) destroy_sandboxes)

  unfoldable pub mark_complete : Run SessionStatus
  mark_complete = on_db (λ t. completes (rt.now t) session_id)

  abbrev pub work : Setup → Run (ℕ × StopReason)
  work (set_up agent p a) = drive agent p a >>= λ ended. mark_complete >>= λ status. give ended

  -- The result is what the last line logs: the turns and the stop reason.
  unfoldable pub run_session : Run (ℕ × StopReason)
  run_session w = continue (w, setup rt session_id w.db) work
