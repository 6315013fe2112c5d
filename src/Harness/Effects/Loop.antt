-- ===== src/Harness/Effects/Loop.antt =====
-- The effects of `run_session` of src/tename/harness/service.py: on the tables, on the number of
-- completions, and on the sandboxes, of which none is left over.
use tename.Prelude.{
  ℕ, zero, suc, ◌+◌, ◌≡◌, refl, sym, ◌∙◌, false, Option, none, some, List, [], ◌∷◌, String, arith,
}
use tename.Prelude.Actions.{give}
use tename.Json.{Fields}
use tename.Sessions.Models.{Event, Agent}
use tename.Sessions.Store.{Postgres}
use tename.Sessions.Reached.{stay}
use tename.Router.Types.{Message, ToolDef}
use tename.Harness.Profiles.{Profile}
use tename.Harness.Compaction.{CompactionDecision}
use tename.Harness.Adapters.Base.{PendingEvent}
use tename.Harness.Turn.{TurnResult, run_turn_lem}
use tename.Harness.World.{Backend, ToolProxy, Adapter, Runtime, completed, on_turn}
use tename.Harness.Loop.{
  StopReason, name_of, input_of, dispatch, proxy_or_stub, route, answer, execute_tool_calls, view,
  emit_decision, emit_compaction, seed, seed_system_prompt_if_needed, ask_time, over_time,
  stream_turn, compacted_events, after_turn, round, turns,
}
use tename.Harness.Effects.{
  Does, left_over-append, completions-append, give-Does, lift-Does, >>=-Does, bind-Does, emit-Does,
  read_events-Does, if-Does,
}
use tename.Harness.Effects.Tools.{run_sandbox_tool-Does, run_proxy_tool-Does}

module _ (pg : Postgres) (rt : Runtime) (session_id : ℕ) where
  proxy_or_stub-Does :
      (o : Option ToolProxy) (call : PendingEvent) (tool_name : String) (tool_input : Fields)
      → Does pg rt session_id 0 (proxy_or_stub rt session_id o call tool_name tool_input)
  proxy_or_stub-Does none call tool_name tool_input = give-Does 0 _
  proxy_or_stub-Does (some proxy) call tool_name tool_input =
      if-Does 0 _ (run_proxy_tool-Does pg rt session_id proxy call tool_name tool_input)
        (give-Does 0 _)

  route-Does :
      (o : Option Backend) (agent : Agent) (call : PendingEvent) (tool_name : String)
      (tool_input : Fields)
      → rt.sandbox ≡ o
      → Does pg rt session_id 0 (route rt session_id o agent call tool_name tool_input)
  route-Does none agent call tool_name tool_input wired =
      proxy_or_stub-Does _ call tool_name tool_input
  route-Does (some backend) agent call tool_name tool_input wired =
      if-Does 0 _
        (run_sandbox_tool-Does pg rt session_id backend agent call tool_name tool_input wired)
        (proxy_or_stub-Does _ call tool_name tool_input)

  pub dispatch-Does :
      (agent : Agent) (call : PendingEvent) (tool_name : String) (tool_input : Fields)
      → Does pg rt session_id 0 (dispatch rt session_id agent call tool_name tool_input)
  unfolding dispatch
  dispatch-Does agent call tool_name tool_input =
      route-Does rt.sandbox agent call tool_name tool_input refl

  pub execute_tool_calls-Does :
      (agent : Agent) (calls : List PendingEvent)
      → Does pg rt session_id 0 (execute_tool_calls rt session_id agent calls)
  unfolding execute_tool_calls
  execute_tool_calls-Does agent [] = give-Does 0 tt
  execute_tool_calls-Does agent (call ∷ calls) =
      >>=-Does 0 (dispatch-Does agent call (name_of call) (input_of call))
        (λ payload. >>=-Does 0 (emit-Does _ _ payload) (λ e. execute_tool_calls-Does agent calls))

  emit_decision-Does :
      (d : Option CompactionDecision) → Does pg rt session_id 0 (emit_decision rt session_id d)
  emit_decision-Does none = give-Does 0 tt
  emit_decision-Does (some d) = >>=-Does 0 (emit-Does _ _ _) (λ e. give-Does 0 tt)

  view-Does : (events : List Event) → Does pg rt session_id 0 (view rt session_id events)
  unfolding view
  view-Does events = lift-Does _

  emit_compaction-Does :
      (events : List Event) (p : Profile)
      → Does pg rt session_id 0 (emit_compaction rt session_id events p)
  unfolding emit_compaction
  emit_compaction-Does events p = >>=-Does 0 (view-Does events) (λ active. emit_decision-Does _)

  seed-Does : (prompt : String) → Does pg rt session_id 0 (seed rt session_id prompt)
  seed-Does prompt =
      if-Does 0 _ (give-Does 0 tt) (>>=-Does 0 (emit-Does _ _ _) (λ e. give-Does 0 tt))

  pub seed_system_prompt-Does :
      (agent : Agent) → Does pg rt session_id 0 (seed_system_prompt_if_needed rt session_id agent)
  unfolding seed_system_prompt_if_needed
  seed_system_prompt-Does agent = seed-Does _

  pub ask_time-Does : Does pg rt session_id 0 (ask_time rt session_id)
  unfolding ask_time
  ask_time-Does = record {
    effect = λ w. record { reached = stay pg session_id w.db; tracks = λ h. h; asks = omega arith };
  }

  over_time-Does :
      (most : Option ℕ) (started_at : ℕ)
      → Does pg rt session_id 0 (over_time rt session_id most started_at)
  over_time-Does none started_at = give-Does 0 false
  over_time-Does (some most) started_at = >>=-Does 0 ask_time-Does (λ t. give-Does 0 _)

  stream_turn-Does :
      (p : Profile) (messages : List Message) (tools : List ToolDef)
      → Does pg rt session_id 1 (stream_turn rt session_id p messages tools)
  unfolding stream_turn on_turn
  stream_turn-Does p messages tools = record {
    effect = λ w. record {
      reached = (run_turn_lem pg rt.dump_usage session_id _ _ _ _ w.db).0;
      tracks =
          λ h id there. h id (sym (left_over-append id false w.deeds (completed ∷ [])) ∙ there);
      asks = omega (arith, completions-append w.deeds (completed ∷ []));
    };
  }

  compacted_events-Does : (p : Profile) → Does pg rt session_id 0 (compacted_events rt session_id p)
  unfolding compacted_events
  compacted_events-Does p = >>=-Does 0 read_events-Does (λ events.
      >>=-Does 0 (view-Does events) (λ active.
        if-Does 0 _ (>>=-Does 0 (emit_compaction-Does events p) (λ u. read_events-Does))
          (give-Does 0 events)))

  answer-Does :
      (agent : Agent) (calls : List PendingEvent)
      → Does pg rt session_id 0 (answer rt session_id agent calls)
  answer-Does agent [] = give-Does 0 _
  answer-Does agent (call ∷ calls) =
      >>=-Does 0 (execute_tool_calls-Does agent (call ∷ calls)) (λ u. give-Does 0 none)

  after_turn-Does :
      (agent : Agent) (r : TurnResult) → Does pg rt session_id 0 (after_turn rt session_id agent r)
  after_turn-Does agent r = if-Does 0 _ (give-Does 0 _) (answer-Does agent r.tool_calls)

  round-Does :
      (agent : Agent) (p : Profile) (a : Adapter) (started_at : ℕ)
      → Does pg rt session_id 1 (round rt session_id agent p a started_at)
  unfolding round
  round-Does agent p a started_at = >>=-Does 1 (over_time-Does _ started_at) (λ late.
      if-Does 1 late (give-Does 1 _) (
        >>=-Does 1 (compacted_events-Does p) (λ events. >>=-Does 1 (view-Does events) (λ active.
          if-Does 1 _ (give-Does 1 _)
            (bind-Does 1 0 1 (omega arith) (stream_turn-Does p _ _) (after_turn-Does agent))))))

  pub turns-Does :
      (agent : Agent) (p : Profile) (a : Adapter) (started_at left turn : ℕ)
      → Does pg rt session_id left (turns rt session_id agent p a started_at left turn)
  unfolding turns
  turns-Does agent p a started_at zero turn = give-Does 0 _
  turns-Does agent p a started_at (suc left) turn =
      bind-Does 1 left (suc left) (omega arith) (round-Does agent p a started_at) (λ stop.
        elim stop
          as (λ k. Does pg rt session_id left {A = ℕ × StopReason} (elim k [
            | some reason ↦ give (turn + 1, reason)
            | none ↦ turns rt session_id agent p a started_at left (turn + 1)
          ])) [
            | some reason ↦ give-Does left _
            | none ↦ turns-Does agent p a started_at left (turn + 1)
          ])
