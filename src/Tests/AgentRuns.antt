-- ===== src/Tests/AgentRuns.antt =====
-- An agent made and removed through the SDK, beside another that has a session.
use tename.Prelude.{◌≡◌, refl, some, none, [], ◌∷◌, ok, err}
use tename.Json.{end}
use tename.Sessions.Models.{Session, active}
use tename.Sessions.Store.{Db, get_agent}
use tename.Sdk.Agents.{
  CreateAgentInput, new_agent, create_agent, delete_agent, delete_agent-create_agent, integrity,
}
use tename.Sdk.Listing.{insert_newest, newest_first, list_agents}
use mathlib.Core.List.{Perm}
use mathlib.Core.List.Perm

abbrev spec : CreateAgentInput
spec = record {
  name = "Ada";
  model = "claude";
  system_prompt = some "Be brief";
  tools = "bash" ∷ [];
  framework = "vanilla";
  sandbox_recipe = none;
}

abbrev open_session : Session
open_session = record {
  id = 100;
  tenant_id = 1;
  agent_id = 7;
  status = active;
  last_sequence = 0;
  metadata = end;
  created_at = 3;
  updated_at = 3;
}

abbrev db : Db
db = record { agents = new_agent 7 1 2 spec ∷ []; sessions = open_session ∷ []; events = [] }

delete_agent-create_agent_example :
    (after : Db) × ((create_agent 8 1 4 spec db ≡ ok (after, new_agent 8 1 4 spec))
      × (get_agent 8 after ≡ ok (new_agent 8 1 4 spec))
      × (delete_agent 8 after ≡ ok db))
delete_agent-create_agent_example =
    delete_agent-create_agent 8 1 4 spec db refl refl refl (refl, tt)

in_use_stays : delete_agent 7 db ≡ err integrity
unfolding delete_agent
in_use_stays = refl

abbrev two_agents : Db
two_agents = record db { agents = new_agent 7 1 2 spec ∷ new_agent 8 1 4 spec ∷ [] }

newest_first_of_two :
    list_agents (λ l. l) two_agents ≡ new_agent 8 1 4 spec ∷ new_agent 7 1 2 spec ∷ []
unfolding list_agents newest_first insert_newest
newest_first_of_two = refl
