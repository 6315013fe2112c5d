-- ===== src/Sdk/Agents.antt =====
-- src/tename/sdk/agents.py, on the tables of the session service. The id, the time and the default
-- tenant come from the database and uuid4.
use tename.Prelude.{
  ℕ, ◌≡◌, refl, Bool, true, false, Option, none, some, List, [], ◌∷◌, String, Result, ok, err,
  ◌>>=◌, if◌then◌else◌, ◌==◌, any, filter, find?, not, arith, Bool-cases, inl, inr, subst, ap,
  ==_iff,
}
use tename.Json.{Fields, is_empty}
use tename.Sessions.Models.{Agent, Session}
use tename.Sessions.Store.{Db, get_agent}

-- ValidationError and NotFoundError of the SDK, and a constraint that the database enforces.
pub data AgentError : Type 0 where
  validation not_found integrity : AgentError

pub record CreateAgentInput : Type 0 where
  pub name : String
  pub model : String
  pub system_prompt : Option String
  pub tools : List String
  pub framework : String
  -- model_dump() of the recipe
  pub sandbox_recipe : Option Fields

abbrev pub has_agent : ℕ → Db → Bool
has_agent agent_id db = any (λ a. a.id == agent_id) db.agents

-- INSERT INTO agents: the id is the primary key
unfoldable pub insert_agent : Agent → Db → Result AgentError Db
insert_agent a db =
    if has_agent a.id db then err integrity else ok (record db { agents = a ∷ db.agents })

abbrev found_or_not : Option Agent → Result AgentError Agent
found_or_not none = err not_found
found_or_not (some a) = ok a

unfoldable pub fetch_agent : ℕ → Db → Result AgentError Agent
fetch_agent agent_id db = found_or_not (find? (λ a. a.id == agent_id) db.agents)

abbrev pub new_agent : (agent_id tenant_id now : ℕ) → CreateAgentInput → Agent
new_agent agent_id tenant_id now spec = record {
  id = agent_id;
  tenant_id = tenant_id;
  name = spec.name;
  model = spec.model;
  framework = spec.framework;
  system_prompt = spec.system_prompt;
  tools = spec.tools;
  sandbox_recipe = spec.sandbox_recipe;
  created_at = now;
}

unfoldable pub create_agent :
    (agent_id tenant_id now : ℕ) → CreateAgentInput → Db → Result AgentError (Db × Agent)
create_agent agent_id tenant_id now spec db =
    let inserted = insert_agent (new_agent agent_id tenant_id now spec) db in
    if is_empty spec.name
    then err validation
    else if is_empty spec.model
    then err validation
    else (inserted >>= λ after. fetch_agent agent_id after >>= λ a. ok (after, a))

-- The sessions of an agent keep it from being deleted (ON DELETE RESTRICT).
abbrev pub in_use : ℕ → Db → Bool
in_use agent_id db = any (λ s. s.agent_id == agent_id) db.sessions

unfoldable pub delete_agent : ℕ → Db → Result AgentError Db
delete_agent agent_id db =
    if not (has_agent agent_id db)
    then err not_found
    else if in_use agent_id db
    then err integrity
    else ok (record db { agents = filter (λ a. not (a.id == agent_id)) db.agents })

abbrev has_id : ℕ → List Agent → Bool
has_id agent_id agents = any (λ a. a.id == agent_id) agents

-- Each session has its agent.
abbrev pub Referenced : List Agent → List Session → Type 0
Referenced agents [] = Unit
Referenced agents (s ∷ rest) = (has_id s.agent_id agents ≡ true) × Referenced agents rest

has_id-filter :
    (agents : List Agent) (k j : ℕ)
    → has_id k agents ≡ true
    → (k == j) ≡ false
    → has_id k (filter (λ a. not (a.id == j)) agents) ≡ true
has_id-filter [] k j found other = found
has_id-filter (a ∷ rest) k j found other = ground (arith, has_id-filter rest k j)

filter-has_id :
    (agents : List Agent) (j : ℕ)
    → find? (λ a. a.id == j) (filter (λ a. not (a.id == j)) agents) ≡ none
filter-has_id [] j = refl
filter-has_id (a ∷ rest) j = elim (Bool-cases (a.id == j)) [
  | inl same ↦ rw same (filter-has_id rest j)
  | inr other ↦ rw (other, other) (filter-has_id rest j)
]

Referenced-filter :
    (agents : List Agent) (sessions : List Session) (j : ℕ)
    → Referenced agents sessions
    → any (λ s. s.agent_id == j) sessions ≡ false
    → Referenced (filter (λ a. not (a.id == j)) agents) sessions
Referenced-filter agents [] j held unused = tt
Referenced-filter agents (s ∷ rest) j held unused = elim (Bool-cases (s.agent_id == j)) [
  | inl used ↦ absurd (cc (rw used at unused))
  | inr other ↦ (
    has_id-filter agents s.agent_id j held.0 other,
    Referenced-filter agents rest j held.1 (rw other at unused),
  )
]

-- On tables where each session has its agent, an agent that is there and that no session uses can be
-- deleted, and afterwards each session still has its agent and no agent of that id is fetched.
pub delete_agent_lem :
    (agent_id : ℕ) (db : Db)
    → Referenced db.agents db.sessions
    → has_agent agent_id db ≡ true
    → in_use agent_id db ≡ false
    → (after : Db) × ((delete_agent agent_id db ≡ ok after)
        × Referenced after.agents after.sessions
        × (fetch_agent agent_id after ≡ err not_found))
unfolding delete_agent fetch_agent
delete_agent_lem agent_id db held there unused = (
  record db { agents = filter (λ a. not (a.id == agent_id)) db.agents },
  (
    rw (there, unused) refl,
    Referenced-filter db.agents db.sessions agent_id held unused,
    rw (filter-has_id db.agents agent_id) refl,
  ),
)

-- A fresh agent that no session uses.
fresh_unused :
    (agents : List Agent) (sessions : List Session) (j : ℕ)
    → Referenced agents sessions
    → has_id j agents ≡ false
    → any (λ s. s.agent_id == j) sessions ≡ false
fresh_unused agents [] j held fresh = refl
fresh_unused agents (s ∷ rest) j held fresh = elim (Bool-cases (s.agent_id == j)) [
  | inl used ↦
      let same : s.agent_id ≡ j = ground arith in
      let there : has_id j agents ≡ true = subst (λ k. has_id k agents ≡ true) same held.0 in
      absurd (cc (there, fresh))
  | inr other ↦ rw other (fresh_unused agents rest j held.1 fresh)
]

filter-fresh :
    (agents : List Agent) (j : ℕ)
    → has_id j agents ≡ false
    → filter (λ a. not (a.id == j)) agents ≡ agents
filter-fresh [] j fresh = refl
filter-fresh (a ∷ rest) j fresh = elim (Bool-cases (a.id == j)) [
  | inl same ↦ absurd (cc (rw same at fresh))
  | inr other ↦ rw other (ap (◌∷◌ a) (filter-fresh rest j (rw other at fresh)))
]

-- On tables where each session has its agent, an agent with a name, a model and a fresh id is created;
-- the session service then gets that agent; and deleting it gives the tables back.
pub delete_agent-create_agent :
    (agent_id tenant_id now : ℕ) (spec : CreateAgentInput) (db : Db)
    → is_empty spec.name ≡ false
    → is_empty spec.model ≡ false
    → has_agent agent_id db ≡ false
    → Referenced db.agents db.sessions
    → (after : Db) × ((create_agent agent_id tenant_id now spec db
          ≡ ok (after, new_agent agent_id tenant_id now spec))
        × (get_agent agent_id after ≡ ok (new_agent agent_id tenant_id now spec))
        × (delete_agent agent_id after ≡ ok db))
unfolding create_agent insert_agent fetch_agent delete_agent get_agent
delete_agent-create_agent agent_id tenant_id now spec db named modelled fresh held =
    let self : (agent_id == agent_id) ≡ true = (==_iff agent_id agent_id).1 refl in
    (
      record db { agents = new_agent agent_id tenant_id now spec ∷ db.agents },
      (
        rw (named, modelled, fresh, self) refl,
        rw self refl,
        rw
            (
              self,
              fresh_unused db.agents db.sessions agent_id held fresh,
              filter-fresh db.agents agent_id fresh,
            )
            refl,
      ),
    )
