-- ===== src/Sdk/Listing.antt =====
-- `list_agents` of src/tename/sdk/agents.py. Agents of one time come in the order in which the database
-- reads them, which is an argument.
use mathlib.Core.List.{Perm}
use mathlib.Core.List.Perm
use tename.Prelude.{ℕ, ◌≤◌, List, [], ◌∷◌, if◌then◌else◌, leb}
use tename.Sessions.Models.{Agent}
use tename.Sessions.Store.{Db}

-- ORDER BY created_at DESC
unfoldable pub insert_newest : Agent → List Agent → List Agent
insert_newest a [] = a ∷ []
insert_newest a (b ∷ rest) =
    let later = insert_newest a rest in
    if leb b.created_at a.created_at then a ∷ b ∷ rest else b ∷ later

unfoldable pub newest_first : List Agent → List Agent
newest_first [] = []
newest_first (a ∷ rest) = insert_newest a (newest_first rest)

unfoldable pub list_agents : (scan : List Agent → List Agent) → Db → List Agent
list_agents scan db = newest_first (scan db.agents)

-- No agent is older than the next, and none is newer than `now`.
abbrev pub IsOlder : ℕ → List Agent → Type 0
IsOlder now [] = Unit
IsOlder now (a ∷ rest) = (a.created_at ≤ now) × IsOlder a.created_at rest

abbrev pub IsNewestFirst : List Agent → Type 0
IsNewestFirst [] = Unit
IsNewestFirst (a ∷ rest) = IsOlder a.created_at rest
