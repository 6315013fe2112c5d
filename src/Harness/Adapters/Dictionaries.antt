-- ===== src/Harness/Adapters/Dictionaries.antt =====
-- `get_tools` of vanilla.py with the dictionaries that it has: the built-in tools of the sandbox and the
-- registered proxy tools; and that of deep_agents.py with its own.
use tename.Prelude.{
  Bool, ◌≡◌, refl, ap, ◌∙◌, sym, ◌||◌, ◌&&◌, Option, none, some, List, [], ◌∷◌, String, str_eq,
  eq_iff, if◌then◌else◌, ok, All, Bool-cases, inl, inr, subst, any, All-append, ◌==◌, map, length,
  filter, arith,
}
use tename.Prelude.Dicts.{lookup}
use tename.Router.Types.{ToolDef}
use tename.Sandbox.Schemas.{builtin_tool_schemas}
use tename.Sandbox.Tools.Builtin.{is_builtin}
use tename.Proxy.Registry.{
  ProxyTool, Registry, register_proxy_tool, register_over, get_proxy_tool, proxy_tool_schemas,
  to_tool_def,
}
use tename.Harness.Adapters.Events.{
  Tools, is_in, IsKeyed, known, either, named, get_tools, get_tools_lem, count_collect,
  count_collect,
}
use tename.Harness.Adapters.DeepAgentsTools.{deep_agents_tools}
use tename.Harness.Adapters.DeepAgents as Deep

-- Each tool under its own name.
abbrev Keyed : String × ToolDef → Type 0
Keyed e = e.1.name ≡ e.0

lookup-Keyed :
    (name : String) (t : ToolDef) (d : List (String × ToolDef))
    → All Keyed d
    → lookup name d ≡ some t
    → t.name ≡ name
unfolding lookup
lookup-Keyed name t [] keyed found = cc found
lookup-Keyed name t ((k, v) ∷ rest) keyed found = elim (Bool-cases (str_eq k name)) [
  | inl same ↦
      let value : v ≡ t = cc (rw same at found) in
      ap (λ (x : ToolDef). x.name) (sym value) ∙ (keyed.0 ∙ (eq_iff k name).0 same)
  | inr other ↦ lookup-Keyed name t rest keyed.1 (rw other at found)
]

-- A registry that registrations have made.
pub data Built : Registry → Type 0 where
  empty : Built []
  registered :
      {old new : Registry} (tool : ProxyTool)
      → Built old
      → register_proxy_tool tool old ≡ ok new
      → Built new

abbrev KeyedTool : String × ProxyTool → Type 0
KeyedTool e = e.1.name ≡ e.0

added-KeyedTool :
    (tool : ProxyTool) (o : Option ProxyTool) (old new : Registry)
    → All KeyedTool old
    → register_over tool o old ≡ ok new
    → All KeyedTool new
added-KeyedTool tool none old new keyed h =
    subst (All KeyedTool) (cc h)
      (All-append KeyedTool old ((tool.name, tool) ∷ []) keyed (refl, tt))
added-KeyedTool tool (some t) old new keyed h = elim (Bool-cases (t.identity == tool.identity)) [
  | inl same ↦ subst (All KeyedTool) (cc (rw same at h)) keyed
  | inr other ↦ absurd (cc (rw other at h))
]

Built-KeyedTool : {registry : Registry} → Built registry → All KeyedTool registry
unfolding register_proxy_tool
Built-KeyedTool empty = tt
Built-KeyedTool (registered {old} {new} tool built h) =
    added-KeyedTool tool (get_proxy_tool tool.name old) old new (Built-KeyedTool built) h

schemas-Keyed :
    (registry : Registry) → All KeyedTool registry → All Keyed (proxy_tool_schemas registry)
unfolding proxy_tool_schemas to_tool_def
schemas-Keyed [] keyed = tt
schemas-Keyed (e ∷ rest) keyed = (keyed.0, schemas-Keyed rest keyed.1)

builtin-Keyed : All Keyed builtin_tool_schemas
builtin-Keyed = (refl, (refl, (refl, (refl, (refl, (refl, tt))))))

deep-Keyed : All Keyed deep_agents_tools
deep-Keyed = (refl, (refl, (refl, (refl, (refl, (refl, tt))))))

known-lookup :
    (name : String) (d : List (String × ToolDef))
    → known (lookup name d) ≡ any (λ k. str_eq k name) (map (λ e. e.0) d)
unfolding lookup
known-lookup name [] = refl
known-lookup name ((k, t) ∷ rest) = elim (Bool-cases (str_eq k name)) [
  | inl same ↦ rw same refl
  | inr other ↦ rw other (known-lookup name rest)
]

-- A schema is there for a name just when the tool is.
schema-is_builtin : (name : String) → known (lookup name builtin_tool_schemas) ≡ is_builtin name
unfolding is_builtin
schema-is_builtin name = known-lookup name builtin_tool_schemas

known-either : (a b : Option ToolDef) → known (either a b) ≡ (known a || known b)
known-either none b = refl
known-either (some a) b = refl

-- A tool is registered under the name.
abbrev pub is_registered : String → Registry → Bool
is_registered name registry = any (λ e. str_eq e.0 name) registry

schema-is_registered :
    (name : String) (registry : Registry)
    → known (lookup name (proxy_tool_schemas registry)) ≡ is_registered name registry
unfolding lookup proxy_tool_schemas
schema-is_registered name [] = refl
schema-is_registered name ((k, t) ∷ rest) = elim (Bool-cases (str_eq k name)) [
  | inl same ↦ rw same refl
  | inr other ↦ rw other (schema-is_registered name rest)
]

-- Over a registry that registrations have made, the vanilla adapter offers a tool of a given name once
-- if the agent lists the name and the sandbox runs a tool of that name or one is registered under it,
-- however often it is listed, and never if not.
pub get_tools_offered :
    (registry : Registry) (names : List String) (name : String)
    → Built registry
    → length (
        filter (named name) (
          get_tools
            (λ n. lookup n builtin_tool_schemas)
            (λ n. lookup n (proxy_tool_schemas registry))
            names))
      ≡ (if is_in names name && (is_builtin name || is_registered name registry) then 1 else 0)
get_tools_offered registry names name built =
    get_tools_lem (λ n. lookup n builtin_tool_schemas) (λ n. lookup n (proxy_tool_schemas registry))
      names name (λ n t. lookup-Keyed n t builtin_tool_schemas builtin-Keyed)
      (λ n t.
        lookup-Keyed n t (proxy_tool_schemas registry)
          (schemas-Keyed registry (Built-KeyedTool built)))
    ∙ rw
        (
          known-either (lookup name builtin_tool_schemas)
              (lookup name (proxy_tool_schemas registry)),
          schema-is_builtin name,
          schema-is_registered name registry,
        )
        refl

deep_offered :
    (find : Tools) (names : List String) (name : String)
    → IsKeyed find
    → length (filter (named name) (Deep.get_tools find names))
      ≡ (if is_in names name && known (find name) then 1 else 0)
unfolding Deep.get_tools
deep_offered find names name keyed = ground (arith, count_collect find keyed name names [])

-- The Deep Agents adapter offers a tool of a given name once if the agent lists the name and it is one
-- of BUILTIN_TOOLS, and never if not.
pub deep_tools_offered :
    (names : List String) (name : String)
    → length (filter (named name) (Deep.get_tools (λ n. lookup n deep_agents_tools) names))
      ≡ (if is_in names name && known (lookup name deep_agents_tools) then 1 else 0)
deep_tools_offered names name =
    deep_offered (λ n. lookup n deep_agents_tools) names name
      (λ n t. lookup-Keyed n t deep_agents_tools deep-Keyed)
