-- ===== src/Tests/DictionaryRuns.antt =====
-- The tools that an agent is offered, and what they require.
use tename.Prelude.{◌≡◌, refl, [], ◌∷◌, if◌then◌else◌, ◌&&◌, ◌||◌, length, filter, All}
use tename.Prelude.Dicts.{lookup}
use tename.Json.{end}
use tename.Sandbox.Schemas.{builtin_tool_schemas}
use tename.Sandbox.Contracts.{Enforces, schemas_enforced}
use tename.Sandbox.Tools.Builtin.{is_builtin}
use tename.Proxy.Registry.{
  ProxyTool, Registry, text, register_proxy_tool, get_proxy_tool, proxy_tool_schemas,
}
use tename.Harness.Adapters.Events.{is_in, named, get_tools}
use tename.Harness.Adapters.Dictionaries.{
  is_registered, Built, empty, registered, get_tools_offered,
}
use tename.Tests.ToolRuns.{box}

abbrev search : ProxyTool
search = record {
  identity = 1;
  name = "web_search";
  credential_names = "web_search_api_key" ∷ [];
  description = "Search the web.";
  input_schema = end;
  fn = λ input credentials. text "[]";
}

abbrev registry : Registry
registry = ("web_search", search) ∷ []

built : Built registry
unfolding register_proxy_tool get_proxy_tool
built = registered search empty refl

get_tools_offered_example :
    length (
      filter (named "bash") (
        get_tools
          (λ n. lookup n builtin_tool_schemas)
          (λ n. lookup n (proxy_tool_schemas registry))
          ("bash" ∷ "web_search" ∷ "bash" ∷ [])))
    ≡ (if is_in ("bash" ∷ "web_search" ∷ "bash" ∷ []) "bash"
          && (is_builtin "bash" || is_registered "bash" registry)
        then 1
        else 0)
get_tools_offered_example =
    get_tools_offered registry ("bash" ∷ "web_search" ∷ "bash" ∷ []) "bash" built

schemas_enforced_example : All (Enforces box) builtin_tool_schemas
schemas_enforced_example = schemas_enforced box
