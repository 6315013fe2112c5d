-- ===== src/Proxy/Registry.antt =====
-- src/tename/proxy/registry.py: the registered tools by name, a `dict` that only grows.
use tename.Prelude.{
  ℕ, ◌≡◌, Option, none, some, List, [], ◌∷◌, ◌++◌, String, str_eq, ◌==◌, Result, ok, err, arith,
  Bool, false, refl, ◌≢◌, ◌⊎◌, inl, inr, Bool-cases, Option-cases, ==_iff, if◌then◌else◌, map,
}
use package.text.Mathlib.TextPositions.{eq_refl}
use tename.Json.{Fields}
use tename.Router.Types.{ToolDef}
use tename.Sandbox.Service.{ToolResult}

-- What a tool function comes to: what it returns, or the name and the text of what it raises.
pub data Raw : Type 0 where
  result : ToolResult → Raw
  text : String → Raw
  dict : Fields → Raw
  other : (type_name : String) → Raw
  raises : (type_name message : String) → Raw

-- A name and a value for each credential.
abbrev pub Credentials : Type 0
Credentials = List (String × String)

-- The number is the identity of the object.
pub record ProxyTool : Type 0 where
  pub identity : ℕ
  pub name : String
  pub credential_names : List String
  pub description : String
  pub input_schema : Fields
  pub fn : Fields → Credentials → Raw

unfoldable pub to_tool_def : ProxyTool → ToolDef
to_tool_def t = record { name = t.name; description = t.description; input_schema = t.input_schema }

abbrev pub Registry : Type 0
Registry = List (String × ProxyTool)

unfoldable pub get_proxy_tool : String → Registry → Option ProxyTool
get_proxy_tool name [] = none
get_proxy_tool name ((n, t) ∷ rest) = if str_eq n name then some t else get_proxy_tool name rest

-- ValueError
pub data RegistryError : Type 0 where
  already_registered : RegistryError

abbrev pub register_over : ProxyTool → Option ProxyTool → Registry → Result RegistryError Registry
register_over tool none registry = ok (registry ++ (tool.name, tool) ∷ [])
register_over tool (some existing) registry =
    if existing.identity == tool.identity then ok registry else err already_registered

unfoldable pub register_proxy_tool : ProxyTool → Registry → Result RegistryError Registry
register_proxy_tool tool registry = register_over tool (get_proxy_tool tool.name registry) registry

unfoldable pub proxy_tool_names : Registry → List String
proxy_tool_names registry = map (λ r. r.0) registry

-- A new `dict` of the definitions.
unfoldable pub proxy_tool_schemas : Registry → List (String × ToolDef)
proxy_tool_schemas registry = map (λ r. (r.0, to_tool_def r.1)) registry

unfoldable pub clear_registry_for_testing : Registry → Registry
clear_registry_for_testing registry = []

get-append :
    (n name : String) (tool : ProxyTool) (registry : Registry)
    → get_proxy_tool n (registry ++ (name, tool) ∷ []) ≡ (elim (get_proxy_tool n registry) [
      | some t ↦ some t
      | none ↦ if str_eq name n then some tool else none
    ])
unfolding get_proxy_tool
get-append n name tool [] = refl
get-append n name tool ((m, t) ∷ rest) = ground (arith, get-append n name tool rest)

-- What a registration that succeeds leaves: the tool, by its identity, under its name, and the other
-- names as they were.
abbrev pub Registered : ProxyTool → Registry → Registry → Type 0
Registered tool old new =
    ((t : ProxyTool) × (get_proxy_tool tool.name new ≡ some t) × (t.identity ≡ tool.identity))
    × ((n : String) → str_eq tool.name n ≡ false → get_proxy_tool n new ≡ get_proxy_tool n old)

not_added :
    (tool : ProxyTool) (added : Bool) (o : Option ProxyTool)
    → added ≡ false
    → (elim o [ some t ↦ some t | none ↦ if added then some tool else none ]) ≡ o
not_added tool added none h = rw h refl
not_added tool added (some t) h = refl

-- A registration either succeeds, with the tool under its name and the other names as they were, or
-- is refused because another tool has the name.
pub register_proxy_tool_lem :
    (tool : ProxyTool) (old : Registry)
    → ((new : Registry) × (register_proxy_tool tool old ≡ ok new) × Registered tool old new)
      ⊎ ((t : ProxyTool) × (get_proxy_tool tool.name old ≡ some t)
          × (t.identity ≢ tool.identity)
          × (register_proxy_tool tool old ≡ err already_registered))
unfolding register_proxy_tool
register_proxy_tool_lem tool old = elim (Option-cases (get_proxy_tool tool.name old)) [
  | inl new ↦ inl (
    old ++ (tool.name, tool) ∷ [],
    rw (new, register_over) refl,
    (
      (
        tool,
        rw (get-append tool.name tool.name tool old) (rw new (rw (eq_refl tool.name) refl)),
        refl,
      ),
      λ n other.
          rw (get-append n tool.name tool old)
            (not_added tool (str_eq tool.name n) (get_proxy_tool n old) other),
    ),
  )
  | inr (t, found) ↦ elim (Bool-cases (t.identity == tool.identity)) [
    | inl same ↦ inl (
      old,
      rw (found, register_over) (rw same refl),
      ((t, found, (==_iff t.identity tool.identity).0 same), λ n other. refl),
    )
    | inr different ↦
        inr (
          t,
          found,
          λ e. ground (arith, e, different),
          rw (found, register_over) (rw different refl),
        )
  ]
]
