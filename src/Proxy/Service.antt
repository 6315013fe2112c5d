-- ===== src/Proxy/Service.antt =====
-- src/tename/proxy/service.py. Logging is left out.
use Prim.Native.String.{◌++◌ as append}
use tename.Prelude.{
  true, false, Option, none, some, List, [], ◌∷◌, String, str_eq, Result, ok, err, ◌>>=◌,
  if◌then◌else◌,
}
use tename.Json.{Fields, bool, get, get_default, truthy, as_str}
use tename.Sandbox.Service.{ToolResult}
use tename.Vault.Files.{
  Error, vault_error, locked, credential_not_found, configuration, os_error, value_error,
  attribute_error,
}
use tename.Proxy.Registry.{
  Raw, result, text, dict, other, raises, Credentials, ProxyTool, Registry, get_proxy_tool,
}

-- What the interpreter makes of values: `repr` of a text, `json.dumps(raw, default=str)`, which may
-- raise, the text of a VaultConfigurationError, and the name of a class of errors.
pub record Texts : Type 0 where
  pub repr : String → String
  pub dumps : Fields → Option String
  pub text_of : Error → String
  pub class_of : Error → String

infixl 20 ◌<>◌
abbrev ◌<>◌ : String → String → String
a <> b = append a b

-- _error_result
unfoldable pub error_result : String → ToolResult
error_result message = record {
  is_error = true;
  content = message;
  stdout = "";
  stderr = "";
  exit_code = none;
  error = some message;
}

abbrev pub plain_result : String → ToolResult
plain_result content = record {
  is_error = false;
  content = content;
  stdout = "";
  stderr = "";
  exit_code = none;
  error = none;
}

-- ', '.join(names)
unfoldable pub join_names : List String → String
join_names [] = ""
join_names (n ∷ []) = n
join_names (n ∷ (m ∷ rest)) = n <> ", " <> join_names (m ∷ rest)

-- d[key] = value
unfoldable pub set_credential : String → String → Credentials → Credentials
set_credential name value [] = (name, value) ∷ []
set_credential name value ((n, v) ∷ rest) =
    if str_eq n name then (name, value) ∷ rest else (n, v) ∷ set_credential name value rest

-- A lookup that fails: an error that becomes a message, or one that passes through `execute`.
pub data Failure : Type 0 where
  credential_lookup : (user_message : String) → Failure
  uncaught : Error → Failure

-- What `execute` raises: an error of the vault, or that of `json.dumps`.
pub data Escaped : Type 0 where
  vault : Error → Escaped
  dumps_error : Escaped

module _ (texts : Texts) where
  -- The `except` clauses of _resolve_credentials; of the errors, OSError, ValueError and
  -- AttributeError are no VaultError.
  unfoldable pub lookup_failure : String → String → Error → Failure
  lookup_failure tool cred credential_not_found = credential_lookup (
      "proxy tool "
      <> texts.repr tool
      <> " requires credential "
      <> texts.repr cred
      <> " which is not stored in the vault")
  lookup_failure tool cred configuration =
      credential_lookup ("vault is not usable: " <> texts.text_of configuration)
  lookup_failure tool cred vault_error =
      credential_lookup
        ("vault failed for credential " <> texts.repr cred <> ": " <> texts.class_of vault_error)
  lookup_failure tool cred locked =
      credential_lookup
        ("vault failed for credential " <> texts.repr cred <> ": " <> texts.class_of locked)
  lookup_failure tool cred os_error = uncaught os_error
  lookup_failure tool cred value_error = uncaught value_error
  lookup_failure tool cred attribute_error = uncaught attribute_error

  abbrev pub caught : String → String → Result Error String → Result Failure String
  caught tool cred (ok v) = ok v
  caught tool cred (err e) = err (lookup_failure tool cred e)

  -- The loop over the names; `retrieve` is that of the vault.
  unfoldable pub resolve_all :
      (retrieve : String → Result Error String)
      → String
      → List String
      → Credentials
      → Result Failure Credentials
  resolve_all retrieve tool [] out = ok out
  resolve_all retrieve tool (n ∷ ns) out =
      caught tool n (retrieve n) >>= λ v. resolve_all retrieve tool ns (set_credential n v out)

  -- _resolve_credentials
  unfoldable pub resolve_credentials :
      Option (String → Result Error String) → ProxyTool → Result Failure Credentials
  resolve_credentials vault_of tool = elim tool.credential_names [
    | [] ↦ ok []
    | n ∷ ns ↦ elim vault_of [
      | none ↦ err (
          credential_lookup (
            "proxy tool "
            <> texts.repr tool.name
            <> " needs credentials ("
            <> join_names (n ∷ ns)
            <> ") but no vault is configured"))
      | some retrieve ↦ resolve_all retrieve tool.name (n ∷ ns) []
    ]
  ]

  -- The content, if it is a text, and else the whole result as JSON.
  abbrev pub content_or : Option String → Option String → Result Escaped String
  content_or dumped (some s) = ok s
  content_or (some dumped) none = ok dumped
  content_or none none = err dumps_error

  -- _normalize_result, and the message for a function that raised
  unfoldable pub normalize_result : String → Raw → Result Escaped ToolResult
  unfolding error_result
  normalize_result tool (result r) = ok r
  normalize_result tool (text s) = ok (plain_result s)
  normalize_result tool (dict d) =
      content_or (texts.dumps d) (as_str (get "content" d)) >>= λ content.
      ok (record (plain_result content) {
        is_error = truthy (get_default "is_error" (bool false) d);
        error = as_str (get "error" d);
      })
  normalize_result tool (other type_name) = ok (
      error_result (
        "proxy tool returned unsupported type " <> type_name
        <> "; return a ToolResult, str, or dict"))
  normalize_result tool (raises type_name message) = ok (
      error_result ("proxy tool " <> texts.repr tool <> " raised " <> type_name <> ": " <> message))

  abbrev pub run_tool : ProxyTool → Fields → Result Failure Credentials → Result Escaped ToolResult
  run_tool tool input (ok credentials) = normalize_result tool.name (tool.fn input credentials)
  run_tool tool input (err (credential_lookup message)) = ok (error_result message)
  run_tool tool input (err (uncaught e)) = err (vault e)

  -- An error is what `execute` raises.
  unfoldable pub execute :
      Option (String → Result Error String) → Registry → String → Fields → Result Escaped ToolResult
  execute vault_of registry tool_name input = elim (get_proxy_tool tool_name registry) [
    | none ↦ ok (error_result ("proxy tool " <> texts.repr tool_name <> " is not registered"))
    | some tool ↦ run_tool tool input (resolve_credentials vault_of tool)
  ]
