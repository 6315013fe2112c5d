-- ===== src/Proxy/WebSearch.antt =====
-- src/tename/proxy/tools/web_search.py and the decorator of src/tename/proxy/decorators.py. The HTTP
-- client and what the interpreter makes of values are arguments.
use tename.Prelude.{
  ℕ, Bool, true, false, Option, none, some, List, [], ◌∷◌, String, leb, min, max, if◌then◌else◌,
  Result,
}
use tename.Json.{
  ℤ, pos, negsuc, Json, Items, Fields, null, bool, int, float, str, arr, obj, nil, cons, end, field,
  get, truthy, is_empty,
}
use tename.Prelude.Dicts.{lookup}
use tename.Sandbox.Tools.{◌<>◌}
use tename.Sandbox.Tools.Texts.{first_characters}
use tename.Proxy.Registry.{
  Raw, dict, raises, Credentials, Registry, RegistryError, register_proxy_tool,
}

-- What `int(value)` comes to: a number, a TypeError or ValueError, or an OverflowError.
pub data Converted : Type 0 where
  number : ℤ → Converted
  refused overflow : Converted

-- What a POST comes to: a response with its status, its text and its JSON, if it is JSON; an
-- httpx.HTTPError; or any other exception.
pub data Reply : Type 0 where
  response : (status_code : ℕ) (text : String) → Option Json → Reply
  http_error : (message : String) → Reply
  broken : (type_name message : String) → Reply

pub record Interpreter : Type 0 where
  pub post : (endpoint : String) (body : Fields) → Reply
  pub int_of_float : String → Converted
  pub int_of_text : String → Converted
  pub decimal : ℕ → String
  pub dumps : Json → String
  pub strip : String → String

-- `int(value)`
unfoldable pub int_of : Interpreter → Json → Converted
int_of py (int n) = number n
int_of py (bool true) = number (pos 1)
int_of py (bool false) = number (pos 0)
int_of py (float t) = py.int_of_float t
int_of py (str t) = py.int_of_text t
int_of py other = refused

-- `input.get("max_results") or 5`
abbrev pub or_five : Option Json → Json
or_five none = int (pos 5)
or_five (some v) = if truthy v then v else int (pos 5)

-- max(1, min(20, max_results))
unfoldable pub clamp : ℤ → ℕ
clamp (pos n) = max 1 (min 20 n)
clamp (negsuc n) = 1

abbrev pub tool_answer : (is_error : Bool) (content : String) → Raw
tool_answer is_error content =
    dict (field "is_error" (bool is_error) (field "content" (str content) end))

abbrev get_or_null : String → Fields → Json
get_or_null key d = elim (get key d) [ none ↦ null | some v ↦ v ]

-- item.get("content") or item.get("snippet")
abbrev content_or_snippet : Fields → Json
content_or_snippet d =
    if truthy (get_or_null "content" d) then get_or_null "content" d else get_or_null "snippet" d

-- What is reported of the results that are objects.
unfoldable pub summary : Items → Items
summary nil = nil
summary (cons (obj d) rest) =
    cons
      (obj (
        field "title" (get_or_null "title" d)
          (field "url" (get_or_null "url" d) (field "content" (content_or_snippet d) end))))
      (summary rest)
summary (cons other rest) = summary rest

abbrev pub listed : Option Json → Items
listed (some (arr results)) = results
listed other = nil

abbrev pub results_of : Json → Items
results_of (obj d) = listed (get "results" d)
results_of other = nil

module _ (py : Interpreter) where
  abbrev pub parsed : String → Option Json → Raw
  parsed text none =
      tool_answer true ("web_search non-JSON response: " <> first_characters 500 text)
  parsed text (some v) = tool_answer false (py.dumps (arr (summary (results_of v))))

  unfoldable pub read_reply : Reply → Raw
  read_reply (http_error message) = tool_answer true ("web_search network error: " <> message)
  read_reply (broken type_name message) = raises type_name message
  read_reply (response status text json) =
      if leb 400 status
      then tool_answer true
          ("web_search HTTP " <> py.decimal status <> ": " <> first_characters 500 text)
      else parsed text json

  abbrev pub body_of : (query key : String) → ℤ → Fields
  body_of query key n =
      field "query" (str query)
        (field "api_key" (str key) (field "max_results" (int (pos (clamp n))) end))

  abbrev missing_key : Option (String × Fields) × Raw
  missing_key = (
    none,
    tool_answer true
        "web_search credential 'web_search_api_key' is missing. Store one with `tename vault set web_search_api_key`.",
  )

  -- What is posted, if anything, and what is returned.
  abbrev pub search_with :
      (endpoint query : String) → ℤ → Option String → Option (String × Fields) × Raw
  search_with endpoint query n none = missing_key
  search_with endpoint query n (some key) = if is_empty key then missing_key else (
    some (endpoint, body_of query key n),
    read_reply (py.post endpoint (body_of query key n)),
  )

  abbrev pub search_for :
      (endpoint query : String) → Converted → Option String → Option (String × Fields) × Raw
  search_for endpoint query (number n) key = search_with endpoint query n key
  search_for endpoint query refused key =
      (none, tool_answer true "web_search 'max_results' must be an integer")
  search_for endpoint query overflow key =
      (none, raises "OverflowError" "cannot convert float infinity to integer")

  abbrev no_query : Option (String × Fields) × Raw
  no_query = (none, tool_answer true "web_search requires a non-empty 'query' string")

  abbrev pub search_query :
      (endpoint : String) → Fields → Credentials → Option Json → Option (String × Fields) × Raw
  search_query endpoint input credentials (some (str query)) =
      if is_empty (py.strip query)
      then no_query
      else search_for endpoint query (int_of py (or_five (get "max_results" input)))
          (lookup "web_search_api_key" credentials)
  search_query endpoint input credentials other = no_query

  -- `endpoint` is that of the environment, or the default.
  unfoldable pub web_search :
      (endpoint : String) → Fields → Credentials → Option (String × Fields) × Raw
  web_search endpoint input credentials =
      search_query endpoint input credentials (get "query" input)

-- proxy_tool: the decorated function is registered; the number is the identity of the object
unfoldable pub proxy_tool :
    (identity : ℕ) (name : String) (credential_names : List String) (description : String)
    (input_schema : Fields) (fn : Fields → Credentials → Raw)
    → Registry
    → Result RegistryError Registry
proxy_tool identity name credential_names description input_schema fn registry =
    register_proxy_tool
      (record {
        identity = identity;
        name = name;
        credential_names = credential_names;
        description = description;
        input_schema = input_schema;
        fn = fn;
      })
      registry

abbrev pub web_search_schema : Fields
web_search_schema = field "type" (str "object") (
    field "properties"
      (obj (
        field "query"
          (obj (field "type" (str "string") (field "description" (str "Search query string.") end)))
          (field "max_results"
            (obj (
              field "type" (str "integer") (
                field "description" (str "Maximum results to return (default 5, max 20).")
                  (field "minimum" (int (pos 1)) (field "maximum" (int (pos 20)) end)))))
            end)))
      (field "required" (arr (cons (str "query") nil)) end))

-- The registration when the module is imported.
unfoldable pub register_web_search :
    (identity : ℕ) → Interpreter → (endpoint : String) → Registry → Result RegistryError Registry
register_web_search identity py endpoint registry =
    proxy_tool identity "web_search" ("web_search_api_key" ∷ [])
      "Search the web. Returns a JSON string of result objects, each with `title`, `url`, and `content` fields. Use when the agent needs up-to-date information from the public internet."
      web_search_schema (λ input credentials. (web_search py endpoint input credentials).1) registry
