-- ===== src/Tests/ClientRuns.antt =====
-- A client of the SDK made with and without a database URL, and one web search.
use tename.Prelude.{◌≡◌, refl, Bool, true, false, some, none, [], ◌∷◌, String, str_eq, err}
use tename.Json.{pos, str, field, end, int, cons, arr, obj, nil, Fields, get, truthy}
use tename.Prelude.Actions.{catch}
use tename.Prelude.Dicts.{lookup}
use tename.Sdk.Config.{Arguments, Environment, resolve_config, setdefault}
use tename.Sdk.Client.{Process, build, build_async, run_on_loop, engine_error}
use tename.Sdk.Clients.{Starts, build_lem}
use tename.Proxy.WebSearch.{
  Interpreter, response, refused, overflow, web_search, tool_answer, int_of, clamp, read_reply,
}
use tename.Proxy.Requests.{Searched, web_search_lem}

abbrev arguments : Arguments
arguments = record {
  database_url = none;
  anthropic_api_key = some "given";
  profiles_dir = some "/profiles";
  vault_path = none;
  vault_passphrase = none;
}

abbrev environment : Environment
environment = ("TENAME_DATABASE_URL", "postgresql://db") ∷ ("ANTHROPIC_API_KEY", "kept") ∷ []

abbrev fresh : Environment → Process
fresh env = record { loop_runs = false; environment = env; engines = 0 }

abbrev is_postgres : String → Bool
is_postgres url = str_eq url "postgresql://db"

build_lem_example :
    Starts is_postgres arguments
      (fresh environment)
      (build is_postgres arguments false (fresh environment))
build_lem_example = build_lem is_postgres arguments false (fresh environment)

-- The key of the environment stays, and the engines are made on the loop.
key_stays :
    (build is_postgres arguments false (fresh environment)).0
    ≡ record { loop_runs = true; environment = environment; engines = 2 }
unfolding build catch run_on_loop build_async resolve_config lookup setdefault
key_stays = refl

-- A refused engine leaves the loop running.
loop_stays :
    build (λ url. false) arguments false (fresh environment)
    ≡ (record { loop_runs = true; environment = environment; engines = 0 }, err engine_error)
unfolding build catch run_on_loop build_async resolve_config lookup setdefault
loop_stays = refl

abbrev py : Interpreter
py = record {
  post = λ endpoint body. response 200 "{}" (
      some (
        obj (
          field "results"
            (arr (
              cons (obj (field "title" (str "Tename") (field "snippet" (str "A runtime") end)))
                nil))
            end)));
  int_of_float = λ t. overflow;
  int_of_text = λ t. refused;
  decimal = λ n. "200";
  dumps = λ v. "[…]";
  strip = λ t. t;
}

abbrev asked : Fields
asked = field "query" (str "tename") (field "max_results" (int (pos 50)) end)

web_search_lem_example :
    Searched py "https://search" asked
      (("web_search_api_key", "k") ∷ [])
      (web_search py "https://search" asked (("web_search_api_key", "k") ∷ []))
web_search_lem_example = web_search_lem py "https://search" asked (("web_search_api_key", "k") ∷ [])

-- 50 results are asked for, and 20 are sent.
twenty_sent : web_search py "https://search" asked (("web_search_api_key", "k") ∷ []) ≡ (
  some (
    "https://search",
    field "query"
        (str "tename")
        (field "api_key" (str "k") (field "max_results" (int (pos 20)) end)),
  ),
  tool_answer false "[…]",
)
unfolding web_search get int_of truthy lookup clamp read_reply
twenty_sent = refl
