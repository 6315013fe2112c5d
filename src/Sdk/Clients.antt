-- ===== src/Sdk/Clients.antt =====
-- How the constructor and `close` of the synchronous client leave the process.
use tename.Prelude.{
  ◌+◌, ◌≡◌, refl, Bool, true, false, Option, none, some, String, Result, ok, err, Bool-cases, inl,
  inr, ap, sym,
}
use text.Mathlib.TextPositions.{eq_refl}
use tename.Prelude.Actions.{catch, recover, finally, continue, ◌>>◌, give}
use tename.Prelude.Dicts.{lookup, lookup-assign}
use tename.Json.{is_empty}
use tename.Cli.Entry.{or_text}
use tename.Sdk.Config.{
  with_url, Environment, Arguments, ResolvedConfig, ConfigurationError, no_database_url,
  resolve_config, set_missing, setdefault,
}
use tename.Sdk.Client.{
  Process, ClientError, configuration, not_started, engine_error, AsyncTename, search_paths_of,
  surface_key, build_async, stop_on, run_on_loop, build, close, create_engines, configured,
}

abbrev pub or_else : Option String → Option String → Option String
or_else none other = other
or_else (some v) other = some v

-- Missing or empty.
abbrev pub IsBlank : Option String → Type 0
IsBlank none = Unit
IsBlank (some t) = is_empty t ≡ true

-- The setting that is given, unless it is missing or empty, and else the one of the environment.
pub data Chosen (environment : Option String) : Option String → Option String → Type 0 where
  explicit : {t : String} → is_empty t ≡ false → Chosen environment (some t) (some t)
  fallback : {given : Option String} → IsBlank given → Chosen environment given environment

or_text-Chosen :
    (given environment : Option String) → Chosen environment given (or_text given environment)
or_text-Chosen none environment = fallback tt
or_text-Chosen (some t) environment = elim (Bool-cases (is_empty t)) [
  | inl blank ↦ rw blank (fallback blank)
  | inr filled ↦ rw filled (explicit filled)
]

-- The settings of a client, in terms of what it is called with and of the environment.
pub data Settings (a : Arguments) (env : Environment)
    : Result ConfigurationError ResolvedConfig → Type 0 where
  no_url :
      {o : Option String}
      → Chosen (lookup "TENAME_DATABASE_URL" env) a.database_url o
      → IsBlank o
      → Settings a env (err no_database_url)
  settings :
      {c : ResolvedConfig}
      → Chosen (lookup "TENAME_DATABASE_URL" env) a.database_url (some c.database_url)
      → is_empty c.database_url ≡ false
      → Chosen (lookup "ANTHROPIC_API_KEY" env) a.anthropic_api_key c.anthropic_api_key
      → Chosen (lookup "TENAME_PROFILES_DIR" env) a.profiles_dir c.profiles_dir
      → c.vault_path ≡ a.vault_path
      → Chosen (lookup "TENAME_VAULT_PASSPHRASE" env) a.vault_passphrase c.vault_passphrase
      → Settings a env (ok c)

with_url-Settings :
    (a : Arguments) (env : Environment) (o : Option String)
    → Chosen (lookup "TENAME_DATABASE_URL" env) a.database_url o
    → Settings a env (with_url a env (or_text o none))
with_url-Settings a env none chosen = no_url chosen tt
with_url-Settings a env (some url) chosen = elim (Bool-cases (is_empty url)) [
  | inl blank ↦ rw blank (no_url chosen blank)
  | inr filled ↦ rw filled (
      settings chosen filled (or_text-Chosen a.anthropic_api_key (lookup "ANTHROPIC_API_KEY" env))
        (or_text-Chosen a.profiles_dir (lookup "TENAME_PROFILES_DIR" env)) refl
        (or_text-Chosen a.vault_passphrase (lookup "TENAME_VAULT_PASSPHRASE" env)))
]

pub resolve_config-Settings :
    (a : Arguments) (env : Environment) → Settings a env (resolve_config a env)
unfolding resolve_config
resolve_config-Settings a env =
    with_url-Settings a env (or_text a.database_url (lookup "TENAME_DATABASE_URL" env))
      (or_text-Chosen a.database_url (lookup "TENAME_DATABASE_URL" env))

-- How a construction ends.
pub data Starts (engine : String → Bool) (a : Arguments) (p : Process)
    : Process × Result ClientError AsyncTename → Type 0 where
  unconfigured :
      Settings a p.environment (err no_database_url)
      → Starts engine a p (record p { loop_runs = false }, err (configuration no_database_url))
  no_engine :
      (c : ResolvedConfig) (p' : Process)
      → Settings a p.environment (ok c)
      → engine c.database_url ≡ false
      → p'.loop_runs ≡ true
      → p'.engines ≡ p.engines
      → Starts engine a p (p', err engine_error)
  constructed :
      (c : ResolvedConfig) (client : AsyncTename) (p' : Process)
      → Settings a p.environment (ok c)
      → client.config ≡ c
      → p'.loop_runs ≡ true
      → p'.engines ≡ p.engines + 2
      → lookup "ANTHROPIC_API_KEY" p'.environment
        ≡ or_else (lookup "ANTHROPIC_API_KEY" p.environment) c.anthropic_api_key
      → Starts engine a p (p', ok client)

or_else-none : (o : Option String) → or_else o none ≡ o
or_else-none none = refl
or_else-none (some v) = refl

lookup-setdefault :
    (name value : String) (env : Environment) (o : Option String)
    → lookup name env ≡ o
    → lookup name (set_missing o name value env) ≡ or_else o (some value)
lookup-setdefault name value env none h = rw (lookup-assign name name value env, eq_refl name) refl
lookup-setdefault name value env (some v) h = h

module _ (engine : String → Bool) (a : Arguments) (enable_sandbox : Bool) (p : Process) where
  abbrev made : ResolvedConfig → AsyncTename
  made c = record {
    config = c;
    search_paths = search_paths_of c.profiles_dir;
    sandbox = enable_sandbox;
  }

  opened :
      (c : ResolvedConfig) (q : Process)
      → Settings a p.environment (ok c)
      → q.loop_runs ≡ true
      → q.engines ≡ p.engines
      → lookup "ANTHROPIC_API_KEY" q.environment
        ≡ or_else (lookup "ANTHROPIC_API_KEY" p.environment) c.anthropic_api_key
      → Starts engine a p (
          recover
            (stop_on engine)
            (continue (create_engines engine c.database_url q) (λ v r. (r, ok (made c)))))
  opened c q found runs same key = elim (Bool-cases (engine c.database_url)) [
    | inl fine ↦ rw fine (
        constructed c (made c) (record q { engines = q.engines + 2 }) found refl runs
          (ap (λ n. n + 2) same) key)
    | inr broken ↦ rw broken (no_engine c q found broken runs same)
  ]

  keyed :
      (c : ResolvedConfig) (key : Option String)
      → Settings a p.environment (ok c)
      → c.anthropic_api_key ≡ key
      → Starts engine a p (
          recover (stop_on engine) (
            continue
              (surface_key key (record p { loop_runs = true }))
              (λ u q. continue (create_engines engine c.database_url q) (λ v r. (r, ok (made c))))))
  unfolding setdefault
  keyed c none found k =
      opened c (record p { loop_runs = true }) found refl refl
        (rw k (sym (or_else-none (lookup "ANTHROPIC_API_KEY" p.environment))))
  keyed c (some key) found k = opened c _ found refl refl (
      rw k (
        lookup-setdefault "ANTHROPIC_API_KEY" key p.environment
          (lookup "ANTHROPIC_API_KEY" p.environment) refl))

  configured-Starts :
      (o : Result ConfigurationError ResolvedConfig)
      → Settings a p.environment o
      → Starts engine a p (
          recover (stop_on engine) (
            continue (configured o (record p { loop_runs = true })) (λ c.
              surface_key c.anthropic_api_key
              >> (create_engines engine c.database_url >> give (made c)))))
  configured-Starts (err no_database_url) found = unconfigured found
  configured-Starts (ok c) found = keyed c c.anthropic_api_key found refl

  -- The constructor of the synchronous client. A setting is the one it is called with, unless that is
  -- missing or empty, and else the one of the environment; the path of the vault is the one it is called
  -- with. Without a database URL, or with an empty one, it
  -- raises ConfigurationError and stops the background loop. If the engine is refused it raises that and
  -- leaves the loop running, with no engine made. Otherwise it returns a client of the resolved settings,
  -- the loop runs, two more engines are made, and ANTHROPIC_API_KEY is what it was, if it was set, and else the
  -- key of the settings, if there is one.
  pub build_lem : Starts engine a p (build engine a enable_sandbox p)
  unfolding build run_on_loop build_async catch
  build_lem =
      configured-Starts (resolve_config a p.environment) (resolve_config-Settings a p.environment)

-- `close` stops the loop, also when a disposal raises, and a second `close` raises RuntimeError and
-- changes nothing.
pub close_lem :
    (service sdk service_again sdk_again : Bool) (p : Process)
    → ((close service sdk p).0.loop_runs ≡ false)
      × (close service_again sdk_again (close service sdk p).0
          ≡ ((close service sdk p).0, err not_started))
unfolding close run_on_loop finally
close_lem service sdk service_again sdk_again p = (refl, refl)
