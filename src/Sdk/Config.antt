-- ===== src/Sdk/Config.antt =====
-- src/tename/sdk/_config.py. The environment is a `dict`.
use tename.Prelude.{Option, none, some, List, String, Result, ok, err}
use tename.Prelude.Dicts.{lookup, assign}
use tename.Cli.Entry.{or_text}

abbrev pub Environment : Type 0
Environment = List (String × String)

-- What the constructor of a client is called with.
pub record Arguments : Type 0 where
  pub database_url : Option String
  pub anthropic_api_key : Option String
  pub profiles_dir : Option String
  pub vault_path : Option String
  pub vault_passphrase : Option String

pub record ResolvedConfig : Type 0 where
  pub database_url : String
  pub anthropic_api_key : Option String
  pub profiles_dir : Option String
  pub vault_path : Option String
  pub vault_passphrase : Option String

pub data ConfigurationError : Type 0 where
  no_database_url : ConfigurationError

abbrev pub with_url :
    Arguments → Environment → Option String → Result ConfigurationError ResolvedConfig
with_url a env none = err no_database_url
with_url a env (some url) = ok (record {
  database_url = url;
  anthropic_api_key = or_text a.anthropic_api_key (lookup "ANTHROPIC_API_KEY" env);
  profiles_dir = or_text a.profiles_dir (lookup "TENAME_PROFILES_DIR" env);
  vault_path = a.vault_path;
  vault_passphrase = or_text a.vault_passphrase (lookup "TENAME_VAULT_PASSPHRASE" env);
})

-- `not db_url` holds of a missing text and of an empty one.
unfoldable pub resolve_config : Arguments → Environment → Result ConfigurationError ResolvedConfig
resolve_config a env =
    with_url a env (or_text (or_text a.database_url (lookup "TENAME_DATABASE_URL" env)) none)

-- os.environ.setdefault(name, value)
abbrev pub set_missing : Option String → String → String → Environment → Environment
set_missing none name value env = assign name value env
set_missing (some v) name value env = env

unfoldable pub setdefault : String → String → Environment → Environment
setdefault name value env = set_missing (lookup name env) name value env
