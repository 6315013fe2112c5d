-- ===== src/Cli/Entry.antt =====
-- `main` of src/tename/cli/main.py and `tename migrate` of migrate_commands.py. What argparse makes of the
-- arguments, the version of the package and how Alembic ends are arguments.
use tename.Prelude.{
  ℕ, Bool, true, false, Option, none, some, List, [], ◌∷◌, ◌++◌, String, if◌then◌else◌,
}
use tename.Json.{is_empty}
use tename.Sandbox.Tools.{◌<>◌}

-- The lines on stdout and on stderr.
pub record Streams : Type 0 where
  pub out : List String
  pub errors : List String

abbrev say : String → Streams → Streams
say line s = record s { out = s.out ++ line ∷ [] }

abbrev complain : String → Streams → Streams
complain line s = record s { errors = s.errors ++ line ∷ [] }

-- x or y, on texts that may be missing
abbrev pub or_text : Option String → Option String → Option String
or_text none other = other
or_text (some t) other = if is_empty t then other else some t

-- What `command.upgrade` is called with.
pub record Upgrade : Type 0 where
  pub script_location : String
  pub sqlalchemy_url : String
  pub revision : String

-- An exit code, or the RuntimeError of `bundled_migrations_path`, or an exception of Alembic.
pub data Exited : Type 0 where
  exit : ℕ → Exited
  no_migrations : Exited
  upgrade_failed : Upgrade → Exited

abbrev pub or_head : Option String → String
or_head none = "head"
or_head (some r) = r

-- `bundled` is the folder of the migrations, if it is one; `upgrade` says whether Alembic raises nothing.
module _ (bundled : Option String) (upgrade : Upgrade → Bool) where
  abbrev upgraded : Upgrade → Bool → Streams → Streams × Exited
  upgraded u true s = (say ("migrations applied: -> " <> u.revision) s, exit 0)
  upgraded u false s = (s, upgrade_failed u)

  -- build_alembic_config, and the upgrade
  abbrev pub migrate_to : Option String → (url revision : String) → Streams → Streams × Exited
  migrate_to none url revision s = (s, no_migrations)
  migrate_to (some path) url revision s =
      let u : Upgrade = record {
        script_location = path;
        sqlalchemy_url = url;
        revision = revision;
      } in
      upgraded u (upgrade u) s

  abbrev pub migrate_at : Option String → Option String → Streams → Streams × Exited
  migrate_at none revision s = (
    complain "error: database URL is required (pass --database-url or set TENAME_DATABASE_URL)" s,
    exit 2,
  )
  migrate_at (some url) revision s = migrate_to bundled url (or_head (or_text revision none)) s

  unfoldable pub cmd_migrate :
      (database_url from_env revision : Option String) → Streams → Streams × Exited
  cmd_migrate database_url from_env revision s =
      migrate_at (or_text (or_text database_url from_env) none) revision s

-- _resolve_version; `none` is PackageNotFoundError
abbrev pub resolve_version : Option String → String
resolve_version none = "unknown"
resolve_version (some v) = v

abbrev pub run_func :
    (help : String) → Option (Streams → Streams × Exited) → Streams → Streams × Exited
run_func help none s = (complain help s, exit 2)
run_func help (some func) s = func s

-- `func` is what the parser of the subcommand sets.
unfoldable pub main :
    (show_version : Bool) (version : Option String) (help : String)
    → Option (Streams → Streams × Exited)
    → Streams
    → Streams × Exited
main show_version version help func s =
    if show_version
    then (say ("tename " <> resolve_version version) s, exit 0)
    else run_func help func s
