-- ===== src/Cli/VaultCommands.antt =====
-- The commands of src/tename/cli/vault_commands.py on a terminal. What the user types, how a write of the
-- file ends and what `uuid4()` and the cipher draw are arguments.
use tename.Prelude.{
  ℕ, Bool, true, false, ◌||◌, Option, none, some, List, [], ◌∷◌, ◌++◌, String, str_eq, Result, ok,
  err, if◌then◌else◌,
}
use tename.Json.{is_empty}
use tename.Vault.Files.{
  Error, vault_error, locked, credential_not_found, configuration, os_error, value_error,
  attribute_error, Library,
}
use tename.Vault.Service.{Vault, Io, store, retrieve, revoke, list_names}
use tename.Sandbox.Tools.{◌<>◌}

-- The texts of Python: `repr`, the text of a VaultError, and `reply.strip().lower()`.
pub record Texts : Type 0 where
  pub repr : String → String
  pub text_of : Error → String
  pub stripped_lower : String → String

-- The lines on stdout and on stderr, and the vault of the command.
pub record Terminal : Type 0 where
  pub out : List String
  pub errors : List String
  pub vault : Vault

-- How a command ends: with an exit code, or with an exception that it does not catch.
pub data Exit : Type 0 where
  code : ℕ → Exit
  crash : Error → Exit

abbrev pub print : String → Terminal → Terminal
print line t = record t { out = t.out ++ line ∷ [] }

abbrev pub print_error : String → Terminal → Terminal
print_error line t = record t { errors = t.errors ++ line ∷ [] }

unfoldable pub print_all : List String → Terminal → Terminal
print_all [] t = t
print_all (line ∷ lines) t = print_all lines (print line t)

-- VaultError and its subclasses
abbrev pub is_vault_error : Error → Bool
is_vault_error vault_error = true
is_vault_error locked = true
is_vault_error credential_not_found = true
is_vault_error configuration = true
is_vault_error os_error = false
is_vault_error value_error = false
is_vault_error attribute_error = false

module _ (lib : Library) (texts : Texts) where
  -- except VaultError as exc
  unfoldable pub report : Error → Terminal → Terminal × Exit
  report e t =
      if is_vault_error e
      then (print_error ("error: " <> texts.text_of e) t, code 1)
      else (t, crash e)

  abbrev pub after_store : String → Terminal → Vault × Result Error (Unit {0}) → Terminal × Exit
  after_store name t (v, err e) = report e (record t { vault = v })
  after_store name t (v, ok u) =
      (print ("stored credential " <> texts.repr name) (record t { vault = v }), code 0)

  abbrev pub set_value :
      (salt : String) (seed : ℕ) → Io → String → Option String → Terminal → Terminal × Exit
  set_value salt seed io name none t = (print "" t, code 130)
  set_value salt seed io name (some value) t =
      if is_empty value
      then (
        print_error ("no value supplied for " <> texts.repr name <> "; nothing stored") t,
        code 2,
      )
      else after_store name t (store lib salt seed io name value t.vault)

  -- `none` is a KeyboardInterrupt or an EOFError of the prompt.
  unfoldable pub cmd_set :
      (salt : String) (seed : ℕ)
      → Io
      → (name : String) → (typed : Option String) → Terminal
      → Terminal × Exit
  cmd_set salt seed io name typed t = set_value salt seed io name typed t

  abbrev pub show_names : Terminal → Result Error (List String) → Terminal × Exit
  show_names t (err e) = report e t
  show_names t (ok []) = (print "(no credentials stored)" t, code 0)
  show_names t (ok (n ∷ ns)) = (print_all (n ∷ ns) t, code 0)

  unfoldable pub cmd_list : Terminal → Terminal × Exit
  cmd_list t = show_names t (list_names lib t.vault)

  abbrev pub after_revoke : String → Terminal → Vault × Result Error Bool → Terminal × Exit
  after_revoke name t (v, err e) = report e (record t { vault = v })
  after_revoke name t (v, ok false) = (
    print_error ("credential " <> texts.repr name <> " was not stored") (record t { vault = v }),
    code 1,
  )
  after_revoke name t (v, ok true) =
      (print ("removed credential " <> texts.repr name) (record t { vault = v }), code 0)

  abbrev pub says_yes : String → Bool
  says_yes reply = let r = texts.stripped_lower reply in str_eq r "y" || str_eq r "yes"

  abbrev pub remove_confirmed : Io → String → Terminal → Terminal × Exit
  remove_confirmed io name t = after_revoke name t (revoke lib io name t.vault)

  abbrev pub confirm : Io → String → Option String → Terminal → Terminal × Exit
  confirm io name none t = (print "" t, code 130)
  confirm io name (some reply) t =
      if says_yes reply then remove_confirmed io name t else (print "cancelled" t, code 0)

  unfoldable pub cmd_remove :
      Io
      → (name : String) → (yes_flag : Bool) → (reply : Option String) → Terminal
      → Terminal × Exit
  cmd_remove io name yes_flag reply t =
      if yes_flag then remove_confirmed io name t else confirm io name reply t

  abbrev pub show_value : String → Terminal → Result Error String → Terminal × Exit
  show_value name t (ok value) = (print value t, code 0)
  show_value name t (err credential_not_found) =
      (print_error ("no credential named " <> texts.repr name) t, code 1)
  show_value name t (err e) = report e t

  unfoldable pub cmd_get : (name : String) → Terminal → Terminal × Exit
  cmd_get name t = show_value name t (retrieve lib name t.vault)
