-- ===== src/Vault/Service.antt =====
-- The operations of src/tename/vault/service.py on the file and the passphrase that the object holds.
-- The lock makes each operation one step.
use tename.Prelude.{
  ℕ, suc, Bool, true, false, Option, none, some, List, [], ◌∷◌, String, str_eq, any, Result, ok,
  err, ◌>>=◌, if◌then◌else◌,
}
use tename.Json.{pos, Json, Fields, null, int, str, obj, end, field, get, put, is_empty}
use tename.Json.Dumps.{codes}
use tename.Vault.Files.{
  Error, vault_error, locked, credential_not_found, configuration, os_error, value_error,
  attribute_error, Library, Disk, holds, KeyParameters, Loaded, vault_file_version, credentials_of,
  load_state, sorted_fields,
}

pub record Vault : Type 0 where
  pub disk : Disk
  pub passphrase : Option String

-- How a write ends: done, an OSError of the temporary file, or one before there is that file.
pub data Io : Type 0 where
  written refused failed : Io

abbrev pub default_iterations : ℕ
default_iterations = 600000

abbrev or_locked : Option String → Result Error String
or_locked none = err locked
or_locked (some p) = ok p

abbrev or_value_error : Option String → Result Error String
or_value_error none = err value_error
or_value_error (some k) = ok k

-- _load_state_required
abbrev pub required : Option Loaded → Result Error Loaded
required none = err credential_not_found
required (some l) = ok l

-- del credentials[name]: a `dict` has at most one field of a name
unfoldable pub remove : String → Fields → Fields
remove name end = end
remove name (field k v rest) =
    let others = remove name rest in if str_eq k name then others else field k v others

unfoldable pub insert_name : (String → String → Bool) → String → List String → List String
insert_name before n [] = n ∷ []
insert_name before n (m ∷ ms) =
    let later = insert_name before n ms in if before m n then m ∷ later else n ∷ m ∷ ms

unfoldable pub sorted_names : (String → String → Bool) → Fields → List String
unfolding insert_name
sorted_names before end = []
sorted_names before (field k v rest) = insert_name before k (sorted_names before rest)

module _ (lib : Library) where
  unfoldable pub validate_name : String → Result Error (Unit {0})
  validate_name name =
      if is_empty name
      then err vault_error
      else if any lib.is_space (codes name)
      then err vault_error
      else ok tt

  -- _derive_key, and derive_key of crypto.py
  unfoldable pub derive_key : Option String → KeyParameters → Result Error String
  derive_key none params = err configuration
  derive_key (some p) params =
      if is_empty p then err locked else or_value_error (lib.derive p params.salt params.iterations)

  -- decrypt_value of crypto.py
  unfoldable pub decrypt_value : String → Json → Result Error String
  decrypt_value key (str token) = or_locked (lib.decrypt key token)
  decrypt_value key _ = err attribute_error

  -- _load_or_init_state, with the salt of generate_salt
  unfoldable pub or_init : String → Option Loaded → Loaded
  or_init salt (some l) = l
  or_init salt none = record {
    state = field "version" (int (pos vault_file_version)) (
        field "salt" (str (lib.b64encode salt))
          (field "iterations" (int (pos default_iterations)) (field "credentials" (obj end) end)));
    params = record { salt = salt; iterations = pos default_iterations };
  }

  abbrev pub stamp : KeyParameters → Fields → Fields
  stamp params state = put "iterations" (int params.iterations) (
      put "salt" (str (lib.b64encode params.salt))
        (put "version" (int (pos vault_file_version)) state))

  abbrev pub with_default : Option Json → Fields → Fields
  with_default none state = put "credentials" (obj end) state
  with_default (some v) state = state

  -- What _write_state serializes.
  unfoldable pub file_of : Fields → KeyParameters → Fields
  file_of state params =
      let stamped = stamp params state in
      sorted_fields lib (with_default (get "credentials" stamped) stamped)

  -- _write_state: os.replace is atomic
  unfoldable pub write_state {ℓ} :
      {A : Type ℓ} → Io → Fields → KeyParameters → A → Vault → Vault × Result Error A
  write_state written state params a v =
      (record v { disk = holds (obj (file_of state params)) }, ok a)
  write_state refused state params a v = (v, err configuration)
  write_state failed state params a v = (v, err os_error)

  -- The credential under its name, encrypted.
  unfoldable pub add_credential : String → ℕ → String → String → Loaded → Fields
  add_credential key seed name value l =
      put "credentials"
        (obj (
          put name (str (lib.encrypt seed key value)) (credentials_of (get "credentials" l.state))))
        l.state

  unfoldable pub seal :
      (salt : String) (seed : ℕ) (name value : String)
      → Vault
      → Result Error (Fields × KeyParameters)
  seal salt seed name value v = validate_name name >>= λ _. load_state lib v.disk >>= λ o.
      derive_key v.passphrase (or_init salt o).params >>= λ key.
      ok (add_credential key seed name value (or_init salt o), (or_init salt o).params)

  unfoldable pub store :
      (salt : String) (seed : ℕ)
      → Io
      → (name value : String) → Vault
      → Vault × Result Error (Unit {0})
  store salt seed io name value v = elim (seal salt seed name value v) [
    | err e ↦ (v, err e)
    | ok s ↦ write_state io s.0 s.1 tt v
  ]

  -- A token that is there and is not null.
  unfoldable pub open_token : Result Error String → Option Json → Result Error String
  open_token key none = err credential_not_found
  open_token key (some null) = err credential_not_found
  open_token key (some v) = key >>= λ k. decrypt_value k v

  unfoldable pub retrieve : String → Vault → Result Error String
  retrieve name v = validate_name name >>= λ _. load_state lib v.disk >>= λ o. required o >>= λ l.
      open_token (derive_key v.passphrase l.params)
        (get name (credentials_of (get "credentials" l.state)))

  abbrev pub revoke_in : Io → String → Option Json → Loaded → Vault → Vault × Result Error Bool
  revoke_in io name none l v = (v, ok false)
  revoke_in io name (some _) l v =
      write_state io
        (put "credentials" (obj (remove name (credentials_of (get "credentials" l.state)))) l.state)
        l.params true v

  unfoldable pub revoke : Io → String → Vault → Vault × Result Error Bool
  revoke io name v = elim (validate_name name >>= λ _. load_state lib v.disk) [
    | err e ↦ (v, err e)
    | ok none ↦ (v, ok false)
    | ok (some l) ↦ revoke_in io name (get name (credentials_of (get "credentials" l.state))) l v
  ]

  -- list
  unfoldable pub list_names : Vault → Result Error (List String)
  list_names v = load_state lib v.disk >>= λ o. elim o [
    | none ↦ ok []
    | some l ↦ ok (sorted_names lib.before (credentials_of (get "credentials" l.state)))
  ]

  -- Each credential decrypted with one key and encrypted with another.
  unfoldable pub decrypt_all : String → Fields → Result Error (List (String × String))
  decrypt_all key end = ok []
  decrypt_all key (field k v rest) =
      decrypt_value key v >>= λ p. decrypt_all key rest >>= λ ps. ok ((k, p) ∷ ps)

  unfoldable pub encrypt_all : String → ℕ → List (String × String) → Fields
  encrypt_all key seed [] = end
  encrypt_all key seed ((k, p) ∷ ps) =
      field k (str (lib.encrypt seed key p)) (encrypt_all key (suc seed) ps)

  unfoldable pub decrypt_vault : Vault → Result Error (Fields × List (String × String))
  decrypt_vault v = load_state lib v.disk >>= λ o. required o >>= λ l.
      derive_key v.passphrase l.params >>= λ key.
      decrypt_all key (credentials_of (get "credentials" l.state)) >>= λ ps. ok (l.state, ps)

  abbrev pub new_params : String → KeyParameters
  new_params salt = record { salt = salt; iterations = pos default_iterations }

  -- The object takes the new passphrase before the file is written.
  unfoldable pub change_passphrase :
      (salt : String) (seed : ℕ) → Io → String → Vault → Vault × Result Error (Unit {0})
  change_passphrase salt seed io new v =
      if is_empty new then (v, err configuration) else elim (decrypt_vault v) [
        | err e ↦ (v, err e)
        | ok (state, ps) ↦ elim (derive_key (some new) (new_params salt)) [
          | err e ↦ (record v { passphrase = some new }, err e)
          | ok key ↦
              write_state io (put "credentials" (obj (encrypt_all key seed ps)) state)
                (new_params salt) tt (record v { passphrase = some new })
        ]
      ]
