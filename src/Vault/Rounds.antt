-- ===== src/Vault/Rounds.antt =====
-- What is written to the vault of src/tename/vault/service.py is what is read.
use tename.Prelude.{
  ◌≡◌, refl, ap, ◌∙◌, Option, none, some, String, str_eq, Result, ok, ◌>>=◌, if◌then◌else◌,
}
use tename.Json.{pos, Json, Fields, null, int, str, bool, float, arr, obj, get, put, get-put}
use tename.Vault.Files.{
  Error, Library, holds, KeyParameters, credentials_of, load_state, check_state, sorted_fields,
  get-sorted_fields, sorted, sorted_option, is_version, key_parameters, default_credentials,
}
use tename.Vault.Service.{
  Vault, validate_name, derive_key, decrypt_value, stamp, file_of, open_token, retrieve,
}

module _ (lib : Library) where
  get-stamp :
      (j : String) (state : Fields) (params : KeyParameters)
      → get j (stamp lib params state) ≡ (
          if str_eq "iterations" j
          then some (int params.iterations)
          else if str_eq "salt" j
          then some (str (lib.b64encode params.salt))
          else if str_eq "version" j
          then some (int (pos 1))
          else get j state)
  get-stamp j state params =
      let first = put "version" (int (pos 1)) state in
      rw
        (get-put "iterations" j (int params.iterations)
          (put "salt" (str (lib.b64encode params.salt)) first))
        (rw (get-put "salt" j (str (lib.b64encode params.salt)) first)
          (rw (get-put "version" j (int (pos 1)) state) refl))

  -- A state with an object of credentials is written and read back with its fields sorted.
  module _ (state creds : Fields) (params : KeyParameters)
      (has : get "credentials" state ≡ some (obj creds)) where
    stamped-credentials : get "credentials" (stamp lib params state) ≡ some (obj creds)
    stamped-credentials = get-stamp "credentials" state params ∙ has

    get-file :
        (j : String)
        → get j (file_of lib state params) ≡ sorted_option lib (get j (stamp lib params state))
    unfolding file_of
    get-file j = rw stamped-credentials (get-sorted_fields lib j (stamp lib params state))

    file_credentials :
        get "credentials" (file_of lib state params) ≡ some (obj (sorted_fields lib creds))
    unfolding sorted
    file_credentials = get-file "credentials" ∙ ap (sorted_option lib) stamped-credentials

    file_version : get "version" (file_of lib state params) ≡ some (int (pos 1))
    unfolding sorted
    file_version = get-file "version" ∙ ap (sorted_option lib) (get-stamp "version" state params)

    file_salt : get "salt" (file_of lib state params) ≡ some (str (lib.b64encode params.salt))
    unfolding sorted
    file_salt = get-file "salt" ∙ ap (sorted_option lib) (get-stamp "salt" state params)

    file_iterations : get "iterations" (file_of lib state params) ≡ some (int params.iterations)
    unfolding sorted
    file_iterations =
        get-file "iterations" ∙ ap (sorted_option lib) (get-stamp "iterations" state params)

    load-file :
        load_state lib (holds (obj (file_of lib state params)))
        ≡ ok (some (record { state = file_of lib state params; params = params }))
    unfolding load_state check_state is_version key_parameters default_credentials
    load-file = rw file_version (
        rw file_salt (
          rw file_iterations (rw (lib.b64decode-b64encode params.salt) (rw file_credentials refl))))

  open_token-sorted :
      (key : Result Error String) (o : Option Json)
      → open_token lib key (sorted_option lib o) ≡ open_token lib key o
  unfolding open_token sorted decrypt_value
  open_token-sorted key none = refl
  open_token-sorted key (some null) = refl
  open_token-sorted key (some (bool b)) = refl
  open_token-sorted key (some (int n)) = refl
  open_token-sorted key (some (float t)) = refl
  open_token-sorted key (some (str s)) = refl
  open_token-sorted key (some (arr items)) = refl
  open_token-sorted key (some (obj d)) = refl

  -- The vault after a write, and what it holds under a name.
  abbrev pub wrote : Fields → KeyParameters → Vault → Vault
  wrote state params v = record v { disk = holds (obj (file_of lib state params)) }

  pub retrieve-wrote :
      (name : String) (state creds : Fields) (params : KeyParameters) (v : Vault)
      → get "credentials" state ≡ some (obj creds)
      → retrieve lib name (wrote state params v) ≡ (
          validate_name lib name >>= λ _.
          open_token lib (derive_key lib v.passphrase params) (get name creds))
  unfolding retrieve credentials_of
  retrieve-wrote name state creds params v has =
      rw (load-file state creds params has, retrieve)
        (rw (file_credentials state creds params has) (
          rw (get-sorted_fields lib name creds)
            (rw (open_token-sorted (derive_key lib v.passphrase params) (get name creds)) refl)))
