-- ===== src/Tests/VaultRuns.antt =====
-- The vault and the tool proxy at concrete inputs, with texts for bytes and a cipher that leaves them as they are.
use tename.Prelude.{
  Bool-cases, inl, inr, str_eq, eq_iff, subst, false, none, [], ◌∷◌, if◌then◌else◌, ◌≡◌, refl, true,
  false, some, String, str_eq, ok, err, ◌==◌,
}
use tename.Json.{pos, int, obj, str, end, field, get, put}
use tename.Vault.Files.{
  attribute_error, holds, Library, absent, load_state, check_state, is_version, key_parameters,
  default_credentials, credentials_of, insert_field, sorted, sorted_fields,
}
use tename.Vault.Service.{
  open_token, Vault, written, store, retrieve, revoke, change_passphrase, seal, validate_name,
  derive_key, or_init, add_credential, write_state, file_of, decrypt_vault, decrypt_all,
  decrypt_value,
}
use tename.Proxy.Registry.{Credentials, Raw, ProxyTool, get_proxy_tool}
use tename.Proxy.Service.{
  Texts, resolve_credentials, resolve_all, set_credential, lookup_failure, execute,
  normalize_result, vault,
}
use tename.Proxy.Outcomes.{
  credential, is_declared, value_of, Escapes, execute_hands, execute_raises,
}
use tename.Vault.Stores.{retrieve-store}
use tename.Vault.Rotation.{retrieve-change_passphrase}

abbrev pub plain : Library
plain = record {
  derive = λ passphrase salt n. some passphrase;
  encrypt = λ seed key text. text;
  decrypt = λ key token. some token;
  decrypt-encrypt = λ seed key text. refl;
  b64encode = λ salt. salt;
  b64decode = λ text. some text;
  b64decode-b64encode = λ salt. refl;
  is_space = λ c. c == 32;
  before = λ a b. false;
}

abbrev pub new_vault : Vault
new_vault = record { disk = absent; passphrase = some "pw" }

abbrev pub with_secret : Vault
with_secret = (store plain "salt" 0 written "key" "secret" new_vault).0

stored : store plain "salt" 0 written "key" "secret" new_vault ≡ (with_secret, ok (tt {0}))
unfolding store seal validate_name load_state derive_key or_init write_state
stored = refl

retrieve-store_example :
    (retrieve plain "key" with_secret ≡ ok "secret")
    × ((j : String)
        → str_eq "key" j ≡ false
        → retrieve plain j with_secret ≡ retrieve plain j new_vault)
retrieve-store_example =
    retrieve-store plain "salt" 0 "key" "secret" new_vault with_secret written stored

abbrev with_new_passphrase : Vault
with_new_passphrase = (change_passphrase plain "pepper" 1 written "other" with_secret).0

rotated :
    change_passphrase plain "pepper" 1 written "other" with_secret
    ≡ (with_new_passphrase, ok (tt {0}))
unfolding store seal validate_name load_state derive_key or_init write_state change_passphrase
    decrypt_vault check_state is_version key_parameters default_credentials credentials_of
    insert_field sorted sorted_fields add_credential file_of decrypt_all decrypt_value get put
rotated = refl

retrieve-change_passphrase_example :
    retrieve plain "key" with_new_passphrase ≡ retrieve plain "key" with_secret
retrieve-change_passphrase_example =
    retrieve-change_passphrase plain "pepper" 1 "other" with_secret with_new_passphrase written
      rotated "key"

abbrev pub without : Vault
without = (revoke plain written "key" with_secret).0

pub revoked : revoke plain written "key" with_secret ≡ (without, ok true)
unfolding store seal validate_name load_state derive_key or_init write_state revoke check_state
    is_version key_parameters default_credentials credentials_of insert_field sorted sorted_fields
    add_credential file_of get put
revoked = refl

-- A tool that declares one credential.
abbrev texts : Texts
texts = record { repr = λ s. s; dumps = λ d. none; text_of = λ e. ""; class_of = λ e. "" }

abbrev search : ProxyTool
search = record {
  identity = 1;
  name = "search";
  credential_names = "key" ∷ [];
  description = "";
  input_schema = end;
  fn = λ input credentials. Raw.text "";
}

resolved :
    resolve_credentials texts (some (λ name. retrieve plain name with_secret)) search
    ≡ ok (("key", "secret") ∷ [])
unfolding resolve_credentials resolve_all set_credential store seal validate_name load_state
    derive_key or_init write_state check_state is_version key_parameters default_credentials
    credentials_of insert_field sorted sorted_fields add_credential file_of get put retrieve
    open_token decrypt_value
resolved = refl

search_found : get_proxy_tool "search" (("search", search) ∷ []) ≡ some search
unfolding get_proxy_tool
search_found = refl

search_held :
    (n : String)
    → is_declared ("key" ∷ []) n ≡ true
    → (v : String) × (retrieve plain n with_secret ≡ ok v)
unfolding store seal validate_name load_state derive_key or_init write_state check_state is_version
    key_parameters default_credentials credentials_of insert_field sorted sorted_fields
    add_credential file_of get put retrieve open_token decrypt_value
search_held n declared = elim (Bool-cases (str_eq "key" n)) [
  | inl same ↦
      subst (λ k. (v : String) × (retrieve plain k with_secret ≡ ok v)) ((eq_iff "key" n).0 same)
        ("secret", refl)
  | inr other ↦ absurd (cc (rw other at declared))
]

execute_hands_example :
    (creds : Credentials) × ((n : String)
      → credential n creds
        ≡ (if is_declared ("key" ∷ []) n then value_of (retrieve plain n with_secret) else none))
    × (execute texts
          (some (λ name. retrieve plain name with_secret))
          (("search", search) ∷ [])
          "search"
          end
        ≡ normalize_result texts "search" (search.fn end creds))
execute_hands_example =
    execute_hands texts (λ name. retrieve plain name with_secret) (("search", search) ∷ []) "search"
      search end search_found search_held

-- A vault whose credential is a number.
abbrev damaged : Vault
damaged = record {
  disk = holds (
      obj (
        field "version" (int (pos 1)) (
          field "salt" (str "salt") (
            field "iterations" (int (pos 1))
              (field "credentials" (obj (field "key" (int (pos 5)) end)) end)))));
  passphrase = some "pw";
}

raised_error :
    execute texts
      (some (λ name. retrieve plain name damaged))
      (("search", search) ∷ [])
      "search"
      end
    ≡ err (vault attribute_error)
unfolding execute get_proxy_tool resolve_credentials resolve_all lookup_failure validate_name
    load_state derive_key check_state is_version key_parameters default_credentials credentials_of
    get retrieve open_token decrypt_value
raised_error = refl

execute_raises_example :
    (tool : ProxyTool) × (get_proxy_tool "search" (("search", search) ∷ []) ≡ some tool)
    × Escapes texts (some (λ name. retrieve plain name damaged)) tool end (vault attribute_error)
execute_raises_example =
    execute_raises texts (some (λ name. retrieve plain name damaged)) (("search", search) ∷ [])
      "search" end (vault attribute_error) raised_error
