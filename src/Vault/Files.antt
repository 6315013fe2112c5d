-- ===== src/Vault/Files.antt =====
-- The file of src/tename/vault/service.py: reading and checking it, and writing it.
use tename.Prelude.{
  ℕ, ◌≡◌, refl, Bool, true, false, ◌||◌, Option, none, some, String, str_eq, eq_iff, ◌==◌, Result,
  ok, err, ◌>>=◌, if◌then◌else◌, arith,
}
use tename.Json.{
  ℤ, pos, Json, Items, Fields, bool, int, float, arr, obj, nil, cons, end, field, get, put, as_str,
}

-- VaultError, VaultLockedError, VaultCredentialNotFoundError, VaultConfigurationError, an OSError
-- that passes through, PBKDF2 refusing its parameters, and a value that has no such method.
pub data Error : Type 0 where
  vault_error locked credential_not_found configuration : Error
  os_error value_error attribute_error : Error

-- What the code uses of `cryptography`, `base64`, `str.isspace` and the order of texts. Bytes stand
-- as texts. A token of `encrypt` depends on a seed; `derive` is `none` where PBKDF2 refuses.
pub record Library : Type 0 where
  pub derive : (passphrase salt : String) → ℤ → Option String
  pub encrypt : (seed : ℕ) → (key plaintext : String) → String
  pub decrypt : (key token : String) → Option String
  pub decrypt-encrypt :
      (seed : ℕ) (key plaintext : String)
      → decrypt key (encrypt seed key plaintext) ≡ some plaintext
  pub b64encode : String → String
  pub b64decode : String → Option String
  pub b64decode-b64encode : (salt : String) → b64decode (b64encode salt) ≡ some salt
  pub is_space : ℕ → Bool
  pub before : String → String → Bool

-- The vault file: its content is what `json.loads` gives.
pub data Disk : Type 0 where
  absent unreadable garbage : Disk
  holds : Json → Disk

pub record KeyParameters : Type 0 where
  pub salt : String
  pub iterations : ℤ

pub record Loaded : Type 0 where
  pub state : Fields
  pub params : KeyParameters

abbrev pub vault_file_version : ℕ
vault_file_version = 1

-- `version == 1`, which holds of 1, True and 1.0
unfoldable pub is_version : Option Json → Bool
is_version (some (int (pos n))) = n == vault_file_version
is_version (some (bool b)) = b
is_version (some (float t)) = str_eq t "1.0"
is_version _ = false

-- `value if isinstance(value, int)`
abbrev pub as_int : Option Json → Option ℤ
as_int (some (int n)) = some n
as_int (some (bool true)) = some (pos 1)
as_int (some (bool false)) = some (pos 0)
as_int _ = none

-- setdefault, and the test that follows it
unfoldable pub default_credentials : Fields → Option Json → Result Error Fields
default_credentials state none = ok (put "credentials" (obj end) state)
default_credentials state (some (obj d)) = ok state
default_credentials state (some _) = err configuration

unfoldable pub key_parameters : Option String → Option ℤ → Result Error KeyParameters
key_parameters (some salt) (some n) = ok (record { salt = salt; iterations = n })
key_parameters _ _ = err configuration

-- _credentials_dict
unfoldable pub credentials_of : Option Json → Fields
credentials_of (some (obj d)) = d
credentials_of _ = end

module _ (lib : Library) where
  abbrev decoded : KeyParameters → Option String → Result Error KeyParameters
  decoded p none = err configuration
  decoded p (some salt) = ok (record p { salt = salt })

  unfoldable pub check_state : Fields → Result Error Loaded
  check_state state =
      if is_version (get "version" state)
      then (key_parameters (as_str (get "salt" state)) (as_int (get "iterations" state)) >>= λ p.
          decoded p (lib.b64decode p.salt) >>= λ q.
          default_credentials state (get "credentials" state) >>= λ s.
          ok (record { state = s; params = q }))
      else err configuration

  -- _load_state_or_none
  unfoldable pub load_state : Disk → Result Error (Option Loaded)
  unfolding check_state
  load_state absent = ok none
  load_state unreadable = err configuration
  load_state garbage = err configuration
  load_state (holds (obj state)) = check_state state >>= λ l. ok (some l)
  load_state (holds _) = err configuration

  -- `json.dumps(..., sort_keys=True)`, read back
  unfoldable pub insert_field : String → Json → Fields → Fields
  insert_field k v end = field k v end
  insert_field k v (field j w rest) =
      if str_eq k j || lib.before k j
      then field k v (field j w rest)
      else field j w (insert_field k v rest)

  unfoldable mutual
    unfolding insert_field

    pub sorted : Json → Json
    sorted (arr items) = arr (sorted_items items)
    sorted (obj d) = obj (sorted_fields d)
    sorted v = v

    pub sorted_items : Items → Items
    sorted_items nil = nil
    sorted_items (cons v rest) = cons (sorted v) (sorted_items rest)

    pub sorted_fields : Fields → Fields
    sorted_fields end = end
    sorted_fields (field k v rest) = insert_field k (sorted v) (sorted_fields rest)

  abbrev pub sorted_option : Option Json → Option Json
  sorted_option none = none
  sorted_option (some v) = some (sorted v)

  get-insert_field :
      (j k : String) (v : Json) (d : Fields)
      → get j (insert_field k v d) ≡ (if str_eq k j then some v else get j d)
  unfolding get insert_field
  get-insert_field j k v end = refl
  get-insert_field j k v (field i w rest) =
      ground (arith, eq_iff k j, eq_iff i j, eq_iff k i, get-insert_field j k v rest)

  pub get-sorted_fields :
      (j : String) (d : Fields) → get j (sorted_fields d) ≡ sorted_option (get j d)
  unfolding get sorted_fields
  get-sorted_fields j end = refl
  get-sorted_fields j (field k v rest) =
      ground (arith, get-insert_field j k (sorted v) (sorted_fields rest), get-sorted_fields j rest)
