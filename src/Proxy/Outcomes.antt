-- ===== src/Proxy/Outcomes.antt =====
-- What `execute` of src/tename/proxy/service.py hands to a tool, and when it raises.
use tename.Prelude.{
  ◌≡◌, refl, ap, sym, subst, ◌∙◌, Bool, true, Option, none, some, List, [], ◌∷◌, String, str_eq,
  eq_iff, any, Result, ok, err, bind_ok, bind_err, if◌then◌else◌, arith, Option-cases, Result-cases,
  inl, inr,
}
use package.text.Mathlib.TextPositions.{eq_refl}
use tename.Json.{Fields, get, as_str}
use tename.Vault.Files.{
  Error, vault_error, locked, credential_not_found, configuration, os_error, value_error,
  attribute_error,
}
use tename.Proxy.Registry.{
  Raw, result, text, dict, other, raises, Credentials, ProxyTool, Registry, get_proxy_tool,
}
use tename.Proxy.Service.{
  Texts, credential_lookup, uncaught, lookup_failure, set_credential, caught, resolve_all,
  resolve_credentials, run_tool, execute, Failure, Escaped, vault, dumps_error, content_or,
  normalize_result,
}

-- credentials.get(name)
unfoldable pub credential : String → Credentials → Option String
credential name [] = none
credential name ((n, v) ∷ rest) = if str_eq n name then some v else credential name rest

credential-set_credential :
    (n name value : String) (creds : Credentials)
    → credential n (set_credential name value creds)
      ≡ (if str_eq name n then some value else credential n creds)
unfolding credential set_credential
credential-set_credential n name value [] = refl
credential-set_credential n name value ((m, v) ∷ rest) =
    ground
      (arith, eq_iff name n, eq_iff m n, eq_iff m name, credential-set_credential n name value rest)

abbrev pub is_declared : List String → String → Bool
is_declared names n = any (λ m. str_eq m n) names

abbrev pub value_of : Result Error String → Option String
value_of (ok v) = some v
value_of (err e) = none

-- An error that `execute` lets through.
abbrev pub IsUncaught : Error → Type 0
IsUncaught os_error = Unit
IsUncaught value_error = Unit
IsUncaught attribute_error = Unit
IsUncaught _ = ⊥

module _ (texts : Texts) (retrieve : String → Result Error String) (tool : String) where
  caught_ok : (n v : String) (r : Result Error String) → caught texts tool n r ≡ ok v → r ≡ ok v
  caught_ok n v (ok w) h = cc
  caught_ok n v (err e) h = cc

  caught_uncaught :
      (n : String) (e : Error) (r : Result Error String)
      → caught texts tool n r ≡ err (uncaught e)
      → (r ≡ err e) × IsUncaught e
  unfolding lookup_failure
  caught_uncaught n e (ok w) h = cc
  caught_uncaught n e (err vault_error) h = cc
  caught_uncaught n e (err locked) h = cc
  caught_uncaught n e (err credential_not_found) h = cc
  caught_uncaught n e (err configuration) h = cc
  caught_uncaught n e (err os_error) h =
      let same : os_error ≡ e = cc h in (ap err same, subst IsUncaught same tt)
  caught_uncaught n e (err value_error) h =
      let same : value_error ≡ e = cc h in (ap err same, subst IsUncaught same tt)
  caught_uncaught n e (err attribute_error) h =
      let same : attribute_error ≡ e = cc h in (ap err same, subst IsUncaught same tt)

  resolve_all_lem :
      (names : List String) (out creds : Credentials) (n : String)
      → resolve_all texts retrieve tool names out ≡ ok creds
      → credential n creds
        ≡ (if is_declared names n then value_of (retrieve n) else credential n out)
  unfolding resolve_all
  resolve_all_lem [] out creds n h = ap (credential n) (cc h)
  resolve_all_lem (m ∷ ms) out creds n h =
      let first = bind_ok (caught texts tool m (retrieve m)) _ creds h in
      let found : retrieve m ≡ ok first.0 = caught_ok m first.0 (retrieve m) first.1 in
      let rest = resolve_all_lem ms (set_credential m first.0 out) creds n first.2 in
      let same : str_eq m n ≡ true → value_of (retrieve n) ≡ some first.0 =
        λ e. ap value_of (ap retrieve (sym ((eq_iff m n).0 e)) ∙ found) in
      rest ∙ ground (arith, same, credential-set_credential n m first.0 out)

  resolve_all_uncaught :
      (names : List String) (out : Credentials) (e : Error)
      → resolve_all texts retrieve tool names out ≡ err (uncaught e)
      → (n : String) × (is_declared names n ≡ true) × (retrieve n ≡ err e) × IsUncaught e
  unfolding resolve_all
  resolve_all_uncaught [] out e h = cc
  resolve_all_uncaught (m ∷ ms) out e h = elim (Result-cases (caught texts tool m (retrieve m))) [
    | inl (v, fine) ↦
        let rest = resolve_all_uncaught ms (set_credential m v out) e (rw fine at h) in
        (rest.0, ground (arith, rest.1), rest.2, rest.3)
    | inr (f, bad) ↦
        let same : f ≡ uncaught e = cc (rw bad at h) in
        let failed = caught_uncaught m e (retrieve m) (bad ∙ ap err same) in
        (m, rw (eq_refl m) refl, failed.0, failed.1)
  ]

module _ (texts : Texts) (tool : ProxyTool) where
  resolve_named :
      (retrieve : String → Result Error String) (creds : Credentials) (names : List String)
      → tool.credential_names ≡ names
      → resolve_credentials texts (some retrieve) tool ≡ ok creds
      → (n : String)
      → credential n creds ≡ (if is_declared names n then value_of (retrieve n) else none)
  unfolding resolve_credentials credential
  resolve_named retrieve creds [] same h n =
      let no_creds : [] ≡ creds = cc (rw same at h) in ap (credential n) (sym no_creds)
  resolve_named retrieve creds (m ∷ ms) same h n =
      resolve_all_lem texts retrieve tool.name (m ∷ ms) [] creds n (rw same at h)

  resolve_uncaught :
      (vault_of : Option (String → Result Error String)) (e : Error) (names : List String)
      → tool.credential_names ≡ names
      → resolve_credentials texts vault_of tool ≡ err (uncaught e)
      → (retrieve : String → Result Error String) × (vault_of ≡ some retrieve)
        × (n : String) × (is_declared names n ≡ true)
        × (retrieve n ≡ err e)
        × IsUncaught e
  unfolding resolve_credentials
  resolve_uncaught vault_of e [] same h = cc (rw same at h)
  resolve_uncaught none e (m ∷ ms) same h = cc (rw same at h)
  resolve_uncaught (some retrieve) e (m ∷ ms) same h =
      let found = resolve_all_uncaught texts retrieve tool.name (m ∷ ms) [] e (rw same at h) in
      (retrieve, refl, found.0, found.1, found.2, found.3)

-- The declared credentials, each of which the vault holds.
resolve_all-ok :
    (texts : Texts) (retrieve : String → Result Error String) (tool : String) (names : List String)
    (out : Credentials)
    → ((n : String) → is_declared names n ≡ true → (v : String) × (retrieve n ≡ ok v))
    → (creds : Credentials) × (resolve_all texts retrieve tool names out ≡ ok creds)
unfolding resolve_all
resolve_all-ok texts retrieve tool [] out held = (out, refl)
resolve_all-ok texts retrieve tool (m ∷ ms) out held =
    let found = held m (rw (eq_refl m) refl) in
    let rest =
      resolve_all-ok texts retrieve tool ms (set_credential m found.0 out)
        (λ n declared. held n (ground (arith, declared))) in
    (rest.0, rw found.1 rest.1)

resolve_named-ok :
    (texts : Texts) (retrieve : String → Result Error String) (tool : ProxyTool)
    (names : List String)
    → tool.credential_names ≡ names
    → ((n : String) → is_declared names n ≡ true → (v : String) × (retrieve n ≡ ok v))
    → (creds : Credentials) × (resolve_credentials texts (some retrieve) tool ≡ ok creds)
unfolding resolve_credentials
resolve_named-ok texts retrieve tool [] same held = ([], rw same refl)
resolve_named-ok texts retrieve tool (m ∷ ms) same held =
    let all = resolve_all-ok texts retrieve tool.name (m ∷ ms) [] held in (all.0, rw same all.1)

-- Where a tool is registered under the name and the vault holds each credential that it declares,
-- `execute` calls its function on the input and on the values that the vault holds of these
-- credentials, and on no other credential, and gives what becomes of the result.
pub execute_hands :
    (texts : Texts) (retrieve : String → Result Error String) (registry : Registry) (name : String)
    (tool : ProxyTool) (input : Fields)
    → get_proxy_tool name registry ≡ some tool
    → ((n : String)
        → is_declared tool.credential_names n ≡ true
        → (v : String) × (retrieve n ≡ ok v))
    → (creds : Credentials) × ((n : String)
        → credential n creds
          ≡ (if is_declared tool.credential_names n then value_of (retrieve n) else none))
      × (execute texts (some retrieve) registry name input
          ≡ normalize_result texts tool.name (tool.fn input creds))
unfolding execute
execute_hands texts retrieve registry name tool input found held =
    let all = resolve_named-ok texts retrieve tool tool.credential_names refl held in
    (
      all.0,
      λ n. resolve_named texts tool retrieve all.0 tool.credential_names refl all.1 n,
      rw (found, execute) (rw all.1 refl),
    )

-- How `execute` comes to raise: an error of the vault that is no VaultError, for a credential that
-- the tool declares; or a tool that returns a dictionary without a text as its content which
-- `json.dumps` refuses.
pub data Escapes (texts : Texts) (vault_of : Option (String → Result Error String))
    (tool : ProxyTool) (input : Fields) : Escaped → Type 0 where
  of_vault :
      (retrieve : String → Result Error String) (n : String) (e : Error)
      → vault_of ≡ some retrieve
      → is_declared tool.credential_names n ≡ true
      → retrieve n ≡ err e
      → IsUncaught e
      → Escapes texts vault_of tool input (vault e)
  of_dumps :
      (creds : Credentials) (d : Fields)
      → resolve_credentials texts vault_of tool ≡ ok creds
      → tool.fn input creds ≡ dict d
      → as_str (get "content" d) ≡ none
      → texts.dumps d ≡ none
      → Escapes texts vault_of tool input dumps_error

content_or_err :
    (texts : Texts) (dumped content : Option String) (e : Escaped)
    → content_or texts dumped content ≡ err e
    → (e ≡ dumps_error) × (dumped ≡ none) × (content ≡ none)
content_or_err texts dumped (some s) e h = absurd (cc h)
content_or_err texts (some d) none e h = absurd (cc h)
content_or_err texts none none e h = (cc h, refl, refl)

module _ (texts : Texts) (vault_of : Option (String → Result Error String)) (tool : ProxyTool)
    (input : Fields) where
  normalize-Escapes :
      (creds : Credentials) (raw : Raw) (e : Escaped)
      → resolve_credentials texts vault_of tool ≡ ok creds
      → tool.fn input creds ≡ raw
      → normalize_result texts tool.name raw ≡ err e
      → Escapes texts vault_of tool input e
  unfolding normalize_result
  normalize-Escapes creds (result r) e fine gave h = absurd (cc h)
  normalize-Escapes creds (text s) e fine gave h = absurd (cc h)
  normalize-Escapes creds (other t) e fine gave h = absurd (cc h)
  normalize-Escapes creds (raises t m) e fine gave h = absurd (cc h)
  normalize-Escapes creds (dict d) e fine gave h =
      elim (bind_err (content_or texts (texts.dumps d) (as_str (get "content" d))) _ e h) [
        | inl refused ↦
            let facts = content_or_err texts (texts.dumps d) (as_str (get "content" d)) e refused in
            subst (Escapes texts vault_of tool input) (sym facts.0)
              (of_dumps creds d fine gave facts.2 facts.1)
        | inr (content, dumped, after) ↦ absurd (cc after)
      ]

  run_tool-Escapes :
      (r : Result Failure Credentials) (e : Escaped)
      → resolve_credentials texts vault_of tool ≡ r
      → run_tool texts tool input r ≡ err e
      → Escapes texts vault_of tool input e
  run_tool-Escapes (ok creds) e fine h = normalize-Escapes creds (tool.fn input creds) e fine refl h
  run_tool-Escapes (err (credential_lookup m)) e bad h = absurd (cc h)
  run_tool-Escapes (err (uncaught f)) e bad h =
      let same : vault f ≡ e = cc h in
      let parts = resolve_uncaught texts tool vault_of f tool.credential_names refl bad in
      subst (Escapes texts vault_of tool input) same
        (of_vault parts.0 parts.2 f parts.1 parts.3 parts.4 parts.5)

-- `execute` raises only for a registered tool, and only an error of the vault that is no VaultError,
-- for a credential that the tool declares, or the error of `json.dumps` on a dictionary without a text
-- as its content; all else is a result: tools that are not registered, credentials that are missing,
-- no vault, a wrong passphrase, and a tool that raises.
pub execute_raises :
    (texts : Texts) (vault_of : Option (String → Result Error String)) (registry : Registry)
    (name : String) (input : Fields) (e : Escaped)
    → execute texts vault_of registry name input ≡ err e
    → (tool : ProxyTool) × (get_proxy_tool name registry ≡ some tool)
      × Escapes texts vault_of tool input e
unfolding execute
execute_raises texts vault_of registry name input e h =
    elim (Option-cases (get_proxy_tool name registry)) [
      | inl absent ↦ absurd (cc (rw (absent, execute) at h))
      | inr (tool, found) ↦ (
        tool,
        found,
        run_tool-Escapes texts vault_of tool input (resolve_credentials texts vault_of tool) e refl
            (rw (found, execute) at h),
      )
    ]
