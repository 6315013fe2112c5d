-- ===== src/Vault/Revocation.antt =====
-- `revoke` of src/tename/vault/service.py.
use tename.Prelude.{
  ◌≡◌, refl, ap, sym, ◌∙◌, Bool, true, false, Option, none, some, String, str_eq, eq_iff, ok, err,
  ◌>>=◌, if◌then◌else◌, arith, Option-cases, Result-cases, inl, inr,
}
use text.Mathlib.TextPositions.{eq_refl}
use tename.Json.{Fields, obj, end, field, get, put, get-put}
use tename.Vault.Files.{
  credential_not_found, Library, KeyParameters, Loaded, credentials_of, load_state,
}
use tename.Vault.Service.{
  Vault, Io, written, refused, failed, required, remove, validate_name, derive_key, write_state,
  open_token, retrieve, revoke, revoke_in,
}
use tename.Vault.Rounds.{wrote, retrieve-wrote}

get-remove :
    (name j : String) (d : Fields)
    → get j (remove name d) ≡ (if str_eq name j then none else get j d)
unfolding get remove
get-remove name j end = ground (arith)
get-remove name j (field k v rest) =
    ground (arith, eq_iff name j, eq_iff k j, eq_iff k name, get-remove name j rest)

module _ (lib : Library) (name : String) (v v' : Vault) (gone : Bool) where
  abbrev creds_of : Loaded → Fields
  creds_of l = credentials_of (get "credentials" l.state)

  -- What `retrieve` finds in a loaded vault.
  retrieve_loaded :
      (j : String) (o : Option Loaded)
      → load_state lib v.disk ≡ ok o
      → retrieve lib j v ≡ (
          validate_name lib j >>= λ _. required o >>= λ l.
          open_token lib (derive_key lib v.passphrase l.params) (get j (creds_of l)))
  unfolding retrieve
  retrieve_loaded j o h = rw h refl

  abbrev Revoked : Type 0
  Revoked =
      (retrieve lib name v' ≡ err credential_not_found)
      × ((j : String) → str_eq name j ≡ false → retrieve lib j v' ≡ retrieve lib j v)

  written_removed :
      (io : Io) (state : Fields) (params : KeyParameters)
      → write_state lib io state params true v ≡ (v', ok gone)
      → v' ≡ wrote lib state params v
  unfolding write_state
  written_removed written state params h = cc
  written_removed refused state params h = cc
  written_removed failed state params h = cc

  module _ (valid : validate_name lib name ≡ ok tt) where
    revoked_absent : load_state lib v.disk ≡ ok none → v' ≡ v → Revoked
    revoked_absent loaded same = (
      rw same (retrieve_loaded name none loaded ∙ rw valid refl),
      λ j other. ap (retrieve lib j) same,
    )

    module _ (l : Loaded) (loaded : load_state lib v.disk ≡ ok (some l)) where
      revoked_missing : get name (creds_of l) ≡ none → v' ≡ v → Revoked
      unfolding open_token
      revoked_missing missing same = (
        rw same (retrieve_loaded name (some l) loaded ∙ rw valid (rw missing refl)),
        λ j other. ap (retrieve lib j) same,
      )

      abbrev left : Fields
      left = remove name (creds_of l)

      retrieved :
          v' ≡ wrote lib (put "credentials" (obj left) l.state) l.params v
          → (j : String)
          → retrieve lib j v' ≡ (
              validate_name lib j >>= λ _.
              open_token lib (derive_key lib v.passphrase l.params) (get j left))
      retrieved same j =
          ap (retrieve lib j) same
          ∙ retrieve-wrote lib j (put "credentials" (obj left) l.state) left l.params v
              (get-put "credentials" "credentials" (obj left) l.state)

      revoked_present : v' ≡ wrote lib (put "credentials" (obj left) l.state) l.params v → Revoked
      unfolding open_token
      revoked_present same = (
        retrieved same name
            ∙ rw valid (rw (get-remove name name (creds_of l)) (rw (eq_refl name) refl)),
        λ j other.
            retrieved same j
            ∙ rw (get-remove name j (creds_of l))
                (rw other (sym (retrieve_loaded j (some l) loaded))),
      )

      revoked_loaded :
          (io : Io) → revoke_in lib io name (get name (creds_of l)) l v ≡ (v', ok gone) → Revoked
      revoked_loaded io h = elim (Option-cases (get name (creds_of l))) [
        | inl missing ↦ revoked_missing missing (cc (rw missing at h))
        | inr (token, present) ↦ revoked_present (written_removed io _ _ (rw present at h))
      ]

    revoked_option :
        (io : Io) (o : Option Loaded)
        → load_state lib v.disk ≡ ok o
        → revoke lib io name v ≡ (v', ok gone)
        → Revoked
    unfolding revoke
    revoked_option io none loaded h =
        revoked_absent loaded (cc (rw (loaded, revoke) at (rw (valid, revoke) at h)))
    revoked_option io (some l) loaded h =
        revoked_loaded l loaded io (rw (loaded, revoke) at (rw (valid, revoke) at h))

  -- After a `revoke` that raises nothing, whether it found the credential or not, the name is not
  -- found, and what is retrieved under the other names has not changed.
  pub retrieve-revoke :
      (io : Io)
      → revoke lib io name v ≡ (v', ok gone)
      → (retrieve lib name v' ≡ err credential_not_found)
        × ((j : String) → str_eq name j ≡ false → retrieve lib j v' ≡ retrieve lib j v)
  unfolding revoke
  retrieve-revoke io h = elim (Result-cases (validate_name lib name)) [
    | inr (e, bad) ↦ absurd (cc (rw (bad, revoke) at h))
    | inl (u, valid) ↦ elim (Result-cases (load_state lib v.disk)) [
      | inr (e, bad) ↦ absurd (cc (rw (bad, revoke) at (rw (valid, revoke) at h)))
      | inl (o, loaded) ↦ revoked_option valid io o loaded h
    ]
  ]
