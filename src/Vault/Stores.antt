-- ===== src/Vault/Stores.antt =====
-- `store`, `retrieve` and `revoke` of src/tename/vault/service.py on one vault.
use tename.Prelude.{
  ℕ, ◌≡◌, refl, ap, sym, ◌∙◌, false, Option, none, some, String, str_eq, ok, ◌>>=◌, bind_ok,
  Result-cases, inl, inr,
}
use tename.Json.{Json, Fields, str, obj, get, put, get-put}
use tename.Vault.Files.{Library, KeyParameters, Loaded, credentials_of, load_state}
use tename.Vault.Service.{
  Vault, Io, written, refused, failed, validate_name, derive_key, decrypt_value, or_init,
  write_state, add_credential, seal, store, open_token, retrieve,
}
use text.Mathlib.TextPositions.{eq_refl}
use tename.Vault.Rounds.{wrote, retrieve-wrote}

module _ (lib : Library) where
  abbrev creds_of : Loaded → Fields
  creds_of l = credentials_of (get "credentials" l.state)

  -- What a successful `store` has done.
  record Stores (salt : String) (seed : ℕ) (name value : String) (v v' : Vault) : Type 0 where
    pub old : Option Loaded
    pub key : String
    pub valid : validate_name lib name ≡ ok tt
    pub loaded : load_state lib v.disk ≡ ok old
    pub derived : derive_key lib v.passphrase (or_init lib salt old).params ≡ ok key
    pub new :
        v'
        ≡ wrote lib
            (add_credential lib key seed name value (or_init lib salt old))
            (or_init lib salt old).params
            v

  module _ (salt : String) (seed : ℕ) (name value : String) (v v' : Vault) where
    written_new :
        (io : Io) (state : Fields) (params : KeyParameters)
        → write_state lib io state params (tt {0}) v ≡ (v', ok tt)
        → v' ≡ wrote lib state params v
    unfolding write_state
    written_new written state params h = cc
    written_new refused state params h = cc
    written_new failed state params h = cc

    seal-Stores :
        (io : Io) (s : Fields × KeyParameters)
        → seal lib salt seed name value v ≡ ok s
        → write_state lib io s.0 s.1 (tt {0}) v ≡ (v', ok tt)
        → Stores salt seed name value v v'
    unfolding seal
    seal-Stores io s sealed wrote_it =
        let first = bind_ok (validate_name lib name) _ s sealed in
        let second = bind_ok (load_state lib v.disk) _ s first.2 in
        let third =
          bind_ok (derive_key lib v.passphrase (or_init lib salt second.0).params) _ s second.2 in
        let same : s ≡ (
          add_credential lib third.0 seed name value (or_init lib salt second.0),
          (or_init lib salt second.0).params,
        ) =
          cc third.2 in
        record {
          old = second.0;
          key = third.0;
          valid = first.1;
          loaded = second.1;
          derived = third.1;
          new = written_new io s.0 s.1 wrote_it ∙ ap (λ x. wrote lib x.0 x.1 v) same;
        }

    store-Stores :
        (io : Io)
        → store lib salt seed io name value v ≡ (v', ok tt)
        → Stores salt seed name value v v'
    unfolding store
    store-Stores io h = elim (Result-cases (seal lib salt seed name value v)) [
      | inl (s, sealed) ↦ seal-Stores io s sealed (rw (sealed, store) at h)
      | inr (e, bad) ↦ absurd (cc (rw (bad, store) at h))
    ]

    module _ (s : Stores salt seed name value v v') where
      abbrev base : Loaded
      base = or_init lib salt s.old

      abbrev token : Json
      token = str (lib.encrypt seed s.key value)

      retrieved :
          (j : String)
          → retrieve lib j v' ≡ (
              validate_name lib j >>= λ _.
              open_token lib
                (derive_key lib v.passphrase base.params)
                (get j (put name token (creds_of base))))
      retrieved j =
          ap (retrieve lib j) s.new
          ∙ retrieve-wrote lib j (add_credential lib s.key seed name value base)
              (put name token (creds_of base)) base.params v
              (unfold add_credential in
                get-put "credentials" "credentials" (obj (put name token (creds_of base)))
                  base.state)

      retrieved_new : retrieve lib name v' ≡ ok value
      unfolding open_token decrypt_value
      retrieved_new =
          retrieved name
          ∙ rw s.valid (
              rw (get-put name name token (creds_of base))
                (rw (eq_refl name) (rw s.derived (rw (lib.decrypt-encrypt seed s.key value) refl))))

      before :
          (o : Option Loaded) (j : String)
          → load_state lib v.disk ≡ ok o
          → retrieve lib j v ≡ (
              validate_name lib j >>= λ _.
              open_token lib
                (derive_key lib v.passphrase (or_init lib salt o).params)
                (get j (creds_of (or_init lib salt o))))
      unfolding retrieve open_token or_init credentials_of get
      before none j h = rw h refl
      before (some l) j h = rw h refl

      retrieved_old : (j : String) → str_eq name j ≡ false → retrieve lib j v' ≡ retrieve lib j v
      retrieved_old j other =
          retrieved j
          ∙ rw (get-put name j token (creds_of base)) (rw other refl)
          ∙ sym (before s.old j s.loaded)

    -- A credential that was stored is retrieved, and what is retrieved under the other names has not
    -- changed, the errors included.
    pub retrieve-store :
        (io : Io)
        → store lib salt seed io name value v ≡ (v', ok tt)
        → (retrieve lib name v' ≡ ok value)
          × ((j : String) → str_eq name j ≡ false → retrieve lib j v' ≡ retrieve lib j v)
    retrieve-store io h = (retrieved_new (store-Stores io h), retrieved_old (store-Stores io h))
