-- ===== src/Vault/Rotation.antt =====
-- `change_passphrase` of src/tename/vault/service.py.
use tename.Prelude.{
  ℕ, suc, ◌≡◌, refl, ap, sym, ◌∙◌, Option, none, some, List, [], ◌∷◌, String, str_eq, Result, ok,
  ◌>>=◌, bind_ok, Bool-cases, Result-cases, inl, inr,
}
use tename.Json.{
  Json, Fields, null, bool, int, float, str, arr, obj, end, field, get, put, get-put, is_empty,
}
use tename.Vault.Files.{Error, Library, KeyParameters, Loaded, credentials_of, load_state}
use tename.Vault.Service.{
  Vault, Io, written, refused, failed, required, validate_name, derive_key, decrypt_value,
  write_state, open_token, retrieve, decrypt_all, encrypt_all, decrypt_vault, new_params,
  change_passphrase,
}
use tename.Vault.Rounds.{wrote, retrieve-wrote}

module _ (lib : Library) where
  open_decrypted :
      (key : String) (v : Json) (p : String)
      → decrypt_value lib key v ≡ ok p
      → open_token lib (ok key) (some v) ≡ ok p
  unfolding open_token decrypt_value
  open_decrypted key null p h = cc
  open_decrypted key (str s) p h = h
  open_decrypted key (bool b) p h = h
  open_decrypted key (int n) p h = h
  open_decrypted key (float t) p h = h
  open_decrypted key (arr items) p h = h
  open_decrypted key (obj d) p h = h

  open_encrypted :
      (key : String) (seed : ℕ) (p : String)
      → open_token lib (ok key) (some (str (lib.encrypt seed key p))) ≡ ok p
  unfolding open_token decrypt_value
  open_encrypted key seed p = rw (lib.decrypt-encrypt seed key p) refl

  open_missing : (r q : Result Error String) → open_token lib r none ≡ open_token lib q none
  unfolding open_token
  open_missing r q = refl

  -- Under each name there is the same text as before.
  open_token-encrypt_all :
      (old new : String) (seed : ℕ) (creds : Fields) (ps : List (String × String)) (name : String)
      → decrypt_all lib old creds ≡ ok ps
      → open_token lib (ok new) (get name (encrypt_all lib new seed ps))
        ≡ open_token lib (ok old) (get name creds)
  unfolding decrypt_all encrypt_all get
  open_token-encrypt_all old new seed end ps name h =
      let same : ps ≡ [] = cc h in rw same (open_missing (ok new) (ok old))
  open_token-encrypt_all old new seed (field k v rest) ps name h =
      let first = bind_ok (decrypt_value lib old v) _ ps h in
      let second = bind_ok (decrypt_all lib old rest) _ ps first.2 in
      let same : ps ≡ (k, first.0) ∷ second.0 = cc second.2 in
      rw same (elim (Bool-cases (str_eq k name)) [
        | inl here ↦
            rw here (open_encrypted new seed first.0 ∙ sym (open_decrypted old v first.0 first.1))
        | inr other ↦
            rw other (open_token-encrypt_all old new (suc seed) rest second.0 name second.1)
      ])

  abbrev creds_of : Loaded → Fields
  creds_of l = credentials_of (get "credentials" l.state)

  module _ (salt : String) (seed : ℕ) (new : String) (v v' : Vault) where
    abbrev fresh : KeyParameters
    fresh = new_params lib salt

    -- What a successful rotation has done.
    record Rotates : Type 0 where
      pub old : Loaded
      pub old_key : String
      pub new_key : String
      pub texts : List (String × String)
      pub loaded : load_state lib v.disk ≡ ok (some old)
      pub derived : derive_key lib v.passphrase old.params ≡ ok old_key
      pub decrypted : decrypt_all lib old_key (creds_of old) ≡ ok texts
      pub renewed : derive_key lib (some new) fresh ≡ ok new_key
      pub result :
          v'
          ≡ wrote lib
              (put "credentials" (obj (encrypt_all lib new_key seed texts)) old.state)
              fresh
              (record v { passphrase = some new })

    module _ (r : Rotates) (name : String) where
      retrieved_before : retrieve lib name v ≡ (
          validate_name lib name >>= λ _. open_token lib (ok r.old_key) (get name (creds_of r.old)))
      unfolding retrieve
      retrieved_before = rw r.loaded (rw r.derived refl)

      retrieved_after : retrieve lib name v' ≡ retrieve lib name v
      retrieved_after =
          ap (retrieve lib name) r.result
          ∙ retrieve-wrote lib name
              (put "credentials" (obj (encrypt_all lib r.new_key seed r.texts)) r.old.state)
              (encrypt_all lib r.new_key seed r.texts) fresh (record v { passphrase = some new })
              (get-put "credentials" "credentials" (obj (encrypt_all lib r.new_key seed r.texts))
                r.old.state)
          ∙ rw r.renewed (
              rw
                (open_token-encrypt_all r.old_key r.new_key seed (creds_of r.old) r.texts name
                  r.decrypted)
                refl)
          ∙ sym retrieved_before

    written_result :
        (io : Io) (state : Fields) (params : KeyParameters) (w : Vault)
        → write_state lib io state params (tt {0}) w ≡ (v', ok tt)
        → v' ≡ wrote lib state params w
    unfolding write_state
    written_result written state params w h = cc
    written_result refused state params w h = cc
    written_result failed state params w h = cc

    required-some : (o : Option Loaded) (l : Loaded) → required o ≡ ok l → o ≡ some l
    required-some none l h = cc
    required-some (some m) l h = cc

    rotation :
        (io : Io) (s : Fields × List (String × String)) (key : String)
        → decrypt_vault lib v ≡ ok s
        → derive_key lib (some new) fresh ≡ ok key
        → write_state lib io
            (put "credentials" (obj (encrypt_all lib key seed s.1)) s.0)
            fresh
            (tt {0})
            (record v { passphrase = some new })
          ≡ (v', ok tt)
        → Rotates
    unfolding decrypt_vault
    rotation io s key opened renewed wrote_it =
        let first = bind_ok (load_state lib v.disk) _ s opened in
        let second = bind_ok (required first.0) _ s first.2 in
        let third = bind_ok (derive_key lib v.passphrase second.0.params) _ s second.2 in
        let fourth = bind_ok (decrypt_all lib third.0 (creds_of second.0)) _ s third.2 in
        let same : s ≡ (second.0.state, fourth.0) = cc fourth.2 in
        record {
          old = second.0;
          old_key = third.0;
          new_key = key;
          texts = fourth.0;
          loaded = first.1 ∙ ap ok (required-some first.0 second.0 second.1);
          derived = third.1;
          decrypted = fourth.1;
          renewed = renewed;
          result =
              written_result io _ fresh _ wrote_it
              ∙ ap
                  (λ x.
                    wrote lib (put "credentials" (obj (encrypt_all lib key seed x.1)) x.0) fresh
                      (record v { passphrase = some new }))
                  same;
        }

    change_passphrase-Rotates :
        (io : Io) → change_passphrase lib salt seed io new v ≡ (v', ok tt) → Rotates
    unfolding change_passphrase
    change_passphrase-Rotates io h = elim (Bool-cases (is_empty new)) [
      | inl empty ↦ absurd (cc (rw empty at h))
      | inr some_text ↦ elim (Result-cases (decrypt_vault lib v)) [
        | inr (e, bad) ↦ absurd (cc (rw bad at (rw some_text at h)))
        | inl (s, opened) ↦ elim (Result-cases (derive_key lib (some new) fresh)) [
          | inr (e, bad) ↦ absurd (cc (rw bad at (rw opened at (rw some_text at h))))
          | inl (key, renewed) ↦
              rotation io s key opened renewed (rw renewed at (rw opened at (rw some_text at h)))
        ]
      ]
    ]

    -- A change of the passphrase that succeeds changes nothing that is retrieved, under any name.
    pub retrieve-change_passphrase :
        (io : Io)
        → change_passphrase lib salt seed io new v ≡ (v', ok tt)
        → (name : String) → retrieve lib name v' ≡ retrieve lib name v
    retrieve-change_passphrase io h name = retrieved_after (change_passphrase-Rotates io h) name
