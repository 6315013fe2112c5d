-- ===== src/Cli/Credentials.antt =====
-- `tename vault set`, `get` and `remove` one after the other.
use tename.Prelude.{
  ℕ, ◌≡◌, ◌≢◌, refl, ap, Bool, true, false, Option, some, String, str_eq, Result, ok, err,
  Bool-cases, inl, inr,
}
use tename.Json.{Fields, is_empty}
use tename.Vault.Files.{Error, Library, KeyParameters}
use tename.Vault.Service.{
  Vault, Io, written, refused, failed, write_state, seal, store, retrieve, revoke,
}
use tename.Vault.Stores.{retrieve-store}
use tename.Vault.Revocation.{retrieve-revoke}
use tename.Sandbox.Tools.{◌<>◌}
use tename.Cli.VaultCommands.{
  Texts, Terminal, Exit, code, print, print_error, is_vault_error, report, after_store, cmd_set,
  after_revoke, cmd_remove, cmd_get,
}

module _ (lib : Library) (texts : Texts) (name : String) where
  -- How `set` ends: with the credential stored, or with the vault as it was and another exit.
  pub data SetOutcome (value : String) (t : Terminal) : Terminal × Exit → Type 0 where
    stored :
        (t' : Terminal)
        → cmd_get lib texts name t' ≡ (print value t', code 0)
        → ((j : String) → str_eq name j ≡ false → retrieve lib j t'.vault ≡ retrieve lib j t.vault)
        → SetOutcome value t (t', code 0)
    not_stored :
        (t' : Terminal) (e : Exit) → e ≢ code 0 → t'.vault ≡ t.vault → SetOutcome value t (t', e)

  -- A write that raises leaves the vault.
  failed_write :
      (io : Io) (state : Fields) (params : KeyParameters) (v v' : Vault) (e : Error)
      → write_state lib io state params (tt {0}) v ≡ (v', err e)
      → v' ≡ v
  unfolding write_state
  failed_write written state params v v' e h = cc h
  failed_write refused state params v v' e h = cc h
  failed_write failed state params v v' e h = cc h

  failed_store :
      (salt : String) (seed : ℕ) (io : Io) (value : String) (v v' : Vault) (e : Error)
      (sealed : Result Error (Fields × KeyParameters))
      → seal lib salt seed name value v ≡ sealed
      → store lib salt seed io name value v ≡ (v', err e)
      → v' ≡ v
  unfolding store
  failed_store salt seed io value v v' e (err x) s h = cc (rw (s, store) at h)
  failed_store salt seed io value v v' e (ok x) s h =
      failed_write io x.0 x.1 v v' e (rw (s, store) at h)

  report_keeps :
      (value : String) (e : Error) (t t₁ : Terminal)
      → t₁.vault ≡ t.vault
      → SetOutcome value t (report lib texts e t₁)
  unfolding report
  report_keeps value e t t₁ same = elim (Bool-cases (is_vault_error e)) [
    | inl caught ↦ rw caught (not_stored _ _ (λ h. cc h) same)
    | inr through ↦ rw through (not_stored _ _ (λ h. cc h) same)
  ]

  after_store_lem :
      (salt : String) (seed : ℕ) (io : Io) (value : String) (t : Terminal)
      (out : Vault × Result Error (Unit {0}))
      → store lib salt seed io name value t.vault ≡ out
      → SetOutcome value t (after_store lib texts name t out)
  unfolding cmd_get
  after_store_lem salt seed io value t (v, err e) h =
      report_keeps value e t (record t { vault = v })
        (failed_store salt seed io value t.vault v e _ refl h)
  after_store_lem salt seed io value t (v, ok tt) h =
      let kept = retrieve-store lib salt seed name value t.vault v io h in
      stored _ (rw kept.0 refl) kept.1

  -- `set` at the prompt: if it exits with 0, `get` of the name prints the value and exits with 0, and
  -- what is retrieved under other names has not changed; at any other exit the vault has not changed.
  pub cmd_set_lem :
      (salt : String) (seed : ℕ) (io : Io) (value : String) (t : Terminal)
      → SetOutcome value t (cmd_set lib texts salt seed io name (some value) t)
  unfolding cmd_set
  cmd_set_lem salt seed io value t = elim (Bool-cases (is_empty value)) [
    | inl empty ↦ rw empty (not_stored _ _ (λ h. cc h) refl)
    | inr given ↦
        rw given
          (after_store_lem salt seed io value t (store lib salt seed io name value t.vault) refl)
  ]

  report_fails : (e : Error) (t t' : Terminal) → report lib texts e t ≡ (t', code 0) → ⊥
  unfolding report
  report_fails e t t' h = elim (Bool-cases (is_vault_error e)) [
    | inl caught ↦ cc (rw caught at h)
    | inr through ↦ cc (rw through at h)
  ]

  removed :
      (t t' : Terminal) (out : Vault × Result Error Bool)
      → after_revoke lib texts name t out ≡ (t', code 0)
      → out ≡ (t'.vault, ok true)
  removed t t' (v, err e) h = absurd (report_fails e (record t { vault = v }) t' h)
  removed t t' (v, ok false) h = cc h
  removed t t' (v, ok true) h = ap (λ x. (x.0.vault, ok true)) h

  -- After a `remove --yes` that exits with 0, `get` of the name reports that there is none and exits
  -- with 1, and what is retrieved under other names has not changed.
  pub cmd_remove_lem :
      (io : Io) (reply : Option String) (t t' : Terminal)
      → cmd_remove lib texts io name true reply t ≡ (t', code 0)
      → (cmd_get lib texts name t'
          ≡ (print_error ("no credential named " <> texts.repr name) t', code 1))
        × ((j : String) → str_eq name j ≡ false → retrieve lib j t'.vault ≡ retrieve lib j t.vault)
  unfolding cmd_remove cmd_get
  cmd_remove_lem io reply t t' h =
      let gone =
        retrieve-revoke lib name t.vault t'.vault true io
          (removed t t' (revoke lib io name t.vault) h) in
      (rw gone.0 refl, gone.1)
